-- ===== src/Tunnels/Orphans/Reaping.antt =====
-- Which processes `reapOrphanedProxyChildrenIn` of src/main/vpn/proxy-children.ts signals.
use katacomb_vpn.Prelude.{
  ℕ, zero, suc, ◌<◌, ◌≡◌, refl, sym, ap, subst, ◌⊎◌, inl, inr, Bool, true, Option, none, some, List,
  [], ◌∷◌, ◌++◌, arith, ltb→lt, filter, Mem, mem-of-filter,
}
use katacomb_vpn.Tunnels.Orphans.{
  ProxyChildRecord, Entry, not_object, object, StateFile, missing, garbled, holds, parse_entry,
  parse_entries, onto_records, read_proxy_child_records, write_proxy_child_records, Processes,
  is_recorded_proxy_child, Signal, sigterm, sigkill, pending_after, signals_to, Reaped, reap_ours,
  reap_records, reap_orphaned_proxy_children,
}

-- A process that the records name, whose binary is the recorded one and whose words hold the
-- recorded configuration file.
pub record IsOurs (processes : Processes) (f : StateFile) (pid : ℕ) : Type 0 where
  pub core : ProxyChildRecord
  pub named : Mem core (read_proxy_child_records f)
  pub same_pid : core.pid ≡ pid
  pub recorded : is_recorded_proxy_child processes core ≡ true
  pub not_init : 1 < pid

abbrev target_of : Signal → ℕ
target_of (sigterm pid) = pid
target_of (sigkill pid) = pid

mem-pending_after :
    (alive : ℕ → ℕ → Bool) (polls : ℕ) (rs : List ProxyChildRecord) (r : ProxyChildRecord)
    → Mem r (pending_after alive polls rs)
    → Mem r rs
mem-pending_after alive zero rs r m = m
mem-pending_after alive (suc polls) rs r m =
    (mem-of-filter (λ q. alive 0 q.pid) rs
      (mem-pending_after (λ n. alive (suc n)) polls (filter (λ q. alive 0 q.pid) rs) r m)).0

mem-signals_to :
    (signal : ℕ → Signal) (rs : List ProxyChildRecord) (s : Signal)
    → Mem s (signals_to signal rs)
    → (r : ProxyChildRecord) × Mem r rs × (s ≡ signal r.pid)
mem-signals_to signal [] s m = absurd m
mem-signals_to signal (r ∷ rs) s (inl e) = (r, inl refl, e)
mem-signals_to signal (r ∷ rs) s (inr m) =
    let (q, k, e) = mem-signals_to signal rs s m in (q, inr k, e)

mem-append : {A : Type 0} (x : A) (xs ys : List A) → Mem x (xs ++ ys) → Mem x xs ⊎ Mem x ys
mem-append x [] ys m = inr m
mem-append x (z ∷ xs) ys (inl e) = inl (inl e)
mem-append x (z ∷ xs) ys (inr m) = elim (mem-append x xs ys m) [
  | inl k ↦ inl (inr k)
  | inr k ↦ inr k
]

parsed_pid : (e : Entry) (r : ProxyChildRecord) → parse_entry e ≡ some r → 1 < r.pid
unfolding parse_entry
parsed_pid not_object r h = cc
parsed_pid (object none exe config_file) r h = cc
parsed_pid (object (some n) exe config_file) r h = ground (arith, ltb→lt 1 n)

onto_records-pid :
    (e : Entry) (o : Option ProxyChildRecord) (rest : List ProxyChildRecord) (r : ProxyChildRecord)
    → parse_entry e ≡ o
    → (Mem r rest → 1 < r.pid)
    → Mem r (onto_records o rest)
    → 1 < r.pid
onto_records-pid e none rest r h later m = later m
onto_records-pid e (some q) rest r h later (inl s) =
    subst (λ x. 1 < x.pid) (sym s) (parsed_pid e q h)
onto_records-pid e (some q) rest r h later (inr m) = later m

entries-pid : (es : List Entry) (r : ProxyChildRecord) → Mem r (parse_entries es) → 1 < r.pid
entries-pid [] r m = absurd m
entries-pid (e ∷ es) r m =
    onto_records-pid e (parse_entry e) (parse_entries es) r refl (entries-pid es r) m

records-pid :
    (f : StateFile) (r : ProxyChildRecord) → Mem r (read_proxy_child_records f) → 1 < r.pid
records-pid missing r m = absurd m
records-pid garbled r m = absurd m
records-pid (holds es) r m = entries-pid es r m

-- What is said of what a reap did.
abbrev IsCareful : Processes → StateFile → Reaped → Type 0
IsCareful processes f done =
    (s : Signal)
    → Mem s done.signals
    → IsOurs processes f (target_of s) × Mem (sigterm (target_of s)) done.signals

module _ (processes : Processes) (f : StateFile) where
  IsOurs-of :
      (rs : List ProxyChildRecord)
      → ((r : ProxyChildRecord) → Mem r rs → Mem r (read_proxy_child_records f))
      → (r : ProxyChildRecord) → Mem r (filter (is_recorded_proxy_child processes) rs)
      → IsOurs processes f r.pid
  IsOurs-of rs within r m =
      let (k, t) = mem-of-filter (is_recorded_proxy_child processes) rs m in
      record {
        core = r;
        named = within r k;
        same_pid = refl;
        recorded = t;
        not_init = records-pid f r (within r k);
      }

  mem-signals_to_of :
      (rs : List ProxyChildRecord) (r : ProxyChildRecord) (later : List Signal)
      → Mem r rs
      → Mem (sigterm r.pid) (signals_to sigterm rs ++ later)
  mem-signals_to_of [] r later m = absurd m
  mem-signals_to_of (q ∷ rs) r later (inl e) = inl (ap (λ x. sigterm x.pid) e)
  mem-signals_to_of (q ∷ rs) r later (inr m) = inr (mem-signals_to_of rs r later m)

  signalled-IsOurs :
      (alive : ℕ → ℕ → Bool) (polls : ℕ) (rs : List ProxyChildRecord) (s : Signal)
      → ((r : ProxyChildRecord) → Mem r rs → IsOurs processes f r.pid)
      → Mem s (signals_to sigterm rs ++ signals_to sigkill (pending_after alive polls rs))
      → IsOurs processes f (target_of s)
        × Mem
            (sigterm (target_of s))
            (signals_to sigterm rs ++ signals_to sigkill (pending_after alive polls rs))
  signalled-IsOurs alive polls rs s ours m =
      let later = signals_to sigkill (pending_after alive polls rs) in
      elim (mem-append s (signals_to sigterm rs) later m) [
        | inl k ↦
            let (r, n, e) = mem-signals_to sigterm rs s k in
            subst
              (λ t.
                IsOurs processes f (target_of t)
                × Mem (sigterm (target_of t)) (signals_to sigterm rs ++ later))
              (sym e) (ours r n, mem-signals_to_of rs r later n)
        | inr k ↦
            let (r, n, e) = mem-signals_to sigkill (pending_after alive polls rs) s k in
            let n' = mem-pending_after alive polls rs r n in
            subst
              (λ t.
                IsOurs processes f (target_of t)
                × Mem (sigterm (target_of t)) (signals_to sigterm rs ++ later))
              (sym e) (ours r n', mem-signals_to_of rs r later n')
      ]

  reap_ours-IsCareful :
      (alive : ℕ → ℕ → Bool) (polls : ℕ) (rs : List ProxyChildRecord) (g : StateFile)
      → ((r : ProxyChildRecord) → Mem r rs → IsOurs processes f r.pid)
      → IsCareful processes f (reap_ours alive polls rs g)
  unfolding reap_ours
  reap_ours-IsCareful alive polls [] g ours s m = absurd m
  reap_ours-IsCareful alive polls (r ∷ rs) g ours s m =
      signalled-IsOurs alive (suc polls) (r ∷ rs) s ours m

  reap_records-IsCareful :
      (writes : Bool) (alive : ℕ → ℕ → Bool) (polls : ℕ) (rs : List ProxyChildRecord)
      → ((r : ProxyChildRecord) → Mem r rs → Mem r (read_proxy_child_records f))
      → IsCareful processes f (reap_records writes processes alive polls rs f)
  unfolding reap_records
  reap_records-IsCareful writes alive polls [] within s m = absurd m
  reap_records-IsCareful writes alive polls (r ∷ rs) within s m =
      reap_ours-IsCareful alive polls (filter (is_recorded_proxy_child processes) (r ∷ rs))
        (write_proxy_child_records writes [] f) (IsOurs-of (r ∷ rs) within) s m

-- A signal of a reap goes only to a process that the file names, that is not the first one, and whose
-- binary and words are those of the record at that time; one that is killed was asked to end before.
pub reap_orphaned_proxy_children-IsOurs :
    (writes : Bool) (processes : Processes) (alive : ℕ → ℕ → Bool) (polls : ℕ) (f : StateFile)
    (s : Signal)
    → Mem s (reap_orphaned_proxy_children writes processes alive polls f).signals
    → IsOurs processes f (target_of s)
      × Mem
          (sigterm (target_of s))
          (reap_orphaned_proxy_children writes processes alive polls f).signals
reap_orphaned_proxy_children-IsOurs writes processes alive polls f s m =
    reap_records-IsCareful processes f writes alive polls (read_proxy_child_records f) (λ r k. k) s
      m
