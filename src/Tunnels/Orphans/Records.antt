-- ===== src/Tunnels/Orphans/Records.antt =====
-- The records of src/main/vpn/proxy-children.ts while the run lives.
use katacomb_vpn.Prelude.{
  ℕ, ◌<◌, ◌≡◌, refl, ap, ◌∙◌, Bool, true, false, Option, none, some, List, [], ◌∷◌, ◌++◌, map,
  arith, ltb→lt, lt→ltb, ==_iff, filter, All, All-mem, All-of-mem, mem-of-filter,
}
use katacomb_vpn.Guard.Text.{Text, is_empty}
use katacomb_vpn.Tunnels.Orphans.{
  ProxyChildRecord, Entry, StateFile, missing, garbled, holds, parse_entry, parse_entries, entry_of,
  onto_records, read_proxy_child_records, write_proxy_child_records, Process, other_pid,
  track_process, untrack_proxy_child,
}

-- A record that the parser lets through.
abbrev IsSound : ProxyChildRecord → Type 0
IsSound r = (1 < r.pid) × (is_empty r.exe ≡ false) × (is_empty r.config_file ≡ false)

parse_entry-entry_of : (r : ProxyChildRecord) → IsSound r → parse_entry (entry_of r) ≡ some r
unfolding parse_entry
parse_entry-entry_of r (p, e, c) = rw (lt→ltb 1 r.pid p) (rw (e) (rw (c) refl))

parse_entries-map :
    (rs : List ProxyChildRecord) → All IsSound rs → parse_entries (map entry_of rs) ≡ rs
parse_entries-map [] h = refl
parse_entries-map (r ∷ rs) (s, h) =
    rw (parse_entry-entry_of r s) (ap (λ qs. r ∷ qs) (parse_entries-map rs h))

-- What is written is read again, if the file can be written.
read_write :
    (rs : List ProxyChildRecord) (f : StateFile)
    → All IsSound rs
    → read_proxy_child_records (write_proxy_child_records true rs f) ≡ rs
unfolding write_proxy_child_records
read_write [] f h = refl
read_write (r ∷ rs) f h = parse_entries-map (r ∷ rs) h

parse_entry-IsSound : (e : Entry) (r : ProxyChildRecord) → parse_entry e ≡ some r → IsSound r
unfolding parse_entry
parse_entry-IsSound Entry.not_object r h = cc
parse_entry-IsSound (Entry.object none exe config_file) r h = cc
parse_entry-IsSound (Entry.object (some n) none config_file) r h = ground arith
parse_entry-IsSound (Entry.object (some n) (some exe) none) r h = ground arith
parse_entry-IsSound (Entry.object (some n) (some exe) (some config_file)) r h =
    ground (arith, ltb→lt 1 n)

onto_records-IsSound :
    (e : Entry) (o : Option ProxyChildRecord) (rs : List ProxyChildRecord)
    → parse_entry e ≡ o
    → All IsSound rs
    → All IsSound (onto_records o rs)
onto_records-IsSound e none rs p h = h
onto_records-IsSound e (some r) rs p h = (parse_entry-IsSound e r p, h)

parse_entries-IsSound : (es : List Entry) → All IsSound (parse_entries es)
parse_entries-IsSound [] = tt
parse_entries-IsSound (e ∷ es) =
    onto_records-IsSound e (parse_entry e) (parse_entries es) refl (parse_entries-IsSound es)

read-IsSound : (f : StateFile) → All IsSound (read_proxy_child_records f)
read-IsSound missing = tt
read-IsSound garbled = tt
read-IsSound (holds es) = parse_entries-IsSound es

filter-IsSound :
    (p : ProxyChildRecord → Bool) (rs : List ProxyChildRecord)
    → All IsSound rs
    → All IsSound (filter p rs)
filter-IsSound p rs h =
    All-of-mem IsSound (filter p rs) (λ r m. All-mem IsSound rs h (mem-of-filter p rs m).0)

append-IsSound :
    (rs qs : List ProxyChildRecord) → All IsSound rs → All IsSound qs → All IsSound (rs ++ qs)
append-IsSound [] qs h k = k
append-IsSound (r ∷ rs) qs (s, h) k = (s, append-IsSound rs qs h k)

filter_others-append :
    (pid : ℕ) (rs : List ProxyChildRecord) (r : ProxyChildRecord)
    → r.pid ≡ pid
    → filter (other_pid pid) (filter (other_pid pid) rs ++ (r ∷ [])) ≡ filter (other_pid pid) rs
filter_others-append pid [] r e = ground (arith, ==_iff r.pid pid)
filter_others-append pid (q ∷ rs) r e = ground (arith, filter_others-append pid rs r)

track-read :
    (pid : ℕ) (config_file : Text) (p : Process) (f : StateFile)
    → IsSound (record { pid = pid; exe = p.exe_link; config_file = config_file })
    → read_proxy_child_records (track_process true pid config_file (some p) f)
      ≡ filter (other_pid pid) (read_proxy_child_records f)
        ++ (record { pid = pid; exe = p.exe_link; config_file = config_file } ∷ [])
track-read pid config_file p f s =
    let others = filter (other_pid pid) (read_proxy_child_records f) in
    let r : ProxyChildRecord = record { pid = pid; exe = p.exe_link; config_file = config_file } in
    read_write (others ++ (r ∷ [])) f (
      append-IsSound others (r ∷ [])
        (filter-IsSound (other_pid pid) (read_proxy_child_records f) (read-IsSound f)) (s, tt))

-- A core that was tracked stands in the file under its number alone, beside all others; when it
-- exits the file holds those others again, as they were. The file can be written, and the number,
-- the binary and the configuration file are such as a spawn gives.
pub untrack_proxy_child-track_process :
    (pid : ℕ) (config_file : Text) (p : Process) (f : StateFile)
    → IsSound (record { pid = pid; exe = p.exe_link; config_file = config_file })
    → (read_proxy_child_records (track_process true pid config_file (some p) f)
        ≡ filter (other_pid pid) (read_proxy_child_records f)
          ++ (record { pid = pid; exe = p.exe_link; config_file = config_file } ∷ []))
      × (read_proxy_child_records
            (untrack_proxy_child true pid (track_process true pid config_file (some p) f))
          ≡ filter (other_pid pid) (read_proxy_child_records f))
untrack_proxy_child-track_process pid config_file p f s =
    let tracked = track_process true pid config_file (some p) f in
    let read = track-read pid config_file p f s in
    let others = filter (other_pid pid) (read_proxy_child_records f) in
    let r : ProxyChildRecord = record { pid = pid; exe = p.exe_link; config_file = config_file } in
    (
      read,
      read_write (filter (other_pid pid) (read_proxy_child_records tracked)) tracked (
            filter-IsSound (other_pid pid) (read_proxy_child_records tracked)
              (read-IsSound tracked))
          ∙ ap (filter (other_pid pid)) read
          ∙ filter_others-append pid (read_proxy_child_records f) r refl,
    )
