-- ===== src/Tunnels/Orphans.antt =====
-- The records of proxy cores that outlive a run (src/main/vpn/proxy-children.ts). `JSON.parse` of the
-- file is a parameter: the file holds what it parses to, and `/proc` is a function of the number of
-- a process.
pub mod Reaping
pub mod Records
mod Tests
use katacomb_vpn.Prelude.{
  ℕ, zero, suc, ◌+◌, ◌-◌, ◌*◌, ◌/◌, ◌%◌, ◌≤◌, ◌<◌, ◌≡◌, refl, sym, ap, ◌∙◌, subst, ◌≢◌, ◌↔◌, ◌⊎◌,
  inl, inr, Bool, true, false, not, ◌&&◌, ◌||◌, Option, none, some, List, [], ◌∷◌, ◌++◌, map, arith,
  ltb, leb, ◌==◌, if◌then◌else◌, ltb→lt, lt→ltb, leb→le, le→leb, ==_iff, tests, Bool-cases,
  Option-cases, is_none, is_some, if_both, unless_thrown, unless_thrown-ok, Result, ok, err,
  Result-cases, length, length-filter, filter, find, any, all, All, Mem, All-mem, All-of-mem,
  mem-filter, mem-of-filter,
}
use katacomb_vpn.Guard.Text.{
  onto_cut, trim_start, trim_end, before_trimmed, onto_first, join_with, Text, codes, is_empty,
  same_text, one_of, is_space, trim, to_lower, split_at, cut_first, cut_last, starts_with,
  strip_prefix, drop_optional, span, is_digit, is_letter, is_hex, is_number, value_of, between,
  same_text→≡, one_of→Mem, one_of-append,
}

pub record ProxyChildRecord : Type 0 where
  pub pid : ℕ
  pub exe : Text
  pub config_file : Text

-- An entry of the parsed file: each field as far as it is an integer or a text.
pub data Entry : Type 0 where
  not_object : Entry
  object : Option ℕ → Option Text → Option Text → Entry

-- The file: missing, one that does not parse or holds no array, or its entries.
pub data StateFile : Type 0 where
  missing garbled : StateFile
  holds : List Entry → StateFile

abbrev is_filled : Option Text → Bool
is_filled none = false
is_filled (some t) = not (is_empty t)

abbrev is_pid : Option ℕ → Bool
is_pid none = false
is_pid (some n) = ltb 1 n

abbrev text_of : Option Text → Text
text_of none = []
text_of (some t) = t

abbrev number_of : Option ℕ → ℕ
number_of none = 0
number_of (some n) = n

-- The tests of one entry.
unfoldable pub parse_entry : Entry → Option ProxyChildRecord
parse_entry not_object = none
parse_entry (object pid exe config_file) =
    if is_pid pid && is_filled exe && is_filled config_file
    then some (record { pid = number_of pid; exe = text_of exe; config_file = text_of config_file })
    else none

abbrev pub onto_records : Option ProxyChildRecord → List ProxyChildRecord → List ProxyChildRecord
onto_records none rs = rs
onto_records (some r) rs = r ∷ rs

abbrev pub parse_entries : List Entry → List ProxyChildRecord
parse_entries [] = []
parse_entries (e ∷ es) = onto_records (parse_entry e) (parse_entries es)

-- `readProxyChildRecords` with `parseProxyChildRecords`.
abbrev pub read_proxy_child_records : StateFile → List ProxyChildRecord
read_proxy_child_records missing = []
read_proxy_child_records garbled = []
read_proxy_child_records (holds es) = parse_entries es

abbrev pub entry_of : ProxyChildRecord → Entry
entry_of r = object (some r.pid) (some r.exe) (some r.config_file)

-- `writeProxyChildRecords`, which succeeds or leaves the file as it was.
unfoldable pub write_proxy_child_records : Bool → List ProxyChildRecord → StateFile → StateFile
write_proxy_child_records false rs f = f
write_proxy_child_records true [] f = missing
write_proxy_child_records true (r ∷ rs) f = holds (map entry_of (r ∷ rs))

-- `/proc/<pid>` where it can be read: the target of `exe`, and the words of `cmdline`.
pub record Process : Type 0 where
  pub exe_link : Text
  pub words : List Text

abbrev pub Processes : Type 0
Processes = ℕ → Option Process

abbrev is_process_of : ProxyChildRecord → Option Process → Bool
is_process_of r none = false
is_process_of r (some p) = same_text p.exe_link r.exe && one_of r.config_file p.words

-- `isRecordedProxyChild`.
abbrev pub is_recorded_proxy_child : Processes → ProxyChildRecord → Bool
is_recorded_proxy_child processes r = is_process_of r (processes r.pid)

abbrev pub other_pid : ℕ → ProxyChildRecord → Bool
other_pid pid r = not (r.pid == pid)

-- `trackProxyChildIn` of a child with a number; one without `/proc` entry is gone already.
abbrev pub track_process : Bool → ℕ → Text → Option Process → StateFile → StateFile
track_process writes pid config_file none f = f
track_process writes pid config_file (some p) f =
    write_proxy_child_records writes
      (filter (other_pid pid) (read_proxy_child_records f)
        ++ (record { pid = pid; exe = p.exe_link; config_file = config_file } ∷ []))
      f

abbrev track_proxy_child : Bool → Processes → ℕ → Text → StateFile → StateFile
track_proxy_child writes processes pid config_file f =
    track_process writes pid config_file (processes pid) f

-- Its handler for the exit of the child.
abbrev pub untrack_proxy_child : Bool → ℕ → StateFile → StateFile
untrack_proxy_child writes pid f =
    write_proxy_child_records writes (filter (other_pid pid) (read_proxy_child_records f)) f

pub data Signal : Type 0 where
  sigterm sigkill : ℕ → Signal

-- The polls before the deadline; the world answers the `n`-th poll by the processes that are alive.
abbrev pub pending_after : (ℕ → ℕ → Bool) → ℕ → List ProxyChildRecord → List ProxyChildRecord
pending_after alive zero pending = pending
pending_after alive (suc polls) pending =
    pending_after (λ n. alive (suc n)) polls (filter (λ r. alive 0 r.pid) pending)

abbrev pub signals_to : (ℕ → Signal) → List ProxyChildRecord → List Signal
signals_to signal rs = map (λ r. signal r.pid) rs

-- What `reapOrphanedProxyChildrenIn` returns, the signals that it sends in their order, and the file
-- behind it.
pub record Reaped : Type 0 where
  pub killed : Bool
  pub signals : List Signal
  pub state_file : StateFile

unfoldable pub reap_ours : (ℕ → ℕ → Bool) → ℕ → List ProxyChildRecord → StateFile → Reaped
reap_ours alive polls [] f = record { killed = false; signals = []; state_file = f }
reap_ours alive polls (r ∷ rs) f = record {
  killed = true;
  signals =
      signals_to sigterm (r ∷ rs) ++ signals_to sigkill (pending_after alive (suc polls) (r ∷ rs));
  state_file = f;
}

unfoldable pub reap_records :
    Bool → Processes → (ℕ → ℕ → Bool) → ℕ → List ProxyChildRecord → StateFile → Reaped
reap_records writes processes alive polls [] f = record {
  killed = false;
  signals = [];
  state_file = f;
}
reap_records writes processes alive polls (r ∷ rs) f =
    reap_ours alive polls (filter (is_recorded_proxy_child processes) (r ∷ rs))
      (write_proxy_child_records writes [] f)

-- `reapOrphanedProxyChildrenIn`, with the number of polls that fit before its deadline.
abbrev pub reap_orphaned_proxy_children : Bool → Processes → (ℕ → ℕ → Bool) → ℕ → StateFile → Reaped
reap_orphaned_proxy_children writes processes alive polls f =
    reap_records writes processes alive polls (read_proxy_child_records f) f
