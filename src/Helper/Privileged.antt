-- ===== src/Helper/Privileged.antt =====
-- `runPrivileged` of src/main/helper/privileged.ts: the daemon where it is there, and `pkexec` where
-- the daemon cannot be reached.
pub mod Once
use katacomb_vpn.Prelude.{
  ℕ, zero, suc, ◌+◌, ◌-◌, ◌*◌, ◌/◌, ◌%◌, ◌≤◌, ◌<◌, ◌≡◌, refl, sym, ap, ◌∙◌, subst, ◌≢◌, ◌↔◌, ◌⊎◌,
  inl, inr, Bool, true, false, not, ◌&&◌, ◌||◌, Option, none, some, List, [], ◌∷◌, ◌++◌, map, arith,
  ltb, leb, ◌==◌, if◌then◌else◌, ltb→lt, lt→ltb, leb→le, le→leb, ==_iff, tests, Bool-cases,
  Option-cases, is_none, is_some, unless_thrown, unless_thrown-ok, Result, ok, err, Result-cases,
  length, length-filter, filter, find, any, all, All, Mem, All-mem, All-of-mem, mem-filter,
  mem-of-filter,
}
use katacomb_vpn.Guard.Text.{
  onto_cut, trim_start, trim_end, before_trimmed, onto_first, join_with, Text, codes, is_empty,
  same_text, one_of, is_space, trim, to_lower, split_at, cut_first, cut_last, starts_with,
  strip_prefix, drop_optional, span, is_digit, is_letter, is_hex, is_number, value_of, between,
  same_text→≡, one_of→Mem, one_of-append,
}
use katacomb_vpn.Helper.Daemon.{
  Response, Rejection, unreachable, Settled, resolved, rejected, Call, Event, daemon_request,
}
use katacomb_vpn.Helper.Requests.{Request, VerbError, run_via_daemon}

-- What the system has and what becomes of a `pkexec` that is run.
pub record System : Type 0 where
  pub daemon_socket : Bool
  pub helper_installed : Bool
  pub pkexec_succeeds : Bool

pub data PrivilegedError : Type 0 where
  of_verb : VerbError → PrivilegedError
  of_daemon : Rejection → PrivilegedError
  helper_missing pkexec_failed : PrivilegedError

-- What a call does: the request that was written to the daemon, whether `pkexec` was run, and how it
-- ended, `none` while the daemon has not settled it.
pub record Done : Type 0 where
  pub sent : Bool
  pub escalated : Bool
  pub ended : Option (Option PrivilegedError)

-- `canEscalatePrivileges`.
abbrev can_escalate_privileges : System → Bool
can_escalate_privileges s = s.daemon_socket || s.helper_installed

-- The path behind the daemon's.
unfoldable pub run_pkexec : System → Bool → Done
run_pkexec s sent =
    if not s.helper_installed
    then record { sent = sent; escalated = false; ended = some (some helper_missing) }
    else record {
      sent = sent;
      escalated = true;
      ended = some (if s.pkexec_succeeds then none else some pkexec_failed);
    }

abbrev pub thrown : Bool → PrivilegedError → Done
thrown sent e = record { sent = sent; escalated = false; ended = some (some e) }

-- The `catch` of a call of the daemon.
unfoldable pub after_daemon : System → Bool → Option Settled → Done
after_daemon s sent none = record { sent = sent; escalated = false; ended = none }
after_daemon s sent (some resolved) = record { sent = sent; escalated = false; ended = some none }
after_daemon s sent (some (rejected unreachable)) = run_pkexec s sent
after_daemon s sent (some (rejected e)) = thrown sent (of_daemon e)

module _ (parse : Text → Option Response) (read_file : Text → Option Text) where
  abbrev pub via_daemon : System → List Event → Result VerbError Request → Done
  via_daemon s es (err e) = thrown false (of_verb e)
  via_daemon s es (ok request) = let c = daemon_request parse es in after_daemon s c.sent c.settled

  -- `runPrivileged`, with the events of the daemon's connection, if there is one.
  abbrev pub run_privileged : System → List Event → List Text → Done
  run_privileged s es args =
      if s.daemon_socket
      then via_daemon s es (run_via_daemon read_file args)
      else run_pkexec s false
