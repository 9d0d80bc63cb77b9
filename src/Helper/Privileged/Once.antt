-- ===== src/Helper/Privileged/Once.antt =====
-- A privileged operation is run once at most.
use katacomb_vpn.Prelude.{
  if_both, ◌≡◌, refl, false, ◌&&◌, Option, none, some, List, arith, Result, ok, err,
}
use katacomb_vpn.Guard.Text.{Text}
use katacomb_vpn.Helper.Daemon.{
  Response, unreachable, timed_out, malformed_response, op_failed, transport_failed, Settled,
  resolved, rejected, Call, Event, daemon_request,
}
use katacomb_vpn.Helper.Daemon.Settlement.{IsHonest, daemon_request-IsHonest}
use katacomb_vpn.Helper.Requests.{Request, VerbError, run_via_daemon}
use katacomb_vpn.Helper.Privileged.{
  System, Done, run_pkexec, after_daemon, via_daemon, run_privileged,
}

-- Not both through the daemon and through `pkexec`.
abbrev pub IsOnce : Done → Type 0
IsOnce d = (d.sent && d.escalated) ≡ false

run_pkexec-IsOnce : (s : System) → IsOnce (run_pkexec s false)
unfolding run_pkexec
run_pkexec-IsOnce s = ground arith

after_daemon-IsOnce :
    (s : System) (c : Call) (o : Option Settled)
    → c.settled ≡ o
    → IsHonest c
    → IsOnce (after_daemon s c.sent o)
unfolding after_daemon
after_daemon-IsOnce s c none e h = ground arith
after_daemon-IsOnce s c (some resolved) e h = ground arith
after_daemon-IsOnce s c (some (rejected unreachable)) e h =
    rw (h.unreachable_unsent e) (run_pkexec-IsOnce s)
after_daemon-IsOnce s c (some (rejected timed_out)) e h = ground arith
after_daemon-IsOnce s c (some (rejected malformed_response)) e h = ground arith
after_daemon-IsOnce s c (some (rejected op_failed)) e h = ground arith
after_daemon-IsOnce s c (some (rejected transport_failed)) e h = ground arith

module _ (parse : Text → Option Response) (read_file : Text → Option Text) where
  via_daemon-IsOnce :
      (s : System) (es : List Event) (r : Result VerbError Request)
      → IsOnce (via_daemon parse read_file s es r)
  via_daemon-IsOnce s es (err e) = refl
  via_daemon-IsOnce s es (ok request) =
      after_daemon-IsOnce s (daemon_request parse es) (daemon_request parse es).settled refl
        (daemon_request-IsHonest parse es)

  -- Whatever happens on the connection, an operation that was sent to the daemon is never run again
  -- through `pkexec`.
  pub run_privileged-IsOnce :
      (s : System) (es : List Event) (args : List Text)
      → IsOnce (run_privileged parse read_file s es args)
  run_privileged-IsOnce s es args =
      if_both IsOnce s.daemon_socket (via_daemon-IsOnce s es (run_via_daemon read_file args))
        (run_pkexec-IsOnce s)
