-- ===== src/Helper/Tests.antt =====
-- Runs of the privileged calls.
use katacomb_vpn.Prelude.{any, ◌≡◌, refl, true, false, Option, none, some, List, [], ◌∷◌, ◌++◌, ok}
use katacomb_vpn.Guard.Text.{Text, codes}
use katacomb_vpn.Guard.Bypass.{sanitize_bypass_routes, is_allowed_range}
use katacomb_vpn.Helper.Daemon.{
  Response, Event, connects, data_comes, socket_error, timer_fires, daemon_request, run, step,
  handle,
}
use katacomb_vpn.Helper.Daemon.Settlement.{
  is_connection, outcome_at_timeout, daemon_request_settles,
}
use katacomb_vpn.Helper.Requests.{tun_up, request_of, run_via_daemon, tun_args}
use katacomb_vpn.Helper.Requests.RoundTrip.{run_via_daemon-tun_args}
use katacomb_vpn.Helper.Privileged.{System, run_privileged, after_daemon, run_pkexec}
use katacomb_vpn.Helper.Privileged.Once.{IsOnce, run_privileged-IsOnce}

abbrev refusing : Text → Option Response
refusing line = some (record { is_ok = false })

abbrev no_file : Text → Option Text
no_file path = none

abbrev both_doors : System
both_doors = record { daemon_socket = true; helper_installed = true; pkexec_succeeds = true }

-- A daemon that refuses an operation in two pieces of a line.
abbrev refusal : List Event
refusal = connects ∷ data_comes (codes "{") ∷ data_comes (codes "}" ++ (10 ∷ [])) ∷ []

refusal_not_retried :
    (run_privileged refusing no_file both_doors refusal (codes "down" ∷ [])).escalated ≡ false
unfolding request_of after_daemon run_pkexec run step handle
refusal_not_retried = refl

dead_socket_falls_back :
    (run_privileged refusing no_file both_doors (socket_error ∷ []) (codes "down" ∷ [])).escalated
    ≡ true
unfolding request_of after_daemon run_pkexec run step handle
dead_socket_falls_back = refl

run_privileged-IsOnce_example :
    IsOnce (run_privileged refusing no_file both_doors refusal (codes "down" ∷ []))
run_privileged-IsOnce_example =
    run_privileged-IsOnce refusing no_file both_doors refusal (codes "down" ∷ [])

daemon_request_settles_example :
    (daemon_request refusing (refusal ++ (timer_fires ∷ socket_error ∷ []))).settled
    ≡ some
        (outcome_at_timeout (daemon_request refusing refusal).settled (any is_connection refusal))
daemon_request_settles_example = daemon_request_settles refusing refusal (socket_error ∷ [])

abbrev two_routes : List (Option Text)
two_routes = some (codes " 10.0.0.0/8") ∷ none ∷ some (codes "1.2.3.0/24") ∷ []

run_via_daemon-tun_args_example :
    run_via_daemon no_file (
      tun_args
        (codes "127.0.0.1:1080")
        (codes "1.2.3.4")
        (codes "10.0.0.1")
        (codes "eth0")
        (sanitize_bypass_routes two_routes))
    ≡ ok (
        tun_up
          (some (codes "127.0.0.1:1080"))
          (some (codes "1.2.3.4"))
          (some (codes "10.0.0.1"))
          (some (codes "eth0"))
          (codes "10.0.0.0/8" ∷ codes "1.2.3.0/24" ∷ []))
unfolding is_allowed_range
run_via_daemon-tun_args_example =
    run_via_daemon-tun_args no_file (codes "127.0.0.1:1080") (codes "1.2.3.4") (codes "10.0.0.1")
      (codes "eth0") two_routes
