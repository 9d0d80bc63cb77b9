-- ===== src/Connect/Tests.antt =====
-- Connections at which the theorems about src/main/ipc-handlers.ts are applied.
use katacomb_vpn.Prelude.{
  ℕ, ◌*◌, zero, suc, ◌≤◌, ◌≡◌, refl, String, true, false, none, some, List, [], ◌∷◌, Result, ok,
  err, length,
}
use katacomb_vpn.Connect.Protocol.{v2ray}
use katacomb_vpn.Connect.Refund.{Session, establish_session_or_refund}
use katacomb_vpn.Connect.Refund.Outcome.{
  Settles, RetriesAfter404, sent, establish_session_or_refund-Settles,
}
use katacomb_vpn.Connect.Chain.{Plan, Role, entry, exit, establish_chain_or_refund}
use katacomb_vpn.Connect.Chain.Settlement.{IsSettled, establish_chain_or_refund-IsSettled}
use katacomb_vpn.Connect.Chain.Privacy.{IsPrivate, proxy_after, establish_chain_or_refund-IsPrivate}
use katacomb_vpn.Connect.Firewall.{Firewall, Settings, done, refused, partial}
use katacomb_vpn.Connect.Firewall.Coverage.{
  IsCovered, FirewallOp, connected, reverted, toggled, stood_down, launched, apply_all,
  apply_all-IsCovered,
}
use katacomb_vpn.Connect.Lifecycle.{
  Lifecycle, reconnect, bringing_up, Event, disconnect_asked, timer_fired, lock_free, stage_ended,
  tunnel_lost, retry, decide_reconnect, reconnect_max_attempts, step, run,
}
use katacomb_vpn.Connect.Lifecycle.Disconnect.{IsOver, disconnect-IsOver_after}
use katacomb_vpn.Connect.Lifecycle.Retries.{ladder, ladder-gives_up}

-- A node that does not know the session yet at the first attempt and then accepts it.
abbrev slow_node : katacomb_vpn.Connect.Refund.Answers String
slow_node = record { resolve = ok "https://node:8585"; handshake = late; cancel = true }
  where
    late : String → ℕ → Result katacomb_vpn.Connect.Refund.Failure String
    late url zero =
        err (record { status = some 404; reason = "not found"; policy_rejected = false })
    late url (suc _) = ok "[Interface]"

abbrev a_session : Session
a_session = record { session_id = "7"; node_moniker = "node"; is_deposit = true }

establish_session_or_refund-Settles_example :
    (r : Result katacomb_vpn.Connect.Refund.FailureReport String) × (log : List
      katacomb_vpn.Connect.Refund.Effect)
    × (establish_session_or_refund slow_node a_session none ≡ some (r, log))
    × Settles slow_node a_session r log
    × (length (sent log) ≤ 3)
    × RetriesAfter404 slow_node log
establish_session_or_refund-Settles_example =
    establish_session_or_refund-Settles slow_node a_session none

-- Both hops are bought and the exit's node refuses the handshake; neither session can be cancelled.
abbrev refusing_exit : katacomb_vpn.Connect.Chain.Answers String String
refusing_exit = record {
  buy = bought_id;
  resolve = λ role. ok "https://node:8585";
  handshake = shake;
  start_proxy = λ spec. ok 1080;
  preflight = ok tt;
  eligible = ok tt;
  finalize = λ entry_spec exit_spec. ok "{}";
  cancel = λ id by. false;
}
  where
    bought_id : Role → Result katacomb_vpn.Connect.Chain.Failure String
    bought_id entry = ok "11"
    bought_id exit = ok "12"

    shake : Role → String → String → Result katacomb_vpn.Connect.Chain.Failure String
    shake entry id url = ok "entry spec"
    shake exit id url = err (record { reason = "refused"; policy_rejected = false; hop = none })

abbrev a_plan : Plan
a_plan = record {
  entry_account = "alice";
  exit_account = "bob";
  entry_moniker = "first";
  exit_moniker = "second";
}

establish_chain_or_refund-IsSettled_example :
    IsSettled refusing_exit a_plan
      (establish_chain_or_refund refusing_exit a_plan).0
      (establish_chain_or_refund refusing_exit a_plan).1.log
establish_chain_or_refund-IsSettled_example =
    establish_chain_or_refund-IsSettled refusing_exit a_plan

establish_chain_or_refund-IsPrivate_example :
    IsPrivate (establish_chain_or_refund refusing_exit a_plan).1.log
    × (proxy_after (establish_chain_or_refund refusing_exit a_plan).1.log ≡ none)
    × ((establish_chain_or_refund refusing_exit a_plan).1.proxy ≡ none)
establish_chain_or_refund-IsPrivate_example =
    establish_chain_or_refund-IsPrivate refusing_exit a_plan

-- Nothing installed; the helper's next calls fail half-way, succeed, and fail.
abbrev fresh : Firewall
fresh = record {
  armed = false;
  armed_with = none;
  chain_words = [];
  kill_switch_failed = false;
  teardown_failed = false;
  dns_overridden = false;
  chain = false;
  dns_set = false;
  writable = true;
  replies = partial ∷ done ∷ refused ∷ [];
  calls = 0;
}

abbrev guarded : Settings
guarded = record { kill_switch = true; lan_sharing = false; dns_resolver = none }

abbrev unguarded : Settings
unguarded = record { kill_switch = false; lan_sharing = false; dns_resolver = none }

fresh-IsCovered : IsCovered fresh
fresh-IsCovered = record { chain_marked = λ h. h; dns_marked = λ h. h; on_disk = refl }

abbrev a_history : List FirewallOp
a_history =
    connected v2ray (some "203.0.113.7") guarded
    ∷ stood_down guarded
    ∷ toggled (some v2ray) none true unguarded
    ∷ reverted
    ∷ launched false
    ∷ []

apply_all-IsCovered_example : IsCovered (apply_all a_history fresh)
apply_all-IsCovered_example = apply_all-IsCovered a_history fresh fresh-IsCovered

-- An armed chain that the helper cannot remove.
abbrev stuck : Firewall
stuck = record fresh { armed = true; chain = true; replies = refused ∷ [] }

stuck-IsCovered : IsCovered stuck
stuck-IsCovered = record { chain_marked = λ h. h; dns_marked = λ h. h; on_disk = refl }

-- All is installed and the helper works.
abbrev obedient : Firewall
obedient = record fresh {
  armed = true;
  chain = true;
  dns_overridden = true;
  dns_set = true;
  replies = done ∷ done ∷ [];
}

obedient-IsCovered : IsCovered obedient
obedient-IsCovered = record { chain_marked = λ h. h; dns_marked = λ h. h; on_disk = refl }

abbrev working : Firewall
working = record fresh { replies = done ∷ done ∷ [] }

-- In the middle of the second attempt to reconnect.
abbrev reconnecting : Lifecycle
reconnecting = record {
  epoch = 4;
  intentional = false;
  attempt = 2;
  timer = none;
  session = true;
  tunnel_up = false;
  loose = 0;
  queue = [];
  stage = some (bringing_up 4);
}

-- The bring-up succeeds after the disconnect was asked for, and the jobs run to the end.
abbrev too_late : List Event
too_late =
    stage_ended true circumstances
    ∷ stage_ended true circumstances
    ∷ lock_free true
    ∷ stage_ended true circumstances
    ∷ []
  where
    circumstances : katacomb_vpn.Connect.Lifecycle.Circumstances
    circumstances = record { auto_reconnect = true; spent = false }

disconnect-IsOver_after_example :
    IsOver (run too_late (step disconnect_asked reconnecting))
    × ((run too_late (step disconnect_asked reconnecting)).queue ≡ []
        → (run too_late (step disconnect_asked reconnecting)).stage ≡ none
        → ((run too_late (step disconnect_asked reconnecting)).tunnel_up ≡ false)
          × ((run too_late (step disconnect_asked reconnecting)).session ≡ false))
disconnect-IsOver_after_example =
    disconnect-IsOver_after reconnecting too_late (tt, (tt, (tt, (tt, tt))))

ladder-gives_up_example :
    (waited : ℕ) × (ladder 6 0 reconnect_max_attempts ≡ some (5, waited)) × (waited ≤ 5 * 60000)
ladder-gives_up_example = ladder-gives_up 5 0
