-- ===== src/Connect/Lifecycle.antt =====
-- Connecting, disconnecting and reconnecting by itself, as they interleave in
-- src/main/ipc-handlers.ts (`withConnectionLock`, `performDisconnect`, `standDownSession`,
-- `attemptReconnect`, `teardownToIdle`, the monitors), with `decideReconnect` of
-- src/main/vpn/connect-decisions.ts. A job of the connection lock runs in stages, which end when
-- their calls return; everything else may happen between. That a teardown's calls return is taken
-- from them.
pub mod Disconnect
pub mod Stale
pub mod Retries
use katacomb_vpn.Prelude.{
  ℕ, zero, suc, ◌+◌, ◌*◌, ◌^◌, min, Bool, true, false, not, ◌&&◌, ◌||◌, Option, none, some, List,
  [], ◌∷◌, ◌++◌, ltb, ◌==◌, if◌then◌else◌,
}

pub data AbortReason : Type 0 where
  no_session was_intentional auto_reconnect_off : AbortReason

pub data ReconnectDecision : Type 0 where
  abort : AbortReason → ReconnectDecision
  give_up : ReconnectDecision
  retry : ℕ → ℕ → ReconnectDecision

abbrev pub reconnect_max_attempts : ℕ
reconnect_max_attempts = 5

abbrev pub backoff_delay_ms : ℕ → ℕ
backoff_delay_ms attempt = min (2 ^ attempt * 1000) 60000

unfoldable pub decide_reconnect : ℕ → ℕ → Bool → Bool → Bool → ReconnectDecision
decide_reconnect attempt max_attempts auto_reconnect intentional has_session =
    if not has_session
    then abort no_session
    else if intentional
    then abort was_intentional
    else if not auto_reconnect
    then abort auto_reconnect_off
    else if ltb max_attempts (attempt + 1)
    then give_up
    else retry (attempt + 1) (backoff_delay_ms (attempt + 1))

-- What waits for the lock. A reconnect carries the epoch at which it was scheduled.
pub data Job : Type 0 where
  tear_down connect : Job
  reconnect : ℕ → Job

-- The stage of the job that holds the lock.
pub data Stage : Type 0 where
  tearing connecting cleaning idling : Stage
  bringing_up settling : ℕ → Stage

-- `session` is `activeSessionId !== null`; `timer` is the pending reconnect timer with the epoch
-- that its callback holds; `loose` counts the teardowns that run outside the lock.
pub record Lifecycle : Type 0 where
  pub epoch : ℕ
  pub intentional : Bool
  pub attempt : ℕ
  pub timer : Option ℕ
  pub session : Bool
  pub tunnel_up : Bool
  pub loose : ℕ
  pub queue : List Job
  pub stage : Option Stage

-- The synchronous part of `performDisconnect`, and its job.
unfoldable pub perform_disconnect : Lifecycle → Lifecycle
perform_disconnect s = record s {
  intentional = true;
  epoch = s.epoch + 1;
  timer = none;
  attempt = 0;
  queue = s.queue ++ tear_down ∷ [];
}

unfoldable pub stand_down_session : Lifecycle → Lifecycle
unfolding perform_disconnect
stand_down_session s = if s.session then perform_disconnect s else s

-- `autoReconnect`, and whether the quota is spent or nearly so when the attempts are used up.
pub record Circumstances : Type 0 where
  pub auto_reconnect : Bool
  pub spent : Bool

abbrev act_on : ReconnectDecision → Circumstances → Lifecycle → Lifecycle
act_on (abort auto_reconnect_off) c s = stand_down_session s
act_on (abort _) c s = s
act_on give_up c s =
    if c.spent then stand_down_session s else record s { attempt = 0; loose = s.loose + 1 }
act_on (retry n delay) c s = record s { attempt = n; timer = some s.epoch }

unfoldable pub attempt_reconnect : Circumstances → Lifecycle → Lifecycle
unfolding decide_reconnect stand_down_session
attempt_reconnect c s =
    act_on
      (decide_reconnect s.attempt reconnect_max_attempts c.auto_reconnect s.intentional s.session) c
      s

-- A job gets the lock; `saved` is whether the session's configuration was saved.
abbrev start_job : Job → Bool → Lifecycle → Lifecycle
start_job tear_down saved s = record s { stage = some tearing }
start_job connect saved s =
    if ltb 0 s.attempt || s.tunnel_up then s else record s { stage = some connecting }
start_job (reconnect e) saved s =
    if not (s.epoch == e) || not s.session
    then s
    else if saved
    then record s { stage = some (bringing_up e) }
    else record s { attempt = 0; stage = some idling }

abbrev pub take_lock : Option Stage → List Job → Bool → Lifecycle → Lifecycle
take_lock (some _) q saved s = s
take_lock none [] saved s = s
take_lock none (j ∷ q) saved s = start_job j saved (record s { queue = q })

-- The calls of a stage returned, or failed.
abbrev pub end_stage : Option Stage → Bool → Circumstances → Lifecycle → Lifecycle
end_stage none ok c s = s
end_stage (some tearing) ok c s = record s {
  tunnel_up = false;
  session = false;
  intentional = false;
  stage = none;
}
end_stage (some connecting) ok c s = record s { tunnel_up = ok; stage = none }
end_stage (some (bringing_up e)) ok c s =
    if not ok
    then record s { tunnel_up = true; stage = some cleaning }
    else if s.epoch == e
    then record s { tunnel_up = true; stage = some (settling e) }
    else record s { tunnel_up = true; attempt = 0; stage = some idling }
end_stage (some (settling e)) ok c s =
    if ok then record s { attempt = 0; stage = none } else record s { stage = some cleaning }
end_stage (some cleaning) ok c s =
    attempt_reconnect c (record s { tunnel_up = false; stage = none })
end_stage (some idling) ok c s = record s { tunnel_up = false; stage = none }

-- `tunnel_lost` is the poll that finds the interface gone, `core_exited` the exit of the proxy's
-- process, `watchdog` the stall or the end of the quota, `session_begun` a purchase.
pub data Event : Type 0 where
  disconnect_asked watchdog connect_asked session_begun timer_fired loose_ended : Event
  tunnel_lost core_exited : Circumstances → Event
  lock_free : Bool → Event
  stage_ended : Bool → Circumstances → Event

-- A teardown outside the lock ends.
abbrev pub end_loose : ℕ → Lifecycle → Lifecycle
end_loose zero s = s
end_loose (suc n) s = record s { loose = n; tunnel_up = false }

abbrev pub fire : Option ℕ → Lifecycle → Lifecycle
fire none s = s
fire (some e) s = record s { timer = none; queue = s.queue ++ reconnect e ∷ [] }

unfoldable pub step : Event → Lifecycle → Lifecycle
unfolding perform_disconnect stand_down_session attempt_reconnect
step disconnect_asked s = perform_disconnect s
step watchdog s =
    if s.intentional || (ltb 0 s.attempt || not s.session) then s else stand_down_session s
step connect_asked s = record s { queue = s.queue ++ connect ∷ [] }
step session_begun s = record s { session = true }
step timer_fired s = fire s.timer s
step loose_ended s = end_loose s.loose s
step (tunnel_lost c) s =
    if s.intentional || (ltb 0 s.attempt || not s.session)
    then record s { tunnel_up = false }
    else attempt_reconnect c (record s { tunnel_up = false })
step (core_exited c) s =
    if not s.intentional && s.session
    then attempt_reconnect c (record s { tunnel_up = false })
    else record s { tunnel_up = false }
step (lock_free saved) s = take_lock s.stage s.queue saved s
step (stage_ended ok c) s = end_stage s.stage ok c s

abbrev pub run : List Event → Lifecycle → Lifecycle
run [] s = s
run (e ∷ es) s = run es (step e s)
