-- ===== src/Connect/Lifecycle/Stale.antt =====
-- After a disconnect the reconnects that were scheduled before it are void (`connectionEpoch` of
-- src/main/ipc-handlers.ts).
use katacomb_vpn.Prelude.{
  ℕ, ◌+◌, ◌≡◌, ◌<◌, ◌⊎◌, Bool, true, false, Option, none, some, List, [], ◌∷◌,
}
use katacomb_vpn.Connect.Lifecycle.{
  Lifecycle, Job, tear_down, connect, reconnect, Stage, bringing_up, settling, Event, step,
}

-- Epochs below a bound: of the timer, of the queued reconnects, and of the bring-up under way. A
-- reconnect is past its test of the epoch when it is settling.
abbrev TimerBelow : ℕ → Option ℕ → Type 0
TimerBelow n none = Unit
TimerBelow n (some e) = e < n

abbrev QueueBelow : ℕ → List Job → Type 0
QueueBelow n [] = Unit
QueueBelow n (reconnect e ∷ q) = (e < n) × QueueBelow n q
QueueBelow n (tear_down ∷ q) = QueueBelow n q
QueueBelow n (connect ∷ q) = QueueBelow n q

abbrev StageBelow : ℕ → Option Stage → Type 0
StageBelow n (some (bringing_up e)) = e < n
StageBelow n (some (settling _)) = ⊥
StageBelow n _ = Unit

abbrev IsBelow : ℕ → Lifecycle → Type 0
IsBelow n s = TimerBelow n s.timer × QueueBelow n s.queue × StageBelow n s.stage

-- Every reconnect is of an older epoch, and none can be scheduled.
abbrev pub IsStale : Lifecycle → Type 0
IsStale s = ((s.intentional ≡ true) ⊎ (s.session ≡ false)) × IsBelow s.epoch s

abbrev is_bringing_up : Option Stage → Bool
is_bringing_up (some (bringing_up _)) = true
is_bringing_up _ = false

-- How often a reconnect is begun along a run.
abbrev begins : Bool → Bool → ℕ
begins false true = 1
begins _ _ = 0

unfoldable pub reconnects_begun : List Event → Lifecycle → ℕ
reconnects_begun [] s = 0
reconnects_begun (e ∷ es) s =
    begins (is_bringing_up s.stage) (is_bringing_up (step e s).stage)
    + reconnects_begun es (step e s)
