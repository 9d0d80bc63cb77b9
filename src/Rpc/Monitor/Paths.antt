-- ===== src/Rpc/Monitor/Paths.antt =====
-- What the monitor of src/main/chain/rpc-monitor.ts does while the tunnel or the kill switch owns
-- the path to the chain, and how soon a free path gives a verdict.
use katacomb_vpn.Prelude.{◌≡◌, refl, ◌⊎◌, inl, inr, true, false, none, some, List, [], ◌∷◌, arith}
use katacomb_vpn.Rpc.Health.{RpcProbe, RpcState, classify_rpc, is_fault, needs_confirmation}
use katacomb_vpn.Rpc.Monitor.{
  Flight, Monitor, World, Event, start, stop, poll_fires, report_failure, endpoint_changed,
  path_changed, confirm_timer_fires, answer, unprobed_state, run, step, land, set_health, judge,
  refresh, probe_done, confirm_fires,
}

-- A step shows nothing but the cause, starts no probe and runs no selection.
pub record IsSilent (s : RpcState) (m m' : Monitor) : Type 0 where
  pub shown : (m'.health ≡ m.health) ⊎ (m'.health.state ≡ s)
  pub no_probe : (m'.probe_in_flight ≡ none) ⊎ (m'.probe_in_flight ≡ m.probe_in_flight)
  pub no_selection : m'.selections ≡ m.selections

-- While the tunnel or the kill switch owns the path, no event publishes a grade of the endpoint: the
-- health stays as it was or names the cause, no probe is started and no selection is run.
pub step-IsSilent :
    (w : World) (e : Event) (m : Monitor) (s : RpcState)
    → unprobed_state w ≡ some s
    → IsSilent s m (step w e m)
unfolding step unprobed_state probe_done land set_health
step-IsSilent w (answer probe) m s h = ground arith
step-IsSilent w start m s h = ground arith
step-IsSilent w stop m s h = ground arith
step-IsSilent w poll_fires m s h = ground arith
step-IsSilent w report_failure m s h = ground arith
step-IsSilent w endpoint_changed m s h = ground arith
step-IsSilent w path_changed m s h = ground arith
step-IsSilent w confirm_timer_fires m s h = ground arith

-- The four events of a poll whose reading has to be confirmed.
abbrev pub two_bad_answers : World → RpcProbe → RpcProbe → List (World × Event)
two_bad_answers w first second =
    (w, poll_fires) ∷ (w, answer first) ∷ (w, confirm_timer_fires) ∷ (w, answer second) ∷ []

poll_starts :
    (w : World) (m : Monitor)
    → m.probe_in_flight ≡ none
    → m.poll_timer ≡ true
    → unprobed_state w ≡ none
    → step w poll_fires m ≡ record m {
      probe_in_flight = some (record { endpoint = w.rpc_endpoint; confirming = false });
    }
unfolding step refresh
poll_starts w m idle polling free = rw (polling, idle, free)

-- A bad reading is published, or held with the confirm timer set.
judge_fault :
    (s : RpcState) (w : World) (f : Flight) (probe : RpcProbe) (m : Monitor)
    → is_fault s ≡ true
    → m.probe_in_flight ≡ none
    → ((judge s probe f w m).probe_in_flight ≡ none)
      × ((is_fault (judge s probe f w m).health.state ≡ true)
            × ((judge s probe f w m).health.endpoint ≡ f.endpoint)
            × ((judge s probe f w m).confirm_timer ≡ false)
          ⊎ ((judge s probe f w m).confirm_timer ≡ true))
unfolding judge needs_confirmation
judge_fault s w f probe m bad idle = ground arith

judge_confirming :
    (s : RpcState) (w : World) (f : Flight) (probe : RpcProbe) (m : Monitor)
    → is_fault s ≡ true
    → f.confirming ≡ true
    → (is_fault (judge s probe f w m).health.state ≡ true)
      × ((judge s probe f w m).health.endpoint ≡ f.endpoint)
unfolding judge
judge_confirming s w f probe m bad c = ground arith

answer-lands :
    (w : World) (m : Monitor) (f : Flight) (probe : RpcProbe)
    → m.probe_in_flight ≡ some f
    → unprobed_state w ≡ none
    → step w (answer probe) m
      ≡ judge (classify_rpc probe) probe f w (record m { probe_in_flight = none })
unfolding step probe_done land
answer-lands w m f probe e free = rw (e, probe_done) (rw (free, land) refl)

confirm_starts :
    (w : World) (m : Monitor)
    → m.probe_in_flight ≡ none
    → m.confirm_timer ≡ true
    → unprobed_state w ≡ none
    → step w confirm_timer_fires m ≡ record m {
      confirm_timer = false;
      probe_in_flight = some (record { endpoint = w.rpc_endpoint; confirming = true });
    }
unfolding step confirm_fires refresh
confirm_starts w m idle set free = simp set (simp idle (simp free))

-- The configured endpoint is shown, and as faulty.
abbrev pub IsNamed : World → Monitor → Type 0
IsNamed w m = (is_fault m.health.state ≡ true) × (m.health.endpoint ≡ w.rpc_endpoint)

-- A held reading: the confirm timer starts the second probe, whose bad answer is published.
confirms :
    (w : World) (m : Monitor) (second : RpcProbe)
    → m.probe_in_flight ≡ none
    → m.confirm_timer ≡ true
    → unprobed_state w ≡ none
    → is_fault (classify_rpc second) ≡ true
    → IsNamed w (step w (answer second) (step w confirm_timer_fires m))
confirms w m second idle set free bad =
    let f : Flight = record { endpoint = w.rpc_endpoint; confirming = true } in
    let m' : Monitor = record m { confirm_timer = false; probe_in_flight = some f } in
    rw (confirm_starts w m idle set free) (
      rw (answer-lands w m' f second refl free) (
        judge_confirming (classify_rpc second) w f second (record m' { probe_in_flight = none }) bad
          refl))

-- An accusation already made: without a timer and a flight the two events change nothing.
stays :
    (w : World) (m : Monitor) (second : RpcProbe)
    → m.probe_in_flight ≡ none
    → m.confirm_timer ≡ false
    → step w (answer second) (step w confirm_timer_fires m) ≡ m
unfolding step confirm_fires probe_done
stays w m second idle unset = simp (unset, idle, probe_done)

after_first :
    (w : World) (m : Monitor) (second : RpcProbe)
    → unprobed_state w ≡ none
    → is_fault (classify_rpc second) ≡ true
    → m.probe_in_flight ≡ none
    → (is_fault m.health.state ≡ true)
        × (m.health.endpoint ≡ w.rpc_endpoint)
        × (m.confirm_timer ≡ false)
      ⊎ (m.confirm_timer ≡ true)
    → IsNamed w (step w (answer second) (step w confirm_timer_fires m))
after_first w m second free bad idle (inl (fault, named, unset)) =
    rw (stays w m second idle unset) (fault, named)
after_first w m second free bad idle (inr set) = confirms w m second idle set free bad

-- An endpoint that keeps answering badly is named within one poll: from any state with the poll
-- timer running and no probe in flight, over a free path, the poll, its bad answer, the confirming
-- probe that it schedules and that probe's bad answer leave this endpoint shown as faulty.
pub two_bad_answers-is_fault :
    (w : World) (m : Monitor) (first second : RpcProbe)
    → m.probe_in_flight ≡ none
    → m.poll_timer ≡ true
    → unprobed_state w ≡ none
    → is_fault (classify_rpc first) ≡ true
    → is_fault (classify_rpc second) ≡ true
    → IsNamed w (run (two_bad_answers w first second) m)
unfolding run
two_bad_answers-is_fault w m first second idle polling free bad bad' =
    let f : Flight = record { endpoint = w.rpc_endpoint; confirming = false } in
    let m' : Monitor = record m { probe_in_flight = some f } in
    rw (poll_starts w m idle polling free) (
      rw (answer-lands w m' f first refl free) (
        let (quiet, held) =
          judge_fault (classify_rpc first) w f first (record m' { probe_in_flight = none }) bad
            refl in
        after_first w _ second free bad' quiet held))
