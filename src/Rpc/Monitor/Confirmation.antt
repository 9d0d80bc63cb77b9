-- ===== src/Rpc/Monitor/Confirmation.antt =====
-- A fault is published only on a second bad reading (src/main/chain/rpc-monitor.ts).
use katacomb_vpn.Prelude.{
  String, refl, ◌≡◌, inl, inr, Option-cases, Bool, true, false, Option, none, some, List, [], ◌∷◌,
  arith,
}
use katacomb_vpn.Rpc.Health.{RpcProbe, RpcState, ok, classify_rpc, is_fault, needs_confirmation}
use katacomb_vpn.Rpc.Monitor.{
  Flight, Monitor, World, Event, start, stop, poll_fires, report_failure, endpoint_changed,
  path_changed, confirm_timer_fires, answer, unprobed_state, initial, step, run, judge, land,
  probe_done,
}

-- How the bad readings in a row, by their endpoints and latest first, change when an answer is read:
-- an answer that finds no probe in flight, or arrives while the tunnel or the kill switch owns the
-- path, is no reading.
abbrev add_answer : Option Flight → Option RpcState → RpcState → List String → List String
add_answer (some _) none ok ls = []
add_answer (some f) none _ ls = f.endpoint ∷ ls
add_answer _ _ _ ls = ls

abbrev add_bad : World → Event → Monitor → List String → List String
add_bad w (answer probe) m ls =
    add_answer m.probe_in_flight (unprobed_state w) (classify_rpc probe) ls
add_bad w _ m ls = ls

-- The endpoints of the bad readings since the last good one, along a run.
unfoldable pub bad_in_a_row : List (World × Event) → Monitor → List String → List String
bad_in_a_row [] m ls = ls
bad_in_a_row ((w, e) ∷ es) m ls = bad_in_a_row es (step w e m) (add_bad w e m ls)

abbrev is_confirming : Option Flight → Bool
is_confirming none = false
is_confirming (some f) = f.confirming

-- At least two readings, the latest of them of this endpoint.
abbrev pub StartsTwice : String → List String → Type 0
StartsTwice e [] = ⊥
StartsTwice e (_ ∷ []) = ⊥
StartsTwice e (a ∷ _ ∷ _) = a ≡ e

abbrev IsFilled : List String → Type 0
IsFilled [] = ⊥
IsFilled (_ ∷ _) = Unit

record IsBacked (ls : List String) (m : Monitor) : Type 0 where
  fault_backed : is_fault m.health.state ≡ true → StartsTwice m.health.endpoint ls
  timer_backed : m.confirm_timer ≡ true → IsFilled ls
  flight_backed : is_confirming m.probe_in_flight ≡ true → IsFilled ls

StartsTwice-IsFilled : (e : String) (ls : List String) → StartsTwice e ls → IsFilled ls
StartsTwice-IsFilled e [] h = h
StartsTwice-IsFilled e (a ∷ ls) h = tt

StartsTwice-again : (e : String) (ls : List String) → IsFilled ls → StartsTwice e (e ∷ ls)
StartsTwice-again e [] h = absurd h
StartsTwice-again e (a ∷ ls) h = refl

-- What a bad reading leaves, held or published.
judge-IsBacked :
    (w : World) (f : Flight) (probe : RpcProbe) (s : RpcState) (m : Monitor) (ls : List String)
    → IsBacked ls m
    → m.probe_in_flight ≡ some f
    → IsBacked
        (add_answer (some f) none s ls)
        (judge s probe f w (record m { probe_in_flight = none }))
unfolding judge needs_confirmation
judge-IsBacked w f probe s m ls b at_f =
    let fb = b.fault_backed in
    let tb = b.timer_backed in
    let gb = b.flight_backed in
    record {
      fault_backed =
          ground
            (arith, StartsTwice-IsFilled m.health.endpoint ls, StartsTwice-again f.endpoint ls);
      timer_backed =
          ground
            (arith, StartsTwice-IsFilled m.health.endpoint ls, StartsTwice-again f.endpoint ls);
      flight_backed = ground arith;
    }

land-IsBacked :
    (w : World) (f : Flight) (probe : RpcProbe) (m : Monitor) (ls : List String)
    → IsBacked ls m
    → m.probe_in_flight ≡ some f
    → IsBacked
        (add_answer (some f) (unprobed_state w) (classify_rpc probe) ls)
        (land f probe w (record m { probe_in_flight = none }))
unfolding land
land-IsBacked w f probe m ls b at_f =
    ground (arith, judge-IsBacked w f probe (classify_rpc probe) m ls b at_f)

answer-IsBacked :
    (w : World) (probe : RpcProbe) (m : Monitor) (ls : List String)
    → IsBacked ls m
    → IsBacked (add_bad w (answer probe) m ls) (probe_done probe w m)
unfolding probe_done
answer-IsBacked w probe m ls b = elim (Option-cases m.probe_in_flight) [
  | inl e ↦ ground arith
  | inr (f, e) ↦ rw (e, probe_done) (land-IsBacked w f probe m ls b e)
]

step-IsBacked :
    (w : World) (e : Event) (m : Monitor) (ls : List String)
    → IsBacked ls m
    → IsBacked (add_bad w e m ls) (step w e m)
unfolding step
step-IsBacked w (answer probe) m ls b = answer-IsBacked w probe m ls b
step-IsBacked w start m ls b = ground arith
step-IsBacked w stop m ls b = ground arith
step-IsBacked w poll_fires m ls b = ground arith
step-IsBacked w report_failure m ls b = ground arith
step-IsBacked w endpoint_changed m ls b = ground arith
step-IsBacked w path_changed m ls b = ground arith
step-IsBacked w confirm_timer_fires m ls b = ground arith

run-IsBacked :
    (es : List (World × Event)) (m : Monitor) (ls : List String)
    → IsBacked ls m
    → IsBacked (bad_in_a_row es m ls) (run es m)
unfolding run bad_in_a_row
run-IsBacked [] m ls b = b
run-IsBacked ((w, e) ∷ es) m ls b =
    run-IsBacked es (step w e m) (add_bad w e m ls) (step-IsBacked w e m ls b)

-- Whatever callers, timers and answers do and in whatever order, the monitor shows an endpoint as
-- down or degraded only after two bad readings in a row, with no good one between them, of which the
-- latest is of the endpoint that is shown; the one before it is of the endpoint configured then.
pub run-fault_backed :
    (es : List (World × Event))
    → is_fault (run es initial).health.state ≡ true
    → StartsTwice (run es initial).health.endpoint (bad_in_a_row es initial [])
unfolding initial
run-fault_backed es h =
    (run-IsBacked es initial [] (record {
      fault_backed = ground arith;
      timer_backed = ground arith;
      flight_backed = ground arith;
    })).fault_backed
      h
