-- ===== src/Connect/Lifecycle/Disconnect.antt =====
-- A disconnect is final: whatever was in flight in src/main/ipc-handlers.ts when it was asked for,
-- no reconnect brings the tunnel back.
use katacomb_vpn.Prelude.{
  ℕ, zero, suc, ◌≡◌, refl, ◌⊎◌, inl, inr, Bool, false, Option, none, some, List, [], ◌∷◌, ◌++◌,
  arith,
}
use katacomb_vpn.Connect.Lifecycle.{
  Lifecycle, Job, tear_down, connect, reconnect, Stage, tearing, connecting, cleaning, idling,
  bringing_up, settling, Circumstances, Event, disconnect_asked, watchdog, connect_asked,
  session_begun, timer_fired, loose_ended, tunnel_lost, core_exited, lock_free, stage_ended,
  perform_disconnect, stand_down_session, attempt_reconnect, take_lock, end_stage, fire, end_loose,
  step, run,
}

-- No connect waits.
abbrev NoConnect : List Job → Type 0
NoConnect [] = Unit
NoConnect (connect ∷ q) = ⊥
NoConnect (tear_down ∷ q) = NoConnect q
NoConnect (reconnect _ ∷ q) = NoConnect q

-- A teardown waits, and no connect behind it.
abbrev EndsDown : List Job → Type 0
EndsDown [] = ⊥
EndsDown (tear_down ∷ q) = EndsDown q ⊎ NoConnect q
EndsDown (connect ∷ q) = EndsDown q
EndsDown (reconnect _ ∷ q) = EndsDown q

-- No stage that may end with a tunnel.
abbrev IsQuiet : Option Stage → Type 0
IsQuiet (some connecting) = ⊥
IsQuiet (some (bringing_up _)) = ⊥
IsQuiet (some (settling _)) = ⊥
IsQuiet _ = Unit

-- The teardown is still to come, or it is over and nothing can bring the tunnel back.
abbrev pub IsOver : Lifecycle → Type 0
IsOver s =
    (EndsDown s.queue ⊎ ((s.stage ≡ some tearing) × NoConnect s.queue))
    ⊎ ((s.session ≡ false) × (s.tunnel_up ≡ false) × NoConnect s.queue × IsQuiet s.stage)

-- What may happen between a disconnect and the next connection that the user asks for.
abbrev pub IsUnasked : Event → Type 0
IsUnasked connect_asked = ⊥
IsUnasked session_begun = ⊥
IsUnasked _ = Unit

abbrev pub AllUnasked : List Event → Type 0
AllUnasked [] = Unit
AllUnasked (e ∷ es) = IsUnasked e × AllUnasked es

NoConnect-tear : (q : List Job) → NoConnect q → NoConnect (q ++ tear_down ∷ [])
NoConnect-tear [] h = tt
NoConnect-tear (tear_down ∷ q) h = NoConnect-tear q h
NoConnect-tear (reconnect e ∷ q) h = NoConnect-tear q h
NoConnect-tear (connect ∷ q) h = absurd h

NoConnect-reconnect : (q : List Job) (e : ℕ) → NoConnect q → NoConnect (q ++ reconnect e ∷ [])
NoConnect-reconnect [] e h = tt
NoConnect-reconnect (tear_down ∷ q) e h = NoConnect-reconnect q e h
NoConnect-reconnect (reconnect n ∷ q) e h = NoConnect-reconnect q e h
NoConnect-reconnect (connect ∷ q) e h = absurd h

EndsDown-tear : (q : List Job) → EndsDown (q ++ tear_down ∷ [])
EndsDown-tear [] = inr tt
EndsDown-tear (tear_down ∷ q) = inl (EndsDown-tear q)
EndsDown-tear (reconnect e ∷ q) = EndsDown-tear q
EndsDown-tear (connect ∷ q) = EndsDown-tear q

EndsDown-reconnect : (q : List Job) (e : ℕ) → EndsDown q → EndsDown (q ++ reconnect e ∷ [])
EndsDown-reconnect [] e h = absurd h
EndsDown-reconnect (tear_down ∷ q) e (inl h) = inl (EndsDown-reconnect q e h)
EndsDown-reconnect (tear_down ∷ q) e (inr h) = inr (NoConnect-reconnect q e h)
EndsDown-reconnect (reconnect n ∷ q) e h = EndsDown-reconnect q e h
EndsDown-reconnect (connect ∷ q) e h = EndsDown-reconnect q e h

disconnect-IsOver : (s : Lifecycle) → IsOver (perform_disconnect s)
unfolding perform_disconnect
disconnect-IsOver s = inl (inl (EndsDown-tear s.queue))

stand_down-IsOver : (s : Lifecycle) → IsOver s → IsOver (stand_down_session s)
unfolding stand_down_session
stand_down-IsOver s h = ground (arith, disconnect-IsOver s)

attempt-IsOver : (c : Circumstances) (s : Lifecycle) → IsOver s → IsOver (attempt_reconnect c s)
unfolding attempt_reconnect
attempt-IsOver c s h = ground (arith, stand_down-IsOver s h)

down-IsOver : (s : Lifecycle) → IsOver s → IsOver (record s { tunnel_up = false })
down-IsOver s h = ground arith

loose-IsOver : (n : ℕ) (s : Lifecycle) → IsOver s → IsOver (end_loose n s)
loose-IsOver zero s h = h
loose-IsOver (suc n) s h = ground arith

fire-IsOver : (o : Option ℕ) (s : Lifecycle) → IsOver s → IsOver (fire o s)
fire-IsOver none s h = h
fire-IsOver (some e) s h =
    ground (arith, EndsDown-reconnect s.queue e, NoConnect-reconnect s.queue e)

lock-IsOver :
    (stage : Option Stage) (q : List Job) (saved : Bool) (s : Lifecycle)
    → s.stage ≡ stage
    → s.queue ≡ q
    → IsOver s
    → IsOver (take_lock stage q saved s)
lock-IsOver (some x) q saved s e f h = h
lock-IsOver none [] saved s e f h = h
lock-IsOver none (tear_down ∷ q) saved s e f h = ground arith
lock-IsOver none (connect ∷ q) saved s e f h = ground arith
lock-IsOver none (reconnect n ∷ q) saved s e f h = ground arith

end-IsOver :
    (stage : Option Stage) (ok : Bool) (c : Circumstances) (s : Lifecycle)
    → s.stage ≡ stage
    → IsOver s
    → IsOver (end_stage stage ok c s)
end-IsOver none ok c s e h = h
end-IsOver (some tearing) ok c s e h = ground arith
end-IsOver (some connecting) ok c s e h = ground arith
end-IsOver (some (bringing_up n)) ok c s e h = ground arith
end-IsOver (some (settling n)) ok c s e h = ground arith
end-IsOver (some idling) ok c s e h = ground arith
end-IsOver (some cleaning) ok c s e h = attempt-IsOver c _ (ground arith)

step-IsOver : (e : Event) (s : Lifecycle) → IsUnasked e → IsOver s → IsOver (step e s)
unfolding step
step-IsOver disconnect_asked s u h = disconnect-IsOver s
step-IsOver watchdog s u h = ground (arith, stand_down-IsOver s h)
step-IsOver connect_asked s u h = absurd u
step-IsOver session_begun s u h = absurd u
step-IsOver timer_fired s u h = fire-IsOver s.timer s h
step-IsOver loose_ended s u h = loose-IsOver s.loose s h
step-IsOver (tunnel_lost c) s u h =
    ground
      (arith, down-IsOver s h, attempt-IsOver c (record s { tunnel_up = false }) (down-IsOver s h))
step-IsOver (core_exited c) s u h =
    ground
      (arith, down-IsOver s h, attempt-IsOver c (record s { tunnel_up = false }) (down-IsOver s h))
step-IsOver (lock_free saved) s u h = lock-IsOver s.stage s.queue saved s refl refl h
step-IsOver (stage_ended ok c) s u h = end-IsOver s.stage ok c s refl h

run-IsOver : (es : List Event) (s : Lifecycle) → AllUnasked es → IsOver s → IsOver (run es s)
run-IsOver [] s u h = h
run-IsOver (e ∷ es) s (u, us) h = run-IsOver es (step e s) us (step-IsOver e s u h)

asked-IsOver : (s : Lifecycle) → IsOver (step disconnect_asked s)
unfolding step
asked-IsOver s = disconnect-IsOver s

-- A disconnect is final. Whatever the state in which it is asked for, a reconnect in the middle of
-- its bring-up and connects in the queue included, and whatever happens until the user asks for
-- another session or connection: the teardown is still to come with no connect behind it, or the
-- session is gone, the tunnel is down and no stage may raise it. So when no job is left, it is down.
pub disconnect-IsOver_after :
    (s : Lifecycle) (es : List Event)
    → AllUnasked es
    → IsOver (run es (step disconnect_asked s))
      × ((run es (step disconnect_asked s)).queue ≡ []
          → (run es (step disconnect_asked s)).stage ≡ none
          → ((run es (step disconnect_asked s)).tunnel_up ≡ false)
            × ((run es (step disconnect_asked s)).session ≡ false))
disconnect-IsOver_after s es u =
    let over = run-IsOver es (step disconnect_asked s) u (asked-IsOver s) in
    (over, λ e f. drained (run es (step disconnect_asked s)) over e f)
  where
    drained :
        (s : Lifecycle)
        → IsOver s
        → s.queue ≡ []
        → s.stage ≡ none
        → (s.tunnel_up ≡ false) × (s.session ≡ false)
    drained s h e f = ground arith
