-- ===== src/Helper/Daemon/Settlement.antt =====
-- A call of the daemon is settled once, and counts as unreachable only if nothing was sent.
use katacomb_vpn.Prelude.{
  ◌≡◌, refl, sym, ap, ◌∙◌, ◌≢◌, inl, inr, Bool, true, false, ◌||◌, Option, none, some, List, [],
  ◌∷◌, ◌++◌, arith, if◌then◌else◌, Option-cases, any,
}
use katacomb_vpn.Guard.Text.{Text, cut_first}
use katacomb_vpn.Helper.Daemon.{
  Response, unreachable, timed_out, transport_failed, Settled, rejected, Call, Event, connects,
  data_comes, socket_error, timer_fires, opened, finish, answer_of, read_line, handle, step, run,
  daemon_request,
}

-- The request was sent if and only if there was a connection, and a call that counts as
-- unreachable has sent nothing.
pub record IsHonest (c : Call) : Type 0 where
  pub sent_when_connected : c.sent ≡ c.connected
  pub unreachable_unsent : (c.settled ≡ some (rejected unreachable)) → c.sent ≡ false

abbrev pub is_connection : Event → Bool
is_connection connects = true
is_connection _ = false

-- What the timer makes of a call that nothing else has settled.
abbrev pub outcome_at_timeout : Option Settled → Bool → Settled
outcome_at_timeout (some o) reached = o
outcome_at_timeout none true = rejected timed_out
outcome_at_timeout none false = rejected unreachable

module _ (parse : Text → Option Response) where
  answer_of-reached : (r : Option Response) → answer_of parse r ≢ rejected unreachable
  answer_of-reached none = cc
  answer_of-reached (some r) = ground arith

  finish-IsHonest :
      (o : Settled) (c : Call)
      → IsHonest c
      → (o ≡ rejected unreachable → c.sent ≡ false)
      → IsHonest (finish o c)
  finish-IsHonest o c h n =
      let s = h.sent_when_connected in
      elim (Option-cases c.settled) [
        | inl e ↦ record { sent_when_connected = ground arith; unreachable_unsent = ground arith }
        | inr (p, e) ↦
            let u = h.unreachable_unsent in
            record { sent_when_connected = ground arith; unreachable_unsent = ground arith }
      ]

  read_line-IsHonest :
      (c : Call) (cut : Option (Text × Text)) → IsHonest c → IsHonest (read_line parse c cut)
  read_line-IsHonest c none h = h
  read_line-IsHonest c (some (line, rest)) h =
      finish-IsHonest (answer_of parse (parse line)) c h
        (λ e. absurd (answer_of-reached (parse line) e))

  step-IsHonest : (e : Event) (c : Call) → IsHonest c → IsHonest (step parse e c)
  unfolding step handle
  step-IsHonest connects c h =
      let s = h.sent_when_connected in
      let u = h.unreachable_unsent in
      elim (Option-cases c.settled) [
        | inl n ↦ record { sent_when_connected = ground arith; unreachable_unsent = ground arith }
        | inr (o, n) ↦ record {
          sent_when_connected = ground arith;
          unreachable_unsent = ground arith;
        }
      ]
  step-IsHonest (data_comes chunk) c h =
      read_line-IsHonest (record c { buf = c.buf ++ chunk }) (cut_first 10 (c.buf ++ chunk))
        (record {
          sent_when_connected = h.sent_when_connected;
          unreachable_unsent = h.unreachable_unsent;
        })
  step-IsHonest socket_error c h =
      let s = h.sent_when_connected in
      finish-IsHonest (if c.connected then rejected transport_failed else rejected unreachable) c h
        (ground arith)
  step-IsHonest timer_fires c h =
      let s = h.sent_when_connected in
      finish-IsHonest (if c.connected then rejected timed_out else rejected unreachable) c h
        (ground arith)

  run-IsHonest : (es : List Event) (c : Call) → IsHonest c → IsHonest (run parse es c)
  unfolding run
  run-IsHonest [] c h = h
  run-IsHonest (e ∷ es) c h = run-IsHonest es (step parse e c) (step-IsHonest e c h)

  pub daemon_request-IsHonest : (es : List Event) → IsHonest (daemon_request parse es)
  daemon_request-IsHonest es =
      run-IsHonest es opened
        (record { sent_when_connected = refl; unreachable_unsent = ground arith })

  read_line_settled :
      (c : Call) (cut : Option (Text × Text)) (o : Settled)
      → c.settled ≡ some o
      → (read_line parse c cut).settled ≡ some o
  read_line_settled c none o n = n
  read_line_settled c (some (line, rest)) o n = ground arith

  step_settled :
      (e : Event) (c : Call) (o : Settled) → c.settled ≡ some o → (step parse e c).settled ≡ some o
  unfolding step handle
  step_settled connects c o n = ground arith
  step_settled (data_comes chunk) c o n =
      read_line_settled (record c { buf = c.buf ++ chunk }) (cut_first 10 (c.buf ++ chunk)) o n
  step_settled socket_error c o n = ground arith
  step_settled timer_fires c o n = ground arith

  -- A call that is settled stays settled that way, whatever comes.
  run_settled :
      (es : List Event) (c : Call) (o : Settled)
      → c.settled ≡ some o
      → (run parse es c).settled ≡ some o
  unfolding run
  run_settled [] c o n = n
  run_settled (e ∷ es) c o n = run_settled es (step parse e c) o (step_settled e c o n)

  run-append :
      (es fs : List Event) (c : Call) → run parse (es ++ fs) c ≡ run parse fs (run parse es c)
  unfolding run
  run-append [] fs c = refl
  run-append (e ∷ es) fs c = run-append es fs (step parse e c)

  -- An open call is connected as soon as the socket has.
  read_line-connected :
      (c : Call) (cut : Option (Text × Text)) → (read_line parse c cut).connected ≡ c.connected
  read_line-connected c none = refl
  read_line-connected c (some (line, rest)) = ground arith

  handle-connected :
      (e : Event) (c : Call) (es : List Event)
      → c.settled ≡ none
      → ((step parse e c).connected || any is_connection es)
        ≡ (c.connected || (is_connection e || any is_connection es))
  unfolding step handle
  handle-connected connects c es n = ground arith
  handle-connected (data_comes chunk) c es n =
      ap (λ b. b || any is_connection es)
        (read_line-connected (record c { buf = c.buf ++ chunk }) (cut_first 10 (c.buf ++ chunk)))
  handle-connected socket_error c es n = ground arith
  handle-connected timer_fires c es n = ground arith

  step-connected :
      (e : Event) (c : Call) (es : List Event)
      → (run parse es (step parse e c)).settled ≡ none
      → ((step parse e c).connected || any is_connection es)
        ≡ (c.connected || (is_connection e || any is_connection es))
  unfolding step handle
  step-connected e c es n = elim (Option-cases c.settled) [
    | inl o ↦ handle-connected e c es o
    | inr (o, p) ↦ absurd (cc (sym n ∙ run_settled es (step parse e c) o (step_settled e c o p)))
  ]

  run-connected :
      (es : List Event) (c : Call)
      → (run parse es c).settled ≡ none
      → (run parse es c).connected ≡ (c.connected || any is_connection es)
  unfolding run
  run-connected [] c n = ground arith
  run-connected (e ∷ es) c n = run-connected es (step parse e c) n ∙ step-connected e c es n

  timer_settles :
      (c : Call) (es : List Event)
      → (c.settled ≡ none → c.connected ≡ any is_connection es)
      → (step parse timer_fires c).settled
        ≡ some (outcome_at_timeout c.settled (any is_connection es))
  unfolding step handle
  timer_settles c es h = ground arith

  -- Once the timer has fired the call is settled for good, whatever comes then: with the first
  -- outcome before the timer, if there was one, and else as timed out or, where the socket had not
  -- connected, as unreachable.
  pub daemon_request_settles :
      (es fs : List Event)
      → (daemon_request parse (es ++ (timer_fires ∷ fs))).settled
        ≡ some (outcome_at_timeout (daemon_request parse es).settled (any is_connection es))
  unfolding run
  daemon_request_settles es fs =
      let c = run parse es opened in
      ap (λ d. d.settled) (run-append es (timer_fires ∷ fs) opened)
      ∙ run_settled fs (step parse timer_fires c) _ (timer_settles c es (run-connected es opened))
