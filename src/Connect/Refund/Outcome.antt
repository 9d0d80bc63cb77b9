-- ===== src/Connect/Refund/Outcome.antt =====
-- A paid session ends in a configuration or in exactly one cancellation of it
-- (src/main/ipc-handlers.ts, `establishSessionOrRefund`).
use katacomb_vpn.Prelude.{
  ℕ, zero, suc, ◌+◌, ◌≤◌, ◌<◌, ◌≡◌, refl, sym, ap, subst, ◌∙◌, ◌⊎◌, inl, inr, String, true, Option,
  none, some, List, [], ◌∷◌, ◌++◌, arith, Result, ok, err, Result-cases, Bool-cases, Mem, length,
}
use katacomb_vpn.Connect.Refund.{
  Failure, Session, FailureReport, Answers, Effect, resolved, handshake_sent, waited, cancel_sent,
  sessions_changed, should_retry_session_handshake, attempts, max_attempts, try_handshake,
  refund_log, conclude, establish_session_or_refund, handshake_retry_max_retries,
}

-- The sessions cancelled, in order.
abbrev pub cancelled : List Effect → List String
cancelled [] = []
cancelled (cancel_sent id ∷ log) = id ∷ cancelled log
cancelled (resolved ∷ log) = cancelled log
cancelled (handshake_sent _ ∷ log) = cancelled log
cancelled (waited ∷ log) = cancelled log
cancelled (sessions_changed ∷ log) = cancelled log

-- The attempts made, in order.
abbrev pub sent : List Effect → List ℕ
sent [] = []
sent (handshake_sent n ∷ log) = n ∷ sent log
sent (cancel_sent _ ∷ log) = sent log
sent (resolved ∷ log) = sent log
sent (waited ∷ log) = sent log
sent (sessions_changed ∷ log) = sent log

cancelled-append : (xs ys : List Effect) → cancelled (xs ++ ys) ≡ cancelled xs ++ cancelled ys
cancelled-append [] ys = refl
cancelled-append (cancel_sent id ∷ xs) ys = ap (λ l. id ∷ l) (cancelled-append xs ys)
cancelled-append (resolved ∷ xs) ys = cancelled-append xs ys
cancelled-append (handshake_sent _ ∷ xs) ys = cancelled-append xs ys
cancelled-append (waited ∷ xs) ys = cancelled-append xs ys
cancelled-append (sessions_changed ∷ xs) ys = cancelled-append xs ys

should_retry→lt :
    (status : Option ℕ) (n : ℕ)
    → should_retry_session_handshake status n ≡ true
    → (status ≡ some 404) × (n < handshake_retry_max_retries)
unfolding should_retry_session_handshake
should_retry→lt none n h = cc
should_retry→lt (some s) n h = ground arith

module _ {Config : Type 0} (a : Answers Config) where
  -- What a run of the attempts may be: it cancels nothing, makes few attempts, and makes another
  -- only after an answer that the session was not found.
  record IsBounded (url : String) (attempt : ℕ) (log : List Effect) : Type 0 where
    pub no_cancel : cancelled log ≡ []
    pub few : length (sent log) + attempt ≤ handshake_retry_max_retries + 1
    pub after_404 :
        (n : ℕ)
        → Mem (suc n) (sent log)
        → (suc n ≡ attempt) ⊎ ((e : Failure) × (a.handshake url n ≡ err e) × (e.status ≡ some 404))

  abbrev Run : String → ℕ → Option (Result Failure Config × List Effect) → Type 0
  Run url attempt o =
      (r : Result Failure Config) × (log : List Effect) × (o ≡ some (r, log))
      × IsBounded url attempt log

  single-IsBounded :
      (url : String) (attempt : ℕ)
      → attempt ≤ handshake_retry_max_retries
      → IsBounded url attempt (handshake_sent attempt ∷ [])
  single-IsBounded url attempt h = record {
    no_cancel = refl;
    few = omega arith;
    after_404 = λ n m. inl (only n m);
  }
    where
      only : (n : ℕ) → Mem (suc n) (attempt ∷ []) → suc n ≡ attempt
      only n (inl e) = e
      only n (inr m) = absurd m

  retried-IsBounded :
      (url : String) (attempt : ℕ) (e : Failure) (log : List Effect)
      → a.handshake url attempt ≡ err e
      → e.status ≡ some 404
      → IsBounded url (attempt + 1) log
      → IsBounded url attempt (handshake_sent attempt ∷ waited ∷ log)
  retried-IsBounded url attempt e log failed at_404 b = record {
    no_cancel = b.no_cancel;
    few = omega (arith, b.few);
    after_404 = λ n m. pick n m;
  }
    where
      shift :
          (n : ℕ)
          → (suc n ≡ attempt + 1)
            ⊎ ((e : Failure) × (a.handshake url n ≡ err e) × (e.status ≡ some 404))
          → (suc n ≡ attempt)
            ⊎ ((e : Failure) × (a.handshake url n ≡ err e) × (e.status ≡ some 404))
      shift n (inl eq) = let same : n ≡ attempt = omega arith in inr (e, rw same failed, at_404)
      shift n (inr found) = inr found

      pick :
          (n : ℕ)
          → Mem (suc n) (attempt ∷ sent log)
          → (suc n ≡ attempt)
            ⊎ ((e : Failure) × (a.handshake url n ≡ err e) × (e.status ≡ some 404))
      pick n (inl eq) = inl eq
      pick n (inr m) = shift n (b.after_404 n m)

  attempts-IsBounded :
      (fuel : ℕ) (url : String) (attempt : ℕ)
      → attempt ≤ handshake_retry_max_retries
      → handshake_retry_max_retries + 1 ≤ fuel + attempt
      → Run url attempt (attempts a fuel url attempt)
  unfolding attempts
  attempts-IsBounded zero url attempt h k = absurd (omega arith)
  attempts-IsBounded (suc fuel) url attempt h k = elim (Result-cases (a.handshake url attempt)) [
    | inl (config, e) ↦ (
      ok config,
      handshake_sent attempt ∷ [],
      rw (e, attempts) refl,
      single-IsBounded url attempt h,
    )
    | inr (f, e) ↦ elim (Bool-cases (should_retry_session_handshake f.status attempt)) [
      | inl again ↦
          let (at_404, more) = should_retry→lt f.status attempt again in
          let (r, log, eq, b) =
            attempts-IsBounded fuel url (attempt + 1) (omega arith) (omega arith) in
          (
            r,
            handshake_sent attempt ∷ waited ∷ log,
            rw (e, attempts) (rw (again, eq) refl),
            retried-IsBounded url attempt f log e at_404 b,
          )
      | inr final ↦ (
        err f,
        handshake_sent attempt ∷ [],
        rw (e, attempts) (rw final refl),
        single-IsBounded url attempt h,
      )
    ]
  ]

  -- A success cancels nothing. A failure cancels the session once, and reports that session and
  -- whether its cancellation was accepted.
  abbrev pub Settles : Session → Result FailureReport Config → List Effect → Type 0
  Settles s (ok config) log = cancelled log ≡ []
  Settles s (err r) log =
      (cancelled log ≡ s.session_id ∷ []) × (r.session_id ≡ s.session_id) × (r.refunded ≡ a.cancel)

  -- An attempt after the first follows an answer 404.
  abbrev pub RetriesAfter404 : List Effect → Type 0
  RetriesAfter404 log =
      (n : ℕ)
      → Mem (suc n) (sent log)
      → (url : String) × (e : Failure) × (a.handshake url n ≡ err e) × (e.status ≡ some 404)

  abbrev IsTried : List Effect → Type 0
  IsTried log = (cancelled log ≡ []) × (length (sent log) ≤ 3) × RetriesAfter404 log

  IsBounded→IsTried : (url : String) (log : List Effect) → IsBounded url 0 log → IsTried log
  IsBounded→IsTried url log b = (b.no_cancel, omega (arith, b.few), λ n m. go n (b.after_404 n m))
    where
      go :
          (n : ℕ)
          → (suc n ≡ 0) ⊎ ((e : Failure) × (a.handshake url n ≡ err e) × (e.status ≡ some 404))
          → (u : String) × (e : Failure) × (a.handshake u n ≡ err e) × (e.status ≡ some 404)
      go n (inl eq) = absurd (omega arith)
      go n (inr (e, failed, at_404)) = (url, e, failed, at_404)

  first_tries : (url : String) → Run url 0 (attempts a max_attempts url 0)
  first_tries url = attempts-IsBounded max_attempts url 0 (omega arith) (omega arith)

  resolved_first :
      (url : String) (r : Result Failure Config) (log : List Effect)
      → a.resolve ≡ ok url
      → attempts a max_attempts url 0 ≡ some (r, log)
      → try_handshake a none ≡ some (r, resolved ∷ log)
  unfolding try_handshake
  resolved_first url r log e eq = simp (e, eq, try_handshake)

  try_handshake-IsTried :
      (remote_url : Option String)
      → (r : Result Failure Config) × (log : List Effect) × (try_handshake a remote_url
          ≡ some (r, log))
        × IsTried log
  unfolding try_handshake
  try_handshake-IsTried (some url) =
      let (r, log, eq, b) = first_tries url in (r, log, eq, IsBounded→IsTried url log b)
  try_handshake-IsTried none = elim (Result-cases a.resolve) [
    | inl (url, e) ↦
        let (r, log, eq, b) = first_tries url in
        (r, resolved ∷ log, resolved_first url r log e eq, IsBounded→IsTried url log b)
    | inr (f, e) ↦
        (err f, resolved ∷ [], rw (e, try_handshake) refl, (refl, omega arith, λ n m. absurd m))
  ]

  refund_once : (id : String) → cancelled (refund_log a id) ≡ id ∷ []
  refund_once id = ground arith

  sent-refund : (id : String) (log : List Effect) → sent (log ++ refund_log a id) ≡ sent log
  sent-refund id [] = ground arith
  sent-refund id (handshake_sent n ∷ log) = ap (λ l. n ∷ l) (sent-refund id log)
  sent-refund id (cancel_sent _ ∷ log) = sent-refund id log
  sent-refund id (resolved ∷ log) = sent-refund id log
  sent-refund id (waited ∷ log) = sent-refund id log
  sent-refund id (sessions_changed ∷ log) = sent-refund id log

  conclude-Settles :
      (s : Session) (r : Result Failure Config) (log : List Effect)
      → cancelled log ≡ []
      → Settles s (conclude a s (r, log)).0 (conclude a s (r, log)).1
  conclude-Settles s (ok config) log h = h
  conclude-Settles s (err f) log h = (
    cancelled-append log (refund_log a s.session_id)
        ∙ (ap (λ l. l ++ cancelled (refund_log a s.session_id)) h ∙ refund_once s.session_id),
    refl,
    refl,
  )

  conclude-sent :
      (s : Session) (r : Result Failure Config) (log : List Effect)
      → sent (conclude a s (r, log)).1 ≡ sent log
  conclude-sent s (ok config) log = refl
  conclude-sent s (err f) log = sent-refund s.session_id log

  -- After a purchase the handshake always comes to an end: within three attempts it has a
  -- configuration, and nothing is cancelled, or it failed for good, and the session just bought is
  -- cancelled exactly once and the report names it and says whether that worked. A further attempt
  -- is made only after an answer 404.
  pub establish_session_or_refund-Settles :
      (s : Session) (remote_url : Option String)
      → (r : Result FailureReport Config) × (log : List Effect) × (establish_session_or_refund a s
            remote_url
          ≡ some (r, log))
        × Settles s r log
        × (length (sent log) ≤ 3)
        × RetriesAfter404 log
  unfolding establish_session_or_refund
  establish_session_or_refund-Settles s remote_url =
      let (r, log, eq, (quiet, few, retries)) = try_handshake-IsTried remote_url in
      let same = conclude-sent s r log in
      (
        (conclude a s (r, log)).0,
        (conclude a s (r, log)).1,
        rw (eq, establish_session_or_refund) refl,
        conclude-Settles s r log quiet,
        subst (λ l. length l ≤ 3) (sym same) few,
        λ n m. retries n (subst (λ l. Mem (suc n) l) same m),
      )
