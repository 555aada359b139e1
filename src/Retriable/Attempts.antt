-- ===== src/Retriable/Attempts.antt =====
-- The retry loop of `Do`: what it sends, when it stops, and that it stops.
use dolly.Prelude.{
  ℕ, zero, suc, ◌+◌, ◌≤◌, ◌<◌, ◌≡◌, refl, ap, sym, ◌∙◌, true, false, none, some, List, [], ◌∷◌, Str,
  length, replicate, arith, leb, Bool-cases, Option-cases, inl, inr,
}
use mathlib.Core.Path.{subst}
use native.Mathlib.Decide.{dec_lt}
use dolly.Slices.{string_contains_one_of}
use dolly.HttpError.{GoError, go_error_text}
use dolly.Retriable.{
  Outcome, replied, failed, CtxState, live, Policy, Verdict, should_retry_factory,
  new_default_policy, should_retry, retry_error, non_retriable_errors, Reader, rewind, advance,
  Attempt, Trace, add_round, do_loop, do_request,
}
use dolly.Retriable.Verdicts.{DefaultRetry, default_policy_iff}

some_eq : {a b : Trace} → some a ≡ some b → a ≡ b
some_eq h = cc

module _ (p : Policy) (transport : ℕ → Attempt) where
  abbrev pub verdict : ℕ → Verdict
  verdict n = should_retry p (transport n).outcome (transport n).ctx n

  -- The pauses asked for in the rounds n, n + 1, …, n + k - 1.
  pub pauses : ℕ → ℕ → List ℕ
  pauses n zero = []
  pauses n (suc k) = (verdict n).sleep ∷ pauses (n + 1) k

  -- The trace of a loop that starts in the round `n` and makes `k` retries.
  pub record RunsTo (bytes : Str) (n k : ℕ) (tr : Trace) : Type 0 where
    pub sent : tr.sent ≡ replicate (suc k) bytes
    pub slept : tr.slept ≡ pauses n k
    pub retried : (i : ℕ) → n ≤ i → i < n + k → (verdict i).retry ≡ true
    pub stopped : (verdict (n + k)).retry ≡ false
    pub result : tr.result ≡ (transport (n + k)).outcome

  RunsTo-stop :
      (bytes : Str) (n : ℕ)
      → (verdict n).retry ≡ false
      → RunsTo bytes n 0 (record { sent = bytes ∷ []; slept = []; result = (transport n).outcome })
  unfolding pauses
  RunsTo-stop bytes n h =
      let e : n + 0 ≡ n = omega arith in
      record {
        sent = refl;
        slept = refl;
        retried = λ i a b. absurd (omega arith);
        stopped = rw e h;
        result = rw e;
      }

  RunsTo-retry :
      (bytes : Str) (n k : ℕ) (tr : Trace)
      → (verdict n).retry ≡ true
      → RunsTo bytes (n + 1) k tr
      → RunsTo bytes n
          (suc k)
          (record tr { sent = bytes ∷ tr.sent; slept = (verdict n).sleep ∷ tr.slept })
  unfolding pauses
  RunsTo-retry bytes n k tr h r =
      let e : n + suc k ≡ n + 1 + k = omega arith in
      record {
        sent = ap (λ s. bytes ∷ s) r.sent;
        slept = ap (λ s. (verdict n).sleep ∷ s) r.slept;
        retried = λ i a b. grind (arith, h, r.retried);
        stopped = rw e r.stopped;
        result = rw e r.result;
      }

  do_loop_stop :
      (fuel n : ℕ) (body : Reader)
      → (verdict n).retry ≡ false
      → do_loop (suc fuel) p transport body n
        ≡ some (record { sent = body.bytes ∷ []; slept = []; result = (transport n).outcome })
  unfolding do_loop
  do_loop_stop fuel n body h = rw h

  do_loop_retry :
      (fuel n : ℕ) (body : Reader)
      → (verdict n).retry ≡ true
      → do_loop (suc fuel) p transport body n
        ≡ add_round body.bytes
            (verdict n).sleep
            (do_loop fuel p transport (advance (transport n).consumed (rewind body)) (n + 1))
  unfolding do_loop
  do_loop_retry fuel n body h = rw h

  do_loop-RunsTo :
      (fuel : ℕ) (body : Reader) (n : ℕ) (tr : Trace)
      → do_loop fuel p transport body n ≡ some tr
      → (k : ℕ) × RunsTo body.bytes n k tr
  unfolding rewind
  do_loop-RunsTo zero body n tr h = unfold do_loop in cc
  do_loop-RunsTo (suc fuel) body n tr h =
      let body' = advance (transport n).consumed (rewind body) in
      elim (Bool-cases (verdict n).retry) [
        | inr no_retry ↦ (
          0,
          subst (RunsTo body.bytes n 0) (some_eq (sym (do_loop_stop fuel n body no_retry) ∙ h))
              (RunsTo-stop body.bytes n no_retry),
        )
        | inl again ↦ elim (Option-cases (do_loop fuel p transport body' (n + 1))) [
          | inl out ↦ absurd (cc (do_loop_retry fuel n body again))
          | inr (rest, found) ↦
              let (k, r) = do_loop-RunsTo fuel body' (n + 1) rest found in
              (
                suc k,
                subst (RunsTo body.bytes n (suc k))
                    (some_eq (
                      ap (add_round body.bytes (verdict n).sleep) (sym found)
                      ∙ sym (do_loop_retry fuel n body again)
                      ∙ h))
                    (RunsTo-retry body.bytes n k rest again r),
              )
        ]
      ]

  -- With `limit` a round from which nothing is retried, `limit + 1` rounds of fuel are enough.
  do_loop_total :
      (limit : ℕ)
      → ((i : ℕ) → limit ≤ i → (verdict i).retry ≡ false)
      → (fuel : ℕ) (body : Reader) (n : ℕ) → limit < n + fuel
      → n ≤ limit
      → (tr : Trace) × (do_loop fuel p transport body n ≡ some tr)
  do_loop_total limit h zero body n e f = absurd (omega arith)
  do_loop_total limit h (suc fuel) body n e f =
      let body' = advance (transport n).consumed (rewind body) in
      elim (Bool-cases (verdict n).retry) [
        | inr no_retry ↦ (_, do_loop_stop fuel n body no_retry)
        | inl again ↦
            let below : n < limit = grind (arith, h n) in
            let (rest, found) =
              do_loop_total limit h fuel body' (n + 1) (omega arith) (omega arith) in
            (_, do_loop_retry fuel n body again ∙ ap (add_round body.bytes (verdict n).sleep) found)
      ]

  -- If nothing is retried from the round `limit` on, there are at most `limit` retries.
  pub at_most :
      (bytes : Str) (limit k : ℕ) (tr : Trace)
      → ((i : ℕ) → limit ≤ i → (verdict i).retry ≡ false)
      → RunsTo bytes 0 k tr
      → k ≤ limit
  at_most bytes limit k tr h r = grind (arith, h limit, r.retried limit)

-- What `Do` returns is the outcome of the first attempt that the policy does not retry: every
-- attempt before it was retried, every attempt was sent the whole body from its start, however much
-- of it the transport had read before, and the pauses are those that the policy asked for.
pub do_request-RunsTo :
    (fuel : ℕ) (p : Policy) (transport : ℕ → Attempt) (body : Str) (tr : Trace)
    → do_request fuel p transport body ≡ some tr
    → (k : ℕ) × RunsTo p transport body 0 k tr
unfolding do_request
do_request-RunsTo fuel p transport body tr h =
    do_loop-RunsTo p transport fuel (record { bytes = body; pos = 0 }) 0 tr h

late_default :
    (o : Outcome) (ctx : CtxState) (n : ℕ)
    → 10 ≤ n
    → (should_retry new_default_policy o ctx n).retry ≡ false
late_default o ctx n h = elim (Bool-cases (should_retry new_default_policy o ctx n).retry) [
  | inr stop ↦ stop
  | inl again ↦ absurd (early o ((default_policy_iff o ctx n).0 again))
]
  where
    early : (o : Outcome) → DefaultRetry o ctx n → ⊥
    early (replied resp) d = ground arith
    early (failed resp err) d = omega arith

length-replicate : (n : ℕ) (s : Str) → length (replicate n s) ≡ n
length-replicate zero s = refl
length-replicate (suc n) s = ap suc (length-replicate n s)

-- Under the default policy `Do` returns whatever the transport does, after at most 11 attempts.
pub default_request_ends :
    (transport : ℕ → Attempt) (body : Str)
    → (tr : Trace) × (do_request 11 new_default_policy transport body ≡ some tr)
      × (length tr.sent ≤ 11)
unfolding do_request
default_request_ends transport body =
    let p = new_default_policy in
    let late = λ (i : ℕ) (h : 10 ≤ i). late_default (transport i).outcome (transport i).ctx i h in
    let (tr, found) =
      do_loop_total p transport 10 late 11 (record { bytes = body; pos = 0 }) 0 (omega arith)
        (omega arith) in
    let (k, r) = do_loop-RunsTo p transport 11 (record { bytes = body; pos = 0 }) 0 tr found in
    let few : k ≤ 10 = at_most p transport body 10 k tr late r in
    (tr, found, rw r.sent (omega (arith, length-replicate (suc k) body)))

abbrev pub failing : (ℕ → GoError) → ℕ → Attempt
failing errs n = record { outcome = failed none (errs n); consumed = 0; ctx = live }

-- The total retry limit does not bound retries of connection errors: if the policy's function for
-- errors is `shouldRetryFactory(limit, …)` and every attempt fails with an error that holds none of
-- the non-retriable texts, then `Do` sends exactly limit + 2 times, whatever `TotalRetryLimit` is.
pub connection_errors_ignore_total :
    (p : Policy) (limit wait : ℕ) (reason : Str) (errs : ℕ → GoError) (body : Str)
    → p.retries 0 ≡ some (should_retry_factory limit wait reason)
    → ((n : ℕ) → string_contains_one_of (go_error_text (errs n)) non_retriable_errors ≡ false)
    → (tr : Trace) × (do_request (limit + 2) p (failing errs) body ≡ some tr)
      × (length tr.sent ≡ limit + 2)
unfolding do_request
connection_errors_ignore_total p limit wait reason errs body rule plain =
    let reader : Reader = record { bytes = body; pos = 0 } in
    let (tr, found) =
      do_loop_total p (failing errs) (limit + 1) late (limit + 2) reader 0 (omega arith)
        (omega arith) in
    let (k, r) = do_loop-RunsTo p (failing errs) (limit + 2) reader 0 tr found in
    let few : k ≤ limit + 1 = at_most p (failing errs) body (limit + 1) k tr late r in
    let many : limit < k = elim (dec_lt limit k) [
      | yes h ↦ h
      | no h ↦ absurd (ground (arith, r.stopped, decided (0 + k)))
    ] in
    (tr, found, rw r.sent (omega (arith, length-replicate (suc k) body)))
  where
    decided : (n : ℕ) → (verdict p (failing errs) n).retry ≡ leb n limit
    decided n = unfold should_retry retry_error should_retry_factory in rw (plain n, rule)

    late : (i : ℕ) → limit + 1 ≤ i → (verdict p (failing errs) i).retry ≡ false
    late i h = ground (arith, decided i)
