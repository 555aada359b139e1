-- ===== src/Xhttp/Captured.antt =====
-- The response capture against its delegate.
use mathlib.Core.Option
use dolly.Prelude.{
  ℕ, ◌+◌, ◌%◌, ◌^◌, ◌≤◌, ◌≡◌, refl, ap, sym, ◌∙◌, Bool, true, false, Option, none, some, List, [],
  ◌∷◌, Str, arith, length, bind-some, fun_ext, ◌⊎◌, inl, inr,
}
use mathlib.Core.Path.{subst}
use dolly.Http.{
  Header, Call, set, write_header, write, flush, Writer, new_writer, send_header, send_body, call,
  run, status, status_of,
}
use dolly.Xhttp.{
  ResponseCapture, new_response_capture, capture_call, capture_calls, observe, observed,
}

module _ {W : Type 0} (step : Call → W → Option W) where
  -- The calls on the delegate alone
  pub run_all : List Call → W → Option W
  run_all [] w = some w
  run_all (c ∷ cs) w = Option.bind (step c w) (run_all cs)

  abbrev pub capture_with : ℕ × ℕ → W → ResponseCapture W
  capture_with (status, size) w = record { status_code = status; body_size = size; delegate = w }

  -- One call, and then the rest
  capture-then :
      (cs : List Call) (p p' : ℕ × ℕ) (o : Option W)
      → ((v : W)
          → capture_calls step cs (capture_with p v) ≡ Option.map (capture_with p') (run_all cs v))
      → Option.bind (Option.map (capture_with p) o) (capture_calls step cs)
        ≡ Option.map (capture_with p') (Option.bind o (run_all cs))
  unfolding Option.bind
  capture-then cs p p' none rest = refl
  capture-then cs p p' (some v) rest = rest v

  capture_calls-observe :
      (cs : List Call) (sc size : ℕ) (w : W)
      → capture_calls step cs (capture_with (sc, size) w)
        ≡ Option.map (capture_with (observe cs sc size)) (run_all cs w)
  unfolding capture_calls observe run_all capture_call
  capture_calls-observe [] sc size w = refl
  capture_calls-observe (set key val ∷ cs) sc size w =
      capture-then cs (sc, size) (observe cs sc size) (step (set key val) w)
        (capture_calls-observe cs sc size)
  capture_calls-observe (write_header code ∷ cs) sc size w =
      capture-then cs (code, size) (observe cs code size) (step (write_header code) w)
        (capture_calls-observe cs code size)
  capture_calls-observe (write bytes ∷ cs) sc size w =
      let size' = (size + length bytes) % 2 ^ 64 in
      capture-then cs (sc, size') (observe cs sc size') (step (write bytes) w)
        (capture_calls-observe cs sc size')
  capture_calls-observe (flush ∷ cs) sc size w =
      capture-then cs (sc, size) (observe cs sc size) (step flush w)
        (capture_calls-observe cs sc size)

  -- A capture makes every call on its delegate, in order and with the same result, a panic included,
  -- and what it has captured depends on the calls alone.
  pub capture_calls-delegate :
      (cs : List Call) (w : W)
      → capture_calls step cs (new_response_capture w)
        ≡ Option.map (capture_with (observed cs)) (run_all cs w)
  capture_calls-delegate cs w = capture_calls-observe cs 200 0 w

-- The calls of a handler that sends its status at most once, and before any part of the body.
abbrev pub SendsOnce : Bool → List Call → Type 0
SendsOnce sent [] = Unit
SendsOnce sent (set key val ∷ cs) = SendsOnce sent cs
SendsOnce sent (write_header sc ∷ cs) = (sent ≡ false) × SendsOnce true cs
SendsOnce sent (write bytes ∷ cs) = SendsOnce true cs
SendsOnce sent (flush ∷ cs) = SendsOnce true cs

abbrev is_sent : Option (ℕ × Header) → Bool
is_sent none = false
is_sent (some s) = true

-- What is sent after a status, if none was sent before
abbrev first_sent : ℕ → Header → Option (ℕ × Header) → Option (ℕ × Header)
first_sent sc h none = some (sc, h)
first_sent sc h (some s) = some s

first_sent-is_sent :
    (sc : ℕ) (h : Header) (o : Option (ℕ × Header)) → is_sent (first_sent sc h o) ≡ true
first_sent-is_sent sc h none = refl
first_sent-is_sent sc h (some s) = refl

first_sent-default :
    (h : Header) (o : Option (ℕ × Header)) → status_of (first_sent 200 h o) ≡ status_of o
first_sent-default h none = refl
first_sent-default h (some s) = refl

first_sent-fresh :
    (sc : ℕ) (h : Header) (o : Option (ℕ × Header))
    → is_sent o ≡ false
    → status_of (first_sent sc h o) ≡ sc
first_sent-fresh sc h none e = refl
first_sent-fresh sc h (some s) e = absurd (cc e)

send_header-sent :
    (sc : ℕ) (w v : Writer) → send_header sc w ≡ some v → v.sent ≡ first_sent sc w.header w.sent
unfolding send_header
send_header-sent sc w v h = ground arith

send_body-sent :
    (bytes : Str) (w v : Writer)
    → send_body bytes w ≡ some v
    → v.sent ≡ first_sent 200 w.header w.sent
unfolding send_body send_header
send_body-sent bytes w v h = ground arith

set-sent : (key val : Str) (w v : Writer) → call (set key val) w ≡ some v → v.sent ≡ w.sent
unfolding call
set-sent key val w v h = ground arith

module _ (v : Writer) where
  -- The status that the writer would send now is the one captured so far.
  pub status-observe :
      (cs : List Call) (sc size : ℕ) (w : Writer)
      → run cs w ≡ some v
      → SendsOnce (is_sent w.sent) cs
      → status w ≡ sc
      → status v ≡ (observe cs sc size).0
  unfolding run observe
  status-observe [] sc size w h once same = let e : w ≡ v = cc h in ap status (sym e) ∙ same
  status-observe (set key val ∷ cs) sc size w h once same =
      let (w', first, rest) = bind-some (call (set key val) w) (run cs) v h in
      let e = set-sent key val w w' first in
      status-observe cs sc size w' rest (subst (λ o. SendsOnce (is_sent o) cs) (sym e) once)
        (ap status_of e ∙ same)
  status-observe (write_header code ∷ cs) sc size w h once same =
      let (w', first, rest) = bind-some (call (write_header code) w) (run cs) v h in
      let e = send_header-sent code w w' (unfold call in first) in
      status-observe cs code size w' rest
        (subst (λ b. SendsOnce b cs) (sym (ap is_sent e ∙ first_sent-is_sent code w.header w.sent))
          once.1)
        (ap status_of e ∙ first_sent-fresh code w.header w.sent once.0)
  status-observe (write bytes ∷ cs) sc size w h once same =
      let (w', first, rest) = bind-some (call (write bytes) w) (run cs) v h in
      let e = send_body-sent bytes w w' (unfold call in first) in
      status-observe cs sc ((size + length bytes) % 2 ^ 64) w' rest
        (subst (λ b. SendsOnce b cs) (sym (ap is_sent e ∙ first_sent-is_sent 200 w.header w.sent))
          once)
        (ap status_of e ∙ first_sent-default w.header w.sent ∙ same)
  status-observe (flush ∷ cs) sc size w h once same =
      let (w', first, rest) = bind-some (call flush w) (run cs) v h in
      let e = send_header-sent 200 w w' (unfold call in first) in
      status-observe cs sc size w' rest
        (subst (λ b. SendsOnce b cs) (sym (ap is_sent e ∙ first_sent-is_sent 200 w.header w.sent))
          once)
        (ap status_of e ∙ first_sent-default w.header w.sent ∙ same)

run_all-run : (cs : List Call) (w : Writer) → run_all call cs w ≡ run cs w
unfolding run_all run
run_all-run [] w = refl
run_all-run (c ∷ cs) w = ap (Option.bind (call c w)) (fun_ext (run_all-run cs))

SendsOnce-decided : (b : Bool) (cs : List Call) → (¬ SendsOnce b cs) ⊎ SendsOnce b cs
SendsOnce-decided b [] = inr tt
SendsOnce-decided b (set key val ∷ cs) = SendsOnce-decided b cs
SendsOnce-decided true (write_header sc ∷ cs) = inl (λ h. absurd (cc (h.0)))
SendsOnce-decided false (write_header sc ∷ cs) = go (SendsOnce-decided true cs)
  where
    go :
        (¬ SendsOnce true cs) ⊎ SendsOnce true cs
        → (¬ SendsOnce false (write_header sc ∷ cs)) ⊎ SendsOnce false (write_header sc ∷ cs)
    go (inl n) = inl (λ h. n h.1)
    go (inr h) = inr (refl, h)
SendsOnce-decided b (write bytes ∷ cs) = SendsOnce-decided true cs
SendsOnce-decided b (flush ∷ cs) = SendsOnce-decided true cs

delegates :
    (p : ℕ × ℕ) (o : Option Writer)
    → Option.map (λ (x : ResponseCapture Writer). x.delegate) (Option.map (capture_with call p) o)
      ≡ o
delegates p none = refl
delegates p (some w) = refl

captured_once :
    (cs : List Call) (o : Option Writer)
    → run cs new_writer ≡ o
    → SendsOnce false cs
    → Option.map
        (λ (x : ResponseCapture Writer). x.status_code)
        (Option.map (capture_with call (observed cs)) o)
      ≡ Option.map status o
unfolding observe
captured_once cs none e once = refl
captured_once cs (some w) e once = ap some (sym (status-observe w cs 200 0 new_writer e once refl))

-- The response capture is transparent: on the server's writer, whatever a handler calls, the writer ends
-- as if the handler had called it, or there is the same panic. And if the handler sends its status at most
-- once, and before any part of the body, then the status captured, where there is no panic, is the one that
-- the client sees; it is 200 if the handler sends none.
pub capture-status :
    (cs : List Call)
    → let captured = capture_calls call cs (new_response_capture new_writer) in
      (Option.map (λ (x : ResponseCapture Writer). x.delegate) captured ≡ run cs new_writer)
      × ((¬ SendsOnce false cs)
          ⊎ (Option.map (λ (x : ResponseCapture Writer). x.status_code) captured
              ≡ Option.map status (run cs new_writer)))
capture-status cs =
    let same : capture_calls call cs (new_response_capture new_writer)
        ≡ Option.map (capture_with call (observed cs)) (run cs new_writer) =
      capture_calls-delegate call cs new_writer
      ∙ ap (Option.map (capture_with call (observed cs))) (run_all-run cs new_writer) in
    (
      ap (Option.map (λ (x : ResponseCapture Writer). x.delegate)) same
          ∙ delegates (observed cs) (run cs new_writer),
      elim (SendsOnce-decided false cs) [
        | inl n ↦ inl n
        | inr once ↦ inr (
            ap (Option.map (λ (x : ResponseCapture Writer). x.status_code)) same
            ∙ captured_once cs (run cs new_writer) refl once)
      ],
    )

-- `net/http` ignores a second status, but the capture takes it for the one sent: after two, the client
-- sees the first, and the metrics and the log have the second.
pub second_status_captured :
    (a b : ℕ)
    → 100 ≤ a
    → a ≤ 999
    → (r : ResponseCapture Writer) × (capture_calls call
          (write_header a ∷ write_header b ∷ [])
          (new_response_capture new_writer)
        ≡ some r)
      × (status r.delegate ≡ a)
      × (r.status_code ≡ b)
unfolding capture_calls capture_call call send_header Option.bind
second_status_captured a b low high = (
  record { status_code = b; body_size = 0; delegate = record new_writer { sent = some (a, []) } },
  ground arith,
  refl,
  refl,
)
