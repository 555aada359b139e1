-- ===== src/Xhttp/Metered.antt =====
-- What the metrics of a request say.
use mathlib.Core.Option
use dolly.Prelude.{
  ℕ, zero, suc, ◌+◌, ◌<◌, ◌≡◌, refl, ap, ◌∙◌, Bool, true, false, ◌&&◌, some, List, [], ◌∷◌, arith,
  ltb, leb, ltb→lt, length, get_elem?, if◌then◌else◌,
}
use dolly.GoText.Numbers.{format_int}
use dolly.Http.{Call, Writer, new_writer, run, status}
use dolly.Identity.{Identity, Request, from_request}
use dolly.Xhttp.{
  observed, code_texts, response_codes, or_text, status_text, Tags, perf, successful, failed,
  request_metrics,
}
use dolly.Xhttp.Captured.{SendsOnce, status-observe}

code_texts-length : (n i : ℕ) → length (code_texts n i) ≡ n
unfolding code_texts
code_texts-length zero i = refl
code_texts-length (suc n) i = ap suc (code_texts-length n (i + 1))

code_texts-get : (n i k : ℕ) → k < n → get_elem? (code_texts n i) k ≡ some (format_int (i + k))
unfolding code_texts
code_texts-get zero i k h = absurd (omega arith)
code_texts-get (suc n) i zero h = let e : i ≡ i + 0 = omega arith in ap (λ x. some (format_int x)) e
code_texts-get (suc n) i (suc k) h =
    let e : i + 1 + k ≡ i + suc k = omega arith in
    code_texts-get n (i + 1) k (omega arith) ∙ ap (λ x. some (format_int x)) e

in_table :
    (n sc : ℕ)
    → (if ltb sc (length (code_texts n 0)) && ltb 0 sc
        then or_text (get_elem? (code_texts n 0) sc) []
        else format_int sc)
      ≡ format_int sc
in_table n sc = go (ltb sc (length (code_texts n 0))) (ltb 0 sc) refl
  where
    go :
        (a b : Bool)
        → ltb sc (length (code_texts n 0)) ≡ a
        → (if a && b then or_text (get_elem? (code_texts n 0) sc) [] else format_int sc)
          ≡ format_int sc
    go false b e = refl
    go true false e = refl
    go true true e =
        let below : sc < n =
          omega (arith, ltb→lt sc (length (code_texts n 0)) e, code_texts-length n 0) in
        let same : 0 + sc ≡ sc = omega arith in
        ap (λ o. or_text o []) (code_texts-get n 0 sc below) ∙ ap format_int same

-- The table of `NewRequestMetrics` changes nothing: `statusCode` gives the decimal text of every status,
-- inside of the table and outside of it.
pub status_text-format_int : (sc : ℕ) → status_text sc ≡ format_int sc
unfolding status_text response_codes
status_text-format_int sc = in_table 599 sc

abbrev pub tags_for : Request → Identity → ℕ → Tags
tags_for r id sc = record {
  method = r.method;
  role = id.role;
  status = format_int sc;
  uri = r.path;
}

-- The metrics of a request tell what the client sees. If a handler sends its status at most once, and
-- before any part of the body, then the time and one counter are reported, tagged with the method, the
-- path, the role of the request's identity and the decimal text of the status on the wire; the counter is that
-- of failures exactly if this status is at least 400. Without an identity the wrapper panics.
pub request_metrics-status :
    (r : Request) (cs : List Call) (w : Writer)
    → run cs new_writer ≡ some w
    → SendsOnce false cs
    → request_metrics r cs
      ≡ Option.map
          (λ id.
            let tags = tags_for r id (status w) in
            perf tags ∷ (if leb 400 (status w) then failed tags else successful tags) ∷ [])
          (from_request r).identity
unfolding request_metrics
request_metrics-status r cs w done once =
    rw (status_text-format_int (observed cs).0, status-observe w cs 200 0 new_writer done once refl)
