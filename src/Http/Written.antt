-- ===== src/Http/Written.antt =====
-- What the server's writer sends for the calls of a handler.
use mathlib.Core.Option
use dolly.Prelude.{ℕ, ◌≤◌, ◌≡◌, true, some, [], ◌∷◌, Str, arith}
use dolly.Http.{
  Header, set_value, set, write_header, write, new_writer, body_allowed, send_header, send_body,
  call, run,
}

-- The calls of an answer: headers, the status, and the body.
pub run_answer :
    (key val : Str) (status : ℕ) (bytes : Str) (h : Header)
    → 100 ≤ status
    → status ≤ 999
    → body_allowed status ≡ true
    → run (set key val ∷ write_header status ∷ write bytes ∷ []) (record new_writer { header = h })
      ≡ some (record {
        header = set_value key val h;
        sent = some (status, set_value key val h);
        body = bytes;
      })
unfolding run call send_header send_body Option.bind
run_answer key val status bytes h low high allowed = ground arith
