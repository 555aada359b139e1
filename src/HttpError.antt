-- ===== src/HttpError.antt =====
-- xhttp/httperror/errors.go: the API's errors, one and many. `GoError` is Go's `error` interface:
-- an `*Error`, or another error, known by its text. The map of `ManyError` is an association list;
-- a nil `*ManyError` is `none`.
pub mod Constructors
pub mod Answers
pub mod Examples
use dolly.Prelude.{
  Bool, ℕ, Option, none, some, List, [], ◌++◌, map, Str, codes, str_eq, Assoc, insert, ltb, length,
  if◌then◌else◌,
}
use dolly.GoText.{join}

pub record Error : Type 0 where
  pub http_status : ℕ
  pub code : Str
  pub message : Str
  pub cause : Option Str  -- the cause's text

pub data GoError : Type 0 where
  api : Error → GoError
  other : Str → GoError

-- `New`, with the message as `fmt.Sprintf` has built it
unfoldable pub new_error : ℕ → Str → Str → Error
new_error status code message = record {
  http_status = status;
  code = code;
  message = message;
  cause = none;
}

-- `(*Error).Error`
unfoldable pub error_text : Option Error → Str
error_text none = codes "nil"
error_text (some e) = e.code ++ codes ": " ++ e.message

-- `err.Error()` of any error
unfoldable pub go_error_text : GoError → Str
unfolding error_text
go_error_text (api e) = error_text (some e)
go_error_text (other text) = text

-- `(*Error).WithCause`
unfoldable pub with_cause : Error → GoError → Error
unfolding go_error_text
with_cause e err = record e { cause = some (go_error_text err) }

pub record ManyError : Type 0 where
  pub http_status : ℕ
  pub code : Str
  pub message : Str
  pub errors : Assoc Error

-- `new(ManyError)`
abbrev pub no_errors : ManyError
no_errors = record { http_status = 0; code = []; message = []; errors = [] }

abbrev pub unexpected : Str
unexpected = codes "unexpected"

-- The entry that `Add` stores for an error.
abbrev pub entry_of : GoError → Error
entry_of (api e) = e
entry_of (other text) = record {
  http_status = 0;
  code = unexpected;
  message = text;
  cause = some text;
}

abbrev or_empty : Option ManyError → ManyError
or_empty none = no_errors
or_empty (some m) = m

-- `(*ManyError).Add`
unfoldable pub add : Option ManyError → Str → GoError → ManyError
add m key err = record (or_empty m) { errors = insert key (entry_of err) (or_empty m).errors }

-- `(*ManyError).HasErrors`
unfoldable pub has_errors : ManyError → Bool
has_errors m = ltb 0 (length m.errors)

-- `NewMany`
unfoldable pub new_many : ℕ → Str → Str → ManyError
new_many status code message = record {
  http_status = status;
  code = code;
  message = message;
  errors = [];
}

abbrev texts_of : Assoc Error → List Str
texts_of m = map (λ e. error_text (some e.1)) m

-- `(*ManyError).Error`; the texts of the map's errors come in the order of its walk.
unfoldable pub many_error_text : Option ManyError → Str
unfolding error_text join
many_error_text none = codes "nil"
many_error_text (some m) =
    if str_eq m.code [] then join (texts_of m.errors) b';' else m.code ++ codes ": " ++ m.message
