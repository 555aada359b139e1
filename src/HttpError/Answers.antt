-- ===== src/HttpError/Answers.antt =====
-- How an error is written as an answer: `WriteHTTPResponse` of xhttp/httperror/errors.go. A handler's
-- calls are `none` if it panics; a nil request or error is `none` too. `Json` is what the codec sees
-- of a value by its tags, and `encode` what the codec library writes for it, with or without line breaks.
use mathlib.Core.Option
use dolly.Prelude.{
  Bool, ℕ, Option, none, some, List, [], ◌∷◌, Str, codes, str_eq, Assoc, lookup, if◌then◌else◌,
}
use dolly.GoText.{is_some}
use dolly.Http.{Call, set, write_header, write}
use dolly.Identity.{Request}
use dolly.HttpError.{Error, ManyError}

mutual
  pub data Json : Type 0 where
    null : Json
    text : Str → Json
    object : Members → Json

  pub data Members : Type 0 where
    end : Members
    member : Str → Json → Members → Members

abbrev pub content_type : Str
content_type = codes "Content-Type"

abbrev pub application_json : Str
application_json = codes "application/json"

-- The tags of `Error`: the status and the cause are left out.
unfoldable pub error_json : Error → Json
error_json e =
    object (member (codes "code") (text e.code) (member (codes "message") (text e.message) end))

unfoldable pub errors_json : Assoc Error → Members
unfolding error_json
errors_json [] = end
errors_json ((key, e) ∷ m) = member key (error_json e) (errors_json m)

-- `omitempty`
abbrev pub text_member : Str → Str → Members → Members
text_member key s rest = if str_eq s [] then rest else member key (text s) rest

abbrev pub errors_member : Assoc Error → Members
errors_member [] = end
errors_member (e ∷ m) = member (codes "errors") (object (errors_json (e ∷ m))) end

-- The tags of `ManyError`
unfoldable pub many_json : ManyError → Json
unfolding errors_json
many_json m = object (
    text_member (codes "code") m.code
      (text_member (codes "message") m.message (errors_member m.errors)))

-- `shouldPrettyPrint`, which reads the URL of the request
unfoldable pub should_pretty_print : Option Request → Option Bool
should_pretty_print r = Option.map (λ r. is_some (lookup (codes "pp") r.query)) r

module _ (encode : Bool → Json → Str) where
  abbrev pub answer : ℕ → Json → Bool → List Call
  answer status json pretty =
      set content_type application_json ∷ write_header status ∷ write (encode pretty json) ∷ []

  -- `(*Error).WriteHTTPResponse` and `(*ManyError).WriteHTTPResponse`
  unfoldable pub write_error : Option Error → Option Request → Option (List Call)
  unfolding should_pretty_print error_json
  write_error none r = none
  write_error (some e) r = Option.map (answer e.http_status (error_json e)) (should_pretty_print r)

  unfoldable pub write_many : Option ManyError → Option Request → Option (List Call)
  unfolding should_pretty_print many_json
  write_many none r = none
  write_many (some m) r = Option.map (answer m.http_status (many_json m)) (should_pretty_print r)
