-- ===== src/Marshal/Examples.antt =====
-- Answers of `WriteJSON` at concrete inputs. The codec is a simple one: an object of two texts is
-- written as the texts with a zero byte between.
use dolly.Prelude.{
  ◌≡◌, refl, Bool, false, none, some, List, [], ◌∷◌, ◌++◌, Option, Str, codes, arith,
}
use dolly.Identity.{Request}
use dolly.GoText.{split}
use dolly.HttpError.Constructors.{with_unexpected}
use dolly.HttpError.Answers.{Json, text, object, member, end, error_json}
use dolly.Http.{body_allowed}
use dolly.Marshal.{failure}
use dolly.Marshal.Written.{served, sent_as, error_served}

abbrev pub zero_codec : Bool → Json → Str
zero_codec pretty (object (member j (text code) (member k (text message) end))) =
    code ++ 0 ∷ message
zero_codec pretty _ = []

abbrev pub pair_of : List Str → Option (Str × Str)
pair_of (code ∷ message ∷ []) = some (code, message)
pair_of _ = none

abbrev pub zero_decoder : Str → Option (Str × Str)
zero_decoder s = pair_of (split s 0)

abbrev pub same : Str → Str
same s = s

abbrev pub plain_request : Request
plain_request = record {
  method = codes "GET";
  path = codes "/x";
  headers = [];
  query = [];
  context = none;
  remote_addr = [];
  host = [];
  url_host = [];
  tls = none;
}

error_served_example :
    served zero_codec same same plain_request
      (none ∷ some (failure (codes "closed") none) ∷ none ∷ [])
    ≡ some (sent_as 500 (zero_codec false (error_json (with_unexpected (codes "closed")))))
unfolding with_unexpected
error_served_example =
    error_served zero_codec same same plain_request 1 (failure (codes "closed") none) (none ∷ [])
      (with_unexpected (codes "closed")) refl (omega arith) (omega arith)
      (unfold body_allowed in refl)
