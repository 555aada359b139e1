-- ===== src/HttpError/Examples.antt =====
-- Errors and their texts at concrete inputs.
use dolly.Prelude.{◌≡◌, refl, none, some, codes, str_eq, insert}
use dolly.HttpError.{add, other, api, many_error_text}
use dolly.HttpError.Constructors.{with_not_found}

two_errors :
    many_error_text (
      some (
        add
          (some (add none (codes "a") (other (codes "refused"))))
          (codes "b")
          (api (with_not_found (codes "/x")))))
    ≡ codes "unexpected: refused;not_found: /x"
unfolding many_error_text add with_not_found str_eq insert
two_errors = refl
