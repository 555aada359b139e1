-- ===== src/Ca/Sign/Inverted.antt =====
-- The steps that a successful `Sign` of xpki/authority/issuer.go has gone through.
use dolly.Prelude.{ℕ, ◌≡◌, Option, some, ◌++◌, Str, codes, lookup, ok, or_err, bind-ok, or_err-ok}
use dolly.Ca.Std.{Std}
use dolly.Ca.Csr.{Template, parse_pem}
use dolly.Ca.Profile.{CertProfile}
use dolly.Ca.Sign.Fill.{Issuer, fill_template}
use dolly.Ca.Sign.{
  SignRequest, or_default, masked, requested, check_template, add_extensions, to_be_signed, finish,
  sign_request, sign,
}

module _ (std : Std) (ca : Issuer) (now : ℕ) (random : Option Str) (req : SignRequest) where
  pub record Signed (t : Template) : Type 0 where
    pub profile : CertProfile
    pub csr : Template
    pub serial : Str
    pub extended : Template
    pub filled : Template
    pub chosen : lookup (or_default req.profile) ca.profiles ≡ some profile
    pub parsed : parse_pem std req.request ≡ ok csr
    pub checked : check_template profile (requested std profile req csr) ≡ ok tt
    pub extends :
        add_extensions std profile.allowed_extensions req.extensions
          (record (requested std profile req csr) { serial_number = masked serial })
        ≡ ok extended
    pub fills : fill_template std ca profile now req.not_before req.not_after extended ≡ ok filled
    pub finishes : to_be_signed std ca filled ≡ ok t

  finish-steps :
      (p : CertProfile) (s t : Template)
      → finish std ca now req p s ≡ ok t
      → (e : Template) × (f : Template) × (add_extensions std p.allowed_extensions req.extensions s
          ≡ ok e)
        × (fill_template std ca p now req.not_before req.not_after e ≡ ok f)
        × (to_be_signed std ca f ≡ ok t)
  unfolding finish
  finish-steps p s t h =
      let (e, a, h1) = bind-ok _ _ t h in let (f, b, h2) = bind-ok _ _ t h1 in (e, f, a, b, h2)

  sign_request-steps :
      (p : CertProfile) (csr t : Template)
      → sign_request std ca now random req p csr ≡ ok t
      → (serial : Str) × (check_template p (requested std p req csr) ≡ ok tt)
        × (finish std ca now req p
              (record (requested std p req csr) { serial_number = masked serial })
            ≡ ok t)
  unfolding sign_request
  sign_request-steps p csr t h =
      let (u, a, h1) = bind-ok _ _ t h in
      let (serial, b, h2) =
        bind-ok (or_err (codes "failed to generate serial number") random) _ t h1 in
      (serial, a, h2)

  sign-steps :
      (t : Template)
      → sign std ca now random req ≡ ok t
      → (p : CertProfile) × (csr : Template) × (lookup (or_default req.profile) ca.profiles
          ≡ some p)
        × (parse_pem std req.request ≡ ok csr)
        × (sign_request std ca now random req p csr ≡ ok t)
  unfolding sign
  sign-steps t h =
      let (p, a, h1) = bind-ok _ _ t h in
      let (csr, b, h2) = bind-ok _ _ t h1 in
      (
        p,
        csr,
        or_err-ok (codes "unsupported profile: " ++ or_default req.profile)
            (lookup (or_default req.profile) ca.profiles) p a,
        b,
        h2,
      )

  pub sign-Signed : (t : Template) → sign std ca now random req ≡ ok t → Signed t
  sign-Signed t h =
      let (p, csr, a, b, h1) = sign-steps t h in
      let (serial, c, h2) = sign_request-steps p csr t h1 in
      let (extended, filled, d, e, f) =
        finish-steps p (record (requested std p req csr) { serial_number = masked serial }) t h2 in
      record {
        profile = p;
        csr = csr;
        serial = serial;
        extended = extended;
        filled = filled;
        chosen = a;
        parsed = b;
        checked = c;
        extends = d;
        fills = e;
        finishes = f;
      }
