-- ===== src/Providers/Answers.antt =====
-- The answers of oauth2/providers that are accepted: emails that checkEmail lets pass, decoded bodies.
use auth_middleware.Prelude.{
  String, ◌≡◌, ◌≢◌, ◌⊎◌, refl, sym, ◌∙◌, inl, inr, Bool, true, false≢true, Option, none, some, eqb,
  eqb_iff, ◌==◌, eq_iff, arith, Bool-cases,
}
use auth_middleware.Prelude.State.{Result, ok, err}
use auth_middleware.Errors.{Error}
use auth_middleware.Providers.{
  Userinfo, Options, Response, check_email, checked, decode_body, decode_ok,
}

-- There is an email, and it is verified or need not be.
abbrev pub Vouched : Options → (email : String) (verified : Bool) → Type 0
Vouched o email verified = (email ≢ "") × ((verified ≡ true) ⊎ (o.allow_unverified_email ≡ true))

pub check_email-Vouched :
    (o : Options) (email : String) (verified : Bool)
    → check_email o email verified ≡ none
    → Vouched o email verified
unfolding check_email
check_email-Vouched o email verified h = elim (Bool-cases (email == "")) [
  | inl missing ↦ absurd (ground arith)
  | inr present ↦ (
    λ e. false≢true (sym present ∙ (eq_iff email "").1 e),
    elim (Bool-cases verified) [ inl v ↦ inl v | inr v ↦ inr (ground arith) ],
  )
]

pub checked-ok :
    (o : Option Error) (user u : Userinfo) → checked o user ≡ ok u → (o ≡ none) × (user ≡ u)
unfolding checked
checked-ok none user u h = (refl, ground arith)
checked-ok (some e) user u h = absurd (ground arith)

pub decode_ok-ok :
    {A : Type 0} (refusal : String) (decode : String → Result A) (r : Result Response) (a : A)
    → decode_ok refusal decode r ≡ ok a
    → (answer : Response) × (r ≡ ok answer)
      × (answer.status ≡ 200)
      × (decode_body decode answer.body ≡ ok a)
unfolding decode_ok
decode_ok-ok refusal decode (err e) a h = absurd (ground arith)
decode_ok-ok refusal decode (ok answer) a h = elim (Bool-cases (eqb answer.status 200)) [
  | inl good ↦ (answer, refl, (eqb_iff answer.status 200).0 good, ground arith)
  | inr bad ↦ absurd (ground arith)
]
