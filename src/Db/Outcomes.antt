-- ===== src/Db/Outcomes.antt =====
-- What an action that answers, or that raises, says of its parts.
use mathlib.Core.Path.{subst}
use identity_access_service.Base.{◌≡◌, ◌⊎◌, inl, inr, arith, ap, ◌∙◌}
use identity_access_service.Errors.{Error, Result, ok, err, Result-cases}
use identity_access_service.Db.Session.{Session, Action, ◌>>=◌, continue}

module _ {A B : Type 0} (m : Action A) (f : A → Action B) (s : Session) where
  pub bind_answers :
      {r : B} → ((m >>= f) s).0 ≡ ok r → (a : A) × ((m s).0 ≡ ok a) × ((f a (m s).1).0 ≡ ok r)
  unfolding ◌>>=◌
  bind_answers {r} h = elim (Result-cases (m s).0) [
    | inl (e, bad) ↦ absurd (ground arith)
    | inr (a, good) ↦ (a, good, subst (λ x. (continue x f (m s).1).0 ≡ ok r) good h)
  ]

  pub bind_raises :
      {x : Error}
      → ((m >>= f) s).0 ≡ err x
      → ((m s).0 ≡ err x) ⊎ ((a : A) × ((m s).0 ≡ ok a) × ((f a (m s).1).0 ≡ err x))
  unfolding ◌>>=◌
  bind_raises {x} h = elim (Result-cases (m s).0) [
    | inl (e, bad) ↦
        let raised : ◌≡◌ {A = Result B} (err e) (err x) =
          subst (λ y. (continue y f (m s).1).0 ≡ err x) bad h in
        let same : e ≡ x = cc in inl (bad ∙ ap err same)
    | inr (a, good) ↦ inr (a, good, subst (λ y. (continue y f (m s).1).0 ≡ err x) good h)
  ]
