-- ===== src/Db/Raises.antt =====
-- Which exceptions an action may raise: one rule for each way to build an action.
use identity_access_service.Base.{
  Bool, true, false, Option, none, some, ◌≡◌, if◌then◌else◌, Bool-cases, inl, inr,
}
use mathlib.Core.Path.{subst}
use identity_access_service.Errors.{Error, Result, err, integrity_error}
use identity_access_service.Db.{Db}
use identity_access_service.Db.Session.{
  Session, Action, pure, raise, query, or_raise, raise_if, commit, write, insert, ◌>>=◌,
}
use identity_access_service.Db.Outcomes.{bind_raises}

-- Whatever the session, what the action raises has the property.
pub record Raises {A : Type 0} (P : Error → Type 0) (m : Action A) : Type 0 where
  pub only : (s : Session) (e : Error) → (m s).0 ≡ err e → P e

err_inj : {A : Type 0} {e x : Error} → ◌≡◌ {A = Result A} (err e) (err x) → e ≡ x
err_inj h = cc

module _ {A : Type 0} {P : Error → Type 0} where
  pub Raises-pure : (a : A) → Raises P (pure a)
  unfolding pure
  Raises-pure a = record { only = λ s e h. absurd (cc) }

  pub Raises-query : (f : Db → A) → Raises P (query f)
  unfolding query
  Raises-query f = record { only = λ s e h. absurd (cc) }

  pub Raises-raise : (x : Error) → P x → Raises P (raise {A = A} x)
  unfolding raise
  Raises-raise x p = record { only = λ s e h. subst P (err_inj h) p }

  pub Raises-or_raise : (o : Option A) (x : Error) → P x → Raises P (or_raise o x)
  unfolding or_raise
  Raises-or_raise none x p = record { only = λ s e h. subst P (err_inj h) p }
  Raises-or_raise (some a) x p = record { only = λ s e h. absurd (cc) }

  pub Raises-if :
      (b : Bool) (m n : Action A) → Raises P m → Raises P n → Raises P (if b then m else n)
  Raises-if true m n rm rn = rm
  Raises-if false m n rm rn = rn

  pub Raises-bind :
      {B : Type 0} (m : Action B) (f : B → Action A)
      → Raises P m
      → ((b : B) → Raises P (f b))
      → Raises P (m >>= f)
  Raises-bind m f rm rf = record {
    only = λ s e h. elim (bind_raises m f s h) [
      | inl raised ↦ rm.only s e raised
      | inr (b, answered, raised) ↦ (rf b).only (m s).1 e raised
    ];
  }

module _ {P : Error → Type 0} where
  pub Raises-raise_if : (b : Bool) (x : Error) → P x → Raises P (raise_if b x)
  unfolding raise_if
  Raises-raise_if true x p = record { only = λ s e h. subst P (err_inj h) p }
  Raises-raise_if false x p = record { only = λ s e h. absurd (cc) }

  pub raise_none : (x : Error) → Raises P (raise_if false x)
  unfolding raise_if
  raise_none x = record { only = λ s e h. absurd (cc) }

  pub Raises-commit : Raises P commit
  unfolding commit
  Raises-commit = record { only = λ s e h. absurd (cc) }

  pub Raises-write : (f : Db → Db) → Raises P (write f)
  unfolding write
  Raises-write f = record { only = λ s e h. absurd (cc) }

  pub Raises-insert :
      (refused : Db → Bool) (f : Db → Db) → P integrity_error → Raises P (insert refused f)
  unfolding insert
  Raises-insert refused f p = record {
    only = λ s e h. elim (Bool-cases (refused s.db)) [
      | inl bad ↦ subst P (err_inj (rw bad at h)) p
      | inr good ↦ absurd (cc (rw good at h))
    ];
  }

pub ruleset raises_rules = (
  Raises-pure, Raises-query, Raises-raise, Raises-or_raise, Raises-if, Raises-bind, Raises-raise_if,
  Raises-commit, Raises-write, Raises-insert,
)
