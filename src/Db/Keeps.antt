-- ===== src/Db/Keeps.antt =====
-- What an action keeps: a property of the database that holds of the committed state and of the
-- session's state before it holds of both after it. After a raise the session's state is dropped, and
-- the property is asked of the committed state alone. One rule for each way to build an action, each
-- at the session where the action runs, so that a later write knows what an earlier query found.
use mathlib.Core.Path.{subst}
use identity_access_service.Base.{
  sym, Bool, true, false, Option, none, some, ◌≡◌, refl, if◌then◌else◌, Bool-cases, inl, inr,
}
use identity_access_service.Errors.{Error, Result, ok, err}
use identity_access_service.Db.{Db}
use identity_access_service.Db.Session.{
  Session, Action, pure, raise, query, or_raise, raise_if, commit, write, insert, ◌>>=◌,
  open_session, run,
}

abbrev pub Kept : {A : Type 0} → (Db → Type 0) → Result A × Session → Type 0
Kept P (ok a, s) = P s.committed × P s.db
Kept P (err e, s) = P s.committed

pub record Keeps {A : Type 0} (P : Db → Type 0) (m : Action A) (s : Session) : Type 0 where
  pub at : P s.committed → P s.db → Kept P (m s)

module _ {A : Type 0} {P : Db → Type 0} where
  pub Keeps-pure : (a : A) (s : Session) → Keeps P (pure a) s
  unfolding pure
  Keeps-pure a s = record { at = λ c d. (c, d) }

  pub Keeps-raise : (e : Error) (s : Session) → Keeps P (raise {A = A} e) s
  unfolding raise
  Keeps-raise e s = record { at = λ c d. c }

  pub Keeps-if :
      (b : Bool) (m n : Action A) (s : Session)
      → (b ≡ true → Keeps P m s)
      → (b ≡ false → Keeps P n s)
      → Keeps P (if b then m else n) s
  Keeps-if true m n s km kn = km refl
  Keeps-if false m n s km kn = kn refl

  pub Keeps-or_raise : (o : Option A) (e : Error) (s : Session) → Keeps P (or_raise o e) s
  unfolding or_raise
  Keeps-or_raise none e s = record { at = λ c d. c }
  Keeps-or_raise (some a) e s = record { at = λ c d. (c, d) }

module _ {P : Db → Type 0} where
  pub Keeps-commit : (s : Session) → Keeps P commit s
  unfolding commit
  Keeps-commit s = record { at = λ c d. (d, d) }

  pub Keeps-raise_if : (b : Bool) (e : Error) (s : Session) → Keeps P (raise_if b e) s
  unfolding raise_if
  Keeps-raise_if true e s = record { at = λ c d. c }
  Keeps-raise_if false e s = record { at = λ c d. (c, d) }

  pub Keeps-write : (f : Db → Db) (s : Session) → (P s.db → P (f s.db)) → Keeps P (write f) s
  unfolding write
  Keeps-write f s kf = record { at = λ c d. (c, kf d) }

  pub Keeps-insert :
      (refused : Db → Bool) (f : Db → Db) (s : Session)
      → (refused s.db ≡ false → P s.db → P (f s.db))
      → Keeps P (insert refused f) s
  unfolding insert
  Keeps-insert refused f s kf = record {
    at = λ c d. elim (Bool-cases (refused s.db)) [
      | inl bad ↦ rw bad c
      | inr good ↦ rw good (c, kf good d)
    ];
  }

Kept-same :
    {A : Type 0} (P : Db → Type 0) (r : Result A) (s' s : Session)
    → s' ≡ s
    → P s.committed
    → P s.db
    → Kept P (r, s')
Kept-same P (ok a) s' s same c d = rw same (c, d)
Kept-same P (err e) s' s same c d = rw same c

module _ {A B : Type 0} {P : Db → Type 0} where
  continue-Keeps :
      (f : A → Action B) (r : Result A) (s : Session)
      → ((a : A) → r ≡ ok a → Keeps P (f a) s)
      → Kept P (r, s)
      → Kept P (((λ (s : Session). (r, s)) >>= f) s)
  unfolding ◌>>=◌
  continue-Keeps f (ok a) s kf (c, d) = (kf a refl).at c d
  continue-Keeps f (err e) s kf c = c

  -- The rest of the block may use what the action returned and the session that it left.
  pub Keeps-bind :
      (m : Action A) (f : A → Action B) (s : Session)
      → Keeps P m s
      → ((a : A) → (m s).0 ≡ ok a → Keeps P (f a) (m s).1)
      → Keeps P (m >>= f) s
  unfolding ◌>>=◌
  Keeps-bind m f s km kf = record { at = λ c d. continue-Keeps f (m s).0 (m s).1 kf (km.at c d) }

  -- An action that only reads.
  pub Keeps-read-bind :
      (m : Action A) (f : A → Action B) (s : Session)
      → (m s).1 ≡ s
      → ((a : A) → (m s).0 ≡ ok a → Keeps P (f a) s)
      → Keeps P (m >>= f) s
  Keeps-read-bind m f s same kf =
      Keeps-bind m f s (record { at = λ c d. Kept-same P (m s).0 (m s).1 s same c d })
        (λ a e. subst (Keeps P (f a)) (sym same) (kf a e))

  pub Keeps-query-bind :
      (g : Db → A) (f : A → Action B) (s : Session)
      → Keeps P (f (g s.db)) s
      → Keeps P (query g >>= f) s
  unfolding ◌>>=◌
  Keeps-query-bind g f s kf = record { at = kf.at }

  pub Keeps-or_raise-bind :
      (o : Option A) (e : Error) (f : A → Action B) (s : Session)
      → ((a : A) → o ≡ some a → Keeps P (f a) s)
      → Keeps P (or_raise o e >>= f) s
  unfolding ◌>>=◌
  Keeps-or_raise-bind none e f s kf = record { at = λ c d. c }
  Keeps-or_raise-bind (some a) e f s kf = record { at = (kf a refl).at }

module _ {B : Type 0} {P : Db → Type 0} where
  pub Keeps-raise_if-bind :
      (b : Bool) (e : Error) (f : Unit → Action B) (s : Session)
      → (b ≡ false → Keeps P (f tt) s)
      → Keeps P (raise_if b e >>= f) s
  unfolding ◌>>=◌
  Keeps-raise_if-bind true e f s kf = record { at = λ c d. c }
  Keeps-raise_if-bind false e f s kf = record { at = (kf refl).at }

  pub Keeps-write-bind :
      (g : Db → Db) (f : Unit → Action B) (s : Session)
      → (P s.db → P (g s.db))
      → Keeps P (f tt) (record s { db = g s.db })
      → Keeps P (write g >>= f) s
  unfolding ◌>>=◌
  Keeps-write-bind g f s kg kf = record { at = λ c d. kf.at c (kg d) }

  -- Two writes of which the property may hold only after the second.
  pub Keeps-write_twice-bind :
      (g h : Db → Db) (f : Unit → Action B) (s : Session)
      → (P s.db → P (h (g s.db)))
      → Keeps P (f tt) (record s { db = h (g s.db) })
      → Keeps P (write g >>= λ _. write h >>= f) s
  unfolding ◌>>=◌
  Keeps-write_twice-bind g h f s kg kf = record { at = λ c d. kf.at c (kg d) }

  pub Keeps-insert_twice-bind :
      (refused refused' : Db → Bool) (g h : Db → Db) (f : Unit → Action B) (s : Session)
      → (refused s.db ≡ false → refused' (g s.db) ≡ false → P s.db → P (h (g s.db)))
      → Keeps P (f tt) (record s { db = h (g s.db) })
      → Keeps P (insert refused g >>= λ _. insert refused' h >>= f) s
  unfolding ◌>>=◌
  Keeps-insert_twice-bind refused refused' g h f s kg kf = record {
    at = λ c d. elim (Bool-cases (refused s.db)) [
      | inl bad ↦ rw bad c
      | inr good ↦ rw good (elim (Bool-cases (refused' (g s.db))) [
        | inl bad ↦ rw bad c
        | inr fine ↦ rw fine (kf.at c (kg good fine d))
      ])
    ];
  }

  pub Keeps-insert-bind :
      (refused : Db → Bool) (g : Db → Db) (f : Unit → Action B) (s : Session)
      → (refused s.db ≡ false → P s.db → P (g s.db))
      → (refused s.db ≡ false → Keeps P (f tt) (record s { db = g s.db }))
      → Keeps P (insert refused g >>= f) s
  unfolding ◌>>=◌
  Keeps-insert-bind refused g f s kg kf = record {
    at = λ c d. elim (Bool-cases (refused s.db)) [
      | inl bad ↦ rw bad c
      | inr good ↦ rw good ((kf good).at c (kg good d))
    ];
  }

  pub Keeps-commit-bind :
      (f : Unit → Action B) (s : Session)
      → Keeps P (f tt) (record s { committed = s.db })
      → Keeps P (commit >>= f) s
  unfolding ◌>>=◌
  Keeps-commit-bind f s kf = record { at = λ c d. kf.at d d }

-- What a request keeps.
Kept-committed :
    {A : Type 0} (P : Db → Type 0) (r : Result A) (s : Session) → Kept P (r, s) → P s.committed
Kept-committed P (ok a) s k = k.0
Kept-committed P (err e) s k = k

pub run_keeps :
    {A : Type 0} {P : Db → Type 0} (m : Action A) (db : Db)
    → Keeps P m (open_session db)
    → P db
    → P (run m db).1
unfolding run
run_keeps {P} m db km p =
    Kept-committed P (m (open_session db)).0 (m (open_session db)).1 (km.at p p)

-- The rules that need no fact about the property.
pub ruleset keeps_rules = (
  Keeps-pure, Keeps-raise, Keeps-or_raise, Keeps-commit, Keeps-raise_if, Keeps-if, Keeps-bind,
  Keeps-query-bind, Keeps-or_raise-bind, Keeps-raise_if-bind, Keeps-commit-bind,
)
