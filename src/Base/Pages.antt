-- ===== src/Base/Pages.antt =====
-- ORDER BY, OFFSET and LIMIT: a sorted table is a rearrangement of its rows, in order, and the pages of
-- a table that follow one another make up the table.
use mathlib.Core.List.{Perm}
use mathlib.Core.List.Perm
use mathlib.Core.Path.{◌≡◌, refl, ◌∙◌, ap, sym}
use mathlib.Core.Logic.{inl, inr}
use mathlib.Core.Bool.{Bool, true, false}
use mathlib.Core.List.{List, [], ◌∷◌, ◌++◌, map}
use Prim.Native.Nat.{ℕ, zero, suc, ◌+◌, ◌-◌, ◌*◌, ◌≤◌, min}
use native.Mathlib.Omega.{arith}
use identity_access_service.Base.Tests.{Bool-cases}
use identity_access_service.Base.Lists.{length, All, insert_by, sort, filter}
use identity_access_service.Base.Rows.{All-map}

module _ {ℓ} {A : Type ℓ} where
  unfoldable pub offset : ℕ → List A → List A
  offset zero xs = xs
  offset (suc n) [] = []
  offset (suc n) (x ∷ xs) = offset n xs

  unfoldable pub limit : ℕ → List A → List A
  limit zero xs = []
  limit (suc n) [] = []
  limit (suc n) (x ∷ xs) = x ∷ limit n xs

  pub limit-offset : (n : ℕ) (xs : List A) → limit n xs ++ offset n xs ≡ xs
  unfolding limit offset
  limit-offset zero xs = refl
  limit-offset (suc n) [] = refl
  limit-offset (suc n) (x ∷ xs) = rw (limit-offset n xs) refl

  pub offset_all : (n : ℕ) (xs : List A) → length xs ≤ n → offset n xs ≡ []
  unfolding offset
  offset_all zero [] h = refl
  offset_all zero (x ∷ xs) h = absurd (omega arith)
  offset_all (suc n) [] h = refl
  offset_all (suc n) (x ∷ xs) h = offset_all n xs (omega arith)

  pub offset-offset : (m n : ℕ) (xs : List A) → offset m (offset n xs) ≡ offset (n + m) xs
  unfolding offset
  offset-offset m zero xs = ap (λ k. offset k xs) (omega arith)
  offset-offset m (suc n) [] =
      offset_all m [] (omega arith) ∙ sym (offset_all (suc n + m) [] (omega arith))
  offset-offset m (suc n) (x ∷ xs) = offset-offset m n xs ∙ ap (λ k. offset k (x ∷ xs)) (next n m)
    where
      next : (n m : ℕ) → suc (n + m) ≡ suc n + m
      next n m = omega arith

  pub length-limit : (n : ℕ) (xs : List A) → length (limit n xs) ≡ min n (length xs)
  unfolding limit
  length-limit zero xs = omega arith
  length-limit (suc n) [] = omega arith
  length-limit (suc n) (x ∷ xs) = omega (arith, length-limit n xs)

  pub All-offset {κ} : (P : A → Type κ) (n : ℕ) (xs : List A) → All P xs → All P (offset n xs)
  unfolding offset
  All-offset P zero xs all = all
  All-offset P (suc n) [] all = tt
  All-offset P (suc n) (x ∷ xs) (px, all) = All-offset P n xs all

  pub All-limit {κ} : (P : A → Type κ) (n : ℕ) (xs : List A) → All P xs → All P (limit n xs)
  unfolding limit
  All-limit P zero xs all = tt
  All-limit P (suc n) [] all = tt
  All-limit P (suc n) (x ∷ xs) (px, all) = (px, All-limit P n xs all)

  pub length-map {κ} : {B : Type κ} (f : A → B) (xs : List A) → length (map f xs) ≡ length xs
  length-map f [] = refl
  length-map f (x ∷ xs) = omega (arith, length-map f xs)

  pub All-map_of {κ μ} :
      {B : Type κ} (P : B → Type μ) (f : A → B) (xs : List A)
      → All (λ x. P (f x)) xs
      → All P (map f xs)
  All-map_of P f [] all = tt
  All-map_of P f (x ∷ xs) (px, all) = (px, All-map_of P f xs all)

  pub All-filter : (p : A → Bool) (xs : List A) → All (λ x. p x ≡ true) (filter p xs)
  unfolding filter
  All-filter p [] = tt
  All-filter p (x ∷ xs) = elim (Bool-cases (p x)) [
    | inl t ↦ rw t (t, All-filter p xs)
    | inr f ↦ rw f (All-filter p xs)
  ]

  pub length-offset : (n : ℕ) (xs : List A) → length (offset n xs) ≡ length xs - n
  unfolding offset
  length-offset zero xs = omega arith
  length-offset (suc n) [] = omega arith
  length-offset (suc n) (x ∷ xs) = omega (arith, length-offset n xs)

  -- The pages of `size` rows from a row on, one after the other.
  unfoldable pub pages : ℕ → ℕ → ℕ → List A → List A
  pages size zero start xs = []
  pages size (suc more) start xs = limit size (offset start xs) ++ pages size more (start + size) xs

  pub pages_cover :
      (size n start : ℕ) (xs : List A)
      → length xs ≤ start + n * size
      → pages size n start xs ≡ offset start xs
  unfolding pages
  pages_cover size zero start xs h = sym (offset_all start xs (omega arith))
  pages_cover size (suc n) start xs h =
      rw
        (
          pages_cover size n (start + size) xs (omega arith),
          ← offset-offset size start xs,
          limit-offset size (offset start xs),
        )
        refl

  module _ (le : A → A → Bool) where
    insert_by-perm : (x : A) (xs : List A) → Perm (insert_by le x xs) (x ∷ xs)
    unfolding insert_by
    insert_by-perm x [] = Perm.refl _
    insert_by-perm x (y ∷ ys) = elim (Bool-cases (le x y)) [
      | inl t ↦ rw t (Perm.refl _)
      | inr f ↦ rw f (Perm.trans (Perm.cons y (insert_by-perm x ys)) (Perm.swap x y ys))
    ]

    length-insert_by : (x : A) (xs : List A) → length (insert_by le x xs) ≡ suc (length xs)
    unfolding insert_by
    length-insert_by x [] = refl
    length-insert_by x (y ∷ ys) = ground (arith, length-insert_by x ys)

    pub length-sort : (xs : List A) → length (sort le xs) ≡ length xs
    unfolding sort
    length-sort [] = refl
    length-sort (x ∷ xs) = omega (arith, length-insert_by x (sort le xs), length-sort xs)

    pub sort-perm : (xs : List A) → Perm (sort le xs) xs
    unfolding sort
    sort-perm [] = Perm.refl []
    sort-perm (x ∷ xs) = Perm.trans (insert_by-perm x (sort le xs)) (Perm.cons x (sort-perm xs))

    pub All-insert_by {κ} :
        (P : A → Type κ) (x : A) (xs : List A) → P x → All P xs → All P (insert_by le x xs)
    unfolding insert_by
    All-insert_by P x [] px all = (px, tt)
    All-insert_by P x (y ∷ ys) px (py, all) = elim (Bool-cases (le x y)) [
      | inl t ↦ rw t (px, (py, all))
      | inr f ↦ rw f (py, All-insert_by P x ys px all)
    ]

    pub All-sort {κ} : (P : A → Type κ) (xs : List A) → All P xs → All P (sort le xs)
    unfolding sort
    All-sort P [] all = tt
    All-sort P (x ∷ xs) (px, all) = All-insert_by P x (sort le xs) px (All-sort P xs all)

    -- Every row stands before the rows that follow it.
    abbrev pub IsOrdered : List A → Type 0
    IsOrdered [] = Unit
    IsOrdered (x ∷ xs) = All (λ y. le x y ≡ true) xs × IsOrdered xs

    module _ (total : (x y : A) → le x y ≡ false → le y x ≡ true)
        (trans : (x y z : A) → le x y ≡ true → le y z ≡ true → le x z ≡ true) where
      insert_by-IsOrdered : (x : A) (xs : List A) → IsOrdered xs → IsOrdered (insert_by le x xs)
      unfolding insert_by
      insert_by-IsOrdered x [] o = (tt, tt)
      insert_by-IsOrdered x (y ∷ ys) (all, o) = elim (Bool-cases (le x y)) [
        | inl t ↦ rw t ((t, All-map ys (λ z. trans x y z t) all), (all, o))
        | inr f ↦ rw f (All-insert_by _ x ys (total x y f) all, insert_by-IsOrdered x ys o)
      ]

      pub sort-IsOrdered : (xs : List A) → IsOrdered (sort le xs)
      unfolding sort
      sort-IsOrdered [] = tt
      sort-IsOrdered (x ∷ xs) = insert_by-IsOrdered x (sort le xs) (sort-IsOrdered xs)
