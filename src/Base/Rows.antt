-- ===== src/Base/Rows.antt =====
-- Laws of the selections and updates of `Base.Lists`.
use mathlib.Core.Path.{◌≡◌, refl, ◌∙◌, sym, subst}
use mathlib.Core.Logic.{inl, inr}
use mathlib.Core.Bool.{Bool, true, false, false≢true}
use mathlib.Core.Option
use mathlib.Core.Option.{Option, none, some}
use mathlib.Core.List.{List, [], ◌∷◌, map}
use native.Mathlib.Omega.{arith}
use identity_access_service.Base.Tests.{if◌then◌else◌, Bool-cases, is_some}
use identity_access_service.Base.Lists.{first, any, filter, update, All}

module _ {ℓ} {A : Type ℓ} where
  -- The row that is found passes the test.
  pub first_sound : (p : A → Bool) (xs : List A) {x : A} → first p xs ≡ some x → p x ≡ true
  unfolding first
  first_sound p [] h = cc
  first_sound p (y ∷ xs) {x} h = elim (Bool-cases (p y)) [
    | inl t ↦ let e : y ≡ x = ground arith in rw e at t
    | inr f ↦ first_sound p xs (rw f at h)
  ]

  pub any-first : (p : A → Bool) (xs : List A) → any p xs ≡ is_some (first p xs)
  unfolding first any
  any-first p [] = refl
  any-first p (x ∷ xs) = ground (arith, any-first p xs)

  -- A test that the assignment keeps.
  module _ (p q : A → Bool) (f : A → A) (same : (x : A) → q (f x) ≡ q x) where
    pub any-update : (xs : List A) → any q (update p f xs) ≡ any q xs
    unfolding any update
    any-update [] = refl
    any-update (x ∷ xs) = ground (arith, same x, any-update xs)

    pub is_some-first-update :
        (xs : List A) → is_some (first q (update p f xs)) ≡ is_some (first q xs)
    unfolding first update
    is_some-first-update [] = refl
    is_some-first-update (x ∷ xs) = ground (arith, same x, is_some-first-update xs)

  pub any_congr : (p q : A → Bool) (xs : List A) → ((x : A) → p x ≡ q x) → any p xs ≡ any q xs
  unfolding any
  any_congr p q [] h = refl
  any_congr p q (x ∷ xs) h = ground (arith, h x, any_congr p q xs h)

  pub All-map {κ μ} :
      {P : A → Type κ} {Q : A → Type μ} (xs : List A) → ((x : A) → P x → Q x) → All P xs → All Q xs
  All-map [] h all = tt
  All-map (x ∷ xs) h (px, all) = (h x px, All-map xs h all)

  pub All-update {κ} :
      {P : A → Type κ} (p : A → Bool) (f : A → A) (xs : List A)
      → ((x : A) → P x → P (f x))
      → All P xs
      → All P (update p f xs)
  unfolding update
  All-update p f [] h all = tt
  All-update {P} p f (x ∷ xs) h (px, all) =
      (elim (Bool-cases (p x)) [ inl t ↦ rw t (h x px) | inr n ↦ rw n px ], All-update p f xs h all)

  -- No two rows of the list clash.
  abbrev pub Distinct : (A → A → Bool) → List A → Type 0
  Distinct clash [] = Unit {0}
  Distinct clash (x ∷ xs) = (any (clash x) xs ≡ false) × Distinct clash xs

  pub Distinct-update :
      (clash : A → A → Bool) (p : A → Bool) (f : A → A) (xs : List A)
      → ((x y : A) → clash x (f y) ≡ clash x y)
      → ((x y : A) → clash (f x) y ≡ clash x y)
      → Distinct clash xs
      → Distinct clash (update p f xs)
  unfolding update
  Distinct-update clash p f [] right left d = tt
  Distinct-update clash p f (x ∷ xs) right left (fresh, d) = (
    elim (Bool-cases (p x)) [
      | inl t ↦ rw t (
          any_congr (clash (f x)) (clash x) (update p f xs) (left x)
          ∙ any-update p (clash x) f (right x) xs
          ∙ fresh)
      | inr n ↦ rw n (any-update p (clash x) f (right x) xs ∙ fresh)
    ],
    Distinct-update clash p f xs right left d,
  )

  -- What a query finds after an assignment that keeps its test.
  pub first-update :
      (p q : A → Bool) (f : A → A)
      → ((x : A) → q (f x) ≡ q x)
      → (xs : List A)
      → first q (update p f xs) ≡ Option.map (λ x. if p x then f x else x) (first q xs)
  unfolding first update
  first-update p q f same [] = refl
  first-update p q f same (x ∷ xs) = ground (arith, same x, first-update p q f same xs)

  -- What holds of no row does not hold of the row that a query finds.
  pub first-any :
      (p q : A → Bool) (xs : List A) {x : A} → first p xs ≡ some x → any q xs ≡ false → q x ≡ false
  unfolding first any
  first-any p q [] h clear = cc
  first-any p q (y ∷ xs) {x} h clear = elim (Bool-cases (p y)) [
    | inl t ↦ let e : y ≡ x = ground arith in rw (← e) (ground arith)
    | inr f ↦ first-any p q xs (rw f at h) (ground arith)
  ]

  none_clash :
      (clash : A → A → Bool) (x : A) (xs : List A)
      → any (clash x) xs ≡ false
      → All (λ r. clash x r ≡ true → clash r x ≡ true → r ≡ x) xs
  unfolding any
  none_clash clash x [] clear = tt
  none_clash clash x (y ∷ xs) clear = (λ c _. cc (c, clear), none_clash clash x xs (ground arith))

  -- Among distinct rows, one that clashes with the row that a query finds is that row.
  pub Distinct-first :
      (clash : A → A → Bool) (p : A → Bool) (xs : List A) {u : A}
      → Distinct clash xs
      → first p xs ≡ some u
      → All (λ r. clash u r ≡ true → clash r u ≡ true → r ≡ u) xs
  unfolding first
  Distinct-first clash p [] d h = tt
  Distinct-first clash p (x ∷ xs) {u} (fresh, d) h = elim (Bool-cases (p x)) [
    | inl t ↦
        let e : x ≡ u = ground arith in
        (
          λ _ _. e,
          subst (λ v. All (λ r. clash v r ≡ true → clash r v ≡ true → r ≡ v) xs) e
              (none_clash clash x xs fresh),
        )
    | inr f ↦ (
      λ _ c. absurd (false≢true (sym (first-any p (clash x) xs (rw f at h) fresh) ∙ c)),
      Distinct-first clash p xs d (rw f at h),
    )
  ]

  -- An assignment to rows that a selection leaves out before and after it.
  pub filter-update :
      (q p : A → Bool) (f : A → A) (xs : List A)
      → All (λ x. p x ≡ true → (q x ≡ false) × (q (f x) ≡ false)) xs
      → filter q (update p f xs) ≡ filter q xs
  unfolding filter update
  filter-update q p f [] h = refl
  filter-update q p f (x ∷ xs) (hx, h) = ground (arith, hx, filter-update q p f xs h)

  -- An assignment that a selection and a view do not see.
  pub view-update {κ} :
      {B : Type κ} (view : A → B) (q p : A → Bool) (f : A → A)
      → ((x : A) → q (f x) ≡ q x)
      → ((x : A) → view (f x) ≡ view x)
      → (xs : List A) → map view (filter q (update p f xs)) ≡ map view (filter q xs)
  unfolding filter update
  view-update view q p f same_q same_view [] = refl
  view-update view q p f same_q same_view (x ∷ xs) =
      ground (arith, same_q x, same_view x, view-update view q p f same_q same_view xs)

  pub map-update {κ} :
      {B : Type κ} (view : A → B) (p : A → Bool) (f : A → A)
      → ((x : A) → view (f x) ≡ view x)
      → (xs : List A) → map view (update p f xs) ≡ map view xs
  unfolding update
  map-update view p f same [] = refl
  map-update view p f same (x ∷ xs) = ground (arith, same x, map-update view p f same xs)

  pub All-of {κ} : {P : A → Type κ} (xs : List A) → ((x : A) → P x) → All P xs
  All-of [] h = tt
  All-of (x ∷ xs) h = (h x, All-of xs h)

  -- What holds of every row holds of the row that a query finds.
  pub first-All {κ} :
      (P : A → Type κ) (p : A → Bool) (xs : List A) {x : A} → first p xs ≡ some x → All P xs → P x
  unfolding first
  first-All P p [] h all = absurd (cc)
  first-All P p (y ∷ xs) h (py, all) = elim (Bool-cases (p y)) [
    | inl t ↦ subst P (ground arith) py
    | inr f ↦ first-All P p xs (rw f at h) all
  ]

  -- A row that a query finds is there for every test that it passes.
  pub row_is_some :
      (p q : A → Bool) (xs : List A) {x : A}
      → first p xs ≡ some x
      → q x ≡ true
      → is_some (first q xs) ≡ true
  row_is_some p q xs found passes = elim (Bool-cases (any q xs)) [
    | inl there ↦ sym (any-first q xs) ∙ there
    | inr nowhere ↦ absurd (ground (arith, first-any p q xs found nowhere))
  ]
