-- ===== src/Base/Strip.antt =====
-- Texts that `strip` and `replace` leave as they are.
use mathlib.Core.List.{reverse_aux, reverse-reverse}
use mathlib.Core.Path.{◌≡◌, refl, ap, ◌∙◌}
use mathlib.Core.Bool.{Bool, false}
use mathlib.Core.List.{List, [], ◌∷◌, reverse}
use Prim.Native.Nat.{ℕ}
use identity_access_service.Base.Tests.{◌==◌, nat_eq}
use identity_access_service.Base.Lists.{All}
use identity_access_service.Base.Text.{drop_while, strip, is_prefix, remove}

All-reverse_aux {κ} :
    (P : ℕ → Type κ) (xs ys : List ℕ) → All P xs → All P ys → All P (reverse_aux xs ys)
All-reverse_aux P [] ys none all = all
All-reverse_aux P (x ∷ xs) ys (px, others) all = All-reverse_aux P xs (x ∷ ys) others (px, all)

module _ (p : ℕ → Bool) where
  drop_while-All : (s : List ℕ) → All (λ c. p c ≡ false) s → drop_while p s ≡ s
  unfolding drop_while
  drop_while-All [] _ = refl
  drop_while-All (c ∷ s) (kept, others) = rw kept refl

  pub strip-All : (s : List ℕ) → All (λ c. p c ≡ false) s → strip p s ≡ s
  unfolding strip
  strip-All s all =
      ap (λ t. reverse (drop_while p (reverse t))) (drop_while-All s all)
      ∙ ap reverse (drop_while-All (reverse s) (All-reverse_aux (λ c. p c ≡ false) s [] all tt))
      ∙ reverse-reverse s

-- A pattern whose first character does not occur is not found.
pub remove-All :
    (x : ℕ) (xs : List ℕ) (more : ℕ) (s : List ℕ)
    → All (λ c. (x == c) ≡ false) s
    → remove (x ∷ xs) more 0 s ≡ s
unfolding remove is_prefix
remove-All x xs more [] _ = refl
remove-All x xs more (c ∷ s) (other, others) = rw (other, remove-All x xs more s others) refl
