-- ===== src/Schemas/Laws.antt =====
-- Normalised texts: `strip` and `lower` leave them as they are.
use Prim.Native.Char.{Char, code}
use identity_access_service.Base.{
  ℕ, String, Bool, true, false, ◌≡◌, refl, ap, ◌∙◌, sym, arith, ◌==◌, nat_eq, ◌||◌, Bool-cases, inl,
  inr, &&_true, is_space,
}
use identity_access_service.Schemas.Text.{
  lstrip, rstrip, strip_text, lower_char, lower_text, append, each,
}
use identity_access_service.Schemas.Slug.{matches, slug_pattern, is_word_char}

-- A text that begins with no space.
module _ (c : Char) (s : String) (no_space : is_space (code c) ≡ false) where
  lstrip_from : lstrip (String.◌∷◌ c s) ≡ String.◌∷◌ c s
  unfolding lstrip
  lstrip_from = rw no_space refl

  rstrip_from : rstrip (String.◌∷◌ c s) ≡ String.◌∷◌ c (rstrip s)
  unfolding rstrip
  rstrip_from = rw no_space refl

lstrip-rstrip : (s : String) → lstrip (rstrip (lstrip s)) ≡ rstrip (lstrip s)
unfolding lstrip rstrip
lstrip-rstrip String.[] = refl
lstrip-rstrip (String.◌∷◌ c s) = elim (Bool-cases (is_space (code c))) [
  | inl t ↦ rw t (lstrip-rstrip s)
  | inr f ↦
      rw f (ap lstrip (rstrip_from c s f) ∙ lstrip_from c (rstrip s) f ∙ sym (rstrip_from c s f))
]

rstrip-rstrip : (s : String) → rstrip (rstrip s) ≡ rstrip s
unfolding rstrip
rstrip-rstrip String.[] = refl
rstrip-rstrip (String.◌∷◌ c s) = ground (arith, rstrip-rstrip s)

-- A text that was stripped has nothing more to strip.
pub strip_text-strip_text : (s : String) → strip_text (strip_text s) ≡ strip_text s
unfolding strip_text
strip_text-strip_text s = ap rstrip (lstrip-rstrip s) ∙ rstrip-rstrip (lstrip s)

abbrev is_slug_char : ℕ → Bool
is_slug_char c = is_word_char c || c == b'-'

each_slug_char : (begun : Bool) (s : String) → matches begun s ≡ true → each is_slug_char s ≡ true
unfolding matches
each_slug_char begun String.[] h = refl
each_slug_char begun (String.◌∷◌ c s) h =
    ground (arith, each_slug_char true s, each_slug_char false s)

slug_char_is_no_space : (c : ℕ) → is_slug_char c ≡ true → is_space c ≡ false
unfolding is_space
slug_char_is_no_space c h = ground arith

lstrip-slug : (s : String) → each is_slug_char s ≡ true → lstrip s ≡ s
unfolding lstrip
lstrip-slug String.[] h = refl
lstrip-slug (String.◌∷◌ c s) h =
    rw
      (slug_char_is_no_space (code c) ((&&_true (is_slug_char (code c)) (each is_slug_char s) h).0))
      refl

rstrip-slug : (s : String) → each is_slug_char s ≡ true → rstrip s ≡ s
unfolding rstrip
rstrip-slug String.[] h = refl
rstrip-slug (String.◌∷◌ c s) h =
    let (slug, others) = &&_true (is_slug_char (code c)) (each is_slug_char s) h in
    rw (slug_char_is_no_space (code c) slug, rstrip-slug s others) refl

lower_char-slug :
    (other : Char → String) (c : Char)
    → is_slug_char (code c) ≡ true
    → lower_char other c ≡ String.◌∷◌ c ""
unfolding lower_char
lower_char-slug other c h = ground arith

lower_text-slug :
    (other : Char → String) (s : String) → each is_slug_char s ≡ true → lower_text other s ≡ s
unfolding lower_text append
lower_text-slug other String.[] h = refl
lower_text-slug other (String.◌∷◌ c s) h =
    let (slug, others) = &&_true (is_slug_char (code c)) (each is_slug_char s) h in
    rw (lower_char-slug other c slug, lower_text-slug other s others) refl

-- A slug is left as it is.
pub slug-strip_lower :
    (other : Char → String) (s : String)
    → slug_pattern s ≡ true
    → lower_text other (strip_text s) ≡ s
unfolding slug_pattern strip_text
slug-strip_lower other s h =
    let chars = each_slug_char false s h in
    ap (λ t. lower_text other (rstrip t)) (lstrip-slug s chars)
    ∙ ap (lower_text other) (rstrip-slug s chars)
    ∙ lower_text-slug other s chars
