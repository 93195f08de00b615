-- ===== src/Schemas/Lower.antt =====
-- What `lower` leaves of a text: no capital letter of ASCII.
use Prim.Native.Char.{Char, code}
use identity_access_service.Base.{
  ℕ, ◌-◌, ◌<◌, String, Bool, true, not, ◌&&◌, ◌≡◌, refl, arith, leb, char_at, Bool-cases, inl, inr,
  &&_true, nat_eq,
}
use identity_access_service.Base.Below.{all_below_sound}
use identity_access_service.Schemas.Text.{lower_char, lower_text, append, each}

abbrev pub is_capital : ℕ → Bool
is_capital c = leb b'A' c && leb c b'Z'

abbrev pub no_capitals : String → Bool
no_capitals s = each (λ c. not (is_capital c)) s

each-append :
    (p : ℕ → Bool) (s t : String) → each p s ≡ true → each p t ≡ true → each p (append s t) ≡ true
unfolding append
each-append p String.[] t hs ht = ht
each-append p (String.◌∷◌ c s) t hs ht =
    let (first, others) = &&_true (p (code c)) (each p s) hs in
    rw (first, each-append p s t others ht) refl

letter_is_small :
    (n : ℕ) → n < 26 → not (is_capital (code (char_at n "abcdefghijklmnopqrstuvwxyz"))) ≡ true
unfolding char_at
letter_is_small n low =
    all_below_sound 26 (λ n. not (is_capital (code (char_at n "abcdefghijklmnopqrstuvwxyz")))) n
      refl low

module _ (other : Char → String)
    (other_small : (c : Char) → leb 128 (code c) ≡ true → no_capitals (other c) ≡ true) where
  lower_char-small : (c : Char) → no_capitals (lower_char other c) ≡ true
  unfolding lower_char
  lower_char-small c = elim (Bool-cases (leb 128 (code c))) [
    | inl outside ↦ rw outside (other_small c outside)
    | inr ascii ↦ elim (Bool-cases (is_capital (code c))) [
      | inl capital ↦
          let low : code c - b'A' < 26 = ground arith in
          rw (ascii, capital, letter_is_small (code c - b'A') low) refl
      | inr small ↦ rw (ascii, small) (ground (arith, small))
    ]
  ]

  pub lower_text-small : (s : String) → no_capitals (lower_text other s) ≡ true
  unfolding lower_text
  lower_text-small String.[] = refl
  lower_text-small (String.◌∷◌ c s) =
      each-append (λ c. not (is_capital c)) (lower_char other c) (lower_text other s)
        (lower_char-small c) (lower_text-small s)
