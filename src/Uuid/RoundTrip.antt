-- ===== src/Uuid/RoundTrip.antt =====
-- `uuid.UUID` reads what `str` writes.
use Prim.Native.Char.{code}
use identity_access_service.Base.{
  ℕ, zero, suc, ◌%◌, ◌+◌, ◌*◌, ◌/◌, ◌^◌, ◌<◌, String, Bool, true, false, not, some, List, [], ◌∷◌,
  All, ◌≡◌, refl, ap, sym, ◌∙◌, arith, ◌==◌, nat_eq, codes, filter, remove, strip, length, Option,
  none, if◌then◌else◌,
}
use native.Mathlib.Nat.{div-div-eq-div-mul}
use identity_access_service.Base.Strip.{strip-All, remove-All}
use identity_access_service.Uuid.{str_uuid, dash, is_brace, parse_uuid}
use identity_access_service.Uuid.Numeral.{hex_digit, hex, int_16}
use identity_access_service.Uuid.Numeral.RoundTrip.{
  is_hex, hex_digit-is_hex, digits, codes-hex, All-digits, int_16-digits,
}

-- The five groups of digits, with something in front of each but the first.
module _ (between : List ℕ → List ℕ) where
  abbrev group_5 : ℕ → List ℕ
  group_5 n = between (digits 12 n [])

  abbrev group_4 : ℕ → List ℕ
  group_4 n = between (digits 4 (n / 2 ^ 48) (group_5 n))

  abbrev group_3 : ℕ → List ℕ
  group_3 n = between (digits 4 (n / 2 ^ 64) (group_4 n))

  abbrev group_2 : ℕ → List ℕ
  group_2 n = between (digits 4 (n / 2 ^ 80) (group_3 n))

  abbrev groups : ℕ → List ℕ
  groups n = digits 8 (n / 2 ^ 96) (group_2 n)

abbrev dashed : List ℕ → List ℕ
dashed s = b'-' ∷ s

abbrev joined : List ℕ → List ℕ
joined s = s

-- the codes of the text of an id
abbrev pub uuid_codes : ℕ → List ℕ
uuid_codes n = groups dashed n

text_5 : ℕ → String
text_5 n = dash (hex 12 n "")

text_4 : ℕ → String
text_4 n = dash (hex 4 (n / 2 ^ 48) (text_5 n))

text_3 : ℕ → String
text_3 n = dash (hex 4 (n / 2 ^ 64) (text_4 n))

text_2 : ℕ → String
text_2 n = dash (hex 4 (n / 2 ^ 80) (text_3 n))

pub codes-str_uuid : (n : ℕ) → codes (str_uuid n) ≡ uuid_codes n
unfolding str_uuid dash text_2 text_3 text_4 text_5
codes-str_uuid n =
    codes-hex 8 (n / 2 ^ 96) (text_2 n)
    ∙ ap (λ t. digits 8 (n / 2 ^ 96) (dashed t)) (codes-hex 4 (n / 2 ^ 80) (text_3 n))
    ∙ ap (λ t. digits 8 (n / 2 ^ 96) (dashed (digits 4 (n / 2 ^ 80) (dashed t))))
        (codes-hex 4 (n / 2 ^ 64) (text_4 n))
    ∙ ap
        (λ t.
          digits 8 (n / 2 ^ 96)
            (dashed (digits 4 (n / 2 ^ 80) (dashed (digits 4 (n / 2 ^ 64) (dashed t))))))
        (codes-hex 4 (n / 2 ^ 48) (text_5 n)
          ∙ ap (λ t. digits 4 (n / 2 ^ 48) (dashed t)) (codes-hex 12 n ""))

module _ {κ} (P : ℕ → Type κ) (h : (c : ℕ) → is_hex c ≡ true → P c) (d : P b'-') where
  -- What holds of the digits and of the dash holds of every character of an id.
  pub All-uuid_codes : (n : ℕ) → All P (uuid_codes n)
  All-uuid_codes n = All-digits P 8 (n / 2 ^ 96) (group_2 dashed n) h (
    d,
    All-digits P 4 (n / 2 ^ 80) (group_3 dashed n) h (
      d,
      All-digits P 4 (n / 2 ^ 64) (group_4 dashed n) h
          (d, All-digits P 4 (n / 2 ^ 48) (group_5 dashed n) h (d, All-digits P 12 n [] h tt)),
    ),
  )

abbrev is_digit : ℕ → Bool
is_digit c = not (c == b'-')

filter-digits :
    (k n : ℕ) (rest : List ℕ)
    → filter is_digit (digits k n rest) ≡ digits k n (filter is_digit rest)
unfolding filter
filter-digits zero n rest = refl
filter-digits (suc k) n rest =
    let digit = hex_digit-is_hex n in
    let kept : is_digit (code (hex_digit (n % 16))) ≡ true = ground arith in
    filter-digits k (n / 16) (code (hex_digit (n % 16)) ∷ rest)
    ∙ ap (digits k (n / 16)) (rw kept refl)

-- The digits of a quotient by a power of 16, before the last digits of the number, are its digits.
digits-digits :
    (a b n : ℕ) (rest : List ℕ) → digits a (n / 16 ^ b) (digits b n rest) ≡ digits (b + a) n rest
digits-digits a zero n rest =
    let whole : n / 16 ^ 0 ≡ n = omega arith in
    let same : 0 + a ≡ a = omega arith in rw (whole, same) refl
digits-digits a (suc b) n rest =
    let quotient : n / 16 ^ suc b ≡ n / 16 / 16 ^ b =
      let power : 16 ^ suc b ≡ 16 * 16 ^ b = omega arith in
      ap (λ d. n / d) power ∙ sym (div-div-eq-div-mul n 16 (16 ^ b)) in
    let longer : suc b + a ≡ suc (b + a) = omega arith in
    rw (quotient, longer) (digits-digits a b (n / 16) (code (hex_digit (n % 16)) ∷ rest))

filter-uuid_codes : (n : ℕ) → filter is_digit (uuid_codes n) ≡ digits 32 n []
unfolding filter
filter-uuid_codes n =
    filter-digits 8 (n / 2 ^ 96) (group_2 dashed n)
    ∙ ap (digits 8 (n / 2 ^ 96)) (
        filter-digits 4 (n / 2 ^ 80) (group_3 dashed n)
        ∙ ap (digits 4 (n / 2 ^ 80)) (
            filter-digits 4 (n / 2 ^ 64) (group_4 dashed n)
            ∙ ap (digits 4 (n / 2 ^ 64)) (
                filter-digits 4 (n / 2 ^ 48) (group_5 dashed n)
                ∙ ap (digits 4 (n / 2 ^ 48)) (filter-digits 12 n [])
                ∙ digits-digits 4 12 n [])
            ∙ digits-digits 4 16 n [])
        ∙ digits-digits 4 20 n [])
    ∙ digits-digits 8 24 n []

length-digits : (k n : ℕ) (rest : List ℕ) → length (digits k n rest) ≡ k + length rest
length-digits zero n rest = omega arith
length-digits (suc k) n rest =
    length-digits k (n / 16) (code (hex_digit (n % 16)) ∷ rest) ∙ omega arith

hex_is_no_u : (c : ℕ) → is_hex c ≡ true → (b'u' == c) ≡ false
hex_is_no_u c h = ground arith

hex_is_no_brace : (c : ℕ) → is_hex c ≡ true → is_brace c ≡ false
unfolding is_brace
hex_is_no_brace c h = ground arith

-- the rest of `parse_uuid`, once the prefixes are gone, and once the dashes are
abbrev parse_digits : List ℕ → Option ℕ
parse_digits s = if length s == 32 then int_16 s else none

abbrev parse_plain : List ℕ → Option ℕ
parse_plain s = parse_digits (filter is_digit (strip is_brace s))

-- The text of an id is read as that id.
pub parse_uuid-str_uuid : (n : ℕ) → n < 2 ^ 128 → parse_uuid (str_uuid n) ≡ some n
unfolding parse_uuid
parse_uuid-str_uuid n fits =
    let not_u = All-uuid_codes (λ c. (b'u' == c) ≡ false) hex_is_no_u refl n in
    let no_brace = All-uuid_codes (λ c. is_brace c ≡ false) hex_is_no_brace refl n in
    let plain : remove (codes "uuid:") 4 0 (remove (codes "urn:") 3 0 (uuid_codes n))
        ≡ uuid_codes n =
      ap (remove (codes "uuid:") 4 0) (remove-All b'u' (codes "rn:") 3 (uuid_codes n) not_u)
      ∙ remove-All b'u' (codes "uid:") 4 (uuid_codes n) not_u in
    let all_digits : filter is_digit (strip is_brace (uuid_codes n)) ≡ digits 32 n [] =
      ap (filter is_digit) (strip-All is_brace (uuid_codes n) no_brace) ∙ filter-uuid_codes n in
    ap parse_plain
      (ap (remove (codes "uuid:") 4 0) (ap (remove (codes "urn:") 3 0) (codes-str_uuid n)) ∙ plain)
    ∙ ap parse_digits all_digits
    ∙ rw (length-digits 32 n []) (int_16-digits 31 n (omega arith))
