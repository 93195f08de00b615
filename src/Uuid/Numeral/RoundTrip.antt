-- ===== src/Uuid/Numeral/RoundTrip.antt =====
-- `int(text, 16)` reads the number that the digits of `hex` write.
use Prim.Native.Char.{code}
use identity_access_service.Base.{
  ℕ, zero, suc, ◌+◌, ◌*◌, ◌/◌, ◌%◌, ◌^◌, ◌<◌, String, Bool, true, false, ◌&&◌, ◌||◌, some, none,
  List, [], ◌∷◌, All, ◌≡◌, refl, ap, ◌∙◌, arith, leb, ◌==◌, nat_eq, codes, char_at, is_space,
  Option,
}
use identity_access_service.Base.Below.{all_below_sound}
use identity_access_service.Base.Strip.{strip-All}
use identity_access_service.Uuid.Numeral.{
  hex_digit, hex, digit_value, int_digits, after_plus, after_0x, int_16, int_space,
}

-- The lower case hexadecimal digits.
abbrev pub is_hex : ℕ → Bool
is_hex c = leb b'0' c && leb c b'9' || leb b'a' c && leb c b'f'

-- the codes of the last `k` digits of `n`, in front of others
abbrev pub digits : ℕ → ℕ → List ℕ → List ℕ
digits zero n rest = rest
digits (suc k) n rest = digits k (n / 16) (code (hex_digit (n % 16)) ∷ rest)

pub codes-hex : (k n : ℕ) (rest : String) → codes (hex k n rest) ≡ digits k n (codes rest)
unfolding hex
codes-hex zero n rest = refl
codes-hex (suc k) n rest = codes-hex k (n / 16) _

abbrev is_read_as : ℕ → Option ℕ → Bool
is_read_as d none = false
is_read_as d (some v) = v == d

is_read_as_sound : (d : ℕ) (o : Option ℕ) → is_read_as d o ≡ true → o ≡ some d
is_read_as_sound d none h = ground arith
is_read_as_sound d (some v) h = ap some (ground arith)

pub hex_digit-is_hex : (n : ℕ) → is_hex (code (hex_digit (n % 16))) ≡ true
unfolding hex_digit char_at
hex_digit-is_hex n =
    all_below_sound 16 (λ d. is_hex (code (hex_digit d))) (n % 16) refl (omega arith)

digit_value-hex_digit : (n : ℕ) → digit_value (code (hex_digit (n % 16))) ≡ some (n % 16)
unfolding hex_digit char_at digit_value
digit_value-hex_digit n = is_read_as_sound (n % 16) _ (
    all_below_sound 16 (λ d. is_read_as d (digit_value (code (hex_digit d)))) (n % 16) refl
      (omega arith))

hex_is_no_space : (c : ℕ) → is_hex c ≡ true → int_space c ≡ false
unfolding int_space is_space
hex_is_no_space c h = ground arith

-- A property of the hexadecimal digits holds of all that `digits` writes.
pub All-digits {κ} :
    (P : ℕ → Type κ) (k n : ℕ) (rest : List ℕ)
    → ((c : ℕ) → is_hex c ≡ true → P c)
    → All P rest
    → All P (digits k n rest)
All-digits P zero n rest h all = all
All-digits P (suc k) n rest h all = All-digits P k (n / 16) _ h (h _ (hex_digit-is_hex n), all)

-- the value that `suc k` digits add to those before
abbrev value : ℕ → ℕ → ℕ → ℕ
value zero acc n = acc * 16 + n % 16
value (suc k) acc n = value k acc (n / 16) * 16 + n % 16

value_lem : (k n : ℕ) → n < 16 ^ suc k → value k 0 n ≡ n
value_lem zero n h = omega arith
value_lem (suc k) n h = rw (value_lem k (n / 16) (omega arith)) (omega arith)

int_digits-cons :
    (acc : ℕ) (after_digit : Bool) (n : ℕ) (rest : List ℕ)
    → int_digits acc after_digit (code (hex_digit (n % 16)) ∷ rest)
      ≡ int_digits (acc * 16 + n % 16) true rest
unfolding int_digits
int_digits-cons acc after_digit n rest =
    let no_underscore : (code (hex_digit (n % 16)) == b'_') ≡ false =
      let digit = hex_digit-is_hex n in ground arith in
    rw (no_underscore, digit_value-hex_digit n) refl

int_digits-digits :
    (k acc : ℕ) (after_digit : Bool) (n : ℕ) (rest : List ℕ)
    → int_digits acc after_digit (digits (suc k) n rest) ≡ int_digits (value k acc n) true rest
int_digits-digits zero acc after_digit n rest = int_digits-cons acc after_digit n rest
int_digits-digits (suc k) acc after_digit n rest =
    int_digits-digits k acc after_digit (n / 16) _
    ∙ int_digits-cons (value k acc (n / 16)) true n rest

after_plus-All : (s : List ℕ) → All (λ c. is_hex c ≡ true) s → after_plus s ≡ s
unfolding after_plus
after_plus-All [] _ = refl
after_plus-All (c ∷ s) (digit, others) = ground arith

after_0x-All : (s : List ℕ) → All (λ c. is_hex c ≡ true) s → after_0x s ≡ s
unfolding after_0x
after_0x-All [] _ = refl
after_0x-All (c ∷ []) all = refl
after_0x-All (c ∷ d ∷ s) (digit, (next, others)) = ground arith

-- The digits of a number that fits in them are read as that number.
pub int_16-digits : (k n : ℕ) → n < 16 ^ suc k → int_16 (digits (suc k) n []) ≡ some n
unfolding int_16 int_digits
int_16-digits k n fits =
    let s = digits (suc k) n [] in
    let all : All (λ c. is_hex c ≡ true) s =
      All-digits (λ c. is_hex c ≡ true) (suc k) n [] (λ c h. h) tt in
    let no_space : All (λ c. int_space c ≡ false) s =
      All-digits (λ c. int_space c ≡ false) (suc k) n [] hex_is_no_space tt in
    ap (λ t. int_digits 0 false (after_0x (after_plus t))) (strip-All int_space s no_space)
    ∙ ap (λ t. int_digits 0 false (after_0x t)) (after_plus-All s all)
    ∙ ap (int_digits 0 false) (after_0x-All s all)
    ∙ int_digits-digits k 0 false n []
    ∙ ap some (value_lem k n fits)
