-- ===== src/Uuid/Numeral.antt =====
-- Hexadecimal numerals: the digits that `"%032x"` writes, and what `int(text, 16)` reads.
pub mod RoundTrip
use Prim.Native.Char.{Char}
use identity_access_service.Base.{
  ℕ, zero, suc, ◌+◌, ◌-◌, ◌*◌, ◌/◌, ◌%◌, String, Bool, true, false, ◌&&◌, ◌||◌, Option, none, some,
  List, [], ◌∷◌, leb, ◌==◌, nat_eq, if◌then◌else◌, char_at, strip, is_space, not,
}

-- the digit of a number below 16
unfoldable pub hex_digit : ℕ → Char
unfolding char_at
hex_digit d = char_at d "0123456789abcdef"

-- the last `k` digits of `n`, in front of a text
unfoldable pub hex : ℕ → ℕ → String → String
unfolding hex_digit
hex zero n rest = rest
hex (suc k) n rest = hex k (n / 16) (String.◌∷◌ (hex_digit (n % 16)) rest)

-- the digits zero of the decimal digits outside ASCII, in Unicode 15
abbrev zeros : List ℕ
zeros =
    1632 ∷ 1776 ∷ 1984 ∷ 2406 ∷ 2534 ∷ 2662 ∷ 2790 ∷ 2918 ∷ 3046 ∷ 3174 ∷ 3302 ∷ 3430 ∷ 3558 ∷ 3664
    ∷ 3792 ∷ 3872 ∷ 4160 ∷ 4240 ∷ 6112 ∷ 6160 ∷ 6470 ∷ 6608 ∷ 6784 ∷ 6800 ∷ 6992 ∷ 7088 ∷ 7232
    ∷ 7248 ∷ 42528 ∷ 43216 ∷ 43264 ∷ 43472 ∷ 43504 ∷ 43600 ∷ 44016 ∷ 65296 ∷ 66720 ∷ 68912 ∷ 69734
    ∷ 69872 ∷ 69942 ∷ 70096 ∷ 70384 ∷ 70736 ∷ 70864 ∷ 71248 ∷ 71360 ∷ 71472 ∷ 71904 ∷ 72016 ∷ 72784
    ∷ 73040 ∷ 73120 ∷ 73552 ∷ 92768 ∷ 92864 ∷ 93008 ∷ 120782 ∷ 120792 ∷ 120802 ∷ 120812 ∷ 120822
    ∷ 123200 ∷ 123632 ∷ 124144 ∷ 125264 ∷ 130032 ∷ []

decimal : List ℕ → ℕ → Option ℕ
decimal [] c = none
decimal (z ∷ zs) c =
    let rest = decimal zs c in if leb z c && leb c (z + 9) then some (c - z) else rest

unfoldable pub digit_value : ℕ → Option ℕ
unfolding decimal
digit_value c =
    if leb b'0' c && leb c b'9'
    then some (c - b'0')
    else if leb b'a' c && leb c b'f'
    then some (c - b'a' + 10)
    else if leb b'A' c && leb c b'F'
    then some (c - b'A' + 10)
    else decimal zeros c

-- The rest of a numeral: `acc` is the value so far, and an underscore stands only between digits.
unfoldable pub int_digits : ℕ → Bool → List ℕ → Option ℕ
unfolding digit_value
int_digits acc after_digit [] = if after_digit then some acc else none
int_digits acc after_digit (c ∷ s) =
    let underscore = int_digits acc false s in
    let value = digit_value c in
    let more = λ (d : ℕ). int_digits (acc * 16 + d) true s in
    if c == b'_' && after_digit then underscore else (elim value [ none ↦ none | some d ↦ more d ])

unfoldable after_plus : List ℕ → List ℕ
after_plus [] = []
after_plus (c ∷ s) = if c == b'+' then s else c ∷ s

unfoldable after_underscore : List ℕ → List ℕ
after_underscore [] = []
after_underscore (c ∷ s) = if c == b'_' then s else c ∷ s

-- `0x` may stand in front, and an underscore behind it
unfoldable after_0x : List ℕ → List ℕ
unfolding after_underscore
after_0x (zero_sign ∷ x ∷ s) =
    if zero_sign == b'0' && (x == b'x' || x == b'X') then after_underscore s else zero_sign ∷ x ∷ s
after_0x s = s

-- White space to `int`: that of `str.strip`, but for the four separators of ASCII.
unfoldable pub int_space : ℕ → Bool
unfolding is_space
int_space c = is_space c && not (leb 28 c && leb c 31)

-- `int(text, 16)` of a text with no `-`
unfoldable pub int_16 : List ℕ → Option ℕ
unfolding int_digits after_0x after_plus strip int_space
int_16 s = int_digits 0 false (after_0x (after_plus (strip int_space s)))
