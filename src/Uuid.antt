-- ===== src/Uuid.antt =====
-- Python's `uuid.UUID`, which the code reads from text and writes as text.
pub mod Numeral
pub mod RoundTrip
use identity_access_service.Base.{
  ℕ, ◌/◌, ◌^◌, String, Bool, not, ◌||◌, Option, none, List, [], ◌∷◌, ◌==◌, nat_eq, if◌then◌else◌,
  length, filter, codes, strip, remove, some, ◌≡◌, refl,
}
use Numeral.{hex, int_16}

unfoldable dash : String → String
dash rest = String.◌∷◌ "-" rest

-- `str(value)`: eight, four, four, four and twelve lower case digits, with dashes between.
unfoldable pub str_uuid : ℕ → String
unfolding hex dash
str_uuid n = hex 8 (n / 2 ^ 96) (
    dash (
      hex 4 (n / 2 ^ 80)
        (dash (hex 4 (n / 2 ^ 64) (dash (hex 4 (n / 2 ^ 48) (dash (hex 12 n ""))))))))

unfoldable is_brace : ℕ → Bool
is_brace c = c == b'{' || c == b'}'

-- `uuid.UUID(text)`; `none` is its ValueError
unfoldable pub parse_uuid : String → Option ℕ
unfolding filter remove strip is_brace int_16
parse_uuid text =
    let plain = remove (codes "urn:") 3 0 (codes text) in
    let plain = remove (codes "uuid:") 4 0 plain in
    let digits = filter (λ c. not (c == b'-')) (strip is_brace plain) in
    if length digits == 32 then int_16 digits else none

str_uuid_example :
    str_uuid 0x0123456789abcdef0011223344556677 ≡ "01234567-89ab-cdef-0011-223344556677"
unfolding str_uuid
str_uuid_example = refl

parse_uuid_example :
    parse_uuid "{urn:uuid:01234567-89AB-cdef-0011-223344556677}"
    ≡ some 0x0123456789abcdef0011223344556677
unfolding parse_uuid
parse_uuid_example = refl
