-- ===== src/Schemas/Text.antt =====
-- The methods of `str` that the validators call.
use Prim.Native.Char.{Char, code}
use identity_access_service.Base.{
  ℕ, suc, ◌-◌, String, Bool, true, false, ◌&&◌, leb, if◌then◌else◌, char_at, is_space,
}

-- `s + t`
unfoldable pub append : String → String → String
append String.[] t = t
append (String.◌∷◌ c s) t = String.◌∷◌ c (append s t)

-- `len(s)`
unfoldable pub len : String → ℕ
len String.[] = 0
len (String.◌∷◌ c s) = suc (len s)

unfoldable pub lstrip : String → String
unfolding is_space
lstrip String.[] = ""
lstrip (String.◌∷◌ c s) = let rest = lstrip s in if is_space (code c) then rest else String.◌∷◌ c s

abbrev is_blank : String → Bool
is_blank String.[] = true
is_blank (String.◌∷◌ c s) = false

unfoldable pub rstrip : String → String
unfolding is_space
rstrip String.[] = ""
rstrip (String.◌∷◌ c s) =
    let rest = rstrip s in if is_space (code c) && is_blank rest then "" else String.◌∷◌ c rest

-- `s.strip()`
unfoldable pub strip_text : String → String
unfolding lstrip rstrip
strip_text s = rstrip (lstrip s)

-- `c.lower()`, with the mapping of the characters outside ASCII
unfoldable pub lower_char : (Char → String) → Char → String
unfolding char_at
lower_char other c =
    if leb 128 (code c)
    then other c
    else if leb b'A' (code c) && leb (code c) b'Z'
    then String.◌∷◌ (char_at (code c - b'A') "abcdefghijklmnopqrstuvwxyz") ""
    else String.◌∷◌ c ""

-- `s.lower()`, but for the sigma at the end of a word
unfoldable pub lower_text : (Char → String) → String → String
unfolding lower_char append
lower_text other String.[] = ""
lower_text other (String.◌∷◌ c s) = append (lower_char other c) (lower_text other s)

-- Every character passes the test.
abbrev pub each : (ℕ → Bool) → String → Bool
each p String.[] = true
each p (String.◌∷◌ c s) = p (code c) && each p s
