-- ===== src/Base/Text.antt =====
-- Texts: what Python's `str` methods do, over code points.
use Prim.Native.Nat.{ℕ, zero, suc}
use Prim.Native.Char.{Char, code, nul}
use Prim.Native.String.{String}
use mathlib.Core.Bool.{Bool, true, false, ◌&&◌, ◌||◌}
use mathlib.Core.List.{List, [], ◌∷◌, reverse}
use identity_access_service.Base.Tests.{leb, ◌==◌, nat_eq, if◌then◌else◌}

abbrev pub codes : String → List ℕ
codes String.[] = []
codes (String.◌∷◌ c s) = code c ∷ codes s

-- `s[:n]`
unfoldable pub take : ℕ → String → String
take zero s = String.[]
take (suc n) String.[] = String.[]
take (suc n) (String.◌∷◌ c s) = String.◌∷◌ c (take n s)

-- `s[n]`
unfoldable pub char_at : ℕ → String → Char
char_at n String.[] = nul
char_at zero (String.◌∷◌ c s) = c
char_at (suc n) (String.◌∷◌ c s) = char_at n s

-- The white space of `str.strip()` and of `int`.
unfoldable pub is_space : ℕ → Bool
is_space c =
    leb 9 c && leb c 13
    || leb 28 c && leb c 32
    || c == 133
    || c == 160
    || c == 5760
    || leb 8192 c && leb c 8202
    || c == 8232
    || c == 8233
    || c == 8239
    || c == 8287
    || c == 12288

unfoldable pub drop_while : (ℕ → Bool) → List ℕ → List ℕ
drop_while p [] = []
drop_while p (c ∷ s) = let rest = drop_while p s in if p c then rest else c ∷ s

-- `s.strip(…)` of the characters that the test names
unfoldable pub strip : (ℕ → Bool) → List ℕ → List ℕ
unfolding drop_while
strip p s = reverse (drop_while p (reverse (drop_while p s)))

unfoldable pub is_prefix : List ℕ → List ℕ → Bool
is_prefix [] s = true
is_prefix (p ∷ ps) [] = false
is_prefix (p ∷ ps) (c ∷ s) = p == c && is_prefix ps s

-- `s.replace(pattern, "")` for a pattern of `suc more` characters; `skip` of the characters that a
-- match covers are still to be dropped.
unfoldable pub remove : List ℕ → ℕ → ℕ → List ℕ → List ℕ
unfolding is_prefix
remove pattern more skip [] = []
remove pattern more (suc skip) (c ∷ s) = remove pattern more skip s
remove pattern more zero (c ∷ s) =
    let found = remove pattern more more s in
    let kept = c ∷ remove pattern more zero s in if is_prefix pattern (c ∷ s) then found else kept
