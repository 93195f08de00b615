-- ===== src/Schemas/Slug.antt =====
-- The pattern of tenant slugs, `^[a-z0-9]+(?:-[a-z0-9]+)*$`, and the texts that it matches.
use Prim.Native.Char.{Char, code}
use text.Mathlib.TextLemmas.{cons≢nil}
use text.Mathlib.TextEquality.{Char-path}
use mathlib.Core.Bool.{false≢true}
use identity_access_service.Base.{
  ap, sym, ◌∙◌, Bool-cases, inl, inr, &&_true, ==→eq, ℕ, String, Bool, true, false, List, [], ◌∷◌,
  ◌==◌, nat_eq, ◌&&◌, ◌||◌, leb, if◌then◌else◌, All, ◌≡◌, ◌≢◌, ◌↔◌, refl,
}
use identity_access_service.Schemas.Text.{append, each}

-- `[a-z0-9]`
abbrev pub is_word_char : ℕ → Bool
is_word_char c = leb b'a' c && leb c b'z' || leb b'0' c && leb c b'9'

-- The rest of the text matches; `begun` tells that a word has begun.
unfoldable pub matches : Bool → String → Bool
matches begun String.[] = begun
matches begun (String.◌∷◌ c s) =
    let more = matches true s in
    let next = matches false s in
    if is_word_char (code c) then more else if begun && code c == b'-' then next else false

unfoldable pub slug_pattern : String → Bool
unfolding matches
slug_pattern s = matches false s

-- The words of a slug, with dashes between.
unfoldable pub join_dashes : String → List String → String
unfolding append
join_dashes w [] = w
join_dashes w (v ∷ ws) = append w (String.◌∷◌ "-" (join_dashes v ws))

abbrev pub IsWord : String → Type 0
IsWord w = (each is_word_char w ≡ true) × (w ≢ "")

abbrev Joined : Bool → String → Type 0
Joined begun s =
    (w : String) × (ws : List String) × (each is_word_char w ≡ true)
    × (begun ≡ false → w ≢ "")
    × All IsWord ws
    × (s ≡ join_dashes w ws)

join_dashes-cons :
    (c : Char) (w : String) (ws : List String)
    → join_dashes (String.◌∷◌ c w) ws ≡ String.◌∷◌ c (join_dashes w ws)
unfolding join_dashes
join_dashes-cons c w [] = refl
join_dashes-cons c w (v ∷ ws) = refl

-- A character of a word.
extend :
    (begun : Bool) (c : Char) (s : String)
    → is_word_char (code c) ≡ true
    → Joined true s
    → Joined begun (String.◌∷◌ c s)
extend begun c s is_word (w, ws, chars, some_chars, all, e) = (
  String.◌∷◌ c w,
  ws,
  rw is_word chars,
  λ _. cons≢nil,
  all,
  ap (String.◌∷◌ c) e ∙ sym (join_dashes-cons c w ws),
)

-- A dash behind a word.
divide : (c : Char) (s : String) → code c ≡ code "-" → Joined false s → Joined true (String.◌∷◌ c s)
unfolding join_dashes
divide c s is_dash (w, ws, chars, some_chars, all, e) = (
  "",
  w ∷ ws,
  refl,
  λ no. absurd (false≢true (sym no)),
  ((chars, some_chars refl), all),
  ap (λ d. String.◌∷◌ d s) (Char-path c "-" is_dash) ∙ ap (String.◌∷◌ "-") e,
)

matches_sound : (begun : Bool) (s : String) → matches begun s ≡ true → Joined begun s
unfolding matches join_dashes
matches_sound begun String.[] h = ("", [], refl, λ no. absurd (false≢true (sym no ∙ h)), tt, refl)
matches_sound begun (String.◌∷◌ c s) h = elim (Bool-cases (is_word_char (code c))) [
  | inl t ↦ extend begun c s t (matches_sound true s (rw t at h))
  | inr f ↦ elim (Bool-cases (begun && code c == b'-')) [
    | inl d ↦
        let (on, dash) = &&_true begun (code c == b'-') d in
        rw on (divide c s (==→eq dash) (matches_sound false s (rw (f, d) at h)))
    | inr n ↦ absurd (false≢true (rw (f, n) at h))
  ]
]

matches-append :
    (w t : String) (begun : Bool)
    → each is_word_char w ≡ true
    → w ≢ ""
    → matches begun (append w t) ≡ matches true t
unfolding matches append
matches-append String.[] t begun chars nonempty = absurd (nonempty refl)
matches-append (String.◌∷◌ c String.[]) t begun chars nonempty =
    rw ((&&_true (is_word_char (code c)) true chars).0) refl
matches-append (String.◌∷◌ c (String.◌∷◌ d w)) t begun chars nonempty =
    let (first, others) = &&_true (is_word_char (code c)) _ chars in
    rw first (matches-append (String.◌∷◌ d w) t true others cons≢nil)

append_nil : (w : String) → append w "" ≡ w
unfolding append
append_nil String.[] = refl
append_nil (String.◌∷◌ c w) = ap (String.◌∷◌ c) (append_nil w)

matches_complete :
    (w : String) (ws : List String)
    → IsWord w
    → All IsWord ws
    → matches false (join_dashes w ws) ≡ true
unfolding matches join_dashes
matches_complete w [] (chars, nonempty) all =
    ap (matches false) (sym (append_nil w)) ∙ matches-append w "" false chars nonempty
matches_complete w (v ∷ ws) (chars, nonempty) (word, all) =
    matches-append w (String.◌∷◌ "-" (join_dashes v ws)) false chars nonempty
    ∙ matches_complete v ws word all

-- The pattern matches exactly the texts that are words of lower case letters and digits, one or more,
-- none of them empty, with one dash between each two.
pub slug_pattern_iff :
    (s : String)
    → (slug_pattern s ≡ true)
      ↔ ((w : String) × (ws : List String) × IsWord w × All IsWord ws × (s ≡ join_dashes w ws))
unfolding slug_pattern
slug_pattern_iff s = (
  λ h.
      let (w, ws, chars, nonempty, all, e) = matches_sound false s h in
      (w, ws, (chars, nonempty refl), all, e),
  λ (w, ws, word, all, e). ap (matches false) e ∙ matches_complete w ws word all,
)
