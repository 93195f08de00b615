-- ===== src/Core/Security/RoundTrip.antt =====
-- `parse_refresh_token` reads the text that `create_refresh_token` makes.
use Prim.Native.String
use mathlib.Core.Path.{subst}
use text.Mathlib.TextLemmas.{nil-append, cons-append}
use identity_access_service.Base.{
  ℕ, ◌^◌, ◌<◌, String, true, false, some, All, ◌≡◌, refl, ap, sym, ◌∙◌, arith, ◌==◌, nat_eq, codes,
}
use identity_access_service.Uuid.{str_uuid}
use identity_access_service.Uuid.Numeral.RoundTrip.{is_hex}
use identity_access_service.Uuid.RoundTrip.{codes-str_uuid, All-uuid_codes, parse_uuid-str_uuid}
use identity_access_service.Core.Security.{split_dot, parse_refresh_token}

abbrev IsNoDot : ℕ → Type 0
IsNoDot c = (c == b'.') ≡ false

-- A text without a dot is cut off at the dot behind it.
split_dot-dot :
    (s secret : String)
    → All IsNoDot (codes s)
    → split_dot (String.◌++◌ s (String.◌++◌ "." secret)) ≡ some (s, secret)
unfolding split_dot
split_dot-dot String.[] secret _ =
    ap split_dot (nil-append (String.◌++◌ "." secret) ∙ cons-append "." String.[] secret)
    ∙ ap (λ t. some ("", t)) (nil-append secret)
split_dot-dot (String.◌∷◌ c s) secret (other, others) =
    ap split_dot (cons-append c s (String.◌++◌ "." secret))
    ∙ rw (other, split_dot-dot s secret others) refl

hex-IsNoDot : (c : ℕ) → is_hex c ≡ true → IsNoDot c
hex-IsNoDot c h = ground arith

-- The text of an id and any secret behind a dot are read as that id and that secret.
pub parse_refresh_token-str_uuid :
    (id : ℕ) (secret : String)
    → id < 2 ^ 128
    → parse_refresh_token (String.◌++◌ (str_uuid id) (String.◌++◌ "." secret)) ≡ some (id, secret)
unfolding parse_refresh_token
parse_refresh_token-str_uuid id secret fits =
    let no_dot : All IsNoDot (codes (str_uuid id)) =
      subst (λ s. All IsNoDot s) (sym (codes-str_uuid id))
        (All-uuid_codes IsNoDot hex-IsNoDot refl id) in
    rw (split_dot-dot (str_uuid id) secret no_dot, parse_uuid-str_uuid id fits) refl
