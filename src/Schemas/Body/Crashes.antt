-- ===== src/Schemas/Body/Crashes.antt =====
-- A body with a value that is no text where a validator calls `strip`.
use identity_access_service.Base.{
  String, Bool, true, false, Option, none, some, ◌≡◌, refl, ◌&&◌, Bool-cases, inl, inr,
}
use identity_access_service.Core.Context.{Library, Json}
use identity_access_service.Services.Auth.Register.{RegisterRequest}
use identity_access_service.Schemas.Fields.{
  Checked, valid, crashed, ◌<*>◌, then_check, required, refused, strip_value, normalize_value,
  human_name, slug_field, email_field, sized, check_slug, check_email,
}
use identity_access_service.Schemas.Body.{RegisterBody, validate_register, register_request}
use identity_access_service.Schemas.Body.Sound.{apply_crashed}

-- The client left the field out or sent a text.
abbrev pub is_text : Option Json → Bool
is_text none = true
is_text (some (Json.string s)) = true
is_text (some _) = false

-- Every field that a validator strips is a text.
abbrev pub all_texts : RegisterBody → Bool
all_texts body =
    is_text body.tenant_name
    && (is_text body.tenant_slug && (is_text body.full_name && is_text body.email))

-- A crash of a field is the crash of the whole.
module _ (x1 x2 x3 x4 x5 : Checked String) where
  abbrev all_fields : Checked RegisterRequest
  all_fields = valid register_request <*> x1 <*> x2 <*> x3 <*> x4 <*> x5

  at_first : x1 ≡ crashed → all_fields ≡ crashed
  unfolding ◌<*>◌
  at_first h = rw h refl

  at_second : x2 ≡ crashed → all_fields ≡ crashed
  unfolding ◌<*>◌
  at_second h = rw (h, apply_crashed (valid register_request <*> x1)) refl

  at_third : x3 ≡ crashed → all_fields ≡ crashed
  unfolding ◌<*>◌
  at_third h = rw (h, apply_crashed (valid register_request <*> x1 <*> x2)) refl

  at_fourth : x4 ≡ crashed → all_fields ≡ crashed
  unfolding ◌<*>◌
  at_fourth h = rw (h, apply_crashed (valid register_request <*> x1 <*> x2 <*> x3)) refl

module _ (c : Library) where
  strip_crashes :
      {A : Type 0} (v : Json) (f : String → Checked A)
      → is_text (some v) ≡ false
      → then_check (strip_value c v) f ≡ crashed
  unfolding then_check strip_value
  strip_crashes (Json.string s) f h = absurd (cc)
  strip_crashes Json.null f h = refl
  strip_crashes (Json.boolean b) f h = refl
  strip_crashes (Json.number n) f h = refl
  strip_crashes Json.array f h = refl
  strip_crashes Json.object f h = refl

  normalize_crashes :
      {A : Type 0} (v : Json) (f : String → Checked A)
      → is_text (some v) ≡ false
      → then_check (normalize_value c v) f ≡ crashed
  unfolding then_check normalize_value
  normalize_crashes (Json.string s) f h = absurd (cc)
  normalize_crashes Json.null f h = refl
  normalize_crashes (Json.boolean b) f h = refl
  normalize_crashes (Json.number n) f h = refl
  normalize_crashes Json.array f h = refl
  normalize_crashes Json.object f h = refl

  required_crashes :
      {A : Type 0} (field : String) (check : Json → Checked A) (value : Option Json)
      → ((v : Json) → is_text (some v) ≡ false → check v ≡ crashed)
      → is_text value ≡ false
      → required c field check value ≡ crashed
  unfolding required refused
  required_crashes field check none crash h = absurd (cc)
  required_crashes field check (some v) crash h = crash v h

  pub validate_register-crashed :
      (body : RegisterBody) → all_texts body ≡ false → validate_register c body ≡ crashed
  unfolding validate_register human_name slug_field email_field
  validate_register-crashed body h = elim (Bool-cases (is_text body.tenant_name)) [
    | inr n ↦ at_first _ _ _ _ _ (
        required_crashes "tenant_name" _ body.tenant_name
          (λ v. strip_crashes v (sized c "tenant_name" 3 120)) n)
    | inl t1 ↦ elim (Bool-cases (is_text body.tenant_slug)) [
      | inr n ↦ at_second _ _ _ _ _ (
          required_crashes "tenant_slug" _ body.tenant_slug
            (λ v. normalize_crashes v (check_slug c "tenant_slug")) n)
      | inl t2 ↦ elim (Bool-cases (is_text body.full_name)) [
        | inr n ↦ at_third _ _ _ _ _ (
            required_crashes "full_name" _ body.full_name
              (λ v. strip_crashes v (sized c "full_name" 2 120)) n)
        | inl t3 ↦ at_fourth _ _ _ _ _ (
            required_crashes "email" _ body.email (λ v. normalize_crashes v (check_email c))
              (rw (t1, t2, t3) at h))
      ]
    ]
  ]
