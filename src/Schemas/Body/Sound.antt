-- ===== src/Schemas/Body/Sound.antt =====
-- What an accepted body gives, and what makes the validation of one fail altogether.
use identity_access_service.Base.{
  ℕ, String, true, Option, none, some, ◌≡◌, inl, inr, refl, ap, sym, ◌∙◌, ◌≤◌, arith, &&_true,
  Bool-cases,
}
use mathlib.Core.Path.{subst}
use identity_access_service.Core.Context.{Library, Json}
use identity_access_service.Services.Auth.Register.{RegisterRequest}
use identity_access_service.Schemas.Text.{len, strip_text}
use identity_access_service.Schemas.Laws.{strip_text-strip_text, slug-strip_lower}
use identity_access_service.Schemas.Fields.{
  Checked, valid, invalid, crashed, ◌<*>◌, then_check, required, refused, strip_value, normalize,
  normalize_value, has_length, sized, human_name, is_slug, check_slug, slug_field, email_field,
  password_field,
}
use identity_access_service.Schemas.Body.{
  RegisterBody, LoginBody, validate_register, validate_login, register_request, login_request,
}

-- Both parts of an application that is accepted are accepted.
pub apply_valid :
    {A B : Type 0} (f : Checked (A → B)) (x : Checked A) {b : B}
    → f <*> x ≡ valid b
    → (g : A → B) × (a : A) × (f ≡ valid g) × (x ≡ valid a) × (b ≡ g a)
unfolding ◌<*>◌
apply_valid (valid g) (valid a) h = (g, a, refl, refl, cc)
apply_valid (valid g) (invalid es) h = absurd (cc)
apply_valid (valid g) crashed h = absurd (cc)
apply_valid (invalid es) (valid a) h = absurd (cc)
apply_valid (invalid es) (invalid fs) h = absurd (cc)
apply_valid (invalid es) crashed h = absurd (cc)
apply_valid crashed x h = absurd (cc)

pub apply_crashed : {A B : Type 0} (f : Checked (A → B)) → f <*> crashed ≡ crashed
unfolding ◌<*>◌
apply_crashed (valid g) = refl
apply_crashed (invalid es) = refl
apply_crashed crashed = refl

then_check-valid :
    {A B : Type 0} (x : Checked A) (f : A → Checked B) {b : B}
    → then_check x f ≡ valid b
    → (a : A) × (x ≡ valid a) × (f a ≡ valid b)
unfolding then_check
then_check-valid (valid a) f h = (a, refl, h)
then_check-valid (invalid es) f h = absurd (cc)
then_check-valid crashed f h = absurd (cc)

pub valid_inj : {A : Type 0} {a b : A} → valid a ≡ valid b → a ≡ b
valid_inj h = cc

-- A login with the slug, the address and the password of a registration, as they were typed.
abbrev pub login_of : RegisterBody → LoginBody
login_of body = record {
  tenant_slug = body.tenant_slug;
  email = body.email;
  password = body.password;
}

-- A text with nothing to strip, whose length is in a range.
abbrev pub IsName : ℕ → String → Type 0
IsName low s = (strip_text s ≡ s) × (low ≤ len s) × (len s ≤ 120)

module _ (c : Library) where
  pub required-valid :
      {A : Type 0} (field : String) (check : Json → Checked A) (value : Option Json) {a : A}
      → required c field check value ≡ valid a
      → (v : Json) × (value ≡ some v) × (check v ≡ valid a)
  unfolding required refused
  required-valid field check none h = absurd (cc)
  required-valid field check (some v) h = (v, refl, h)

  sized-valid :
      (field : String) (low high : ℕ) (s : String) {t : String}
      → sized c field low high s ≡ valid t
      → (s ≡ t) × (low ≤ len t) × (len t ≤ high)
  unfolding sized refused
  sized-valid field low high s {t} h = elim (Bool-cases (has_length c low high s)) [
    | inl ok ↦
        let e : s ≡ t = cc (rw ok at h) in
        let (enough, fits) = lengths low high s ok in (e, rw (← e) enough, rw (← e) fits)
    | inr not ↦ absurd (cc (rw not at h))
  ]
    where
      lengths :
          (low high : ℕ) (s : String)
          → has_length c low high s ≡ true
          → (low ≤ len s) × (len s ≤ high)
      lengths low high s ok = ground arith

  strip_value-valid : (v : Json) {t : String} → strip_value c v ≡ valid t → strip_text t ≡ t
  unfolding strip_value
  strip_value-valid (Json.string s) {t} h =
      let e : strip_text s ≡ t = cc in subst (λ t. strip_text t ≡ t) e (strip_text-strip_text s)
  strip_value-valid Json.null h = absurd (cc)
  strip_value-valid (Json.boolean b) h = absurd (cc)
  strip_value-valid (Json.number n) h = absurd (cc)
  strip_value-valid Json.array h = absurd (cc)
  strip_value-valid Json.object h = absurd (cc)

  human_name-valid :
      (field : String) (low : ℕ) (v : Json) {s : String}
      → human_name c field low v ≡ valid s
      → IsName low s
  unfolding human_name
  human_name-valid field low v {s} h =
      let (t, stripped, h1) = then_check-valid (strip_value c v) (sized c field low 120) h in
      let (e, low_len, len_high) = sized-valid field low 120 t h1 in
      (subst (λ t. strip_text t ≡ t) e (strip_value-valid v stripped), low_len, len_high)

  check_slug-valid :
      (field t : String) {s : String} → check_slug c field t ≡ valid s → is_slug c s ≡ true
  unfolding check_slug refused
  check_slug-valid field t {s} h = elim (Bool-cases (is_slug c t)) [
    | inl is ↦ let e : t ≡ s = cc (rw is at h) in rw (← e) is
    | inr not ↦ absurd (cc (rw not at h))
  ]

  pub slug_field-valid :
      (field : String) (v : Json) {s : String} → slug_field c field v ≡ valid s → is_slug c s ≡ true
  unfolding slug_field
  slug_field-valid field v h =
      let (t, normal, h1) = then_check-valid (normalize_value c v) (check_slug c field) h in
      check_slug-valid field t h1

  password_field-valid :
      (v : Json) {s : String} → password_field c v ≡ valid s → (8 ≤ len s) × (len s ≤ 128)
  unfolding password_field refused
  password_field-valid (Json.string s) h =
      let (e, low, high) = sized-valid "password" 8 128 s h in (low, high)
  password_field-valid Json.null h = absurd (cc)
  password_field-valid (Json.boolean b) h = absurd (cc)
  password_field-valid (Json.number n) h = absurd (cc)
  password_field-valid Json.array h = absurd (cc)
  password_field-valid Json.object h = absurd (cc)

  pub normal_slug : (slug : String) → is_slug c slug ≡ true → normalize c slug ≡ slug
  unfolding normalize is_slug
  normal_slug slug h = slug-strip_lower c.lower_other slug (&&_true (has_length c 3 80 slug) _ h).1

  module _ (body : RegisterBody) where
    abbrev tenant_name_of : Checked String
    tenant_name_of = required c "tenant_name" (human_name c "tenant_name" 3) body.tenant_name

    abbrev slug_of : Checked String
    slug_of = required c "tenant_slug" (slug_field c "tenant_slug") body.tenant_slug

    abbrev full_name_of : Checked String
    full_name_of = required c "full_name" (human_name c "full_name" 2) body.full_name

    abbrev email_of : Checked String
    email_of = required c "email" (email_field c) body.email

    abbrev password_of : Checked String
    password_of = required c "password" (password_field c) body.password

    login_valid :
        {slug email password : String}
        → slug_of ≡ valid slug
        → email_of ≡ valid email
        → password_of ≡ valid password
        → validate_login c (login_of body) ≡ valid (login_request slug email password)
    unfolding validate_login ◌<*>◌
    login_valid slug email password = rw (slug, email, password) refl

    validate_register_parts :
        {p : RegisterRequest}
        → validate_register c body ≡ valid p
        → (tenant_name_of ≡ valid p.tenant_name)
          × (slug_of ≡ valid p.tenant_slug)
          × (full_name_of ≡ valid p.full_name)
          × (email_of ≡ valid p.email)
          × (password_of ≡ valid p.password)
    unfolding validate_register
    validate_register_parts {p} h =
        let start = valid register_request in
        let (g5, password, h5, e5, is5) =
          apply_valid (start <*> tenant_name_of <*> slug_of <*> full_name_of <*> email_of)
            password_of h in
        let (g4, email, h4, e4, is4) =
          apply_valid (start <*> tenant_name_of <*> slug_of <*> full_name_of) email_of h5 in
        let (g3, full_name, h3, e3, is3) =
          apply_valid (start <*> tenant_name_of <*> slug_of) full_name_of h4 in
        let (g2, slug, h2, e2, is2) = apply_valid (start <*> tenant_name_of) slug_of h3 in
        let (g1, tenant_name, h1, e1, is1) = apply_valid start tenant_name_of h2 in
        let e : p ≡ register_request tenant_name slug full_name email password =
          is5
          ∙ ap (λ g. g password)
              (is4
                ∙ ap (λ g. g email)
                    (is3
                      ∙ ap (λ g. g full_name)
                          (is2
                            ∙ ap (λ g. g slug)
                                (is1 ∙ ap (λ g. g tenant_name) (sym (valid_inj h1)))))) in
        (
          e1 ∙ ap (λ (q : RegisterRequest). valid q.tenant_name) (sym e),
          e2 ∙ ap (λ (q : RegisterRequest). valid q.tenant_slug) (sym e),
          e3 ∙ ap (λ (q : RegisterRequest). valid q.full_name) (sym e),
          e4 ∙ ap (λ (q : RegisterRequest). valid q.email) (sym e),
          e5 ∙ ap (λ (q : RegisterRequest). valid q.password) (sym e),
        )

    -- A registration that is accepted has a slug that keeps the pattern and the lengths and that a
    -- second normalisation leaves as it is, names with nothing to strip and of an allowed length, and
    -- a password of 8 to 128 characters; a login with the same slug, address and password is accepted
    -- too, and asks for the same.
    pub validate_register_sound :
        {p : RegisterRequest}
        → validate_register c body ≡ valid p
        → (is_slug c p.tenant_slug ≡ true)
          × (normalize c p.tenant_slug ≡ p.tenant_slug)
          × IsName 3 p.tenant_name
          × IsName 2 p.full_name
          × (8 ≤ len p.password)
          × (len p.password ≤ 128)
          × (validate_login c (login_of body)
              ≡ valid (login_request p.tenant_slug p.email p.password))
    unfolding normalize is_slug
    validate_register_sound {p} h =
        let (name, slug, full, email, password) = validate_register_parts h in
        let (v1, _, name_ok) = required-valid "tenant_name" _ body.tenant_name name in
        let (v2, _, slug_ok) = required-valid "tenant_slug" _ body.tenant_slug slug in
        let (v3, _, full_ok) = required-valid "full_name" _ body.full_name full in
        let (v5, _, password_ok) = required-valid "password" _ body.password password in
        let keeps = slug_field-valid "tenant_slug" v2 slug_ok in
        (
          keeps,
          normal_slug p.tenant_slug keeps,
          human_name-valid "tenant_name" 3 v1 name_ok,
          human_name-valid "full_name" 2 v3 full_ok,
          (password_field-valid v5 password_ok).0,
          (password_field-valid v5 password_ok).1,
          login_valid slug email password,
        )
