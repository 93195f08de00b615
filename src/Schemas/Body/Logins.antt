-- ===== src/Schemas/Body/Logins.antt =====
-- What an accepted login asks for, and a login that is accepted.
use identity_access_service.Base.{
  String, true, some, ◌≡◌, inl, inr, refl, ap, sym, ◌∙◌, Option-cases,
}
use identity_access_service.Core.Context.{Library, Json}
use identity_access_service.Services.Auth.Login.{LoginRequest}
use identity_access_service.Schemas.Fields.{
  valid, ◌<*>◌, then_check, required, refused, or_refused, normalize, normalize_value, has_length,
  sized, is_slug, check_slug, check_email, slug_field, email_field, password_field,
}
use identity_access_service.Schemas.Body.{LoginBody, validate_login, login_request}
use identity_access_service.Schemas.Body.Sound.{
  apply_valid, valid_inj, required-valid, slug_field-valid, normal_slug,
}

module _ (c : Library) where
  -- What an e-mail address is made of: a text, normalised and then checked.
  email_field-valid :
      (v : Json) {e : String}
      → email_field c v ≡ valid e
      → (s : String) × (c.validate_email (normalize c s) ≡ some e)
  unfolding email_field normalize_value check_email or_refused refused then_check
  email_field-valid (Json.string s) {e} h = elim (Option-cases (c.validate_email (normalize c s))) [
    | inl none_there ↦ absurd (cc (rw none_there at h))
    | inr (t, there) ↦ (s, there ∙ ap some (cc (rw there at h)))
  ]
  email_field-valid Json.null h = absurd (cc)
  email_field-valid (Json.boolean b) h = absurd (cc)
  email_field-valid (Json.number n) h = absurd (cc)
  email_field-valid Json.array h = absurd (cc)
  email_field-valid Json.object h = absurd (cc)

  -- The slug of a login that is accepted, and where its address comes from.
  pub validate_login_sound :
      (body : LoginBody) {q : LoginRequest}
      → validate_login c body ≡ valid q
      → (is_slug c q.tenant_slug ≡ true)
        × (s : String) × (c.validate_email (normalize c s) ≡ some q.email)
  unfolding validate_login
  validate_login_sound body {q} h =
      let slug_of = required c "tenant_slug" (slug_field c "tenant_slug") body.tenant_slug in
      let email_of = required c "email" (email_field c) body.email in
      let (g3, password, h3, e3, is3) =
        apply_valid (valid login_request <*> slug_of <*> email_of) _ h in
      let (g2, email, h2, e2, is2) = apply_valid (valid login_request <*> slug_of) email_of h3 in
      let (g1, slug, h1, e1, is1) = apply_valid (valid login_request) slug_of h2 in
      let e : q ≡ login_request slug email password =
        is3
        ∙ ap (λ g. g password)
            (is2 ∙ ap (λ g. g email) (is1 ∙ ap (λ g. g slug) (sym (valid_inj h1)))) in
      let (v, _, slug_ok) = required-valid c "tenant_slug" _ body.tenant_slug e1 in
      let (w, _, email_ok) = required-valid c "email" _ body.email e2 in
      let (s, checked) = email_field-valid w email_ok in
      (
        ap (λ (p : LoginRequest). is_slug c p.tenant_slug) e
            ∙ slug_field-valid c "tenant_slug" v slug_ok,
        s,
        checked ∙ ap (λ (p : LoginRequest). some p.email) (sym e),
      )

  -- The login of an account as it is stored, which the schema leaves as it is.
  pub stored_login-valid :
      (slug email password : String)
      → is_slug c slug ≡ true
      → normalize c email ≡ email
      → c.validate_email email ≡ some email
      → has_length c 8 128 password ≡ true
      → validate_login c (record {
        tenant_slug = some (Json.string slug);
        email = some (Json.string email);
        password = some (Json.string password);
      })
        ≡ valid (login_request slug email password)
  unfolding validate_login ◌<*>◌ required slug_field email_field password_field normalize_value
      check_slug check_email or_refused sized then_check
  stored_login-valid slug email password slug_ok same_email email_ok password_ok =
      let same_slug : normalize c slug ≡ slug = normal_slug c slug slug_ok in
      rw (same_slug, slug_ok, same_email, email_ok, password_ok) refl
