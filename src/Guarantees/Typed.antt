-- ===== src/Guarantees/Typed.antt =====
-- Requests from the bodies that clients type: what is accepted, and what follows.
use identity_access_service.Base.{
  ℕ, true, false, some, arith, ◌≡◌, refl, ap, sym, ◌∙◌, inl, inr, Option-cases,
}
use mathlib.Core.Path.{subst}
use identity_access_service.Errors.{Error, ok, err, attribute_error, Result-cases}
use identity_access_service.Models.{Tenant, User}
use identity_access_service.Db.{Db}
use identity_access_service.Db.Session.{Session, Action, or_raise, run, open_session, ◌>>=◌}
use identity_access_service.Core.Context.{Context, Library, Env, Client, with_draws}
use identity_access_service.Services.Auth.Issue.{AuthResult}
use identity_access_service.Services.Auth.Register.{RegisterRequest, register, registered_user}
use identity_access_service.Services.Auth.Login.{LoginRequest, login}
use identity_access_service.Services.Auth.Login.Success.{IsFresh, login_result, signed_in}
use identity_access_service.Schemas.Fields.{Checked, validated, valid}
use identity_access_service.Schemas.Body.{
  RegisterBody, LoginBody, validate_register, validate_login,
}
use identity_access_service.Schemas.Body.Sound.{login_of, validate_register_sound}
use identity_access_service.Schemas.Body.Crashes.{all_texts, validate_register-crashed}
use identity_access_service.Api.Http.{Reply, server_error, respond, handle, reply, except}
use identity_access_service.Api.Auth.{
  AuthTokensResponse, build_auth_response, auth_reply, register_endpoint, login_endpoint,
  conflict_409, credentials_401,
}
use identity_access_service.Api.Bodies.{post_register, post_login}
use identity_access_service.Guarantees.SignUp.{register-adds, sign_up_then_login, signed_up}

-- An endpoint's answer, where its service answers and where it raises.
module _ (library : Library) (handler : Error → Error) (m : Action AuthResult) (status : ℕ)
    (s : Session) where
  abbrev endpoint : Action (Reply AuthTokensResponse)
  endpoint = except handler m >>= auth_reply library status

  endpoint-ok :
      {a : AuthResult} {b : AuthTokensResponse}
      → (m s).0 ≡ ok a
      → build_auth_response library a ≡ some b
      → endpoint s ≡ (ok (record { status = status; body = b }), (m s).1)
  unfolding except reply auth_reply or_raise ◌>>=◌
  endpoint-ok h k = rw (h, k) refl

  endpoint-err : {e : Error} → (m s).0 ≡ err e → (endpoint s).0 ≡ err (handler e)
  unfolding except reply auth_reply ◌>>=◌
  endpoint-err h = rw h refl

  -- The endpoint answers when the service does and the response is valid, and stores what the service
  -- stored.
  endpoint_answers :
      {r : Reply AuthTokensResponse}
      → (endpoint s).0 ≡ ok r
      → (a : AuthResult) × (b : AuthTokensResponse) × ((m s).0 ≡ ok a)
        × (build_auth_response library a ≡ some b)
        × ((endpoint s).1 ≡ (m s).1)
  unfolding except reply auth_reply or_raise ◌>>=◌
  endpoint_answers h = elim (Result-cases (m s).0) [
    | inl (e, bad) ↦ absurd (cc (h, endpoint-err bad))
    | inr (a, good) ↦ elim (Option-cases (build_auth_response library a)) [
      | inl refused ↦ absurd (cc (rw (good, refused) at h))
      | inr (b, valid_response) ↦
          (a, b, good, valid_response, ap (λ x. x.1) (endpoint-ok good valid_response))
    ]
  ]

validated-valid :
    {A B : Type 0} {x : Checked A} {a : A} (f : A → Action B) (s : Session)
    → x ≡ valid a
    → (validated x >>= f) s ≡ f a s
unfolding validated ◌>>=◌
validated-valid f s h = rw h refl

module _ (c : Context) (body : RegisterBody) (client : Client) (db : Db) where
  -- A registration with a value that is no text in a field that is to be stripped is no validation
  -- error for the client: it ends in the server's own 500, and nothing is stored.
  pub register_crashes :
      all_texts body ≡ false
      → (respond (run (post_register c body client) db).0 ≡ server_error attribute_error)
        × ((run (post_register c body client) db).1 ≡ db)
  unfolding run respond handle post_register validated ◌>>=◌
  register_crashes h = rw (validate_register-crashed c.library body h) (refl, refl)

  module _ {p : RegisterRequest} (accepted : validate_register c.library body ≡ valid p) where
    post_register-endpoint :
        post_register c body client (open_session db)
        ≡ endpoint c.library conflict_409
            (register c p client)
            201
            (open_session db)
            (open_session db)
    unfolding post_register register_endpoint
    post_register-endpoint =
        validated-valid (λ q. register_endpoint c q client) (open_session db) accepted

    post_register_sound :
        {r : Reply AuthTokensResponse}
        → (run (post_register c body client) db).0 ≡ ok r
        → (a : AuthResult) × (b : AuthTokensResponse) × ((run (register c p client) db).0 ≡ ok a)
          × (build_auth_response c.library a ≡ some b)
          × ((run (post_register c body client) db).1 ≡ signed_up c p client db)
    unfolding run
    post_register_sound h =
        let (a, b, good, valid_response, same) =
          endpoint_answers c.library conflict_409 (register c p client) 201 (open_session db)
            (ap (λ x. x.0) (sym post_register-endpoint) ∙ h) in
        (
          a,
          b,
          good,
          valid_response,
          ap (λ x. x.1.committed) post_register-endpoint ∙ ap (λ x. x.committed) same,
        )

pub post_login-ok :
    (c : Context) (client : Client) (db : Db) {q : LoginRequest} {a : AuthResult}
    {b : AuthTokensResponse} (login_body : LoginBody)
    → validate_login c.library login_body ≡ valid q
    → (run (login c q client) db).0 ≡ ok a
    → build_auth_response c.library a ≡ some b
    → (run (post_login c login_body client) db).0 ≡ ok (record { status = 200; body = b })
unfolding run post_login login_endpoint
post_login-ok c client db {q} login_body accepted h k =
    ap (λ x. x.0)
      (validated-valid (λ q. login_endpoint c q client) (open_session db) accepted
        ∙ endpoint-ok c.library credentials_401 (login c q client) 200 (open_session db) h k)

-- A response is valid whenever that of another result for the same address and lifetime is.
response_again :
    (library : Library) (a a' : AuthResult) {b : AuthTokensResponse}
    → build_auth_response library a ≡ some b
    → a.user.email ≡ a'.user.email
    → a.access_token_expires_in ≡ a'.access_token_expires_in
    → (b' : AuthTokensResponse) × (build_auth_response library a' ≡ some b')
unfolding build_auth_response
response_again library a a' h same_email same_time =
    elim (Option-cases (build_auth_response library a')) [
      | inr found ↦ found
      | inl refused ↦ elim (Option-cases (library.validate_email a.user.email)) [
        | inl bad ↦ absurd (ground arith)
        | inr (email, good) ↦
            let good' : library.validate_email a'.user.email ≡ some email =
              rw (← same_email) good in
            absurd (ground arith)
      ]
    ]

-- After a typed registration that answered, a login with the slug, the address and the password as
-- they were typed, at any later draws, answers 200 with tokens for the new user, provided that
-- `checkpw` accepts the password against the hash that `hashpw` made of it, and that the ids drawn by
-- the login are not taken.
pub typed_sign_up_then_login :
    (c : Context) (body : RegisterBody) (client : Client) (db : Db) {p : RegisterRequest}
    {r : Reply AuthTokensResponse} (later : Env) (client' : Client)
    → validate_register c.library body ≡ valid p
    → (run (post_register c body client) db).0 ≡ ok r
    → c.checkpw p.password (c.hashpw p.password c.salt) ≡ true
    → IsFresh (with_draws c later) (run (post_register c body client) db).1
    → (home : Tenant) × (response : AuthTokensResponse) × (build_auth_response c.library (
          login_result
            (with_draws c later)
            (signed_in (with_draws c later) (registered_user c p))
            home)
        ≡ some response)
      × ((run
            (post_login (with_draws c later) (login_of body) client')
            (run (post_register c body client) db).1).0
          ≡ ok (record { status = 200; body = response }))
typed_sign_up_then_login c body client db {p} later client' accepted h accepts fresh =
    let now = with_draws c later in
    let (a, b, registered, answered, same) = post_register_sound c body client db accepted h in
    let (home, signs_in) =
      sign_up_then_login c p client db now client' registered accepts
        (subst (IsFresh now) same fresh) in
    let typed = (validate_register_sound c.library body accepted).6 in
    let (_, _, _, _, of_user, lifetime) = register-adds c p client db registered in
    let (response, valid_response) =
      response_again c.library a (login_result now (signed_in now (registered_user c p)) home)
        answered (ap (λ (u : User). u.email) of_user) lifetime in
    let at_registered = post_login-ok now client' _ (login_of body) typed signs_in valid_response in
    (
      home,
      response,
      valid_response,
      ap (λ d. (run (post_login now (login_of body) client') d).0) same ∙ at_registered,
    )
