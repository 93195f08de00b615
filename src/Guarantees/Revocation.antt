-- ===== src/Guarantees/Revocation.antt =====
-- A revoked refresh token stays revoked.
use identity_access_service.Base.{
  Bool, true, false, some, List, [], ◌∷◌, ◌≡◌, refl, arith, is_some, first, nat_eq, if◌then◌else◌,
}
use identity_access_service.Base.Rows.{first-update, any-first}
use identity_access_service.Models.{Uuid, RefreshToken, Datetime}
use identity_access_service.Db.{Db, token_by_id, token_has_id, token_refused}
use identity_access_service.Db.Session.{add_token, set_tokens}
use identity_access_service.Services.Users.{revoke_at, live_token_of}
use identity_access_service.Policy.{
  Authority, Permitted, issue, revoke, suspend, rotate, Reach, here, next,
}
use identity_access_service.Requests.{Request, serve, serve_all}
use identity_access_service.Requests.Refines.{serve-Reach}

-- The token is there and has been revoked.
abbrev pub IsRevoked : Uuid → Db → Type 0
IsRevoked id db = (t : RefreshToken) × (token_by_id id db ≡ some t) × (is_some t.revoked_at ≡ true)

pub set_tokens-IsRevoked :
    (id : Uuid) (db : Db) (p : RefreshToken → Bool) (now : Datetime)
    → IsRevoked id db
    → IsRevoked id (set_tokens p (revoke_at now) db)
unfolding token_by_id
set_tokens-IsRevoked id db p now (t, found, revoked) = (
  (if p t then revoke_at now t else t),
  ground (arith, first-update p (token_has_id id) (revoke_at now) (λ x. refl) db.refresh_tokens),
  ground arith,
)

-- A new token does not take the id of one that is there.
pub issue-IsRevoked :
    (id : Uuid) (db : Db) (t : RefreshToken)
    → token_refused t db ≡ false
    → IsRevoked id db
    → IsRevoked id (add_token t db)
unfolding token_by_id token_refused first
issue-IsRevoked id db t fits (r, found, revoked) = (
  r,
  ground (arith, any-first (token_has_id id) db.refresh_tokens, nat_eq.reflects t.id id),
  revoked,
)

Permitted-IsRevoked :
    {a : Authority} {d e : Db} (id : Uuid) → Permitted a d e → IsRevoked id d → IsRevoked id e
unfolding token_by_id
Permitted-IsRevoked id (issue db t _ fits _) r = issue-IsRevoked id db t fits r
Permitted-IsRevoked id (revoke db k now _) r = set_tokens-IsRevoked id db _ now r
Permitted-IsRevoked id (suspend db p _ _ u now _ _ _ _) r =
    let kept = set_tokens-IsRevoked id db (live_token_of u.id) now r in (kept.0, kept.1, kept.2)
Permitted-IsRevoked id (rotate db k now _) r = set_tokens-IsRevoked id db _ now r
Permitted-IsRevoked id _ r = (r.0, r.1, r.2)

pub Reach-IsRevoked :
    {a : Authority} {d e : Db} (id : Uuid) → Reach a d e → IsRevoked id d → IsRevoked id e
Reach-IsRevoked id here r = r
Reach-IsRevoked id (next s p) r = Permitted-IsRevoked id p (Reach-IsRevoked id s r)

-- A stored refresh token that is revoked is stored and revoked after any sequence of requests.
pub serve_all-IsRevoked :
    (id : Uuid) (rs : List Request) (db : Db) → IsRevoked id db → IsRevoked id (serve_all rs db)
unfolding serve_all
serve_all-IsRevoked id [] db r = r
serve_all-IsRevoked id (q ∷ rs) db r =
    serve_all-IsRevoked id rs (serve q db) (Reach-IsRevoked id (serve-Reach q db) r)
