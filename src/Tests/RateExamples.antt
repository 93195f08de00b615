-- ===== src/Tests/RateExamples.antt =====
-- The limit on requests at three arrivals in one window, between them one of another client.
use identity_access_service.Models.{role_value}
use identity_access_service.Db.Session.{
  commit, insert, insert_audit_log, insert_tenant, insert_token, insert_user, or_raise, pure, query,
  raise_if, run, write, ◌>>=◌,
}
use identity_access_service.Db.{
  audit_refused, dangling_tenant, dangling_user, tenant_by_id, tenant_by_slug, tenant_refused,
  token_by_id, token_refused, user_by_email, user_by_id, user_refused,
}
use identity_access_service.Uuid.Numeral.{
  digit_value, hex, hex_digit, int_16, int_digits, int_space,
}
use identity_access_service.Uuid.{parse_uuid, str_uuid}
use Prim.Native.Nat.{ℕ, ◌+◌, ◌≤◌, max}
use identity_access_service.Base.{
  ◌≡◌, refl, some, true, false, [], ◌∷◌, List, leb→le, any, char_at, drop_while, filter, first,
  insert_by, is_prefix, is_space, remove, sort, strip, take, update,
}
use identity_access_service.Core.RateLimit.{
  seconds, RateLimitRule, WindowCounter, Counters, build_retry_after, build_rules, client_id_of,
  count_request, evaluate, evaluate_with, find_rule, get, limit_by, open_counter, pass,
  prune_expired_counters, put, rate_limit_requests,
}
use identity_access_service.Core.RateLimit.Retry.{retry_after, retry_after_admits}
use identity_access_service.Core.RateLimit.Window.{Arrival, admitted, window_admits_at_most_limit}

abbrev rule : RateLimitRule
rule = record {
  name = "auth_login";
  method = "POST";
  path = "/api/v1/auth/login";
  limit = 2;
  window_seconds = 60;
}

abbrev counter : WindowCounter
counter = record { window_started_at = 1_000; count = 1 }

abbrev counters : Counters
counters = record { name = "auth_login"; client_id = "10.0.0.1"; counter = counter } ∷ []

abbrev arrive : ℕ → Arrival
arrive now = record { rule = rule; client_id = "10.0.0.1"; now = now }

abbrev arrivals : List Arrival
arrivals =
    arrive 2_000
    ∷ record { rule = rule; client_id = "10.0.0.2"; now = 3_000 }
    ∷ arrive 4_000
    ∷ arrive 5_000
    ∷ []

stored : get "auth_login" "10.0.0.1" counters ≡ some counter
unfolding take char_at is_space drop_while strip is_prefix remove first filter any update insert_by
    sort str_uuid parse_uuid hex_digit hex digit_value int_digits int_space int_16 tenant_by_slug
    tenant_by_id user_by_id user_by_email token_by_id dangling_tenant dangling_user tenant_refused
    user_refused token_refused audit_refused pure query or_raise raise_if commit write insert ◌>>=◌
    insert_tenant insert_user insert_token insert_audit_log run role_value get put build_retry_after
    prune_expired_counters open_counter count_request evaluate_with evaluate build_rules find_rule
    pass client_id_of limit_by rate_limit_requests
stored = refl

window_admits_at_most_limit_example : admitted rule "10.0.0.1" arrivals counters + 1 ≤ 2
window_admits_at_most_limit_example =
    window_admits_at_most_limit rule "10.0.0.1" arrivals counter counters (leb→le 60 300 refl)
      stored (leb→le 1 2 refl)
      (
        (leb→le _ _ refl, λ e. refl),
        (
          (leb→le _ _ refl, λ e. refl),
          ((leb→le _ _ refl, λ e. refl), ((leb→le _ _ refl, λ e. refl), tt)),
        ),
      )

abbrev full : Counters
full =
    record {
      name = "auth_login";
      client_id = "10.0.0.1";
      counter = record { window_started_at = 1_000; count = 2 };
    }
    ∷ []

refused : (evaluate rule "10.0.0.1" 2_000 full).0.allowed ≡ false
unfolding take char_at is_space drop_while strip is_prefix remove first filter any update insert_by
    sort str_uuid parse_uuid hex_digit hex digit_value int_digits int_space int_16 tenant_by_slug
    tenant_by_id user_by_id user_by_email token_by_id dangling_tenant dangling_user tenant_refused
    user_refused token_refused audit_refused pure query or_raise raise_if commit write insert ◌>>=◌
    insert_tenant insert_user insert_token insert_audit_log run role_value get put build_retry_after
    prune_expired_counters open_counter count_request evaluate_with evaluate build_rules find_rule
    pass client_id_of limit_by rate_limit_requests
refused = refl

begun :
    (w : WindowCounter) → get "auth_login" "10.0.0.1" full ≡ some w → w.window_started_at ≤ 2_000
unfolding take char_at is_space drop_while strip is_prefix remove first filter any update insert_by
    sort str_uuid parse_uuid hex_digit hex digit_value int_digits int_space int_16 tenant_by_slug
    tenant_by_id user_by_id user_by_email token_by_id dangling_tenant dangling_user tenant_refused
    user_refused token_refused audit_refused pure query or_raise raise_if commit write insert ◌>>=◌
    insert_tenant insert_user insert_token insert_audit_log run role_value get put build_retry_after
    prune_expired_counters open_counter count_request evaluate_with evaluate build_rules find_rule
    pass client_id_of limit_by rate_limit_requests
begun w there =
    let e : record { window_started_at = 1_000; count = 2 } ≡ w = cc in
    rw (← e) (leb→le 1_000 2_000 refl)

retry_after_admits_example :
    (1 ≤ retry_after rule "10.0.0.1" 2_000 full)
    × (retry_after rule "10.0.0.1" 2_000 full ≤ max 1 60)
    × ((later : ℕ)
        → 2_000 + seconds (retry_after rule "10.0.0.1" 2_000 full) ≤ later
        → (evaluate rule "10.0.0.1" later (evaluate rule "10.0.0.1" 2_000 full).1).0.allowed ≡ true)
retry_after_admits_example =
    retry_after_admits rule "10.0.0.1" 2_000 full (leb→le 1 2 refl) begun refused
