-- ===== src/Core/RateLimit.antt =====
-- app/core/rate_limit.py: a counter of fixed windows for each rule and client.
pub mod Items
pub mod Window
pub mod Retry
use Prim.Native.Nat.{ℕ, ◌+◌, ◌*◌, ◌-◌, ◌/◌, max}
use identity_access_service.Base.{
  String, Bool, true, false, not, Option, none, some, List, [], ◌∷◌, ltb, leb, ◌==◌, ◌&&◌,
  string_eq, is_some, if◌then◌else◌, first, filter, update, length, reverse,
}
use Prim.Native.String
use identity_access_service.Core.Context.{Settings}

pub record RateLimitRule : Type 0 where
  pub name : String
  pub method : String
  pub path : String
  pub limit : ℕ
  pub window_seconds : ℕ

pub record RateLimitDecision : Type 0 where
  pub allowed : Bool
  pub limit : ℕ
  pub remaining : ℕ
  pub retry_after_seconds : ℕ

-- `monotonic()` is a number of nanoseconds, which its float holds exactly for a hundred days; it never
-- goes back, so that the differences below are those of the source.
abbrev pub seconds : ℕ → ℕ
seconds n = n * 1_000_000_000

pub record WindowCounter : Type 0 where
  pub window_started_at : ℕ
  pub count : ℕ

-- an item of the dictionary, whose key is the name of a rule and a client
pub record Item : Type 0 where
  pub name : String
  pub client_id : String
  pub counter : WindowCounter

abbrev pub Counters : Type 0
Counters = List Item

abbrev pub has_key : String → String → Item → Bool
has_key name client_id item = item.name == name && item.client_id == client_id

-- `self._counters.get(key)`
unfoldable pub get : String → String → Counters → Option WindowCounter
get name client_id counters = elim (first (has_key name client_id) counters) [
  | none ↦ none
  | some item ↦ some item.counter
]

-- `self._counters[key] = counter`, and the changes of the counter that is stored there
unfoldable pub put : String → String → WindowCounter → Counters → Counters
put name client_id counter counters =
    if is_some (first (has_key name client_id) counters)
    then update (has_key name client_id) (λ item. record item { counter = counter }) counters
    else record { name = name; client_id = client_id; counter = counter } ∷ counters

-- `_build_retry_after`
unfoldable pub build_retry_after : ℕ → ℕ → ℕ → ℕ
build_retry_after now window_started_at window_seconds =
    let elapsed = now - window_started_at in
    let remaining = seconds window_seconds - elapsed in
    max 1 ((remaining + 999_999_999) / 1_000_000_000)

-- `_prune_expired_counters`
unfoldable pub prune_expired_counters : ℕ → Counters → Counters
prune_expired_counters now counters =
    if ltb (length counters) 1_024
    then counters
    else filter (λ item. ltb (now - item.counter.window_started_at) (seconds 300)) counters

-- The stored counter, unless there is none or its window is over.
unfoldable pub open_counter : RateLimitRule → ℕ → Option WindowCounter → Option WindowCounter
open_counter rule now none = none
open_counter rule now (some counter) =
    if leb (seconds rule.window_seconds) (now - counter.window_started_at)
    then none
    else some counter

abbrev pub decide : RateLimitRule → ℕ → Bool → ℕ → WindowCounter → RateLimitDecision
decide rule now allowed remaining counter = record {
  allowed = allowed;
  limit = rule.limit;
  remaining = remaining;
  retry_after_seconds = build_retry_after now counter.window_started_at rule.window_seconds;
}

-- `evaluate` behind the choice of the counter, which the dictionary holds
unfoldable pub count_request :
    RateLimitRule → String → ℕ → WindowCounter → Counters → RateLimitDecision × Counters
count_request rule client_id now counter counters =
    if leb rule.limit counter.count then (decide rule now false 0 counter, counters) else (
      decide rule now true (rule.limit - (counter.count + 1)) counter,
      prune_expired_counters now
          (put rule.name client_id (record counter { count = counter.count + 1 }) counters),
    )

unfoldable pub evaluate_with :
    RateLimitRule → String → ℕ → Option WindowCounter → Counters → RateLimitDecision × Counters
evaluate_with rule client_id now (some counter) counters =
    count_request rule client_id now counter counters
evaluate_with rule client_id now none counters =
    let counter : WindowCounter = record { window_started_at = now; count = 0 } in
    count_request rule client_id now counter (put rule.name client_id counter counters)

unfoldable pub evaluate : RateLimitRule → String → ℕ → Counters → RateLimitDecision × Counters
evaluate rule client_id now counters =
    evaluate_with rule client_id now (open_counter rule now (get rule.name client_id counters))
      counters

-- `_build_rules`
abbrev rule_of : Settings → String → String → ℕ → RateLimitRule
rule_of settings name path limit = record {
  name = name;
  method = "POST";
  path = String.◌++◌ settings.api_v1_prefix path;
  limit = limit;
  window_seconds = settings.rate_limit_window_seconds;
}

unfoldable pub build_rules : Settings → List RateLimitRule
build_rules settings =
    filter (λ rule. ltb 0 rule.limit)
      (rule_of settings "auth_login" "/auth/login" settings.login_rate_limit_requests
        ∷ rule_of settings "auth_register" "/auth/register" settings.register_rate_limit_requests
        ∷ rule_of settings "auth_refresh" "/auth/refresh" settings.refresh_rate_limit_requests
        ∷ [])

-- `rule_lookup.get((request.method.upper(), request.url.path))`, of a method in capitals; the last
-- of two rules for one path is the one in the dictionary
abbrev matches : String → String → RateLimitRule → Bool
matches method path rule = rule.method == method && rule.path == path

unfoldable pub find_rule : Settings → String → String → Option RateLimitRule
find_rule settings method path = first (matches method path) (reverse (build_rules settings))

-- What the middleware does with a request: it hands it on, it hands it on and adds the decision's
-- numbers to the headers of the response, or it answers with status 429 and the same headers.
pub data Passage : Type 0 where
  hand_on : Passage
  hand_on_with : RateLimitDecision → Passage
  too_many_requests : RateLimitDecision → Passage

unfoldable pub pass : RateLimitDecision → Passage
pass decision = if decision.allowed then hand_on_with decision else too_many_requests decision

unfoldable pub client_id_of : Option String → String
client_id_of none = "unknown"
client_id_of (some host) = host

unfoldable pub limit_by : Option RateLimitRule → Option String → ℕ → Counters → Passage × Counters
limit_by none host now counters = (hand_on, counters)
limit_by (some rule) host now counters =
    let (decision, counters') = evaluate rule (client_id_of host) now counters in
    (pass decision, counters')

unfoldable pub rate_limit_requests :
    Settings → String → String → Option String → ℕ → Counters → Passage × Counters
rate_limit_requests settings method path host now counters =
    limit_by (find_rule settings method path) host now counters
