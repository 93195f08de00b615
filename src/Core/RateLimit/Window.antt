-- ===== src/Core/RateLimit/Window.antt =====
-- Within one window of a rule, a client is admitted no more often than the rule's limit.
use Prim.Native.Nat.{ℕ, ◌+◌, ◌-◌, ◌≤◌, ◌<◌}
use identity_access_service.Base.{
  String, Bool, true, false, Option, none, some, List, [], ◌∷◌, ltb, leb, ◌==◌, ◌&&◌, string_eq,
  ◌≡◌, ◌∙◌, arith, if◌then◌else◌, All, Bool-cases, inl, inr,
}
use identity_access_service.Core.RateLimit.{
  RateLimitRule, WindowCounter, Counters, seconds, get, put, open_counter, count_request,
  evaluate_with, evaluate,
}
use identity_access_service.Core.RateLimit.Items.{get-put, get-put-other, get-prune}

-- The window of the counter is open at the time, and the counter is too young to be pruned.
abbrev pub IsWithinWindow : ℕ → ℕ → WindowCounter → Type 0
IsWithinWindow window_seconds now w =
    (now - w.window_started_at < seconds window_seconds) × (window_seconds ≤ 300)

abbrev after_request : RateLimitRule → WindowCounter → WindowCounter
after_request rule w = if leb rule.limit w.count then w else record w { count = w.count + 1 }

module _ (rule : RateLimitRule) (client_id : String) (now : ℕ) (cs : Counters) where
  counts_request :
      (w : WindowCounter)
      → get rule.name client_id cs ≡ some w
      → IsWithinWindow rule.window_seconds now w
      → ((evaluate rule client_id now cs).0.allowed ≡ ltb w.count rule.limit)
        × (get rule.name client_id (evaluate rule client_id now cs).1 ≡ some (after_request rule w))
  unfolding evaluate evaluate_with open_counter count_request
  counts_request w there (opened, young) = elim (Bool-cases (leb rule.limit w.count)) [
    | inl full ↦ (ground arith, ground arith)
    | inr free ↦
        let w' : WindowCounter = record w { count = w.count + 1 } in
        (
          ground arith,
          ground (
            arith,
            get-prune rule.name client_id now w' (put rule.name client_id w' cs)
                (get-put rule.name client_id w' cs) (omega arith),
          ),
        )
  ]

-- A request under another key leaves the counter, even if it prunes.
module _ (rule : RateLimitRule) (client_id : String) (now : ℕ) (name other_client : String)
    (w : WindowCounter) (other : (rule.name == name && client_id == other_client) ≡ false)
    (young : now - w.window_started_at < seconds 300) where
  count_request-leaves :
      (v : WindowCounter) (cs : Counters)
      → get name other_client cs ≡ some w
      → get name other_client (count_request rule client_id now v cs).1 ≡ some w
  unfolding count_request
  count_request-leaves v cs there = elim (Bool-cases (leb rule.limit v.count)) [
    | inl full ↦ ground arith
    | inr free ↦
        let v' : WindowCounter = record v { count = v.count + 1 } in
        ground (
          arith,
          get-prune name other_client now w (put rule.name client_id v' cs)
              (get-put-other name other_client rule.name client_id v' cs other ∙ there) young,
        )
  ]

  evaluate_with-leaves :
      (o : Option WindowCounter) (cs : Counters)
      → get name other_client cs ≡ some w
      → get name other_client (evaluate_with rule client_id now o cs).1 ≡ some w
  unfolding evaluate_with
  evaluate_with-leaves (some v) cs there = count_request-leaves v cs there
  evaluate_with-leaves none cs there =
      count_request-leaves _ _
        (get-put-other name other_client rule.name client_id _ cs other ∙ there)

  leaves_others :
      (cs : Counters)
      → get name other_client cs ≡ some w
      → get name other_client (evaluate rule client_id now cs).1 ≡ some w
  unfolding evaluate
  leaves_others cs there = evaluate_with-leaves _ cs there

-- The requests that reach the limiter, in their order.
pub record Arrival : Type 0 where
  pub rule : RateLimitRule
  pub client_id : String
  pub now : ℕ

module _ (rule : RateLimitRule) (client_id : String) where
  abbrev pub is_mine : Arrival → Bool
  is_mine a = a.rule.name == rule.name && a.client_id == client_id

  -- How many of the arrivals of the client under the rule are admitted.
  unfoldable pub admitted : List Arrival → Counters → ℕ
  admitted [] cs = 0
  admitted (a ∷ arrivals) cs =
      let (decision, cs') = evaluate a.rule a.client_id a.now cs in
      let rest = admitted arrivals cs' in if is_mine a && decision.allowed then 1 + rest else rest

  -- The arrival falls into the window, and the rule's name belongs to the rule.
  abbrev pub IsIn : WindowCounter → Arrival → Type 0
  IsIn w a =
      (a.now - w.window_started_at < seconds rule.window_seconds)
      × (is_mine a ≡ true → a.rule ≡ rule)

  mine_is_counted :
      (a : Arrival) (w : WindowCounter) (cs : Counters)
      → rule.window_seconds ≤ 300
      → get rule.name client_id cs ≡ some w
      → IsIn w a
      → is_mine a ≡ true
      → ((evaluate a.rule a.client_id a.now cs).0.allowed ≡ ltb w.count rule.limit)
        × (get rule.name client_id (evaluate a.rule a.client_id a.now cs).1
            ≡ some (after_request rule w))
  mine_is_counted a w cs young there (opened, same) mine =
      let e : a.rule ≡ rule = same mine in
      let e' : a.client_id ≡ client_id = ground (arith, string_eq.reflects a.client_id client_id) in
      let (allowed, after) = counts_request rule client_id a.now cs w there (opened, young) in
      (ground arith, ground arith)

  -- Take a rule with a window of at most 300 seconds, and the stored counter of a client under it
  -- that is not above the limit. Among arrivals before the end of its window, the requests of the
  -- client that are admitted under the rule, and the count, are together at most the limit,
  -- whatever other clients and rules do between them. Arrivals under the rule's name are of the
  -- rule.
  pub window_admits_at_most_limit :
      (arrivals : List Arrival) (w : WindowCounter) (cs : Counters)
      → rule.window_seconds ≤ 300
      → get rule.name client_id cs ≡ some w
      → w.count ≤ rule.limit
      → All (IsIn w) arrivals
      → admitted arrivals cs + w.count ≤ rule.limit
  unfolding admitted
  window_admits_at_most_limit [] w cs young there below all = omega arith
  window_admits_at_most_limit (a ∷ arrivals) w cs young there below ((opened, same), all) =
      elim (Bool-cases (is_mine a)) [
        | inl mine ↦
            let (allowed, after) = mine_is_counted a w cs young there (opened, same) mine in
            elim (Bool-cases (leb rule.limit w.count)) [
              | inl full ↦
                  let after' : get rule.name client_id (evaluate a.rule a.client_id a.now cs).1
                      ≡ some w =
                    ground arith in
                  ground (arith, window_admits_at_most_limit arrivals w _ young after' below all)
              | inr free ↦
                  let w' : WindowCounter = record w { count = w.count + 1 } in
                  let after' : get rule.name client_id (evaluate a.rule a.client_id a.now cs).1
                      ≡ some w' =
                    ground arith in
                  ground (
                    arith,
                    window_admits_at_most_limit arrivals w' _ young after' (ground arith) all,
                  )
            ]
        | inr other ↦
            let next =
              leaves_others a.rule a.client_id a.now rule.name client_id w other (omega arith) cs
                there in
            ground (arith, window_admits_at_most_limit arrivals w _ young next below all)
      ]
