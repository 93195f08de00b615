-- ===== src/Core/RateLimit/Retry.antt =====
-- The number of seconds in the header Retry-After.
use Prim.Native.Nat.{ℕ, ◌+◌, ◌-◌, ◌≤◌, ◌<◌, max}
use identity_access_service.Base.{
  String, true, false, some, leb, ◌≡◌, arith, Option-cases, Bool-cases, inl, inr,
}
use identity_access_service.Core.RateLimit.{
  RateLimitRule, WindowCounter, Counters, seconds, get, open_counter, count_request, evaluate_with,
  evaluate, build_retry_after,
}

-- After that many seconds the window is over, and they are at most those of the window, or one.
build_retry_after_enough :
    (now later start window : ℕ)
    → start ≤ now
    → now + seconds (build_retry_after now start window) ≤ later
    → seconds window ≤ later - start
unfolding build_retry_after
build_retry_after_enough now later start window begun h = omega arith

build_retry_after_bounds :
    (now start window : ℕ)
    → (1 ≤ build_retry_after now start window) × (build_retry_after now start window ≤ max 1 window)
unfolding build_retry_after
build_retry_after_bounds now start window = (omega arith, omega arith)

module _ (rule : RateLimitRule) (client_id : String) (now : ℕ) (cs : Counters) where
  -- A refusal comes from a stored counter, whose window is open, and changes nothing.
  refusal_of :
      0 < rule.limit
      → (evaluate rule client_id now cs).0.allowed ≡ false
      → (w : WindowCounter) × (get rule.name client_id cs ≡ some w)
        × ((evaluate rule client_id now cs).1 ≡ cs)
        × ((evaluate rule client_id now cs).0.retry_after_seconds
            ≡ build_retry_after now w.window_started_at rule.window_seconds)
  unfolding evaluate evaluate_with open_counter count_request
  refusal_of some_limit refused = elim (Option-cases (get rule.name client_id cs)) [
    | inl no_counter ↦ absurd (ground arith)
    | inr (w, there) ↦
        elim (Bool-cases (leb (seconds rule.window_seconds) (now - w.window_started_at))) [
          | inl over ↦ absurd (ground arith)
          | inr still ↦ (w, there, ground arith, ground arith)
        ]
  ]

  abbrev pub retry_after : ℕ
  retry_after = (evaluate rule client_id now cs).0.retry_after_seconds

  admitted_later :
      (w : WindowCounter) (later : ℕ)
      → get rule.name client_id cs ≡ some w
      → 0 < rule.limit
      → seconds rule.window_seconds ≤ later - w.window_started_at
      → (evaluate rule client_id later cs).0.allowed ≡ true
  unfolding evaluate evaluate_with open_counter count_request
  admitted_later w later there some_limit over = ground arith

  -- A client that is refused under a rule with a limit above 0, at a time that is not before the start
  -- of its window, is told to wait for at least one second and for no longer than the window, or one
  -- second; and if it makes its next request no sooner than that, it is admitted.
  pub retry_after_admits :
      0 < rule.limit
      → ((w : WindowCounter) → get rule.name client_id cs ≡ some w → w.window_started_at ≤ now)
      → (evaluate rule client_id now cs).0.allowed ≡ false
      → (1 ≤ retry_after)
        × (retry_after ≤ max 1 rule.window_seconds)
        × ((later : ℕ)
            → now + seconds retry_after ≤ later
            → (evaluate rule client_id later (evaluate rule client_id now cs).1).0.allowed ≡ true)
  retry_after_admits some_limit begun refused =
      let (w, there, same, told) = refusal_of some_limit refused in
      let (least, most) = build_retry_after_bounds now w.window_started_at rule.window_seconds in
      (
        rw told least,
        rw told most,
        λ later waited. rw same (
            admitted_later w later there some_limit (
              build_retry_after_enough now later w.window_started_at rule.window_seconds
                (begun w there) (rw told at waited))),
      )
