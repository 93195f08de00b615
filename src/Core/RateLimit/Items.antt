-- ===== src/Core/RateLimit/Items.antt =====
-- What the dictionary of counters holds after an item is stored, or the old ones are pruned.
use Prim.Native.Nat.{ℕ, ◌-◌, ◌<◌}
use identity_access_service.Base.{
  String, Bool, true, false, some, [], ◌∷◌, ltb, ◌==◌, ◌&&◌, string_eq, ◌≡◌, refl, ap, arith, first,
  filter, Bool-cases, Option-cases, inl, inr,
}
use identity_access_service.Base.Rows.{first-update, first_sound}
use identity_access_service.Core.RateLimit.{
  WindowCounter, Item, Counters, seconds, has_key, get, put, prune_expired_counters,
}

pub first-filter :
    (p q : Item → Bool) (cs : Counters) {item : Item}
    → first q cs ≡ some item
    → p item ≡ true
    → first q (filter p cs) ≡ some item
unfolding first filter
first-filter p q [] h keep = h
first-filter p q (x ∷ cs) {item} h keep = elim (Bool-cases (q x)) [
  | inl yes_there ↦ let e : x ≡ item = ground arith in ground (arith, ap p e)
  | inr not_there ↦ ground (arith, first-filter p q cs (rw not_there at h) keep)
]

module _ (name client_id : String) where
  pub get-put :
      (w : WindowCounter) (cs : Counters) → get name client_id (put name client_id w cs) ≡ some w
  unfolding get put first
  get-put w cs = elim (Option-cases (first (has_key name client_id) cs)) [
    | inl none_there ↦
        ground (arith, string_eq.reflects name name, string_eq.reflects client_id client_id)
    | inr (item, there) ↦ ground (
      arith,
      first_sound (has_key name client_id) cs there,
      first-update (has_key name client_id) (has_key name client_id) (λ i. record i { counter = w })
          (λ i. refl) cs,
    )
  ]

  -- One item does not have two keys.
  pub apart :
      (name' client_id' : String) (item : Item)
      → (name' == name && client_id' == client_id) ≡ false
      → has_key name client_id item ≡ true
      → has_key name' client_id' item ≡ false
  apart name' client_id' item other mine = ground (
    arith,
    string_eq.reflects item.name name,
    string_eq.reflects item.client_id client_id,
    string_eq.reflects item.name name',
    string_eq.reflects item.client_id client_id',
    string_eq.reflects name' name,
    string_eq.reflects client_id' client_id,
  )

  pub get-put-other :
      (name' client_id' : String) (w : WindowCounter) (cs : Counters)
      → (name' == name && client_id' == client_id) ≡ false
      → get name client_id (put name' client_id' w cs) ≡ get name client_id cs
  unfolding get put first
  get-put-other name' client_id' w cs other =
      elim (Option-cases (first (has_key name client_id) cs)) [
        | inl none_there ↦ ground (
          arith,
          first-update (has_key name' client_id') (has_key name client_id)
              (λ i. record i { counter = w }) (λ i. refl) cs,
        )
        | inr (item, there) ↦ ground (
          arith,
          apart name' client_id' item other (first_sound (has_key name client_id) cs there),
          first-update (has_key name' client_id') (has_key name client_id)
              (λ i. record i { counter = w }) (λ i. refl) cs,
        )
      ]

  pub get-prune :
      (now : ℕ) (w : WindowCounter) (cs : Counters)
      → get name client_id cs ≡ some w
      → now - w.window_started_at < seconds 300
      → get name client_id (prune_expired_counters now cs) ≡ some w
  unfolding get prune_expired_counters
  get-prune now w cs there recent = elim (Option-cases (first (has_key name client_id) cs)) [
    | inl none_there ↦ absurd (ground arith)
    | inr (item, found) ↦
        let recent' : ltb (now - item.counter.window_started_at) (seconds 300) ≡ true =
          ground arith in
        ground (
          arith,
          first-filter (λ i. ltb (now - i.counter.window_started_at) (seconds 300))
              (has_key name client_id) cs found recent',
        )
  ]
