-- ===== src/Base/Below.antt =====
-- Tests of all numbers below a bound.
use Prim.Native.Nat.{ℕ, zero, suc, ◌<◌}
use mathlib.Core.Path.{◌≡◌}
use mathlib.Core.Logic.{inl, inr}
use mathlib.Core.Bool.{Bool, true, ◌&&◌}
use native.Mathlib.Omega.{arith}
use identity_access_service.Base.Tests.{◌==◌, nat_eq, Bool-cases, &&_true}

-- A test that all numbers below a bound pass, by computation.
abbrev pub all_below : ℕ → (ℕ → Bool) → Bool
all_below zero p = true
all_below (suc n) p = p n && all_below n p

pub all_below_sound : (n : ℕ) (p : ℕ → Bool) (d : ℕ) → all_below n p ≡ true → d < n → p d ≡ true
all_below_sound zero p d h lt = absurd (ground arith)
all_below_sound (suc n) p d h lt =
    let (top, others) = &&_true (p n) (all_below n p) h in
    elim (Bool-cases (d == n)) [
      | inl e ↦ let e' : d ≡ n = ground arith in rw e' top
      | inr ne ↦ all_below_sound n p d others (ground arith)
    ]
