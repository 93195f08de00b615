-- ===== src/Base/Int.antt =====
-- Python's `int`, as a number or the negative of a successor.
use Prim.Native.Nat.{ℕ, max}
use mathlib.Core.Bool.{Bool, true, false}
use identity_access_service.Base.Tests.{leb}

pub data ℤ : Type 0 where
  pos : ℕ → ℤ
  negsuc : ℕ → ℤ

-- `max(i, n)` for a natural number `n`
unfoldable pub max_int : ℤ → ℕ → ℕ
max_int (pos m) n = max m n
max_int (negsuc m) n = n

-- `n <= i`
unfoldable pub at_least : ℕ → ℤ → Bool
at_least n (pos m) = leb n m
at_least n (negsuc m) = false

-- `i <= n`
unfoldable pub at_most : ℕ → ℤ → Bool
at_most n (pos m) = leb m n
at_most n (negsuc m) = true
