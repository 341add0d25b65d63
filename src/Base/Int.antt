-- ===== src/Base/Int.antt =====
-- Signed integers over the native numbers, as far as the program compares them.
use Prim.Native.Nat.{ℕ, zero, suc, ◌-◌, ◌^◌}
use go_socket_io.Base.Tests.{ltb, if◌then◌else◌}
use mathlib.Core.Bool.{Bool, true, false}

-- `negsuc n` is -(n + 1).
pub data ℤ : Type 0 where
  pos : ℕ → ℤ
  negsuc : ℕ → ℤ

-- The value of a number that is not negative, and 0 below.
abbrev pub to_ℕ : ℤ → ℕ
to_ℕ (pos n) = n
to_ℕ (negsuc n) = 0

-- `x <= 0`
abbrev pub is_nonpos : ℤ → Bool
is_nonpos (pos ℕ.zero) = true
is_nonpos (pos (suc n)) = false
is_nonpos (negsuc n) = true

-- The `int64` that a number below 2 ^ 64, or the negation of one, wraps around to.
abbrev pub wrap_pos : ℕ → ℤ
wrap_pos k = if ltb k (2 ^ 63) then pos k else negsuc (2 ^ 64 - 1 - k)

abbrev pub wrap_neg : ℕ → ℤ
wrap_neg zero = pos 0
wrap_neg (suc k) = if ltb k (2 ^ 63) then negsuc k else pos (2 ^ 64 - suc k)
