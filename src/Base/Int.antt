-- ===== src/Base/Int.antt =====
-- The signed integers that the program keeps in an `int`, under the library's names.
use Prim.Native.Nat.{ℕ, ◌+◌, ◌-◌}
use mathlib.Core.Bool.{Bool, true, false}
use rtsp_server.Base.Tests.{ltb, ◌==◌, if◌then◌else◌}

-- `negsuc n` is -(n + 1).
pub data ℤ : Type 0 where
  pos : ℕ → ℤ
  negsuc : ℕ → ℤ

abbrev pub increment : ℤ → ℤ
increment (pos n) = pos (n + 1)
increment (negsuc n) = if n == 0 then pos 0 else negsuc (n - 1)

abbrev pub decrement : ℤ → ℤ
decrement (pos n) = if n == 0 then negsuc 0 else pos (n - 1)
decrement (negsuc n) = negsuc (n + 1)

-- The comparison of an integer with a number that is not negative.
abbrev pub lt_nat : ℤ → ℕ → Bool
lt_nat (pos n) m = ltb n m
lt_nat (negsuc n) m = true

abbrev pub eq_nat : ℤ → ℕ → Bool
eq_nat (pos n) m = n == m
eq_nat (negsuc n) m = false

abbrev pub above_zero : ℤ → Bool
above_zero (pos n) = ltb 0 n
above_zero (negsuc n) = false
