-- ===== src/Base/Text/Decimal.antt =====
-- The digits that `%u` prints, and what they are read as.
use Prim.Native.Nat.{ℕ, zero, suc, ◌+◌, ◌-◌, ◌*◌, ◌/◌, ◌%◌, ◌^◌, ◌≤◌, ◌<◌}
use mathlib.Core.Path.{◌≡◌, ap, ◌∙◌}
use mathlib.Core.Bool.{true}
use mathlib.Core.List.{[], ◌∷◌}
use native.Mathlib.Omega.{arith}
use rtsp_server.Base.Tests.{ltb, Bool-cases, ltb→lt}
use mathlib.Core.Logic.{inl, inr}
use rtsp_server.Base.Lists.{Bytes, length, All}
use rtsp_server.Base.Text.{number, is_digit, decimal, decimal_onto}

-- 10 to the power `k`.
pub tens : ℕ → ℕ
tens zero = 1
tens (suc k) = 10 * tens k

abbrev pub IsDigit : ℕ → Type 0
IsDigit c = is_digit c ≡ true

decimal_onto-number :
    (fuel n : ℕ) (acc : Bytes) → n < fuel → number 0 (decimal_onto fuel n acc) ≡ number n acc
unfolding decimal_onto number
decimal_onto-number zero n acc h = absurd (omega arith)
decimal_onto-number (suc fuel) n acc h = elim (Bool-cases (ltb n 10)) [
  | inl small ↦ rw small (
      ap (λ k. number k acc)
        (let e : 0 * 10 + (48 + n % 10 - 48) ≡ n = omega (arith, ltb→lt n 10 small) in e))
  | inr large ↦ rw large (
      decimal_onto-number fuel (n / 10) ((48 + n % 10) ∷ acc) (ground arith)
      ∙ ap (λ k. number k acc) (let e : n / 10 * 10 + (48 + n % 10 - 48) ≡ n = omega arith in e))
]

digit : (n : ℕ) → IsDigit (48 + n % 10)
unfolding is_digit
digit n = ground arith

decimal_onto-digits :
    (fuel n : ℕ) (acc : Bytes) → All IsDigit acc → All IsDigit (decimal_onto fuel n acc)
unfolding decimal_onto
decimal_onto-digits zero n acc h = h
decimal_onto-digits (suc fuel) n acc h = elim (Bool-cases (ltb n 10)) [
  | inl small ↦ rw small (digit n, h)
  | inr large ↦ rw large (decimal_onto-digits fuel (n / 10) ((48 + n % 10) ∷ acc) (digit n, h))
]

decimal_onto-length :
    (fuel k n : ℕ) (acc : Bytes)
    → n < tens (suc k)
    → length (decimal_onto fuel n acc) ≤ length acc + suc k
unfolding decimal_onto tens
decimal_onto-length zero k n acc h = omega arith
decimal_onto-length (suc fuel) zero n acc h = ground arith
decimal_onto-length (suc fuel) (suc k) n acc h =
    ground (arith, decimal_onto-length fuel k (n / 10) ((48 + n % 10) ∷ acc))

decimal_onto-filled :
    (fuel n : ℕ) (acc : Bytes) → length acc + 1 ≤ length (decimal_onto (suc fuel) n acc)
unfolding decimal_onto
decimal_onto-filled zero n acc = ground arith
decimal_onto-filled (suc fuel) n acc =
    ground (arith, decimal_onto-filled fuel (n / 10) ((48 + n % 10) ∷ acc))

-- The digits of a number are digits, are read as the number, and there is one at least.
pub record IsNumeral (n : ℕ) (ds : Bytes) : Type 0 where
  pub digits : All IsDigit ds
  pub value : number 0 ds ≡ n
  pub filled : 0 < length ds

pub decimal-IsNumeral : (n : ℕ) → IsNumeral n (decimal n)
unfolding decimal number
decimal-IsNumeral n = record {
  digits = decimal_onto-digits (suc n) n [] tt;
  value = decimal_onto-number (suc n) n [] (omega arith);
  filled = omega (arith, decimal_onto-filled n n []);
}

-- A number of 32 bits has at most ten digits.
pub length-decimal : (n : ℕ) → n < 2 ^ 32 → length (decimal n) ≤ 10
unfolding decimal tens
length-decimal n h = omega (arith, decimal_onto-length (suc n) 9 n [])
