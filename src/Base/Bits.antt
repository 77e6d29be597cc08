-- ===== src/Base/Bits.antt =====
-- Facts about one byte, by checking all of them.
use Prim.Native.Nat.{ℕ, zero, suc, ◌/◌, ◌%◌, ◌≤◌, ◌<◌, min, bit_and, digits, bit_and-bitwise}
use mathlib.Core.Path.{◌≡◌}
use mathlib.Core.Bool.{Bool, true, ◌&&◌}
use native.Mathlib.Omega.{arith}
use mathlib.Core.Path.{subst}
use mathlib.Core.Logic.{inl, inr}
use mathlib.Core.List.{List, [], ◌∷◌}
use rtsp_server.Base.Tests.{ltb, ltb→lt, Bool-cases}
use rtsp_server.Base.Lists.{All}

-- The test holds at each number below the bound.
unfoldable pub all_below : ℕ → (ℕ → Bool) → Bool
all_below zero test = true
all_below (suc k) test = test k && all_below k test

pub all_below_sound :
    (bound : ℕ) (test : ℕ → Bool) (b : ℕ) → all_below bound test ≡ true → b < bound → test b ≡ true
unfolding all_below
all_below_sound zero test b table small = absurd (omega arith)
all_below_sound (suc k) test b table small = ground (arith, all_below_sound k test b)

-- The digit recursion that `bit_and` stands for never exceeds its second number.
abbrev and_digits : ℕ → ℕ → ℕ → ℕ
and_digits n a b = digits (λ c. zero) min n a b

and_digits-le : (n a b : ℕ) → and_digits n a b ≤ b
and_digits-le zero zero b = omega arith
and_digits-le zero (suc a) b = omega arith
and_digits-le (suc n) zero b = omega arith
and_digits-le (suc n) (suc a) b = omega (arith, and_digits-le n (suc a / 2) (b / 2))

pub bit_and-le : (a b : ℕ) → bit_and a b ≤ b
bit_and-le a b = omega (arith, bit_and-bitwise a b, and_digits-le a a b)

-- A mask whose lowest bit is clear clears the lowest bit.
pub bit_and-mod_two : (a b : ℕ) → b % 2 ≡ 0 → bit_and a b % 2 ≡ 0
bit_and-mod_two zero b h = omega (arith, bit_and-bitwise zero b)
bit_and-mod_two (suc a) b h = omega (arith, bit_and-bitwise (suc a) b)

-- Each number is a byte.
unfoldable pub are_bytes : List ℕ → Bool
are_bytes [] = true
are_bytes (b ∷ s) = ltb b 256 && are_bytes s

pub are_bytes_sound : (s : List ℕ) → are_bytes s ≡ true → All (λ b. b < 256) s
unfolding are_bytes
are_bytes_sound [] h = tt
are_bytes_sound (b ∷ s) h = elim (Bool-cases (ltb b 256)) [
  | inl small ↦
      (ltb→lt b 256 small, are_bytes_sound s (subst (λ x. x && are_bytes s ≡ true) small h))
  | inr large ↦ absurd (cc (subst (λ x. x && are_bytes s ≡ true) large h))
]
