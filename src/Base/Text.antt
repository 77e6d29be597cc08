-- ===== src/Base/Text.antt =====
-- C strings: what the source uses of `std::string::find`, `sscanf` and `snprintf`, on bytes.
pub mod Decimal
pub mod Scans
pub mod Printing
use Prim.Native.Nat.{ℕ, zero, suc, ◌+◌, ◌-◌, ◌*◌, ◌/◌, ◌%◌, ◌^◌}
use Prim.Native.Char.{code}
use Prim.Native.String.{String}
use mathlib.Core.Bool.{Bool, true, false, ◌&&◌, ◌||◌, not}
use mathlib.Core.List.{List, [], ◌∷◌, ◌++◌}
use mathlib.Core.Option.{Option, none, some}
use rtsp_server.Base.Tests.{leb, ltb, ◌==◌, if◌then◌else◌}
use rtsp_server.Base.Lists.{Bytes, length, take}

-- The bytes of a literal.
abbrev pub text : String → Bytes
text String.[] = []
text (String.◌∷◌ c s) = code c ∷ text s

-- The bytes in front of the first 0.
unfoldable pub c_str : Bytes → Bytes
c_str [] = []
c_str (c ∷ s) = let rest = c_str s in if c == 0 then [] else c ∷ rest

unfoldable pub begins : Bytes → Bytes → Bool
begins [] s = true
begins (x ∷ xs) [] = false
begins (x ∷ xs) (c ∷ s) = x == c && begins xs s

-- `s.c_str() + s.find(needle)`, for a needle that is not empty; `none` for `npos`.
unfoldable pub seek : Bytes → Bytes → Option Bytes
seek needle [] = none
seek needle (c ∷ s) =
    let rest = seek needle s in if begins needle (c ∷ s) then some (c ∷ s) else rest

unfoldable pub is_some {ℓ} : {A : Type ℓ} → Option A → Bool
is_some none = false
is_some (some a) = true

-- `isspace`
unfoldable pub is_space : ℕ → Bool
is_space c = c == b' ' || (leb 9 c && leb c 13)

unfoldable pub is_digit : ℕ → Bool
is_digit c = leb b'0' c && leb c b'9'

-- A blank in a format.
unfoldable pub skip_space : Bytes → Bytes
skip_space [] = []
skip_space (c ∷ s) = let rest = skip_space s in if is_space c then rest else c ∷ s

-- The longest prefix whose bytes pass the test, and what follows it.
unfoldable pub span : (ℕ → Bool) → Bytes → Bytes × Bytes
span p [] = ([], [])
span p (c ∷ s) = let (xs, rest) = span p s in if p c then (c ∷ xs, rest) else ([], c ∷ s)

abbrev pub when_any : Bytes × Bytes → Option (Bytes × Bytes)
when_any ([], rest) = none
when_any (x ∷ xs, rest) = some (x ∷ xs, rest)

-- `%s`
unfoldable pub scan_word : Bytes → Option (Bytes × Bytes)
unfolding is_space
scan_word s = when_any (span (λ c. not (is_space c)) (skip_space s))

-- `%[^c]`
unfoldable pub scan_until : ℕ → Bytes → Option (Bytes × Bytes)
scan_until stop s = when_any (span (λ c. not (c == stop)) s)

-- A character in a format.
unfoldable pub scan_char : ℕ → Bytes → Option Bytes
scan_char x [] = none
scan_char x (c ∷ s) = if c == x then some s else none

-- The number that digits stand for.
unfoldable pub number : ℕ → Bytes → ℕ
number acc [] = acc
number acc (c ∷ s) = number (acc * 10 + (c - b'0')) s

-- `strtoul`, which stops at the largest value, reduced to `w` bits.
unfoldable pub narrow : ℕ → Bool → ℕ → ℕ
narrow w negative n =
    (if leb (2 ^ 64) n then 2 ^ 64 - 1 else if negative then (2 ^ 64 - n) % 2 ^ 64 else n) % 2 ^ w

abbrev pub numeral : ℕ → Bool → Option (Bytes × Bytes) → Option (ℕ × Bytes)
numeral w negative none = none
numeral w negative (some (ds, rest)) = some (narrow w negative (number 0 ds), rest)

unfoldable pub scan_digits : Bytes → Option (Bytes × Bytes)
unfolding is_digit
scan_digits s = when_any (span is_digit s)

abbrev pub signed : ℕ → Bytes → Option (ℕ × Bytes)
signed w [] = none
signed w (c ∷ s) =
    if c == b'-'
    then numeral w true (scan_digits s)
    else if c == b'+'
    then numeral w false (scan_digits s)
    else numeral w false (scan_digits (c ∷ s))

-- `%u` for 32 bits and `%hu` for 16.
unfoldable pub scan_unsigned : ℕ → Bytes → Option (ℕ × Bytes)
unfolding scan_digits skip_space
scan_unsigned w s = signed w (skip_space s)

-- `%s` and `%[` store in an array of that size: `none` if the word and its 0 do not fit.
unfoldable pub store : ℕ → Bytes → Option Bytes
store capacity s = if ltb (length s) capacity then some s else none

-- The decimal digits of `n` in front of `acc`. Each round takes a digit off.
unfoldable pub decimal_onto : ℕ → ℕ → Bytes → Bytes
decimal_onto zero n acc = acc
decimal_onto (suc fuel) n acc =
    let more = decimal_onto fuel (n / 10) ((b'0' + n % 10) ∷ acc) in
    if ltb n 10 then (b'0' + n % 10) ∷ acc else more

-- `%u`, and `%hu` of a 16-bit value.
unfoldable pub decimal : ℕ → Bytes
unfolding decimal_onto
decimal n = decimal_onto (suc n) n []

-- `%d` of a value of 32 bits.
unfoldable pub signed_decimal : ℕ → Bytes
unfolding decimal
signed_decimal n = if ltb n (2 ^ 31) then decimal n else b'-' ∷ decimal (2 ^ 32 - n)

-- What `snprintf` leaves in a buffer of `size` bytes, up to its 0.
unfoldable pub printed : ℕ → Bytes → Bytes
printed size s = take (size - 1) s

-- What a call of `snprintf` at the end of what is in the buffer leaves.
unfoldable pub append_printed : ℕ → Bytes → Bytes → Bytes
append_printed size s more = s ++ printed (size - length s) more
