-- ===== src/H264File/Shapes.antt =====
-- src/h264_file.cc: what a start code and the bytes behind it say, by the layout of an H.264 byte stream.
use rtsp_server.Base.{
  ℕ, Bytes, Bool, true, false, Option, none, some, [], ◌∷◌, ◌++◌, ◌%◌, ◌≤◌, ◌≡◌, refl, arith, ◌==◌,
  leb, ◌&&◌, ◌||◌, if◌then◌else◌, length, drop, Bool-cases, inl, inr,
}
use rtsp_server.Base.Text.{begins}

-- The bytes behind a start code of three or of four bytes at the front.
unfoldable pub behind_code : Bytes → Option Bytes
unfolding begins
behind_code s =
    if begins (0 ∷ 0 ∷ 1 ∷ []) s
    then some (drop 3 s)
    else if begins (0 ∷ 0 ∷ 0 ∷ 1 ∷ []) s
    then some (drop 4 s)
    else none

-- A NAL unit that is a slice (type 1 or 5) and begins with the macroblock 0, which is one set bit.
unfoldable pub is_first_slice : Bytes → Bool
is_first_slice (t ∷ b ∷ s) = (t % 32 == 1 || t % 32 == 5) && leb 128 b
is_first_slice _ = false

-- A NAL unit that is a message (type 6) or a parameter set (7 or 8).
unfoldable pub is_parameter : Bytes → Bool
is_parameter [] = false
is_parameter (t ∷ s) = t % 32 == 6 || (t % 32 == 7 || t % 32 == 8)

abbrev pub on_some : (Bytes → Bool) → Option Bytes → Bool
on_some test none = false
on_some test (some s) = test s

-- At the front is a start code with the first slice of a frame behind it, or with what a frame ends at.
unfoldable pub starts : Bytes → Bool
unfolding behind_code is_first_slice
starts s = on_some is_first_slice (behind_code s)

abbrev pub ends_at : Bytes → Bool
ends_at u = is_parameter u || is_first_slice u

unfoldable pub ends : Bytes → Bool
unfolding behind_code
ends s = on_some ends_at (behind_code s)

swap : (x y : ℕ) → (x == y) ≡ (y == x)
swap x y = elim (Bool-cases (x == y)) [
  | inl same ↦ ground (arith, same)
  | inr other ↦ ground (arith, other)
]

and_tt : (x : Bool) → x && true ≡ x
and_tt true = refl
and_tt false = refl

pub behind_code_lem :
    (a b c d e g : ℕ) (s : Bytes)
    → behind_code (a ∷ b ∷ c ∷ d ∷ e ∷ g ∷ s) ≡ (
        if a == 0 && (b == 0 && c == 1)
        then some (d ∷ e ∷ g ∷ s)
        else if a == 0 && (b == 0 && (c == 0 && d == 1))
        then some (e ∷ g ∷ s)
        else none)
unfolding behind_code begins
behind_code_lem a b c d e g s =
    rw (swap 0 a, swap 0 b, swap 0 c, swap 1 c, swap 1 d, and_tt (c == 1), and_tt (d == 1)) refl

-- What the bytes say depends on the first six of them.
module _ (is : Bytes → Bool)
    (reads_two : (d e : ℕ) (s t : Bytes) → is (d ∷ e ∷ s) ≡ is (d ∷ e ∷ t)) where
  behind_append :
      (s t : Bytes) → 6 ≤ length s → on_some is (behind_code (s ++ t)) ≡ on_some is (behind_code s)
  behind_append (a ∷ b ∷ c ∷ d ∷ e ∷ g ∷ s) t long =
      rw (behind_code_lem a b c d e g (s ++ t), behind_code_lem a b c d e g s)
        (elim (Bool-cases (a == 0 && (b == 0 && c == 1))) [
          | inl is_3 ↦ rw is_3 (reads_two d e _ _)
          | inr not_3 ↦ rw not_3 (elim (Bool-cases (a == 0 && (b == 0 && (c == 0 && d == 1)))) [
            | inl is_4 ↦ rw is_4 (reads_two e g _ _)
            | inr not_4 ↦ rw not_4 refl
          ])
        ])
  behind_append _ t long = absurd (omega (arith, long))

pub starts_append : (s t : Bytes) → 6 ≤ length s → starts (s ++ t) ≡ starts s
unfolding starts is_first_slice
starts_append = behind_append is_first_slice (λ d e s t. refl)

pub ends_append : (s t : Bytes) → 6 ≤ length s → ends (s ++ t) ≡ ends s
unfolding ends is_first_slice is_parameter
ends_append = behind_append ends_at (λ d e s t. refl)

or_true : (x y : Bool) → y ≡ true → x || y ≡ true
or_true true y h = refl
or_true false y h = h

on_some-ends : (x : Option Bytes) → on_some is_first_slice x ≡ true → on_some ends_at x ≡ true
on_some-ends none h = h
on_some-ends (some u) h = or_true (is_parameter u) (is_first_slice u) h

-- The first slice of a frame is also what the frame before it ends at.
pub starts-ends : (s : Bytes) → starts s ≡ true → ends s ≡ true
unfolding starts ends
starts-ends s = on_some-ends (behind_code s)
