-- ===== src/Base/Text/Scans.antt =====
-- What the conversions of `sscanf` and `find` make of a text that was put together.
use Prim.Native.Nat.{ℕ, ◌^◌, ◌<◌}
use mathlib.Core.Path.{◌≡◌, refl, ap, sym, ◌∙◌}
use mathlib.Core.Logic.{inl, inr}
use mathlib.Core.Bool.{Bool, true, false, not}
use mathlib.Core.List.{[], ◌∷◌, ◌++◌, append-nil}
use mathlib.Core.Option.{some}
use native.Mathlib.Omega.{arith}
use native.Mathlib.Nat.{mod-eq_of_lt}
use rtsp_server.Base.Tests.{leb, ◌==◌, Bool-cases, lt→ltb, ==_iff}
use rtsp_server.Base.Lists.{Bytes, length, All, length-append}
use rtsp_server.Base.Text.{
  c_str, is_digit, is_space, skip_space, span, when_any, scan_word, scan_until, scan_unsigned,
  narrow, begins, seek, store, decimal,
}
use rtsp_server.Base.Text.Decimal.{IsDigit, IsNumeral, decimal-IsNumeral}

pub span_lem :
    (p : ℕ → Bool) (xs : Bytes) (c : ℕ) (rest : Bytes)
    → All (λ x. p x ≡ true) xs
    → p c ≡ false
    → span p (xs ++ (c ∷ rest)) ≡ (xs, c ∷ rest)
unfolding span
span_lem p [] c rest h stop = rw stop
span_lem p (x ∷ xs) c rest h stop = rw (h.0, span_lem p xs c rest h.1 stop)

pub span-whole : (p : ℕ → Bool) (xs : Bytes) → All (λ x. p x ≡ true) xs → span p xs ≡ (xs, [])
unfolding span
span-whole p [] h = refl
span-whole p (x ∷ xs) h = rw (h.0, span-whole p xs h.1)

when_any-filled : (xs rest : Bytes) → 0 < length xs → when_any (xs, rest) ≡ some (xs, rest)
when_any-filled [] rest h = absurd (omega arith)
when_any-filled (x ∷ xs) rest h = refl

-- The word in front of a byte that ends it.
pub scan_until-lem :
    (stop : ℕ) (xs rest : Bytes)
    → All (λ x. not (x == stop) ≡ true) xs
    → 0 < length xs
    → scan_until stop (xs ++ (stop ∷ rest)) ≡ some (xs, stop ∷ rest)
unfolding scan_until
scan_until-lem stop xs rest h filled =
    ap when_any (span_lem (λ c. not (c == stop)) xs stop rest h (rw ((==_iff stop stop).1 refl)))
    ∙ when_any-filled xs (stop ∷ rest) filled

digit-space : (d : ℕ) → IsDigit d → is_space d ≡ false
unfolding is_digit is_space
digit-space d h = ground arith

digit-minus : (d : ℕ) → IsDigit d → (d == b'-') ≡ false
unfolding is_digit
digit-minus d h = ground arith

digit-plus : (d : ℕ) → IsDigit d → (d == b'+') ≡ false
unfolding is_digit
digit-plus d h = ground arith

narrow-small : (w n : ℕ) → n < 2 ^ 64 → n < 2 ^ w → narrow w false n ≡ n
unfolding narrow
narrow-small w n h k = elim (Bool-cases (leb (2 ^ 64) n)) [
  | inl big ↦ ground arith
  | inr small ↦ rw small (mod-eq_of_lt k)
]

scan_unsigned-numeral :
    (w n : ℕ) (ds : Bytes) (c : ℕ) (rest : Bytes)
    → IsNumeral n ds
    → n < 2 ^ 64
    → n < 2 ^ w
    → is_digit c ≡ false
    → scan_unsigned w (ds ++ (c ∷ rest)) ≡ some (n, c ∷ rest)
unfolding scan_unsigned skip_space
scan_unsigned-numeral w n [] c rest ok h k stop = absurd (omega (arith, ok.filled))
scan_unsigned-numeral w n (d ∷ ds) c rest ok h k stop =
    let all = span_lem is_digit (d ∷ ds) c rest ok.digits stop in
    rw (digit-space d ok.digits.0, digit-minus d ok.digits.0, digit-plus d ok.digits.0, all)
      (ap (λ k. some (k, c ∷ rest)) (ap (narrow w false) ok.value ∙ narrow-small w n h k))

-- `%u` reads a number back that `%u` has printed.
pub scan_unsigned-decimal :
    (w n c : ℕ) (rest : Bytes)
    → n < 2 ^ 64
    → n < 2 ^ w
    → is_digit c ≡ false
    → scan_unsigned w (decimal n ++ (c ∷ rest)) ≡ some (n, c ∷ rest)
scan_unsigned-decimal w n c rest =
    scan_unsigned-numeral w n (decimal n) c rest (decimal-IsNumeral n)

-- `find` goes past bytes that are not the first of what it looks for.
pub seek-skip :
    (x : ℕ) (xs ys s : Bytes)
    → All (λ y. (x == y) ≡ false) ys
    → seek (x ∷ xs) (ys ++ s) ≡ seek (x ∷ xs) s
unfolding seek begins
seek-skip x xs [] s h = refl
seek-skip x xs (y ∷ ys) s h = rw h.0 (seek-skip x xs ys s h.1)

pub All-map {ℓ κ} :
    {P : ℕ → Type ℓ} {Q : ℕ → Type κ} → ((x : ℕ) → P x → Q x) → (xs : Bytes) → All P xs → All Q xs
All-map f [] h = tt
All-map f (x ∷ xs) h = (f x h.0, All-map f xs h.1)

digit-other : (x d : ℕ) → is_digit x ≡ false → IsDigit d → (x == d) ≡ false
digit-other x d h k = elim (Bool-cases (x == d)) [
  | inl same ↦ cc (ap is_digit ((==_iff x d).0 same), h, k)
  | inr other ↦ other
]

-- It goes past the digits of a number.
pub seek-decimal :
    (x : ℕ) (xs : Bytes) (n : ℕ) (s : Bytes)
    → is_digit x ≡ false
    → seek (x ∷ xs) (decimal n ++ s) ≡ seek (x ∷ xs) s
seek-decimal x xs n s h =
    seek-skip x xs (decimal n) s
      (All-map (λ d. digit-other x d h) (decimal n) (decimal-IsNumeral n).digits)

pub All-append {ℓ} : (P : ℕ → Type ℓ) (xs ys : Bytes) → All P xs → All P ys → All P (xs ++ ys)
All-append P [] ys h k = k
All-append P (x ∷ xs) ys h k = (h.0, All-append P xs ys h.1 k)

pub c_str-whole : (s : Bytes) → All (λ c. (c == 0) ≡ false) s → c_str s ≡ s
unfolding c_str
c_str-whole [] h = refl
c_str-whole (c ∷ s) h = rw (h.0, c_str-whole s h.1)

-- A word is not empty and has no blank and no 0 in it.
pub record IsWord (w : Bytes) : Type 0 where
  pub unblank : All (λ c. not (is_space c) ≡ true) w
  pub nonzero : All (λ c. (c == 0) ≡ false) w
  pub filled : 0 < length w

not-true : (b : Bool) → not b ≡ true → b ≡ false
not-true true h = cc
not-true false h = refl

skip_space-word : (w rest : Bytes) → IsWord w → skip_space (w ++ rest) ≡ w ++ rest
unfolding skip_space
skip_space-word [] rest ok = absurd (omega (arith, ok.filled))
skip_space-word (c ∷ w) rest ok = rw (not-true (is_space c) ok.unblank.0)

pub scan_word-lem :
    (w rest : Bytes) (c : ℕ)
    → IsWord w
    → is_space c ≡ true
    → scan_word (w ++ (c ∷ rest)) ≡ some (w, c ∷ rest)
unfolding scan_word
scan_word-lem w rest c ok stop =
    rw
      (
        skip_space-word w (c ∷ rest) ok,
        span_lem (λ c. not (is_space c)) w c rest ok.unblank (rw stop),
      )
      (when_any-filled w (c ∷ rest) ok.filled)

pub scan_word-whole : (w : Bytes) → IsWord w → scan_word w ≡ some (w, [])
unfolding scan_word
scan_word-whole w ok =
    ap (λ s. when_any (span (λ c. not (is_space c)) s))
      (ap skip_space (sym (append-nil w)) ∙ skip_space-word w [] ok ∙ append-nil w)
    ∙ ap when_any (span-whole (λ c. not (is_space c)) w ok.unblank)
    ∙ when_any-filled w [] ok.filled

pub scan_word-blank : (s : Bytes) → scan_word (b' ' ∷ s) ≡ scan_word s
unfolding scan_word skip_space is_space
scan_word-blank s = refl

pub IsWord-append : (v w : Bytes) → IsWord v → IsWord w → IsWord (v ++ w)
IsWord-append v w p q = record {
  unblank = All-append (λ c. not (is_space c) ≡ true) v w p.unblank q.unblank;
  nonzero = All-append (λ c. (c == 0) ≡ false) v w p.nonzero q.nonzero;
  filled = omega (arith, p.filled, length-append v w);
}

digit-unblank : (d : ℕ) → IsDigit d → not (is_space d) ≡ true
digit-unblank d h = rw (digit-space d h)

digit-nonzero : (d : ℕ) → IsDigit d → (d == 0) ≡ false
unfolding is_digit
digit-nonzero d h = ground arith

pub decimal-IsWord : (n : ℕ) → IsWord (decimal n)
decimal-IsWord n =
    let w = decimal-IsNumeral n in
    record {
      unblank = All-map digit-unblank (decimal n) w.digits;
      nonzero = All-map digit-nonzero (decimal n) w.digits;
      filled = w.filled;
    }

pub store_lem : (capacity : ℕ) (s : Bytes) → length s < capacity → store capacity s ≡ some s
unfolding store
store_lem capacity s h = rw (lt→ltb (length s) capacity h)
