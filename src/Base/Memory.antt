-- ===== src/Base/Memory.antt =====
-- Memory as a list of bytes, with the faults of accesses outside of it.
use Prim.Native.Nat.{ℕ, zero, suc, ◌-◌, ◌+◌, ◌≤◌}
use mathlib.Core.Path.{◌≡◌, ap, sym, ◌∙◌}
use mathlib.Core.List.{[], ◌∷◌, ◌++◌, append_assoc}
use mathlib.Core.Option.{Option, none, some}
use native.Mathlib.Omega.{arith}
use rtsp_server.Base.Tests.{leb, if◌then◌else◌, le→leb}
use rtsp_server.Base.Lists.{
  Bytes, length, take, drop, length-append, length-take, length-drop, take-append, drop-append,
}

-- `memcpy(dst + off, src, length src)`; `none` if it would write past the end of `dst`.
unfoldable pub write : Bytes → ℕ → Bytes → Option Bytes
write dst off src =
    if leb (off + length src) (length dst)
    then some (take off dst ++ (src ++ drop (off + length src) dst))
    else none

-- The bytes `buf[off], …, buf[off + n - 1]`; `none` if some lie outside of `buf`.
unfoldable pub read : Bytes → ℕ → ℕ → Option Bytes
read buf off n = if leb (off + n) (length buf) then some (take n (drop off buf)) else none

-- What `write` stores when it stays inside.
abbrev pub spliced : Bytes → ℕ → Bytes → Bytes
spliced dst off src = take off dst ++ (src ++ drop (off + length src) dst)

pub write_lem :
    (dst : Bytes) (off : ℕ) (src : Bytes)
    → off + length src ≤ length dst
    → write dst off src ≡ some (spliced dst off src)
unfolding write
write_lem dst off src h = rw (le→leb _ _ h)

pub read_lem :
    (buf : Bytes) (off n : ℕ) → off + n ≤ length buf → read buf off n ≡ some (take n (drop off buf))
unfolding read
read_lem buf off n h = rw (le→leb _ _ h)

pub length-spliced :
    (dst : Bytes) (off : ℕ) (src : Bytes)
    → off + length src ≤ length dst
    → length (spliced dst off src) ≡ length dst
length-spliced dst off src h = omega (
  arith,
  length-append (take off dst) (src ++ drop (off + length src) dst),
  length-append src (drop (off + length src) dst),
  length-take off dst,
  length-drop (off + length src) dst,
)

pub drop-take_append : (n : ℕ) (m ys : Bytes) → n ≤ length m → drop n (take n m ++ ys) ≡ ys
drop-take_append n m ys h =
    ap (λ k. drop k (take n m ++ ys))
      (let e : n ≡ length (take n m) = omega (arith, length-take n m) in e)
    ∙ drop-append (take n m) ys

pub take-append_of_eq : (n : ℕ) (xs ys : Bytes) → length xs ≡ n → take n (xs ++ ys) ≡ xs
take-append_of_eq n xs ys h = ap (λ k. take k (xs ++ ys)) (sym h) ∙ take-append xs ys

module _ (dst : Bytes) (off : ℕ) (src : Bytes) (h : off + length src ≤ length dst) where
  length_before : length (take off dst ++ src) ≡ off + length src
  length_before = omega (arith, length-append (take off dst) src, length-take off dst)

  -- The bytes up to the end of a write.
  pub take-spliced : take (off + length src) (spliced dst off src) ≡ take off dst ++ src
  take-spliced =
      ap (λ n. take n (spliced dst off src)) (sym length_before)
      ∙ ap (take (length (take off dst ++ src))) (sym (append_assoc (take off dst) src _))
      ∙ take-append (take off dst ++ src) _

  -- The bytes from the start of a write on.
  pub drop-spliced : drop off (spliced dst off src) ≡ src ++ drop (off + length src) dst
  drop-spliced = drop-take_append off dst _ (omega arith)

-- Two single bytes and then a block, one behind the other from `k` on.
pub spliced_thrice :
    (m body : Bytes) (k a b : ℕ)
    → k + 2 + length body ≤ length m
    → spliced (spliced (spliced m k (a ∷ [])) (k + 1) (b ∷ [])) (k + 1 + 1) body
      ≡ take k m
        ++ (a
            ∷ b
            ∷ (body
                ++ drop
                    (k + 1 + 1 + length body)
                    (spliced (spliced m k (a ∷ [])) (k + 1) (b ∷ []))))
spliced_thrice m body k a b h =
    let m0 = spliced m k (a ∷ []) in
    let m1 = spliced m0 (k + 1) (b ∷ []) in
    let rest = body ++ drop (k + 1 + 1 + length body) m1 in
    let l0 : length m0 ≡ length m = length-spliced m k (a ∷ []) (omega arith) in
    ap (λ p. p ++ rest)
      (take-spliced m0 (k + 1) (b ∷ []) (omega arith)
        ∙ ap (λ q. q ++ (b ∷ [])) (take-spliced m k (a ∷ []) (omega arith)))
    ∙ append_assoc (take k m ++ (a ∷ [])) (b ∷ []) rest
    ∙ append_assoc (take k m) (a ∷ []) (b ∷ rest)

pub take-append_of_le :
    (n : ℕ) (xs ys : Bytes) → length xs ≤ n → take n (xs ++ ys) ≡ xs ++ take (n - length xs) ys
take-append_of_le n [] ys h = ap (λ k. take k ys) (omega arith)
take-append_of_le zero (x ∷ xs) ys h = elim h [ ]
take-append_of_le (suc n) (x ∷ xs) ys h = ap (◌∷◌ x) (
    take-append_of_le n xs ys (omega arith)
    ∙ ap (λ k. xs ++ take k ys)
        (let e : n - length xs ≡ suc n - suc (length xs) = omega arith in e))
