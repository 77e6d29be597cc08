-- ===== src/H264File/Search.antt =====
-- src/h264_file.cc: the loops of readFrame find the first place that they look for.
use rtsp_server.Base.{
  ℕ, zero, suc, Bytes, Bool, true, false, Option, some, ◌+◌, ◌-◌, ◌≤◌, ◌<◌, ◌≡◌, ◌^◌, refl, subst,
  arith, ◌==◌, ltb, ltb→lt, ==_iff, if◌then◌else◌, length, drop, All, Bool-cases, inl, inr,
}
use rtsp_server.H264File.{H264File, find, starts_frame, ends_frame, bound_of, find_frame}
use rtsp_server.H264File.Shapes.{starts, ends}
use rtsp_server.H264File.Meaning.{Means, starts_frame-Means, ends_frame-Means}

-- The first place from `from` on and below `bound` at which the bytes of the buffer are as is asked, or
-- that there is none.
pub record IsFirst (is : Bytes → Bool) (buf : Bytes) (bound from place : ℕ) (found : Bool)
    : Type 0 where
  pub before : (k : ℕ) → from ≤ k → k < place → k < bound → is (drop k buf) ≡ false
  pub there : found ≡ true → (from ≤ place) × (place < bound) × (is (drop place buf) ≡ true)
  pub nowhere : found ≡ false → bound ≤ place

-- A loop finds the first place.
abbrev Finds : (Bytes → Bool) → Bytes → ℕ → ℕ → Option (ℕ × Bool) → Type 0
Finds is buf bound from result =
    (j : ℕ) × (found : Bool) × (result ≡ some (j, found)) × IsFirst is buf bound from j found

module _ (test : Bytes → ℕ → ℕ → Option Bool) (is : Bytes → Bool) (means : Means test is)
    (buf : Bytes) (bound : ℕ) (inside : bound + 5 ≤ length buf)
    (small : All (λ b. b < 256) buf) where
  -- What is known of the places behind one that is no hit.
  IsFirst-miss :
      (i j : ℕ) (found : Bool)
      → is (drop i buf) ≡ false
      → IsFirst is buf bound (i + 1) j found
      → IsFirst is buf bound i j found
  IsFirst-miss i j found missed first = record {
    before = λ k le lt below. elim (Bool-cases (i == k)) [
      | inl same ↦ subst (λ m. is (drop m buf) ≡ false) ((==_iff i k).0 same) missed
      | inr other ↦ first.before k (ground (arith, other, le)) lt below
    ];
    there = λ e. let (le, below, hits) = first.there e in (omega (arith, le), below, hits);
    nowhere = first.nowhere;
  }

  find-IsFirst :
      (fuel i : ℕ) → bound < i + fuel → 0 < fuel → Finds is buf bound i (find test fuel buf bound i)
  unfolding find
  find-IsFirst zero i h filled = absurd (omega (arith, filled))
  find-IsFirst (suc fuel) i h filled = elim (Bool-cases (ltb i bound)) [
    | inr behind ↦ (
      i,
      false,
      rw (behind, find) refl,
      record {
        before = λ k le lt below. absurd (omega (arith, le, lt));
        there = λ e. cc;
        nowhere = λ e. ground (arith, behind);
      },
    )
    | inl below ↦
        let less : i < bound = ltb→lt i bound below in
        let hit = is (drop i buf) in
        let e = means buf i (omega (arith, less, inside)) small in
        elim (Bool-cases hit) [
          | inl hits ↦ (
            i,
            true,
            rw (below, e, hits, find) refl,
            record {
              before = λ k le lt _. absurd (omega (arith, le, lt));
              there = λ _. (omega arith, less, hits);
              nowhere = λ k. cc;
            },
          )
          | inr misses ↦
              let (j, found, r, first) =
                find-IsFirst fuel (i + 1) (omega (arith, h)) (omega (arith, h, less)) in
              (j, found, rw (below, e, misses, find) r, IsFirst-miss i j found misses first)
        ]
  ]

-- Both loops of readFrame, on a buffer of bytes that holds the `n` bytes that were read, five or more:
-- they end without a read outside of the buffer. The first stops at the first place in front of the
-- last five bytes with a start code and the first slice of a frame behind it: a NAL unit of type 1 or 5
-- whose next byte has its highest bit set. From four bytes behind it on, or from where the first stops
-- if there is no such place, the second stops at the first place with a start code and such a slice or
-- a NAL unit of type 6, 7 or 8 behind it, which is the end of the frame. Where there is no such place,
-- each says so.
pub find_frame-IsFirst :
    (n : ℕ) (f : H264File)
    → 5 ≤ n
    → n ≤ length f.buffer
    → n < 2 ^ 64
    → All (λ b. b < 256) f.buffer
    → (i : ℕ) × (begun : Bool) × (j : ℕ) × (ended : Bool) × (find_frame n f
        ≡ some (j, begun, ended))
      × IsFirst starts f.buffer (n - 5) 0 i begun
      × IsFirst ends f.buffer (n - 5) (if begun then i + 4 else i) j ended
unfolding find_frame
find_frame-IsFirst n f h k bits small =
    let same : bound_of n ≡ n - 5 = omega arith in
    let (i, begun, r, first) =
      find-IsFirst starts_frame starts starts_frame-Means f.buffer (bound_of n)
        (omega (arith, same)) small (length f.buffer + 1) 0 (omega (arith, same)) (omega arith) in
    let start = if begun then i + 4 else i in
    let (j, ended, q, second) =
      find-IsFirst ends_frame ends ends_frame-Means f.buffer (bound_of n) (omega (arith, same))
        small (length f.buffer + 1) start (omega (arith, same)) (omega arith) in
    (
      i,
      begun,
      j,
      ended,
      rw (r, q) refl,
      subst (λ b. IsFirst starts f.buffer b 0 i begun) same first,
      subst (λ b. IsFirst ends f.buffer b start j ended) same second,
    )
