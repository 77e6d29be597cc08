-- ===== src/H264File/Frames.antt =====
-- src/h264_file.cc: the loops of readFrame stay inside of the buffer and end.
use rtsp_server.Base.{
  ℕ, zero, suc, Bytes, Bool, true, false, not, Option, some, [], ◌∷◌, ◌+◌, ◌≤◌, ◌<◌, ◌≡◌, ◌^◌, refl,
  arith, ◌==◌, ◌&&◌, ltb, ltb→lt, if◌then◌else◌, length, get_elem?, Bool-cases, inl, inr,
}
use rtsp_server.H264File.{
  H264File, and_also, holds_at, has_code_3, has_code_4, start_code, starts_frame, ends_frame, find,
  hit_at, is_byte, is_slice, is_header, is_first, bound_of, find_frame, frame_end,
}

get_elem?-inside : (xs : Bytes) (i : ℕ) → i < length xs → (b : ℕ) × (get_elem? xs i ≡ some b)
get_elem?-inside [] i h = absurd (omega arith)
get_elem?-inside (x ∷ xs) zero h = (x, refl)
get_elem?-inside (x ∷ xs) (suc i) h = get_elem?-inside xs i (omega arith)

-- A read that is inside of the buffer.
abbrev pub Reads : Option Bool → Type 0
Reads result = (b : Bool) × (result ≡ some b)

holds_at-Reads : (p : ℕ → Bool) (buf : Bytes) (i : ℕ) → i < length buf → Reads (holds_at p buf i)
unfolding holds_at
holds_at-Reads p buf i h = let (b, e) = get_elem?-inside buf i h in (p b, rw e)

and_also-Reads : (x y : Option Bool) → Reads x → Reads y → Reads (and_also x y)
and_also-Reads x y (true, e) (b, h) = (b, rw e h)
and_also-Reads x y (false, e) h = (false, rw e)

code_3-Reads : (buf : Bytes) (i : ℕ) → i + 2 < length buf → Reads (has_code_3 buf i)
unfolding has_code_3
code_3-Reads buf i h = and_also-Reads _ _ (holds_at-Reads (is_byte 0) buf i (omega arith)) (
    and_also-Reads _ _ (holds_at-Reads (is_byte 0) buf (i + 1) (omega arith))
      (holds_at-Reads (is_byte 1) buf (i + 2) h))

code_4-Reads : (buf : Bytes) (i : ℕ) → i + 3 < length buf → Reads (has_code_4 buf i)
unfolding has_code_4
code_4-Reads buf i h = and_also-Reads _ _ (holds_at-Reads (is_byte 0) buf i (omega arith)) (
    and_also-Reads _ _ (holds_at-Reads (is_byte 0) buf (i + 1) (omega arith)) (
      and_also-Reads _ _ (holds_at-Reads (is_byte 0) buf (i + 2) (omega arith))
        (holds_at-Reads (is_byte 1) buf (i + 3) h)))

start_code_lem :
    (buf : Bytes) (i : ℕ)
    → i + 3 < length buf
    → (code : ℕ) × (start_code buf i ≡ some code) × (code ≤ 4)
unfolding start_code
start_code_lem buf i h =
    let (three, e3) = code_3-Reads buf i (omega arith) in
    let (four, e4) = code_4-Reads buf i h in
    elim (Bool-cases three) [
      | inl is_3 ↦ (3, rw (e3, is_3) refl, omega arith)
      | inr not_3 ↦ ((if four then 4 else 0), rw (e3, not_3, e4) refl, ground arith)
    ]

pub starts_frame-Reads :
    (buf : Bytes) (i code : ℕ) → i + code + 1 < length buf → Reads (starts_frame buf i code)
unfolding starts_frame
starts_frame-Reads buf i code h =
    and_also-Reads _ _ (holds_at-Reads is_slice buf (i + code) (omega arith))
      (holds_at-Reads is_first buf (i + code + 1) h)

pub ends_frame-Reads :
    (buf : Bytes) (i code : ℕ) → i + code + 1 < length buf → Reads (ends_frame buf i code)
unfolding ends_frame
ends_frame-Reads buf i code h =
    let (header, e) = holds_at-Reads is_header buf (i + code) (omega arith) in
    elim (Bool-cases header) [
      | inl ends ↦ (true, rw (e, ends) refl)
      | inr goes_on ↦ let (b, k) = starts_frame-Reads buf i code h in (b, rw (e, goes_on) k)
    ]

-- A loop ends without a fault. It has found something below the bound, or it stops at the bound or
-- behind it.
abbrev pub Ends : ℕ → ℕ → Option (ℕ × Bool) → Type 0
Ends bound i result =
    (j : ℕ) × (hit : Bool) × (result ≡ some (j, hit))
    × (i ≤ j)
    × (hit ≡ true → j < bound)
    × (hit ≡ false → bound ≤ j)

pub hit_at-Reads :
    (test : Bytes → ℕ → ℕ → Option Bool) (buf : Bytes) (i : ℕ)
    → i + 5 < length buf
    → ((code : ℕ) → i + code + 1 < length buf → Reads (test buf i code))
    → Reads (hit_at test buf i)
unfolding hit_at
hit_at-Reads test buf i h reads =
    let (code, e, small) = start_code_lem buf i (omega arith) in
    elim (Bool-cases (code == 0)) [
      | inl none_there ↦ (false, rw (e, none_there) refl)
      | inr there ↦ let (b, k) = reads code (omega arith) in (b, rw (e, there) k)
    ]

pub find_lem :
    (test : Bytes → ℕ → ℕ → Option Bool) (buf : Bytes) (bound : ℕ)
    → bound + 5 ≤ length buf
    → ((i code : ℕ) → i + code + 1 < length buf → Reads (test buf i code))
    → (fuel i : ℕ) → bound < i + fuel
    → 0 < fuel
    → Ends bound i (find test fuel buf bound i)
unfolding find
find_lem test buf bound inside reads zero i h filled = absurd (omega arith)
find_lem test buf bound inside reads (suc fuel) i h filled = elim (Bool-cases (ltb i bound)) [
  | inr behind ↦
      (i, false, rw (behind, find) refl, omega arith, (λ e. cc), λ e. ground (arith, behind))
  | inl below ↦
      let before : i < bound = ltb→lt i bound below in
      let (hit, e) = hit_at-Reads test buf i (omega arith) (reads i) in
      let (j, found, r, le, lt_bound, past) =
        find_lem test buf bound inside reads fuel (i + 1) (omega arith) (omega arith) in
      elim (Bool-cases hit) [
        | inl hits ↦ (i, true, rw (below, e, hits, find) refl, omega arith, (λ _. before), λ k. cc)
        | inr misses ↦ (j, found, rw (below, e, misses, find) r, omega arith, lt_bound, past)
      ]
]

pub bound_of_lem : (n : ℕ) → 5 ≤ n → n < 2 ^ 64 → bound_of n + 5 ≡ n
bound_of_lem n h k = omega arith

-- What the loops find lies inside of the bytes that were read.
pub find_frame_lem :
    (n : ℕ) (f : H264File)
    → 5 ≤ n
    → n ≤ length f.buffer
    → n < 2 ^ 64
    → (j : ℕ) × (begun : Bool) × (ended : Bool) × (find_frame n f ≡ some (j, begun, ended))
      × (begun ≡ true → 4 ≤ j)
      × (ended ≡ true → j + 5 < n)
unfolding find_frame
find_frame_lem n f h k bits =
    let e : bound_of n + 5 ≡ n = bound_of_lem n h bits in
    let (i, begun, r, _, _, _) =
      find_lem starts_frame f.buffer (bound_of n) (omega arith) (starts_frame-Reads f.buffer)
        (length f.buffer + 1) 0 (omega arith) (omega arith) in
    let start = if begun then i + 4 else i in
    let (j, ended, q, behind, before, _) =
      find_lem ends_frame f.buffer (bound_of n) (omega arith) (ends_frame-Reads f.buffer)
        (length f.buffer + 1) start (omega arith) (omega arith) in
    (
      j,
      begun,
      ended,
      rw (r, q) refl,
      λ t. ground (arith, t, behind),
      λ t. let lt = before t in omega arith,
    )

-- The size `k` of a frame among `n` bytes: all of them if it is the last, and if not, four or more, with
-- more than five behind it.
abbrev pub Fits : ℕ → ℕ → Bool → Type 0
Fits n k true = k ≡ n
Fits n k false = (4 ≤ k) × (k + 5 < n)

pub Fits-le : (n k : ℕ) (flag : Bool) → Fits n k flag → k ≤ n
Fits-le n k true h = omega arith
Fits-le n k false h = omega arith

pub frame_end_lem :
    (j : ℕ) (begun ended : Bool) (count n : ℕ)
    → (begun ≡ true → 4 ≤ j)
    → (ended ≡ true → j + 5 < n)
    → (k : ℕ) × (closed : Bool) × (flag : Bool) × (frame_end j begun ended count n
        ≡ (k, closed, flag))
      × (begun ≡ true → closed ≡ true → Fits n k flag)
unfolding frame_end
frame_end_lem j begun ended count n least before =
    elim (Bool-cases (begun && (not ended && ltb 0 count))) [
      | inl last ↦ (n, true, true, rw last refl, λ _ _. refl)
      | inr other ↦ (j, ended, false, rw other refl, λ b t. (least b, before t))
    ]
