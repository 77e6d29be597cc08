-- ===== src/H264File/Reading.antt =====
-- src/h264_file.cc: what readFrame hands out of an open file.
use rtsp_server.Base.{
  ◌⊎◌, ℕ, zero, suc, Bytes, Bool, true, false, not, Option, none, some, [], ◌∷◌, ◌++◌, ◌+◌, ◌%◌,
  ◌^◌, ◌≤◌, ◌<◌, ◌≡◌, refl, ap, ◌∙◌, arith, ◌==◌, ◌||◌, leb, if◌then◌else◌, length, take, drop,
  read, read_lem, write_lem, spliced, length-spliced, length-take, length-drop, Bool-cases, inl,
  inr,
}
use native.Mathlib.Nat.{mod-eq_of_lt}
use rtsp_server.H264File.{
  H264File, fread, find_frame, hand_out, settle, seek, read_on, read_frame, close,
}
use rtsp_server.H264File.Frames.{find_frame_lem, frame_end_lem, Fits, Fits-le}

take-take_append :
    (n m : ℕ) (xs rest : Bytes) → n ≤ m → n ≤ length xs → take n (take m xs ++ rest) ≡ take n xs
take-take_append zero m xs rest h k = refl
take-take_append (suc n) zero xs rest h k = absurd (omega arith)
take-take_append (suc n) (suc m) [] rest h k = absurd (omega arith)
take-take_append (suc n) (suc m) (x ∷ xs) rest h k =
    ap (◌∷◌ x) (take-take_append n m xs rest (omega arith) (omega arith))

-- An open file that is read from where the last frame ends.
abbrev pub IsOpen : Bytes → H264File → Type 0
IsOpen content f =
    (f.fp ≡ some content)
    × (f.position ≡ f.bytes_used)
    × (length f.buffer ≡ f.buf_size)
    × (5 ≤ f.buf_size)
    × (f.buf_size < 2 ^ 31)

-- What readFrame has handed out: the bytes from the old position on, as many as the caller has room
-- for, and the file left at the byte behind the frame, or at its start behind the last one. A frame
-- that is not the last has four bytes or more, and more than five behind it.
abbrev pub HandsOut : Bytes → ℕ → H264File → H264File → Bytes × Bool → Type 0
HandsOut content size f f1 (frame, flag) =
    (n : ℕ) × (n ≤ length (drop f.position content))
    × Fits (length (take f.buf_size (drop f.position content))) n flag
    × (frame ≡ take (if leb n size then n else size) (drop f.position content))
    × (f1.bytes_used ≡ (if flag then 0 else f.position + n))
    × (f1.buf_size ≡ f.buf_size)
    × IsOpen content f1

abbrev pub filled : H264File → Bytes → H264File
filled f content =
    let bytes = take f.buf_size (drop f.position content) in
    record f { buffer = spliced f.buffer 0 bytes; position = f.position + length bytes }

pub fread_lem :
    (content : Bytes) (f : H264File)
    → length f.buffer ≡ f.buf_size
    → fread content f ≡ some (length (take f.buf_size (drop f.position content)), filled f content)
unfolding fread
fread_lem content f e = rw (
    write_lem f.buffer 0 (take f.buf_size (drop f.position content))
      (omega (arith, length-take f.buf_size (drop f.position content), e)))

abbrev copied : ℕ → ℕ → ℕ
copied k size = if leb k size then k else size

copied_lem : (k size : ℕ) → copied k size ≤ k
copied_lem k size = ground arith

pub length-filled :
    (content : Bytes) (f : H264File)
    → length f.buffer ≡ f.buf_size
    → length (filled f content).buffer ≡ f.buf_size
length-filled content f e =
    let bytes = take f.buf_size (drop f.position content) in
    length-spliced f.buffer 0 bytes
      (omega (arith, length-take f.buf_size (drop f.position content), e))
    ∙ e

read-filled :
    (content : Bytes) (f : H264File) (m : ℕ)
    → length f.buffer ≡ f.buf_size
    → m ≤ length (take f.buf_size (drop f.position content))
    → read (filled f content).buffer 0 m ≡ some (take m (drop f.position content))
read-filled content f m e le =
    let rest = drop f.position content in
    let bounds = length-take f.buf_size rest in
    read_lem (filled f content).buffer 0 m (omega (arith, length-filled content f e, bounds))
    ∙ ap some (take-take_append m f.buf_size rest _ (omega (arith, bounds)) (omega (arith, bounds)))

seek_lem : (used position : ℕ) → used < 2 ^ 31 → seek used position ≡ used
unfolding seek
seek_lem used position h = ground (arith, h)

pub hand_out_lem :
    (content : Bytes) (size k : ℕ) (flag : Bool) (f : H264File)
    → IsOpen content f
    → length content < 2 ^ 31
    → f.position ≤ length content
    → Fits (length (take f.buf_size (drop f.position content))) k flag
    → (f1 : H264File) × (out : Bytes × Bool) × (hand_out size k flag (filled f content)
        ≡ some (f1, some out))
      × HandsOut content size f f1 out
unfolding hand_out
hand_out_lem content size k flag f (open_file, at, e, least, most) short inside fits =
    let rest = drop f.position content in
    let le : k ≤ length (take f.buf_size rest) = Fits-le _ k flag fits in
    let behind : f.position + k ≤ length content =
      omega (arith, length-take f.buf_size rest, length-drop f.position content) in
    let used = if flag then 0 else f.position + k in
    let small : used < 2 ^ 31 = ground (arith, behind, short) in
    let wraps : (f.bytes_used + k) % 2 ^ 32 ≡ f.position + k =
      mod-eq_of_lt (omega (arith, at, behind, short)) ∙ omega (arith, at) in
    (
      record (filled f content) {
        bytes_used = used;
        count = if flag then 0 else f.count + 1;
        position = used;
      },
      (take (copied k size) rest, flag),
      rw
          (
            read-filled content f (copied k size) e (omega (arith, copied_lem k size, le)),
            wraps,
            seek_lem used (filled f content).position small,
          )
          refl,
      (
        k,
        omega (arith, length-take f.buf_size rest, le),
        fits,
        refl,
        refl,
        refl,
        (open_file, refl, length-filled content f e, least, most),
      ),
    )

-- What readFrame leaves: a closed file if it returns -1.
abbrev pub Outcome : Bytes → ℕ → H264File → H264File → Option (Bytes × Bool) → Type 0
Outcome content size f f1 none = f1.fp ≡ none
Outcome content size f f1 (some handed) = HandsOut content size f f1 handed

abbrev pub Succeeds : Bytes → ℕ → H264File → Option (H264File × Option (Bytes × Bool)) → Type 0
Succeeds content size f result =
    (f1 : H264File) × (out : Option (Bytes × Bool)) × (result ≡ some (f1, out))
    × Outcome content size f f1 out

fp_cases : (x : Option Bytes) → (x ≡ none) ⊎ ((content : Bytes) × (x ≡ some content))
fp_cases none = inl refl
fp_cases (some content) = inr (content, refl)

begun_of : (begun closed : Bool) → not begun || not closed ≡ false → begun ≡ true
begun_of true closed h = refl
begun_of false closed h = cc

closed_of : (begun closed : Bool) → not begun || not closed ≡ false → closed ≡ true
closed_of begun true h = refl
closed_of true false h = cc
closed_of false false h = cc

close_lem : (f : H264File) → (close f).fp ≡ none
unfolding close
close_lem f = elim (fp_cases f.fp) [
  | inl e ↦ rw (e, close) e
  | inr (content, e) ↦ rw (e, close) refl
]

settle_lem :
    (content : Bytes) (size j : ℕ) (begun ended : Bool) (f : H264File)
    → IsOpen content f
    → length content < 2 ^ 31
    → f.position ≤ length content
    → (begun ≡ true → 4 ≤ j)
    → (ended ≡ true → j + 5 < length (take f.buf_size (drop f.position content)))
    → Succeeds content size f (
        settle size
          (length (take f.buf_size (drop f.position content)))
          (filled f content)
          (j, begun, ended))
unfolding settle
settle_lem content size j begun ended f opened short inside least before =
    let n = length (take f.buf_size (drop f.position content)) in
    let (k, closed, flag, e, fits) = frame_end_lem j begun ended f.count n least before in
    elim (Bool-cases (not begun || not closed)) [
      | inl failed ↦
          (close (filled f content), none, rw (e, failed) refl, close_lem (filled f content))
      | inr found ↦
          let (f1, out, r, handed) =
            hand_out_lem content size k flag f opened short inside
              (fits (begun_of begun closed found) (closed_of begun closed found)) in
          (f1, some out, rw (e, found) r, handed)
    ]

pub read_frame-read_on :
    (content : Bytes) (size n : ℕ) (f f1 : H264File)
    → f.fp ≡ some content
    → fread content f ≡ some (n, f1)
    → n == 0 ≡ false
    → read_frame size f ≡ read_on size (n, f1)
unfolding read_frame
read_frame-read_on content size n f f1 e r more = rw (e, r, more, read_frame) refl

pub read_on-settle :
    (size n : ℕ) (f : H264File) (found : ℕ × Bool × Bool)
    → find_frame n f ≡ some found
    → read_on size (n, f) ≡ settle size n f found
unfolding read_on
read_on-settle size n f found e = rw e

-- readFrame on an open file with at least five bytes left, and less than 2^31 in all, makes no access
-- outside of its buffer or of the caller's and returns. It closes the file, or it hands out the bytes
-- of the file from where the last frame ended, as many as the caller has room for; the object then
-- stands at the byte behind the frame, or at the start of the file if `*endOfFrame` is set, and is
-- again fit for a call.
pub read_frame-HandsOut :
    (content : Bytes) (size : ℕ) (f : H264File)
    → IsOpen content f
    → length content < 2 ^ 31
    → f.position + 5 ≤ length content
    → Succeeds content size f (read_frame size f)
read_frame-HandsOut content size f (open_file, at, e, least, most) short left =
    let rest = drop f.position content in
    let n = length (take f.buf_size rest) in
    let enough : 5 ≤ n =
      omega (arith, length-take f.buf_size rest, length-drop f.position content) in
    let more : n == 0 ≡ false = ground (arith, enough) in
    let (j, begun, ended, r, least_j, before) =
      find_frame_lem n (filled f content) enough
        (omega (arith, length-filled content f e, length-take f.buf_size rest))
        (omega (arith, most, length-take f.buf_size rest)) in
    let (f1, out, q, outcome) =
      settle_lem content size j begun ended f (open_file, at, e, least, most) short (omega arith)
        least_j before in
    let step : read_frame size f ≡ settle size n (filled f content) (j, begun, ended) =
      read_frame-read_on content size n f (filled f content) open_file (fread_lem content f e) more
      ∙ read_on-settle size n (filled f content) (j, begun, ended) r in
    (f1, out, step ∙ q, outcome)
