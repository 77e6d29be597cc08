-- ===== src/H264File/Playing.antt =====
-- src/h264_file.cc: readFrame on a file that it plays again and again.
use rtsp_server.Base.{
  ℕ, zero, suc, Bytes, Bool, true, false, Option, none, some, [], ◌∷◌, ◌++◌, ◌+◌, ◌-◌, ◌%◌, ◌^◌,
  ◌≤◌, ◌<◌, ◌≡◌, ◌≢◌, refl, ap, sym, subst, ◌∙◌, arith, ltb, ltb→lt, ◌==◌, if◌then◌else◌, length,
  length-drop, take, drop, drop-drop, take-of_le, All, Bool-cases, Option-cases, inl, inr, read,
  leb,
}
use native.Mathlib.Nat.{mod-eq_of_lt}
use rtsp_server.Base.Text.Scans.{All-append}
use rtsp_server.H264File.{H264File, find_frame, frame_end, hand_out, settle, seek, read_frame}
use rtsp_server.H264File.Shapes.{starts, ends, starts_append, ends_append, starts-ends}
use rtsp_server.H264File.Meaning.{All-drop}
use rtsp_server.H264File.Search.{IsFirst, find_frame-IsFirst}
use rtsp_server.H264File.Frames.{Fits}
use rtsp_server.H264File.Reading.{
  IsOpen, HandsOut, filled, fread_lem, length-filled, hand_out_lem, read_frame-read_on,
  read_on-settle,
}

-- A file of bytes with two first slices, one four bytes or more behind the other. Nothing that a frame
-- ends at is behind the second.
pub record IsStream (content : Bytes) : Type 0 where
  pub bytes : All (λ b. b < 256) content
  pub first : ℕ
  pub last : ℕ
  pub begins : starts (drop first content) ≡ true
  pub begins_last : starts (drop last content) ≡ true
  pub apart : first + 4 ≤ last
  pub inside : last + 5 < length content
  pub nothing_behind : (k : ℕ) → k + 5 < length content → ends (drop k content) ≡ true → k ≤ last

drop_append : (k : ℕ) (xs ys : Bytes) → k ≤ length xs → drop k (xs ++ ys) ≡ drop k xs ++ ys
drop_append zero xs ys h = refl
drop_append (suc k) [] ys h = absurd (omega (arith, h))
drop_append (suc k) (x ∷ xs) ys h = drop_append k xs ys (omega (arith, h))

-- A place at which the bytes are as is asked is not passed.
IsFirst-reaches :
    (is : Bytes → Bool) (buf : Bytes) (bound from place : ℕ) (found : Bool)
    → IsFirst is buf bound from place found
    → (k : ℕ) → from ≤ k
    → k < bound
    → is (drop k buf) ≡ true
    → (found ≡ true) × (place ≤ k)
IsFirst-reaches is buf bound from place found first k le below hits =
    elim (Bool-cases (ltb k place)) [
      | inl passed ↦ absurd (cc (first.before k le (ltb→lt k place passed) below, hits))
      | inr behind ↦ elim (Bool-cases found) [
        | inl there ↦ (there, ground (arith, behind))
        | inr nowhere ↦ absurd (ground (arith, behind, first.nowhere nowhere, below))
      ]
    ]

-- What hand_out leaves in the fields that the frame does not show.
hand_out-keeps :
    (size i : ℕ) (flag : Bool) (f f1 : H264File) (out : Option (Bytes × Bool))
    → hand_out size i flag f ≡ some (f1, out)
    → (f1.count ≡ (if flag then 0 else f.count + 1))
      × (f1.buffer ≡ f.buffer)
      × (f1.bytes_used ≡ (if flag then 0 else (f.bytes_used + i) % 2 ^ 32))
unfolding hand_out
hand_out-keeps size i flag f f1 out h =
    elim (Option-cases (read f.buffer 0 (if leb i size then i else size))) [
      | inl absent ↦
          absurd (let e : hand_out size i flag f ≡ none = rw (absent, hand_out) refl in cc (e, h))
      | inr (frame, there) ↦
          let e : some (f1, out)
              ≡ some (
                (record f {
                  bytes_used = if flag then 0 else (f.bytes_used + i) % 2 ^ 32;
                  count = if flag then 0 else f.count + 1;
                  position = seek (if flag then 0 else (f.bytes_used + i) % 2 ^ 32) f.position;
                }),
                some (frame, flag),
              ) =
            sym h ∙ rw (there, hand_out) refl in
          (
            ap (λ o. elim o [ none ↦ 0 | some r ↦ r.0.count ]) e,
            ap (λ o. elim o [ none ↦ [] | some r ↦ r.0.buffer ]) e,
            ap (λ o. elim o [ none ↦ 0 | some r ↦ r.0.bytes_used ]) e,
          )
    ]

module _ (content : Bytes) (stream : IsStream content) where
  -- An open file that has not passed the last slice, or the first one if no frame was read, with room in
  -- its buffer for all of the file.
  pub record IsAhead (f : H264File) : Type 0 where
    pub opened : IsOpen content f
    pub room : length content < f.buf_size
    pub bytes : All (λ b. b < 256) f.buffer
    pub ahead : f.position ≤ stream.last
    pub anew : f.count ≡ 0 → f.position ≤ stream.first

  abbrev remains : H264File → Bytes
  remains f = take f.buf_size (drop f.position content)

  module _ (f : H264File) (ok : IsAhead f) where
    remains_lem : remains f ≡ drop f.position content
    remains_lem =
        take-of_le f.buf_size (drop f.position content)
          (omega (arith, length-drop f.position content, ok.room))

    length-remains : length (remains f) ≡ length content - f.position
    length-remains = ap length remains_lem ∙ length-drop f.position content

    buffer_lem :
        (filled f content).buffer ≡ drop f.position content ++ drop (length (remains f)) f.buffer
    buffer_lem =
        ap (λ s. s ++ drop (0 + length (remains f)) f.buffer) remains_lem
        ∙ ap (λ k. drop f.position content ++ drop k f.buffer)
            (let e : 0 + length (remains f) ≡ length (remains f) = omega arith in e)

    filled-bytes : All (λ b. b < 256) (filled f content).buffer
    filled-bytes = subst (All (λ b. b < 256)) (sym buffer_lem) (
        All-append (λ b. b < 256) (drop f.position content) _
          (All-drop (λ b. b < 256) f.position content stream.bytes)
          (All-drop (λ b. b < 256) (length (remains f)) f.buffer ok.bytes))

    -- The bytes at a place of the buffer are those of the file, as far as a test reads them.
    seen :
        (is : Bytes → Bool)
        → ((s t : Bytes) → 6 ≤ length s → is (s ++ t) ≡ is s)
        → (k : ℕ) → f.position + k + 6 ≤ length content
        → is (drop k (filled f content).buffer) ≡ is (drop (f.position + k) content)
    seen is local k inside =
        ap (λ s. is (drop k s)) buffer_lem
        ∙ ap is (
            drop_append k (drop f.position content) (drop (length (remains f)) f.buffer)
              (omega (arith, length-drop f.position content, inside)))
        ∙ ap (λ s. is (s ++ drop (length (remains f)) f.buffer)) (drop-drop k f.position content)
        ∙ local (drop (f.position + k) content) (drop (length (remains f)) f.buffer)
            (omega (arith, length-drop (f.position + k) content, inside))

    seen_at :
        (is : Bytes → Bool)
        → ((s t : Bytes) → 6 ≤ length s → is (s ++ t) ≡ is s)
        → (m : ℕ) → f.position ≤ m
        → m + 6 ≤ length content
        → is (drop m content) ≡ true
        → is (drop (m - f.position) (filled f content).buffer) ≡ true
    seen_at is local m le inside hits =
        seen is local (m - f.position) (omega (arith, le, inside))
        ∙ ap (λ k. is (drop k content))
            (let e : f.position + (m - f.position) ≡ m = omega (arith, le) in e)
        ∙ hits

    -- What the loops find: the slice, and the end of a frame unless one was read before.
    loops_lem :
        (j : ℕ) × (ended : Bool) × (find_frame (length (remains f)) (filled f content)
          ≡ some (j, true, ended))
        × (ended ≡ true → (4 ≤ j) × (j + 5 < length (remains f)) × (f.position + j ≤ stream.last))
        × (ended ≡ false → f.count ≢ 0)
    loops_lem =
        let n = length (remains f) in
        let left : n ≡ length content - f.position = length-remains in
        let behind = stream.inside in
        let before = ok.ahead in
        let apart = stream.apart in
        let (i, begun, j, ended, r, first, second) =
          find_frame-IsFirst n (filled f content) (omega (arith, left, behind, before))
            (omega (arith, length-filled content f ok.opened.2, ok.room, left))
            (omega (arith, left, ok.room, ok.opened.4)) filled-bytes in
        let (is_begun, below) =
          IsFirst-reaches starts _ (n - 5) 0 i begun first (stream.last - f.position) (omega arith)
            (omega (arith, left, behind, before))
            (seen_at starts starts_append stream.last before (omega (arith, behind))
              stream.begins_last) in
        let second' =
          subst
            (λ b. IsFirst ends (filled f content).buffer (n - 5) (if b then i + 4 else i) j ended)
            is_begun second in
        (
          j,
          ended,
          r ∙ ap (λ b. some (j, b, ended)) is_begun,
          λ e.
              let (least, inside, hits) = second'.there e in
              (
                omega (arith, least),
                omega (arith, inside, left, behind, before),
                stream.nothing_behind (f.position + j) (omega (arith, inside, left, behind, before))
                    (sym (seen ends ends_append j (omega (arith, inside, left, behind, before)))
                      ∙ hits),
              ),
          λ e anew.
              let started = ok.anew anew in
              let (_, sooner) =
                IsFirst-reaches starts _ (n - 5) 0 i begun first (stream.first - f.position)
                  (omega arith) (omega (arith, left, behind, apart))
                  (seen_at starts starts_append stream.first started (omega (arith, behind, apart))
                    stream.begins) in
              let (is_ended, _) =
                IsFirst-reaches ends _ (n - 5) (i + 4) j ended second' (stream.last - f.position)
                  (omega (arith, sooner, apart, started)) (omega (arith, left, behind, before))
                  (seen_at ends ends_append stream.last before (omega (arith, behind))
                    (starts-ends (drop stream.last content) stream.begins_last)) in
              cc (e, is_ended),
        )

    handed-IsAhead :
        (size k : ℕ) (flag : Bool) (f1 : H264File) (out : Bytes × Bool)
        → hand_out size k flag (filled f content) ≡ some (f1, some out)
        → HandsOut content size f f1 out
        → (flag ≡ false → f.position + k ≤ stream.last)
        → IsAhead f1
    handed-IsAhead size k true f1 out e handed before =
        let (count, buffer, used) = hand_out-keeps size k true (filled f content) f1 (some out) e in
        let (_, _, _, _, _, same, opened) = handed in
        let at : f1.position ≡ 0 = opened.1 ∙ used in
        record {
          opened = opened;
          room = omega (arith, same, ok.room);
          bytes = subst (All (λ b. b < 256)) (sym buffer) filled-bytes;
          ahead = omega (arith, at);
          anew = λ _. omega (arith, at);
        }
    handed-IsAhead size k false f1 out e handed before =
        let (count, buffer, used) =
          hand_out-keeps size k false (filled f content) f1 (some out) e in
        let (_, _, _, _, _, same, opened) = handed in
        let below = before refl in
        let wraps : (f.bytes_used + k) % 2 ^ 32 ≡ f.position + k =
          mod-eq_of_lt (omega (arith, ok.opened.1, below, stream.inside, ok.room, ok.opened.4))
          ∙ omega (arith, ok.opened.1) in
        let at : f1.position ≡ f.position + k = opened.1 ∙ used ∙ wraps in
        record {
          opened = opened;
          room = omega (arith, same, ok.room);
          bytes = subst (All (λ b. b < 256)) (sym buffer) filled-bytes;
          ahead = omega (arith, at, below);
          anew = λ zero_count. absurd (omega (arith, zero_count, count));
        }

    -- What a round reads.
    abbrev pub Plays : ℕ → Option (H264File × Option (Bytes × Bool)) → Type 0
    Plays size result =
        (f1 : H264File) × (out : Bytes × Bool) × (result ≡ some (f1, some out))
        × HandsOut content size f f1 out
        × IsAhead f1

    hand_out-Plays :
        (size k : ℕ) (flag : Bool)
        → Fits (length (remains f)) k flag
        → (flag ≡ false → f.position + k ≤ stream.last)
        → Plays size (hand_out size k flag (filled f content))
    hand_out-Plays size k flag fits before =
        let (f1, out, e, handed) =
          hand_out_lem content size k flag f ok.opened (omega (arith, ok.room, ok.opened.4))
            (omega (arith, ok.ahead, stream.inside)) fits in
        (f1, out, e, handed, handed-IsAhead size k flag f1 out e handed before)

    settle-Plays :
        (size j : ℕ) (ended : Bool)
        → (ended ≡ true → (4 ≤ j) × (j + 5 < length (remains f)) × (f.position + j ≤ stream.last))
        → (ended ≡ false → f.count ≢ 0)
        → Plays size (settle size (length (remains f)) (filled f content) (j, true, ended))
    unfolding settle frame_end
    settle-Plays size j true inside again =
        let (four, behind, below) = inside refl in
        hand_out-Plays size j false (four, behind) (λ _. below)
    settle-Plays size j false inside again =
        let more : ltb 0 f.count ≡ true = ground (arith, again refl) in
        subst (Plays size)
          (sym (
            let e : settle size (length (remains f)) (filled f content) (j, true, false)
                ≡ hand_out size (length (remains f)) true (filled f content) =
              rw more refl in
            e))
          (hand_out-Plays size (length (remains f)) true refl (λ e. cc))

    -- readFrame hands out a frame, and the file can again be played from where it then stands.
    pub read_frame-Plays : (size : ℕ) → Plays size (read_frame size f)
    read_frame-Plays size =
        let n = length (remains f) in
        let (j, ended, found, inside, again) = loops_lem in
        let more : n == 0 ≡ false = ground (arith, length-remains, ok.ahead, stream.inside) in
        let step : read_frame size f ≡ settle size n (filled f content) (j, true, ended) =
          read_frame-read_on content size n f (filled f content) ok.opened.0
            (fread_lem content f ok.opened.2) more
          ∙ read_on-settle size n (filled f content) (j, true, ended) found in
        subst (Plays size) (sym step) (settle-Plays size j ended inside again)
