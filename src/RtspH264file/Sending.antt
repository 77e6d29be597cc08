-- ===== src/RtspH264file/Sending.antt =====
-- src/rtsp_h264file.cc: the frames that sendFrameThread pushes are the bytes of the file.
use rtsp_server.Base.{
  ℕ, suc, Bytes, Bool, true, false, Option, none, some, List, [], ◌∷◌, ◌+◌, ◌^◌, ◌≤◌, ◌<◌, ◌≡◌,
  refl, ap, sym, ◌∙◌, subst, arith, ◌==◌, leb, if◌then◌else◌, length, take, drop, map, length-take,
  length-drop, take-of_le, inl, inr, ◌⊎◌, Bool-cases, leb→le,
}
use rtsp_server.Media.{MediaChannelId, channel_0, AvFrame}
use rtsp_server.H264File.{H264File}
use rtsp_server.H264File.Reading.{IsOpen, HandsOut, Outcome, read_frame-HandsOut}
use rtsp_server.MediaSession.{MediaSession}
use rtsp_server.RtspServer.{RtspServer, push_frame}
use rtsp_server.RtspH264file.{
  frame_buf_size, video_frame, Round, push_read, send_round, send_frames,
}

-- Frames that are the bytes of `content` from `at` on, one behind the other. Behind the last frame of the
-- file they go on at its start; that frame is all that is left, or it fills a buffer of `size` bytes.
pub data Pieces (size : ℕ) (content : Bytes) : ℕ → List Bytes → Type 0 where
  stops : (at : ℕ) → Pieces size content at []
  piece :
      (at n : ℕ) (frames : List Bytes)
      → 4 ≤ n
      → at + n + 5 < length content
      → Pieces size content (at + n) frames
      → Pieces size content at (take n (drop at content) ∷ frames)
  last :
      (at : ℕ) (frame : Bytes) (frames : List Bytes)
      → (frame ≡ drop at content) ⊎ ((frame ≡ take size (drop at content)) × (length frame ≡ size))
      → Pieces size content 0 frames
      → Pieces size content at (frame ∷ frames)

-- A file that can be read from where the last frame ends.
pub record IsReadable (content : Bytes) (f : H264File) : Type 0 where
  pub opened : IsOpen content f
  pub buffer_is : f.buf_size ≡ frame_buf_size
  pub left : f.position + 5 ≤ length content

whole_copied : (n size : ℕ) → n ≤ size → (if leb n size then n else size) ≡ n
whole_copied n size h = ground arith

-- What a frame that was handed out is to the frames behind it.
abbrev pub Continues : Bytes → H264File → H264File → Bytes → Type 0
Continues content f f1 frame =
    IsReadable content f1
    × (0 < length frame)
    × ((frames : List Bytes)
        → Pieces frame_buf_size content f1.position frames
        → Pieces frame_buf_size content f.position (frame ∷ frames))

read_below :
    (content : Bytes) (f : H264File)
    → length (take f.buf_size (drop f.position content)) ≤ f.buf_size
read_below content f = omega (arith, length-take f.buf_size (drop f.position content))

pub handed-Continues :
    (content : Bytes) (f f1 : H264File) (frame : Bytes) (flag : Bool)
    → IsReadable content f
    → HandsOut content frame_buf_size f f1 (frame, flag)
    → Continues content f f1 frame
handed-Continues content f f1 frame false ok (n, le, (four, behind), is, used, same, opened) =
    let rest = drop f.position content in
    let below = read_below content f in
    let frame_is : frame ≡ take n rest =
      is ∙ ap (λ k. take k rest) (whole_copied n frame_buf_size (omega (arith, ok.buffer_is))) in
    let at : f1.position ≡ f.position + n = opened.1 ∙ used in
    let inside : f.position + n + 5 < length content =
      omega (arith, length-take f.buf_size rest, length-drop f.position content) in
    (
      record { opened = opened; buffer_is = same ∙ ok.buffer_is; left = omega (arith, at, inside) },
      omega (arith, ap length frame_is, length-take n rest, le, four),
      λ frames tail.
          subst (λ b. Pieces frame_buf_size content f.position (b ∷ frames)) (sym frame_is)
            (piece f.position n frames four inside
              (subst (λ k. Pieces frame_buf_size content k frames) at tail)),
    )
handed-Continues content f f1 frame true ok (n, le, whole, is, used, same, opened) =
    let rest = drop f.position content in
    let below = read_below content f in
    let frame_is : frame ≡ take n rest =
      is
      ∙ ap (λ k. take k rest)
          (whole_copied n frame_buf_size (omega (arith, ok.buffer_is, whole))) in
    let at : f1.position ≡ 0 = opened.1 ∙ used in
    let long = ok.left in
    let bounds = length-take f.buf_size rest in
    let extent : (frame ≡ rest)
        ⊎ ((frame ≡ take frame_buf_size rest) × (length frame ≡ frame_buf_size)) =
      elim (Bool-cases (leb (length rest) frame_buf_size)) [
        | inl fits ↦ inl (
            frame_is
            ∙ take-of_le n rest (omega (arith, leb→le _ _ fits, whole, bounds, ok.buffer_is)))
        | inr cut ↦
            let full : n ≡ frame_buf_size = ground (arith, cut, whole, bounds, ok.buffer_is) in
            inr (
              frame_is ∙ ap (λ k. take k rest) full,
              omega (arith, ap length frame_is, length-take n rest, full, le),
            )
      ] in
    (
      record { opened = opened; buffer_is = same ∙ ok.buffer_is; left = omega (arith, at, long) },
      omega (
        arith,
        ap length frame_is,
        length-take n rest,
        whole,
        bounds,
        length-drop f.position content,
        long,
        ok.buffer_is,
      ),
      λ frames tail.
          last f.position frame frames extent
            (subst (λ k. Pieces frame_buf_size content k frames) at tail),
    )

module _ {ℓ} {Conn : Type ℓ} (session_id : ℕ)
    (handle : MediaChannelId → AvFrame → MediaSession → MediaSession × Bool) where
  -- The frames go to the session one after the other.
  unfoldable pub push_all : List AvFrame → RtspServer Conn → RtspServer Conn
  push_all [] srv = srv
  push_all (frame ∷ frames) srv =
      push_all frames (push_frame session_id (handle channel_0 frame) srv).0

module _ {ℓ} {Conn : Type ℓ} (session_id : ℕ)
    (handle : MediaChannelId → AvFrame → MediaSession → MediaSession × Bool) (content : Bytes)
    (short : length content < 2 ^ 31) where
  -- A round ends the loop with a closed file, or it pushes what was read.
  abbrev Goes : ℕ → RtspServer Conn → H264File → Option (Round Conn) → Type ℓ
  Goes micros srv f result =
      ((f1 : H264File) × (result ≡ some (record { server = srv; file = f1; pushed = none }))
        × (f1.fp ≡ none))
      ⊎ ((f1 : H264File) × (bytes : Bytes) × (result
            ≡ some (record {
              server = (push_frame session_id (handle channel_0 (video_frame micros bytes)) srv).0;
              file = f1;
              pushed = some (video_frame micros bytes);
            }))
          × Continues content f f1 bytes)

  push_read-Goes :
      (micros : ℕ) (srv : RtspServer Conn) (f f1 : H264File) (out : Option (Bytes × Bool))
      → IsReadable content f
      → Outcome content frame_buf_size f f1 out
      → Goes micros srv f (some (push_read session_id handle micros srv f1 out))
  unfolding push_read
  push_read-Goes micros srv f f1 none ok closed = inl (f1, refl, closed)
  push_read-Goes micros srv f f1 (some (bytes, flag)) ok handed =
      let (ok1, filled, goes_on) = handed-Continues content f f1 bytes flag ok handed in
      let more : length bytes == 0 ≡ false = ground (arith, filled) in
      inr (f1, bytes, rw (more, push_read) refl, (ok1, filled, goes_on))

  send_round-Goes :
      (micros : ℕ) (srv : RtspServer Conn) (f : H264File)
      → IsReadable content f
      → Goes micros srv f (send_round session_id handle micros srv f)
  unfolding send_round
  send_round-Goes micros srv f ok =
      let (f1, out, done, outcome) =
        read_frame-HandsOut content frame_buf_size f ok.opened short ok.left in
      let e : send_round session_id handle micros srv f
          ≡ some (push_read session_id handle micros srv f1 out) =
        rw (done, send_round) refl in
      subst (Goes micros srv f) (sym e) (push_read-Goes micros srv f f1 out ok outcome)

  -- What the rounds leave.
  abbrev pub Sends :
      List ℕ
      → RtspServer Conn
      → H264File
      → Option (RtspServer Conn × H264File × List AvFrame)
      → Type ℓ
  Sends times srv f result =
      (f' : H264File) × (frames : List AvFrame) × (result
        ≡ some (push_all session_id handle frames srv, f', frames))
      × Pieces frame_buf_size content f.position (map (λ x. x.buffer) frames)
      × ((length frames ≡ length times) ⊎ (f'.fp ≡ none))

  -- sendFrameThread on an open file of less than 2 ^ 31 bytes, from a place with five bytes left:
  -- as many rounds as one likes make no access outside of the buffers. The frames that are pushed to
  -- the session, one after the other, are the bytes of the file, each where the one before ends, and
  -- again from the start behind the last. There is one for each round, or the file was closed, which
  -- ends the loop.
  pub send_frames-Sends :
      (times : List ℕ) (srv : RtspServer Conn) (f : H264File)
      → IsReadable content f
      → Sends times srv f (send_frames session_id handle times srv f)
  unfolding send_frames push_all video_frame
  send_frames-Sends [] srv f ok = (f, [], refl, stops f.position, inl refl)
  send_frames-Sends (micros ∷ times) srv f ok = elim (send_round-Goes micros srv f ok) [
    | inl (f1, e, closed) ↦ (f1, [], rw (e, send_frames) refl, stops f.position, inr closed)
    | inr (f1, bytes, e, (ok1, filled, goes_on)) ↦
        let frame = video_frame micros bytes in
        let srv1 = (push_frame session_id (handle channel_0 frame) srv).0 in
        let (f2, frames, done, pieces, ends) = send_frames-Sends times srv1 f1 ok1 in
        (
          f2,
          frame ∷ frames,
          rw (e, done, send_frames) refl,
          goes_on (map (λ x. x.buffer) frames) pieces,
          elim ends [ inl same ↦ inl (ap suc same) | inr closed ↦ inr closed ],
        )
  ]
