-- ===== src/RtspH264file/Passes.antt =====
-- src/rtsp_h264file.cc: the loop of sendFrameThread gets to the end of the file.
use rtsp_server.Base.{
  ℕ, suc, Bytes, List, [], ◌∷◌, ◌++◌, ◌+◌, ◌*◌, ◌≤◌, ◌<◌, ◌≡◌, inl, inr, refl, ap, sym, ◌∙◌, arith,
  some, Option, Bool, false, ◌==◌, length, take, drop, map, take-append-drop, take-of_le, drop-drop,
  append_assoc, length-map, length-drop,
}
use mathlib.Core.List.{flatten}
use rtsp_server.Media.{MediaChannelId, channel_0, AvFrame}
use rtsp_server.MediaSession.{MediaSession}
use rtsp_server.H264File.{H264File}
use rtsp_server.H264File.Playing.{IsStream, IsAhead, read_frame-Plays}
use rtsp_server.RtspServer.{RtspServer, push_frame}
use rtsp_server.RtspH264file.{
  frame_buf_size, video_frame, Round, push_read, send_round, send_frames,
}
use rtsp_server.RtspH264file.Sending.{
  Pieces, stops, piece, last, IsReadable, Continues, handed-Continues, push_all,
}

-- The frames up to the one behind which the file starts again, which are all that is left of the file,
-- and those of the next passes.
pub record Pass (size : ℕ) (content : Bytes) (at : ℕ) (frames : List Bytes) : Type 0 where
  pub front : List Bytes
  pub ending : Bytes
  pub later : List Bytes
  pub is : frames ≡ front ++ (ending ∷ later)
  pub whole : flatten front ++ ending ≡ drop at content
  pub again : Pieces size content 0 later

Pieces-Pass :
    (size : ℕ) (content : Bytes) (at : ℕ) (frames : List Bytes)
    → length content < size
    → Pieces size content at frames
    → at + 5 ≤ length content
    → length content < at + 4 * length frames
    → Pass size content at frames
unfolding flatten
Pieces-Pass size content at _ fits (stops _) left many = absurd (omega (arith, left, many))
Pieces-Pass size content at _ fits (piece _ n frames four inside rest) left many =
    let first = take n (drop at content) in
    let p =
      Pieces-Pass size content (at + n) frames fits rest (omega (arith, inside))
        (omega (arith, many, four)) in
    record {
      front = first ∷ p.front;
      ending = p.ending;
      later = p.later;
      is = ap (λ l. first ∷ l) p.is;
      whole =
          append_assoc first (flatten p.front) p.ending
          ∙ ap (λ l. first ++ l) (p.whole ∙ sym (drop-drop n at content))
          ∙ take-append-drop n (drop at content);
      again = p.again;
    }
Pieces-Pass size content at _ fits (last _ frame frames extent rest) left many = record {
  front = [];
  ending = frame;
  later = frames;
  is = refl;
  whole = elim extent [
    | inl all ↦ all
    | inr (cut, full) ↦
        cut ∙ take-of_le size (drop at content) (omega (arith, fits, length-drop at content))
  ];
  again = rest;
}

module _ {ℓ} {Conn : Type ℓ} (session_id : ℕ)
    (handle : MediaChannelId → AvFrame → MediaSession → MediaSession × Bool) (content : Bytes)
    (stream : IsStream content) where
  -- A round pushes a frame, and the next can be read.
  abbrev Pushes : ℕ → RtspServer Conn → H264File → Option (Round Conn) → Type ℓ
  Pushes micros srv f result =
      (f1 : H264File) × (bytes : Bytes) × (result
        ≡ some (record {
          server = (push_frame session_id (handle channel_0 (video_frame micros bytes)) srv).0;
          file = f1;
          pushed = some (video_frame micros bytes);
        }))
      × Continues content f f1 bytes
      × IsAhead content stream f1

  send_round-Pushes :
      (micros : ℕ) (srv : RtspServer Conn) (f : H264File)
      → IsAhead content stream f
      → f.buf_size ≡ frame_buf_size
      → Pushes micros srv f (send_round session_id handle micros srv f)
  unfolding send_round push_read
  send_round-Pushes micros srv f ok full =
      let (f1, (bytes, flag), e, handed, ok1) =
        read_frame-Plays content stream f ok frame_buf_size in
      let readable : IsReadable content f = record {
        opened = ok.opened;
        buffer_is = full;
        left = omega (arith, ok.ahead, stream.inside);
      } in
      let goes_on = handed-Continues content f f1 bytes flag readable handed in
      let more : length bytes == 0 ≡ false = ground (arith, goes_on.1) in
      (f1, bytes, rw (e, more, push_read) refl, goes_on, ok1)

  -- What enough rounds leave.
  abbrev pub Passes :
      List ℕ
      → RtspServer Conn
      → H264File
      → Option (RtspServer Conn × H264File × List AvFrame)
      → Type ℓ
  Passes times srv f result =
      (f' : H264File) × (frames : List AvFrame) × (result
        ≡ some (push_all session_id handle frames srv, f', frames))
      × (length frames ≡ length times)
      × IsAhead content stream f'
      × Pass frame_buf_size content f.position (map (λ x. x.buffer) frames)

  send_frames-all :
      (times : List ℕ) (srv : RtspServer Conn) (f : H264File)
      → IsAhead content stream f
      → f.buf_size ≡ frame_buf_size
      → (f' : H264File) × (frames : List AvFrame) × (send_frames session_id handle times srv f
          ≡ some (push_all session_id handle frames srv, f', frames))
        × (length frames ≡ length times)
        × IsAhead content stream f'
        × Pieces frame_buf_size content f.position (map (λ x. x.buffer) frames)
  unfolding send_frames push_all video_frame
  send_frames-all [] srv f ok full = (f, [], refl, refl, ok, stops f.position)
  send_frames-all (micros ∷ times) srv f ok full =
      let (f1, bytes, e, (ok1, _, goes_on), ahead) = send_round-Pushes micros srv f ok full in
      let frame = video_frame micros bytes in
      let srv1 = (push_frame session_id (handle channel_0 frame) srv).0 in
      let (f2, frames, done, same, ahead2, pieces) =
        send_frames-all times srv1 f1 ahead ok1.buffer_is in
      (
        f2,
        frame ∷ frames,
        rw (e, done, send_frames) refl,
        ap suc same,
        ahead2,
        goes_on (map (λ x. x.buffer) frames) pieces,
      )

  -- sendFrameThread on an open file of bytes, shorter than the two buffers of 500000 bytes, with two
  -- first slices, one four bytes or more behind the other, and nothing that a frame ends at behind the
  -- second. It starts at a place that is not behind the second slice, and not behind the first if no
  -- frame was read. Then the loop does not end: each round pushes a frame. When there is more than one
  -- round for every four bytes that are left, the frames up to one of them are all the bytes that were
  -- left, one behind the other, and those that follow start over at the start of the file.
  pub send_frames-Passes :
      (times : List ℕ) (srv : RtspServer Conn) (f : H264File)
      → IsAhead content stream f
      → f.buf_size ≡ frame_buf_size
      → length content < f.position + 4 * length times
      → Passes times srv f (send_frames session_id handle times srv f)
  send_frames-Passes times srv f ok full many =
      let (f', frames, done, same, ahead, pieces) = send_frames-all times srv f ok full in
      (
        f',
        frames,
        done,
        same,
        ahead,
        Pieces-Pass frame_buf_size content f.position (map (λ x. x.buffer) frames)
            (omega (arith, ok.room, full)) pieces (omega (arith, ok.ahead, stream.inside))
            (omega (arith, many, same, length-map (λ x. x.buffer) frames)),
      )
