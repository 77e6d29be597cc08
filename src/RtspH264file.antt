-- ===== src/RtspH264file.antt =====
-- src/rtsp_h264file.cc: the program that serves a file. Its waits are the times at which its rounds
-- begin, in microseconds of the steady clock.
pub mod Sending
pub mod SetUp
pub mod Passes
pub mod Starting
use rtsp_server.Base.{
  ℕ, Bytes, Bool, true, false, Option, none, some, List, [], ◌∷◌, ◌==◌, if◌then◌else◌, ◌>>=◌, ◌&&◌,
  ◌++◌, length,
}
use rtsp_server.Media.{MediaChannelId, channel_0, AvFrame}
use rtsp_server.H264Source.{get_timestamp}
use rtsp_server.H264File
use rtsp_server.H264File.{H264File, read_frame, open_path}
use rtsp_server.Base.Text.{text}
use rtsp_server.RtspServer
use rtsp_server.MediaSession.{MediaSession, creat_new, add_media_source}
use rtsp_server.RtspServer.{RtspServer, push_frame, add_media_session}

-- `bufSize` of sendFrameThread.
abbrev pub frame_buf_size : ℕ
frame_buf_size = 500000

-- `videoFrame`, from the bytes in `frameBuf`.
unfoldable pub video_frame : ℕ → Bytes → AvFrame
unfolding get_timestamp
video_frame micros bytes = record {
  buffer = bytes;
  size = length bytes;
  type = 0;
  timestamp = get_timestamp micros;
}

-- What a round of the loop leaves: the server, the file, and the frame that it has pushed, or none for
-- `break`.
pub record Round {ℓ} (Conn : Type ℓ) : Type ℓ where
  pub server : RtspServer Conn
  pub file : H264File
  pub pushed : Option AvFrame

module _ {ℓ} {Conn : Type ℓ} (session_id : ℕ)
    (handle : MediaChannelId → AvFrame → MediaSession → MediaSession × Bool) where
  -- The body of the loop, behind readFrame.
  unfoldable pub push_read : ℕ → RtspServer Conn → H264File → Option (Bytes × Bool) → Round Conn
  unfolding video_frame
  push_read micros srv f none = record { server = srv; file = f; pushed = none }
  push_read micros srv f (some (bytes, last)) =
      let frame = video_frame micros bytes in
      if length bytes == 0 then record { server = srv; file = f; pushed = none } else record {
        server = (push_frame session_id (handle channel_0 frame) srv).0;
        file = f;
        pushed = some frame;
      }

  unfoldable pub send_round : ℕ → RtspServer Conn → H264File → Option (Round Conn)
  unfolding push_read
  send_round micros srv f = do
    (f1, out) ← read_frame frame_buf_size f
    some (push_read micros srv f1 out)

  -- The rounds that begin at `times`, up to a `break`: the server and the file, and the frames.
  unfoldable pub send_frames :
      List ℕ → RtspServer Conn → H264File → Option (RtspServer Conn × H264File × List AvFrame)
  unfolding send_round
  send_frames [] srv f = some (srv, f, [])
  send_frames (micros ∷ times) srv f = do
    round ← send_round micros srv f
    elim round.pushed [
      | none ↦ some (round.server, round.file, [])
      | some frame ↦ (do
        (srv1, f1, frames) ← send_frames times round.server round.file
        some (srv1, f1, frame ∷ frames))
    ]

-- What `main` does before it starts the thread: a session with a suffix, its source of H.264 frames, and
-- the call of addMediaSession, from the last identifier that was given out.
unfoldable pub set_up {ℓ} :
    {Conn : Type ℓ} → Bytes → ℕ → ℕ → RtspServer Conn → RtspServer Conn × ℕ × ℕ
set_up suffix source last_id srv =
    let (session, last_id1) = creat_new last_id suffix in
    let (srv1, session_id) = add_media_session (add_media_source channel_0 source session) srv in
    (srv1, session_id, last_id1)

-- What the program has when it starts the thread: the server, the identifier and the file that the
-- thread gets, `_lastMediaSessionId`, and the URL that is shown.
pub record Started {ℓ} (Conn : Type ℓ) : Type ℓ where
  pub server : RtspServer Conn
  pub session_id : ℕ
  pub last_id : ℕ
  pub file : H264File
  pub rtsp_url : Bytes

-- `main` up to the start of the thread, or none if it returns in front of that. `answer` is what fopen
-- answers, and `allocated` is the memory for `_buffer`.
unfoldable pub main {ℓ} : {Conn : Type ℓ} → ℕ → Option Bytes → Bytes → Option (Started Conn)
unfolding set_up
main argc answer allocated =
    let (h264_file, opened) = open_path answer (H264File.init 500000 allocated) in
    let (server, session_id, last_id) = set_up (text "live") 0 1 RtspServer.init in
    if argc == 2 && opened
    then some (record {
      server = server;
      session_id = session_id;
      last_id = last_id;
      file = h264_file;
      rtsp_url =
          text "rtsp://"
          ++ (text "0.0.0.0" ++ (text ":554/" ++ (creat_new 1 (text "live")).0.suffix));
    })
    else none
