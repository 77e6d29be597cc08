-- ===== src/MediaSession/Sdp.antt =====
-- src/media/media_session.cc: getSdpMessage, and what it asks a MediaSource for
-- (src/media/media_source.h and src/media/h264_source.cc).
use rtsp_server.Base.{ℕ, Bytes, true, false, Option, none, some, ◌++◌}
use rtsp_server.Base.Text.{text, c_str, decimal, printed, append_printed}
use rtsp_server.MediaSession.{MediaSession, is_empty}

-- What a MediaSource answers to the getters of its class.
pub record MediaSource : Type 0 where
  pub payload : ℕ
  pub clock_rate : ℕ
  pub media_description : ℕ → Bytes
  pub attribute : Bytes

-- An H264Source: the constructor, getMediaDescription and getAttribute.
unfoldable pub h264_source : MediaSource
h264_source = record {
  payload = 96;
  clock_rate = 90000;
  media_description = λ port. text "m=video " ++ (decimal port ++ text " RTP/AVP 96");
  attribute = text "a=rtpmap:96 H264/90000";
}

-- The lines of one source, in `char buf[1024]`.
unfoldable pub add_source : (ℕ → MediaSource) → Option ℕ → Bytes → Bytes → Bytes
add_source sources none chn buf = buf
add_source sources (some source) chn buf =
    let m = sources source in
    append_printed 1024
      (append_printed 1024 (append_printed 1024 buf (c_str (m.media_description 0) ++ text "\r\n"))
        (c_str m.attribute ++ text "\r\n"))
      (text "a=control:track" ++ (chn ++ text "\r\n"))

-- The line with the name of the session, unless it is empty.
unfoldable pub add_name : Bytes → Bytes → Bytes
unfolding is_empty
add_name session_name buf = elim (is_empty session_name) [
  | true ↦ buf
  | false ↦ append_printed 1024 buf (text "s=" ++ (c_str session_name ++ text "\r\n"))
]

-- The message, from the local address and the time.
unfoldable pub sdp_message : Bytes → ℕ → (ℕ → MediaSource) → Bytes → MediaSession → Bytes
unfolding add_name add_source
sdp_message ip time sources session_name s =
    let start = printed 1024 (
      text "v=0\r\no=- 9"
      ++ (decimal time
          ++ (text " 1 IN IP4 " ++ (c_str ip ++ text "\r\nt= 0 0\r\na= control:*\r\n")))) in
    add_source sources s.media_sources.at_1 (text "1")
      (add_source sources s.media_sources.at_0 (text "0") (add_name session_name start))

-- `getSdpMessage`
unfoldable pub get_sdp_message :
    Bytes → ℕ → (ℕ → MediaSource) → Bytes → MediaSession → MediaSession × Bytes
unfolding sdp_message is_empty
get_sdp_message ip time sources session_name s = elim (is_empty s.sdp) [
  | false ↦ (s, s.sdp)
  | true ↦ let sdp = sdp_message ip time sources session_name s in (record s { sdp = sdp }, sdp)
]
