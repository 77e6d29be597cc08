-- ===== src/RtspRequest/Parse/Headers.antt =====
-- src/media/rtsp_message.cc: parseHeadersLine and the functions that it calls.
use rtsp_server.Base.{
  ℕ, Bytes, Bool, true, false, Option, none, some, [], ◌&&◌, not, if◌then◌else◌, ◌>>=◌,
}
use rtsp_server.Base.Maps.{bytes_eq, lookup, emplace}
use rtsp_server.Base.Text.{text, c_str, seek, is_some, scan_until, scan_char, scan_unsigned}
use rtsp_server.Media.{channel_0, channel_1, rtp_over_tcp, rtp_over_udp, rtp_over_multicast}
use rtsp_server.RtspRequest.{Method, ParseState, RtspRequest, text_of}

unfoldable pub is_cseq_there : RtspRequest → Bool
is_cseq_there r = is_some (lookup (text "cseq") r.header_line_param)

-- `sscanf(s, "%*[^:]: %u", &n)`
unfoldable pub scan_field : Bytes → Option ℕ
scan_field s = do
  (name, s1) ← scan_until b':' s
  s2 ← scan_char b':' s1
  (n, s3) ← scan_unsigned 32 s2
  some n

abbrev pub or_zero : Option ℕ → ℕ
or_zero none = 0
or_zero (some n) = n

-- `parseCSeq`
unfoldable pub parse_cseq : Bytes → RtspRequest → RtspRequest × Bool
unfolding scan_field
parse_cseq message r = elim (seek (text "CSeq") message) [
  | none ↦ (r, false)
  | some at ↦ (
    record r {
      header_line_param =
          emplace (text "cseq") ([], or_zero (scan_field (c_str at))) r.header_line_param;
    },
    true,
  )
]

-- `parseAccept`
unfoldable pub parse_accept : Bytes → Bool
parse_accept message = is_some (seek (text "Accept") message) && is_some (seek (text "sdp") message)

-- `sscanf(s, "%*[^;];%*[^;];%*[^=]=%hu-%hu", &a, &b)`, if it is 2.
unfoldable pub scan_pair : Bytes → Option (ℕ × ℕ)
scan_pair s = do
  (x, s1) ← scan_until b';' s
  s2 ← scan_char b';' s1
  (y, s3) ← scan_until b';' s2
  s4 ← scan_char b';' s3
  (z, s5) ← scan_until b'=' s4
  s6 ← scan_char b'=' s5
  (a, s7) ← scan_unsigned 16 s6
  s8 ← scan_char b'-' s7
  (b, s9) ← scan_unsigned 16 s8
  some (a, b)

-- The two calls of `emplace` with a pair of channels or of ports.
unfoldable pub keep_pair : Bytes → Bytes → ℕ × ℕ → RtspRequest → RtspRequest
keep_pair name_a name_b (a, b) r = record r {
  header_line_param = emplace name_b ([], b) (emplace name_a ([], a) r.header_line_param);
}

-- The three branches of `parseTransport`, from the place of `RTP/AVP` on.
unfoldable pub parse_tcp : Bytes → RtspRequest → RtspRequest × Bool
unfolding scan_pair keep_pair
parse_tcp at r =
    let r1 = record r { transport = rtp_over_tcp } in
    elim (scan_pair (c_str at)) [
      | none ↦ (r1, false)
      | some channels ↦ (keep_pair (text "rtp_channel") (text "rtcp_channel") channels r1, true)
    ]

unfoldable pub parse_unicast : Bytes → RtspRequest → RtspRequest × Bool
unfolding scan_pair keep_pair
parse_unicast at r =
    let r1 = record r { transport = rtp_over_udp } in
    elim (scan_pair (c_str at)) [
      | none ↦ (r1, false)
      | some ports ↦ (keep_pair (text "rtp_port") (text "rtcp_port") ports r1, true)
    ]

unfoldable pub parse_multicast : RtspRequest → RtspRequest
unfolding keep_pair
parse_multicast r =
    keep_pair (text "rtp_port") (text "rtcp_port") (0, 0)
      (record r { transport = rtp_over_multicast })

unfoldable pub parse_transport : Bytes → RtspRequest → RtspRequest × Bool
unfolding parse_tcp parse_unicast parse_multicast
parse_transport message r = elim (seek (text "Transport") message) [
  | none ↦ (r, false)
  | some header ↦ elim (seek (text "RTP/AVP/TCP") message) [
    | some at ↦ parse_tcp at r
    | none ↦ elim (seek (text "RTP/AVP") message) [
      | none ↦ (r, false)
      | some at ↦
          if is_some (seek (text "unicast") at)
          then parse_unicast at r
          else if is_some (seek (text "multicast") at)
          then (parse_multicast r, true)
          else (r, false)
    ]
  ]
]

-- `parseSessionId`
unfoldable pub parse_session_id : Bytes → Bool
unfolding scan_field
parse_session_id message = elim (seek (text "Session") message) [
  | none ↦ false
  | some at ↦ is_some (scan_field (c_str at))
]

-- `parseMediaChannel`
unfoldable pub parse_media_channel : RtspRequest → RtspRequest
parse_media_channel r = record r {
  channel_id =
      if is_some (seek (text "track1") (text_of (text "url") r.request_line_param))
      then channel_1
      else channel_0;
}

abbrev pub all_got : RtspRequest → RtspRequest
all_got r = record r { state = ParseState.got_all }

abbrev pub got_if : Bool → RtspRequest → RtspRequest
got_if done r = if done then all_got r else r

-- What `parseHeadersLine` does for a method.
unfoldable pub parse_for : Method → Bytes → RtspRequest → RtspRequest
unfolding parse_accept parse_transport parse_session_id parse_media_channel
parse_for Method.options message r = all_got r
parse_for Method.describe message r = got_if (parse_accept message) r
parse_for Method.setup message r =
    let (r1, done) = parse_transport message r in
    if done then all_got (parse_media_channel r1) else r1
parse_for Method.play message r = got_if (parse_session_id message) r
parse_for Method.teardown message r = all_got r
parse_for Method.get_parameter message r = all_got r
parse_for Method.rtcp message r = r
parse_for Method.unknown message r = r

-- `parseHeadersLine`
unfoldable pub parse_headers : Bytes → RtspRequest → RtspRequest × Bool
unfolding parse_cseq is_cseq_there parse_for
parse_headers message r =
    let (r1, found) = parse_cseq message r in
    if not found && not (is_cseq_there r1)
    then (r1, false)
    else (parse_for r1.method message r1, true)
