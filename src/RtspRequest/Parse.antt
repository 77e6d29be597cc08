-- ===== src/RtspRequest/Parse.antt =====
-- src/media/rtsp_message.cc: parseRequest. The buffer is muduo's: an interface. A read from an empty
-- buffer is `none`.
pub mod Line
pub mod RoundTrip
pub mod Lines
pub mod Headers
pub mod Buffering
pub mod Fields
pub mod Transports
pub mod Asks
pub mod Requests
use rtsp_server.Base.{
  ℕ, zero, Bytes, Bool, true, false, Option, none, some, List, [], ◌∷◌, ◌+◌, ◌==◌, ◌&&◌, ◌||◌, not,
  if◌then◌else◌, ◌>>=◌, take, drop, get_elem?,
}
use rtsp_server.Base.Maps.{bytes_eq, equal, lookup, emplace}
use rtsp_server.Base.Text.{
  text, c_str, begins, seek, is_some, skip_space, scan_word, scan_until, scan_char, scan_unsigned,
  store,
}
use rtsp_server.Media.{
  MediaChannelId, channel_0, channel_1, TransportMode, rtp_over_tcp, rtp_over_udp,
  rtp_over_multicast,
}
use rtsp_server.RtspRequest.{Method, ParseState, Params, RtspRequest, text_of}
use rtsp_server.RtspRequest.Parse.Line.{parse_line}
use rtsp_server.RtspRequest.Parse.Headers.{parse_headers}

-- `muduo::net::Buffer`: what is readable; where the first and the last CRLF are, counted from
-- `peek()`; `retrieveUntil` to such a place, and `retrieveAll`.
pub record Buffer {ℓ} (B : Type ℓ) : Type ℓ where
  pub readable : B → Bytes
  pub find_crlf : B → Option ℕ
  pub find_last_crlf : B → Option ℕ
  pub retrieve : ℕ → B → B
  pub retrieve_all : B → B

abbrev pub is_headers : ParseState → Bool
is_headers ParseState.parse_headers_line = true
is_headers ParseState.parse_request_line = false
is_headers ParseState.got_all = false

module _ {ℓ} {B : Type ℓ} (ops : Buffer B) where
  -- A round of the loop of `parseRequest` in the state kParseHeadersLine, which ends it; `ret` is
  -- what the rounds before have set.
  unfoldable pub headers_round : Bool → B → RtspRequest → B × RtspRequest × Bool
  unfolding parse_headers
  headers_round ret buf r = elim (ops.find_last_crlf buf) [
    | none ↦ (buf, r, ret)
    | some at ↦
        let (r1, ok) = parse_headers (take at (ops.readable buf)) r in
        (ops.retrieve (at + 2) buf, r1, ok)
  ]

  abbrev pub behind_line : Bool → B → RtspRequest → B × RtspRequest × Bool
  behind_line ok buf r = if is_headers r.state then headers_round ok buf r else (buf, r, ok)

  -- A round in the state kParseRequestLine, and the next one if the state has become
  -- kParseHeadersLine.
  unfoldable pub line_round : B → RtspRequest → Option (B × RtspRequest × Bool)
  unfolding parse_line headers_round
  line_round buf r = elim (ops.find_crlf buf) [
    | none ↦ some (buf, r, true)
    | some at ↦ (do
      (r1, ok) ← parse_line (take at (ops.readable buf)) r
      some (behind_line ok (ops.retrieve (at + 2) buf) r1))
  ]

  -- The loop, from the state that it starts in.
  unfoldable pub rounds : ParseState → B → RtspRequest → Option (B × RtspRequest × Bool)
  unfolding line_round headers_round
  rounds ParseState.parse_request_line buf r = line_round buf r
  rounds ParseState.parse_headers_line buf r = some (headers_round true buf r)
  rounds ParseState.got_all buf r = some (ops.retrieve_all buf, r, true)

  unfoldable pub parse_request : B → RtspRequest → Option (B × RtspRequest × Bool)
  unfolding rounds
  parse_request buf r = do
    first ← get_elem? (ops.readable buf) 0
    (if first == b'$'
        then some (buf, record r { method = Method.rtcp }, true)
        else rounds r.state buf r)
