-- ===== src/RtspRequest.antt =====
-- src/media/rtsp_message.h and src/media/rtsp_message.cc: the state of an RtspRequest, its maps of
-- parameters, and what it reads from them. The children have the parser and the answers.
pub mod Parse
pub mod Answers
use rtsp_server.Base.{ℕ, Bytes, Bool, true, false, Option, none, some, List, [], ◌∷◌, ◌%◌, ◌^◌}
use rtsp_server.Base.Maps.{bytes_eq, lookup}
use rtsp_server.Base.Text.{text}
use rtsp_server.Media.{MediaChannelId, TransportMode}

pub data Method : Type 0 where
  options describe setup play teardown get_parameter rtcp unknown : Method

pub data ParseState : Type 0 where
  parse_request_line parse_headers_line got_all : ParseState

-- A map from names to a text and a number.
abbrev pub Params : Type 0
Params = List (Bytes × (Bytes × ℕ))

pub record RtspRequest : Type 0 where
  pub method : Method
  pub channel_id : MediaChannelId
  pub transport : TransportMode
  pub request_line_param : Params
  pub header_line_param : Params
  pub state : ParseState

-- A new request; the method, the channel and the transport are not initialised.
unfoldable pub init : RtspRequest → RtspRequest
init memory = record memory {
  request_line_param = [];
  header_line_param = [];
  state = ParseState.parse_request_line;
}

unfoldable pub is_got_all : ParseState → Bool
is_got_all ParseState.got_all = true
is_got_all ParseState.parse_request_line = false
is_got_all ParseState.parse_headers_line = false

-- `gotAll`
unfoldable pub has_all : RtspRequest → Bool
unfolding is_got_all
has_all r = is_got_all r.state

unfoldable pub reset : RtspRequest → RtspRequest
reset r = record r {
  state = ParseState.parse_request_line;
  request_line_param = [];
  header_line_param = [];
}

-- The text and the number under a name, empty and 0 if there is none.
unfoldable pub text_of : Bytes → Params → Bytes
text_of name m = elim (lookup name m) [ none ↦ [] | some p ↦ p.0 ]

unfoldable pub number_of : Bytes → Params → ℕ
number_of name m = elim (lookup name m) [ none ↦ 0 | some p ↦ p.1 ]

unfoldable pub get_cseq : RtspRequest → ℕ
unfolding number_of
get_cseq r = number_of (text "cseq") r.header_line_param

unfoldable pub get_rtsp_url : RtspRequest → Bytes
unfolding text_of
get_rtsp_url r = text_of (text "url") r.request_line_param

unfoldable pub get_rtsp_url_suffix : RtspRequest → Bytes
unfolding text_of
get_rtsp_url_suffix r = text_of (text "url_suffix") r.request_line_param

unfoldable pub get_ip : RtspRequest → Bytes
unfolding text_of
get_ip r = text_of (text "url_ip") r.request_line_param

unfoldable pub get_rtp_channel : RtspRequest → ℕ
unfolding number_of
get_rtp_channel r = number_of (text "rtp_channel") r.header_line_param % 2 ^ 8

unfoldable pub get_rtcp_channel : RtspRequest → ℕ
unfolding number_of
get_rtcp_channel r = number_of (text "rtcp_channel") r.header_line_param % 2 ^ 8

unfoldable pub get_rtp_port : RtspRequest → ℕ
unfolding number_of
get_rtp_port r = number_of (text "rtp_port") r.header_line_param % 2 ^ 16

unfoldable pub get_rtcp_port : RtspRequest → ℕ
unfolding number_of
get_rtcp_port r = number_of (text "rtcp_port") r.header_line_param % 2 ^ 16
