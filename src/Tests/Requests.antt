-- ===== src/Tests/Requests.antt =====
-- src/media/rtsp_message.cc and rtsp_connection.cc on the messages of a client.
use rtsp_server.Base.{
  ℕ, Bytes, true, none, some, List, [], ◌∷◌, ◌++◌, ◌≡◌, ◌⊎◌, ◌-◌, ◌^◌, refl, arith,
}
use rtsp_server.Base.Maps.{bytes_eq, lookup, equal}
use rtsp_server.Base.Text.{text, is_space, decimal}
use rtsp_server.Base.Text.Scans.{IsWord}
use rtsp_server.Media.{channel_0, rtp_over_tcp}
use rtsp_server.RtspServer.{RtspServer}
use rtsp_server.RtspServer.Sessions
use rtsp_server.RtspRequest.{RtspRequest, Method, ParseState, get_cseq}
use rtsp_server.RtspRequest.Answers.Numbers.{read_cseq, IsStatus}
use rtsp_server.RtspRequest.Answers.Echo.{Answer, build, read_cseq-build, read_cseq-signed}
use rtsp_server.RtspRequest.Parse.Line.{parse_line, method_of, is_unknown}
use rtsp_server.RtspRequest.Parse.RoundTrip.{print_url, print_line, IsUrl}
use rtsp_server.RtspRequest.Parse.Lines.{
  IsRequestLine, HasLine, parse_line-print_line, parse_line-overrun,
}
use rtsp_server.RtspResponse.{RtspResponse, Method as OtherMethod}
use rtsp_server.MediaSession.Sdp.{h264_source}
use rtsp_server.RtspConnection.{RtspConnection, init, Outside, Effect}
use rtsp_server.RtspConnection.Messages.{dispatch}
use rtsp_server.RtspConnection.Answered.{replies, needs_rtp, is_play}
use rtsp_server.RtspConnection.Lifecycle.{here, Reach-served}
use rtsp_server.Tests.Connections.{streaming, both, peer, client, attempt}

abbrev pub request : RtspRequest
request = record {
  method = Method.unknown;
  channel_id = channel_0;
  transport = rtp_over_tcp;
  request_line_param = [];
  header_line_param = (text "cseq", ([], 7)) ∷ [];
  state = ParseState.parse_request_line;
}

abbrev late : RtspRequest
late = record request { header_line_param = (text "cseq", ([], 4294967295)) ∷ [] }

cseq-request : get_cseq request ≡ 7
unfolding get_cseq lookup equal
cseq-request = refl

cseq-late : get_cseq late ≡ 4294967295
unfolding get_cseq lookup equal
cseq-late = refl

abbrev playing : Answer
playing = Answer.play none 3

read_cseq-build_example : read_cseq (build playing 1024 request) ≡ some (get_cseq request)
read_cseq-build_example =
    read_cseq-build playing 1024 request (omega arith) (omega (arith, cseq-request))

read_cseq-signed_example :
    (status rest : Bytes) × IsStatus status
    × (build playing 1024 late
        ≡ status
          ++ (text "\r\nCSeq: -" ++ (decimal (2 ^ 32 - get_cseq late) ++ (text "\r\n" ++ rest))))
    × (read_cseq (build playing 1024 late) ≡ none)
read_cseq-signed_example =
    read_cseq-signed playing 1024 late (omega arith) refl (omega (arith, cseq-late))
      (omega (arith, cseq-late))

abbrev setup : Bytes
setup = text "SETUP"

abbrev version : Bytes
version = text "RTSP/1.0"

abbrev pub host : Bytes
host = text "192.168.1.10"

abbrev pub live : Bytes
live = text "live"

setup-IsRequestLine : IsRequestLine setup version
unfolding is_space method_of is_unknown equal
setup-IsRequestLine = record {
  method_word = record { unblank = ground arith; nonzero = ground arith; filled = omega arith };
  known = refl;
  method_short = omega arith;
  version_word = record { unblank = ground arith; nonzero = ground arith; filled = omega arith };
  version_short = omega arith;
}

pub live-IsUrl : IsUrl host 8554 live
unfolding is_space
live-IsUrl = record {
  ip_word = record { unblank = ground arith; nonzero = ground arith; filled = omega arith };
  ip_plain = ground arith;
  ip_short = omega arith;
  port_small = omega arith;
  suffix_word = record { unblank = ground arith; nonzero = ground arith; filled = omega arith };
  suffix_short = omega arith;
}

parse_line-print_line_example :
    (r : RtspRequest) × (parse_line (print_line setup (print_url host 8554 live) version) request
      ≡ some (r, true))
    × HasLine setup host (print_url host 8554 live) live r
parse_line-print_line_example =
    parse_line-print_line setup host live version 8554 request setup-IsRequestLine live-IsUrl refl

abbrev host_live : Bytes
host_live = text "192.168.1.10/live"

host_live-IsWord : IsWord host_live
unfolding is_space
host_live-IsWord = record { unblank = ground arith; nonzero = ground arith; filled = omega arith }

parse_line-overrun_example :
    parse_line (print_line setup (text "rtsp://" ++ host_live) version) request ≡ none
parse_line-overrun_example =
    parse_line-overrun setup version host_live request setup-IsRequestLine host_live-IsWord
      (ground arith) (omega arith) (omega arith)

abbrev pub response : RtspResponse
response = record {
  method = OtherMethod.unknown;
  cseq = 0;
  user_agent = [];
  rtsp_url = [];
  session = [];
}

abbrev pub outside : Outside
outside = record {
  address = 4096;
  memory = streaming;
  seeds = both;
  version = [];
  local_ip = host;
  time = 1;
  sources = λ source. h264_source;
  peer = peer;
  attempt = attempt;
}

-- A server with one session, of suffix "l".
abbrev pub serving : Sessions.State ℕ
serving = Sessions.open_session (108 ∷ []) Sessions.started

pub serving-Reach : Sessions.Reach Sessions.started serving
unfolding Sessions.IsOrderly
serving-Reach = Sessions.next Sessions.here (Sessions.opens _ (108 ∷ [])) (omega arith)

abbrev pub fresh : RtspConnection
fresh = init client request response

-- A PLAY before any DESCRIBE.
Reach-served_example :
    ((needs_rtp Method.play ≡ true)
      × (fresh.rtp_conn ≡ none)
      × (dispatch Method.play outside serving.server fresh ≡ none))
    ⊎ ((srv : RtspServer ℕ) × (c : RtspConnection) × (effects : List Effect) × (dispatch Method.play
            outside serving.server fresh
          ≡ some (srv, c, effects))
        × ((a : Answer) × (replies effects ≡ build a 1024 fresh.request ∷ [])))
Reach-served_example =
    Reach-served client request response fresh Method.play outside serving here is_play
      serving-Reach
