-- ===== src/Tests/Conversations.antt =====
-- A client that asks for the options, describes the session, sets it up over TCP, plays it and tears it
-- down, on a buffer that is a list.
use rtsp_server.Base.{
  ℕ, Bytes, true, false, some, List, [], ◌∷◌, ◌++◌, ◌≡◌, refl, arith, map, drop, ◌^◌, ◌<◌, ◌≤◌, ◌+◌,
  length, none,
}
use rtsp_server.Base.Maps.{bytes_eq}
use rtsp_server.Base.Text.{text}
use rtsp_server.RtspServer.{RtspServer}
use rtsp_server.RtspServer.Sessions
use rtsp_server.RtspRequest.{RtspRequest, Method}
use rtsp_server.RtspRequest.Answers.Numbers.{read_cseq}
use rtsp_server.RtspRequest.Parse.{Buffer, parse_request}
use rtsp_server.RtspRequest.Parse.RoundTrip.{print_url}
use rtsp_server.RtspRequest.Parse.Buffering.{IsBuffer, first_crlf, last_crlf}
use rtsp_server.RtspRequest.Parse.Asks.{Ask, IsAsk, print_request}
use rtsp_server.RtspRequest.Parse.Requests.{HasAsked, parse_request-print_request}
use rtsp_server.RtspConnection.{RtspConnection, Outside, Effect, init}
use rtsp_server.RtspConnection.Messages.{dispatch, handle_rtsp_message}
use rtsp_server.RtspConnection.Rtcp.{heard, handle_rtsp_message-rtcp}
use rtsp_server.RtspConnection.Handlers.{handle_cmd_describe}
use rtsp_server.RtspConnection.Answered.{replies, needs_rtp}
use rtsp_server.RtspConnection.ServerSteps.{with_server, dispatch-Reach}
use rtsp_server.RtspConnection.Serving.{IsReady}
use rtsp_server.RtspConnection.Conversations.{
  Message, IsMessage, IsOrdered, converse, converse-numbers,
}
use rtsp_server.Tests.Requests.{
  request, host, live, live-IsUrl, outside, serving, serving-Reach, fresh,
}

abbrev pub list_buffer : Buffer Bytes
list_buffer = record {
  readable = λ b. b;
  find_crlf = first_crlf;
  find_last_crlf = last_crlf;
  retrieve = drop;
  retrieve_all = λ b. [];
}

pub list_buffer-IsBuffer : IsBuffer list_buffer
list_buffer-IsBuffer = record {
  finds_first = λ b. refl;
  finds_last = λ b. refl;
  retrieves = λ n b h. refl;
  retrieves_all = λ b. refl;
}

-- A connection whose request was reset.
abbrev pub waiting : RtspConnection
waiting = record fresh { request = record request { header_line_param = [] } }

waiting-IsReady : IsReady waiting
unfolding init
waiting-IsReady = record {
  serves = refl;
  no_line = refl;
  no_headers = refl;
  at_line = refl;
  linked = λ e. refl;
}

abbrev message : Ask → ℕ → Message
message ask cseq = record {
  ask = ask;
  cseq = cseq;
  ip = host;
  port = 8554;
  suffix = live;
  rest = text "User-Agent: a\r\n";
}

abbrev session : List (Outside × Message)
session =
    (outside, message Ask.options 1)
    ∷ (outside, message Ask.describe 2)
    ∷ (outside, message (Ask.setup_tcp 0 1) 3)
    ∷ (outside, message (Ask.play 4096) 4)
    ∷ (outside, message Ask.teardown 5)
    ∷ []

parse_request-print_request_example :
    (buf' : Bytes) × (r' : RtspRequest) × (parse_request list_buffer
        (print_request (Ask.setup_tcp 0 1) 3 host 8554 live [])
        waiting.request
      ≡ some (buf', r', true))
    × (buf' ≡ [])
    × HasAsked (Ask.setup_tcp 0 1) 3 host (print_url host 8554 live) live r'
parse_request-print_request_example =
    parse_request-print_request list_buffer (print_request (Ask.setup_tcp 0 1) 3 host 8554 live [])
      (Ask.setup_tcp 0 1) 3 host 8554 live [] waiting.request list_buffer-IsBuffer refl live-IsUrl
      (omega arith) (omega arith) refl refl refl

is_fitting :
    (ask : Ask) (cseq : ℕ)
    → IsAsk ask (text "User-Agent: a\r\n")
    → cseq < 2 ^ 31
    → IsMessage (message ask cseq)
is_fitting ask cseq fits small = record { url = live-IsUrl; fits = fits; small = small }

session-IsOrdered : IsOrdered false session
unfolding needs_rtp
session-IsOrdered = (
  is_fitting Ask.options 1 tt (omega arith),
  (λ e. cc),
  (
    is_fitting Ask.describe 2 tt (omega arith),
    (λ e. cc),
    (
      is_fitting (Ask.setup_tcp 0 1) 3 (omega arith) (omega arith),
      (λ e. refl),
      (
        is_fitting (Ask.play 4096) 4 (omega arith) (omega arith),
        (λ e. refl),
        (is_fitting Ask.teardown 5 tt (omega arith), (λ e. refl), tt),
      ),
    ),
  ),
)

converse-numbers_example :
    (buf' : Bytes) × (srv' : RtspServer ℕ) × (c' : RtspConnection) × (effects : List Effect)
    × (converse list_buffer (λ s b. b ++ s) (λ b. b) session [] serving.server waiting
        ≡ some (buf', srv', c', effects))
    × (buf' ≡ [])
    × IsReady c'
    × (map read_cseq (replies effects) ≡ some 1 ∷ some 2 ∷ some 3 ∷ some 4 ∷ some 5 ∷ [])
converse-numbers_example =
    converse-numbers list_buffer (λ s b. b ++ s) (λ b. b) session false [] serving waiting
      list_buffer-IsBuffer (λ s b. refl) session-IsOrdered refl waiting-IsReady serving-Reach
      (λ e. cc)

-- The client describes the session.
dispatch-Reach_example :
    Sessions.Reach Sessions.started
      (with_server serving (handle_cmd_describe outside serving.server waiting).0)
unfolding dispatch
dispatch-Reach_example =
    dispatch-Reach Method.describe outside serving
      (handle_cmd_describe outside serving.server waiting).0 waiting
      (handle_cmd_describe outside serving.server waiting).1
      (handle_cmd_describe outside serving.server waiting).2 serving-Reach refl

abbrev report : Bytes
report = 7 ∷ 8 ∷ []

-- An RTCP packet of two bytes on channel 1.
abbrev packet : Bytes
packet = 36 ∷ 1 ∷ 0 ∷ 2 ∷ report

handle_rtsp_message-rtcp_example :
    let handled = handle_rtsp_message list_buffer outside (λ b. b) packet serving.server waiting in
    (length report ≡ 2
      → (buf' : Bytes) × (handled ≡ some (buf', serving.server, heard waiting, [])) × (buf' ≡ []))
    × (2 < length report
        → length report + 4 ≤ 2048
        → handled ≡ some (packet, serving.server, heard waiting, []))
    × (2 < length report
        → 2048 < length report + 4
        → (buf' : Bytes) × (handled ≡ some (buf', serving.server, heard waiting, [])) × (buf' ≡ []))
    × (length report < 2 → handled ≡ none)
handle_rtsp_message-rtcp_example =
    handle_rtsp_message-rtcp list_buffer list_buffer-IsBuffer packet 1 2 report refl (omega arith)
      (omega arith) outside (λ b. b) serving.server waiting waiting-IsReady.serves
