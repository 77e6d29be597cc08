-- ===== src/Tests/Pushers.antt =====
-- src/media/rtsp_message.cc: the requests of a pusher, as RtspRequest reads them.
use rtsp_server.Base.{Bytes, some, [], ◌++◌, ◌≡◌, ◌+◌, ◌%◌, ◌^◌, refl, arith, true}
use rtsp_server.Base.Text.{text}
use rtsp_server.RtspRequest.{RtspRequest, Method}
use rtsp_server.RtspRequest.Parse.{parse_request}
use rtsp_server.RtspRequest.Parse.RoundTrip.{print_url, url-short}
use rtsp_server.RtspRequest.Parse.Headers.{parse_headers}
use rtsp_server.RtspRequest.Parse.Asks.{Ask}
use rtsp_server.RtspRequest.Parse.Requests.{HasAsked}
use rtsp_server.RtspResponse.{RtspResponse, build_setup_tcp_req}
use rtsp_server.RtspResponse.Requests.{build_req, reads_describe, build_req-parse_request}
use rtsp_server.RtspResponse.Unread.{build_setup_tcp_req-unread, setup_line}
use rtsp_server.Tests.Requests.{host, live, live-IsUrl, response}
use rtsp_server.Tests.Conversations.{list_buffer, list_buffer-IsBuffer, waiting}

abbrev pusher : RtspResponse
pusher = record response { rtsp_url = print_url host 8554 live; user_agent = text "a" }

build_req-parse_request_example :
    (buf' : Bytes) × (q' : RtspRequest) × (parse_request list_buffer
        (build_req Ask.describe 512 pusher)
        waiting.request
      ≡ some (buf', q', true))
    × (buf' ≡ [])
    × HasAsked Ask.describe ((pusher.cseq + 1) % 2 ^ 32) host (print_url host 8554 live) live q'
build_req-parse_request_example =
    build_req-parse_request list_buffer (build_req Ask.describe 512 pusher) Ask.describe 512 pusher
      host 8554 live waiting.request list_buffer-IsBuffer reads_describe refl refl
      (omega (arith, url-short host 8554 live live-IsUrl)) live-IsUrl refl refl refl

build_setup_tcp_req-unread_example :
    (headers : Bytes) × ((build_setup_tcp_req 1024 1 pusher).1
      ≡ setup_line 1 pusher ++ (text "\r\n" ++ (headers ++ text "\r\n")))
    × ((parse_headers headers (record waiting.request { method = Method.setup })).0.state
        ≡ waiting.request.state)
build_setup_tcp_req-unread_example =
    build_setup_tcp_req-unread 1024 1 pusher (record waiting.request { method = Method.setup })
      (omega arith) (omega (arith, url-short host 8554 live live-IsUrl)) refl
