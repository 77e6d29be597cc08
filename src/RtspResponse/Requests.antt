-- ===== src/RtspResponse/Requests.antt =====
-- src/media/rtsp_message.cc: RtspRequest reads the requests that RtspResponse builds.
use rtsp_server.Base.{
  ℕ, Bytes, true, some, [], ◌++◌, ◌+◌, ◌-◌, ◌%◌, ◌^◌, ◌≤◌, ◌<◌, ◌≡◌, ap, sym, ◌∙◌, arith, length,
  length-append, take-of_le, append_assoc,
}
use rtsp_server.Base.Text.{text, printed, decimal}
use rtsp_server.Base.Text.Decimal.{length-decimal}
use rtsp_server.RtspRequest.{RtspRequest, ParseState}
use rtsp_server.RtspRequest.Parse.{Buffer, parse_request}
use rtsp_server.RtspRequest.Parse.RoundTrip.{print_url, IsUrl}
use rtsp_server.RtspRequest.Parse.Buffering.{IsBuffer}
use rtsp_server.RtspRequest.Parse.Asks.{Ask, IsAsk, print_request, print_request_lem}
use rtsp_server.RtspRequest.Parse.Requests.{HasAsked, parse_request-print_request}
use rtsp_server.RtspResponse.{RtspResponse, next_cseq, build_option_req, build_describe_req}

pub printed-whole : (size : ℕ) (s : Bytes) → length s < size → printed size s ≡ s
unfolding printed
printed-whole size s h = take-of_le (size - 1) s (omega arith)

-- The header of the program.
abbrev pub agent : RtspResponse → Bytes
agent r = text "User-Agent: " ++ (r.user_agent ++ text "\r\n")

-- What a request ends with.
ending :
    (r : RtspResponse)
    → text "User-Agent: " ++ (r.user_agent ++ text "\r\n\r\n") ≡ agent r ++ text "\r\n"
ending r =
    ap (λ s. text "User-Agent: " ++ s) (sym (append_assoc r.user_agent (text "\r\n") (text "\r\n")))

module _ (r : RtspResponse) (ip : Bytes) (port : ℕ) (suffix : Bytes)
    (url : r.rtsp_url ≡ print_url ip port suffix) where
  abbrev number : ℕ
  number = (r.cseq + 1) % 2 ^ 32

  option-print_request :
      text "OPTIONS "
        ++ (r.rtsp_url
            ++ (text " RTSP/1.0\r\nCSeq: "
                ++ (next_cseq r ++ (text "\r\nUser-Agent: " ++ (r.user_agent ++ text "\r\n\r\n")))))
      ≡ print_request Ask.options number ip port suffix (agent r)
  unfolding next_cseq
  option-print_request =
      ap
        (λ u.
          text "OPTIONS "
          ++ (u
              ++ (text " RTSP/1.0\r\nCSeq: "
                  ++ (decimal number
                      ++ (text "\r\nUser-Agent: " ++ (r.user_agent ++ text "\r\n\r\n"))))))
        url
      ∙ ap
          (λ s.
            text "OPTIONS "
            ++ (print_url ip port suffix
                ++ (text " RTSP/1.0\r\nCSeq: " ++ (decimal number ++ (text "\r\n" ++ s)))))
          (ending r)
      ∙ sym (print_request_lem Ask.options number ip port suffix (agent r))

  describe-print_request :
      text "DESCRIBE "
        ++ (r.rtsp_url
            ++ (text " RTSP/1.0\r\nCSeq: "
                ++ (next_cseq r
                    ++ (text "\r\nAccept: application/sdp\r\nUser-Agent: "
                        ++ (r.user_agent ++ text "\r\n\r\n")))))
      ≡ print_request Ask.describe number ip port suffix (agent r)
  unfolding next_cseq
  describe-print_request =
      ap
        (λ u.
          text "DESCRIBE "
          ++ (u
              ++ (text " RTSP/1.0\r\nCSeq: "
                  ++ (decimal number
                      ++ (text "\r\nAccept: application/sdp\r\nUser-Agent: "
                          ++ (r.user_agent ++ text "\r\n\r\n"))))))
        url
      ∙ ap
          (λ s.
            text "DESCRIBE "
            ++ (print_url ip port suffix
                ++ (text " RTSP/1.0\r\nCSeq: "
                    ++ (decimal number ++ (text "\r\nAccept: application/sdp\r\n" ++ s)))))
          (ending r)
      ∙ sym (print_request_lem Ask.describe number ip port suffix (agent r))

-- The requests of a client that the server reads.
pub data IsRead : Ask → Type 0 where
  reads_options : IsRead Ask.options
  reads_describe : IsRead Ask.describe

-- The call that builds the request.
unfoldable pub build_req : Ask → ℕ → RtspResponse → Bytes
build_req Ask.describe size r = (build_describe_req size r).1
build_req _ size r = (build_option_req size r).1

pub number-short : (r : RtspResponse) → length (next_cseq r) ≤ 10
unfolding next_cseq
number-short r = length-decimal ((r.cseq + 1) % 2 ^ 32) (omega arith)

build_req-print_request :
    (ask : Ask) (size : ℕ) (r : RtspResponse) (ip : Bytes) (port : ℕ) (suffix : Bytes)
    → IsRead ask
    → r.rtsp_url ≡ print_url ip port suffix
    → length r.rtsp_url + length r.user_agent + 100 < size
    → build_req ask size r ≡ print_request ask ((r.cseq + 1) % 2 ^ 32) ip port suffix (agent r)
unfolding build_req build_option_req build_describe_req
build_req-print_request Ask.options size r ip port suffix reads_options url room =
    let last = text "\r\nUser-Agent: " ++ (r.user_agent ++ text "\r\n\r\n") in
    printed-whole size _ (
      omega (
        arith,
        room,
        number-short r,
        length-append r.rtsp_url (text " RTSP/1.0\r\nCSeq: " ++ (next_cseq r ++ last)),
        length-append (next_cseq r) last,
        length-append r.user_agent (text "\r\n\r\n"),
      ))
    ∙ option-print_request r ip port suffix url
build_req-print_request Ask.describe size r ip port suffix reads_describe url room =
    let last =
      text "\r\nAccept: application/sdp\r\nUser-Agent: " ++ (r.user_agent ++ text "\r\n\r\n") in
    printed-whole size _ (
      omega (
        arith,
        room,
        number-short r,
        length-append r.rtsp_url (text " RTSP/1.0\r\nCSeq: " ++ (next_cseq r ++ last)),
        length-append (next_cseq r) last,
        length-append r.user_agent (text "\r\n\r\n"),
      ))
    ∙ describe-print_request r ip port suffix url
build_req-print_request Ask.teardown size r ip port suffix read url room = elim read [ ]
build_req-print_request Ask.get_parameter size r ip port suffix read url room = elim read [ ]
build_req-print_request (Ask.setup_tcp a b) size r ip port suffix read url room = elim read [ ]
build_req-print_request (Ask.setup_udp a b) size r ip port suffix read url room = elim read [ ]
build_req-print_request Ask.setup_multicast size r ip port suffix read url room = elim read [ ]
build_req-print_request (Ask.play id) size r ip port suffix read url room = elim read [ ]

read-IsAsk : (ask : Ask) (rest : Bytes) → IsRead ask → IsAsk ask rest
read-IsAsk Ask.options rest reads_options = tt
read-IsAsk Ask.describe rest reads_describe = tt
read-IsAsk Ask.teardown rest read = elim read [ ]
read-IsAsk Ask.get_parameter rest read = elim read [ ]
read-IsAsk (Ask.setup_tcp a b) rest read = elim read [ ]
read-IsAsk (Ask.setup_udp a b) rest read = elim read [ ]
read-IsAsk Ask.setup_multicast rest read = elim read [ ]
read-IsAsk (Ask.play id) rest read = elim read [ ]

-- RtspRequest reads the OPTIONS and the DESCRIBE that RtspResponse builds, if the buffer holds them
-- whole: with the method, the next number, and the parts of the URL that was set.
pub build_req-parse_request {ℓ} :
    {B : Type ℓ} (ops : Buffer B) (buf : B) (ask : Ask) (size : ℕ) (r : RtspResponse) (ip : Bytes)
    (port : ℕ) (suffix : Bytes) (q : RtspRequest)
    → IsBuffer ops
    → IsRead ask
    → ops.readable buf ≡ build_req ask size r
    → r.rtsp_url ≡ print_url ip port suffix
    → length r.rtsp_url + length r.user_agent + 100 < size
    → IsUrl ip port suffix
    → q.request_line_param ≡ []
    → q.header_line_param ≡ []
    → q.state ≡ ParseState.parse_request_line
    → (buf' : B) × (q' : RtspRequest) × (parse_request ops buf q ≡ some (buf', q', true))
      × (ops.readable buf' ≡ [])
      × HasAsked ask ((r.cseq + 1) % 2 ^ 32) ip (print_url ip port suffix) suffix q'
build_req-parse_request ops buf ask size r ip port suffix q laws read holds url room is no_line
      no_headers begin =
    parse_request-print_request ops buf ask ((r.cseq + 1) % 2 ^ 32) ip port suffix (agent r) q laws
      (holds ∙ build_req-print_request ask size r ip port suffix read url room) is
      (read-IsAsk ask (agent r) read) (omega arith) no_line no_headers begin
