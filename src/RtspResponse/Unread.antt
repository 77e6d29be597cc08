-- ===== src/RtspResponse/Unread.antt =====
-- src/media/rtsp_message.cc: RtspRequest does not read the SETUP that RtspResponse builds.
use rtsp_server.Base.{
  ℕ, Bytes, false, not, ◌++◌, ◌+◌, ◌≤◌, ◌<◌, ◌^◌, ◌≡◌, refl, ap, ◌∙◌, arith, length, length-append,
  append_assoc, Bool-cases, Option-cases, inl, inr, ◌&&◌,
}
use rtsp_server.Base.Text.{
  text, decimal, signed_decimal, seek, begins, c_str, is_digit, skip_space, is_space, span,
  scan_until, scan_char, scan_unsigned,
}
use rtsp_server.Base.Text.Decimal.{length-decimal}
use rtsp_server.RtspRequest.Answers.Echo.{length-signed}
use rtsp_server.RtspResponse.Requests.{printed-whole, number-short}
use rtsp_server.Media.{rtp_over_tcp}
use rtsp_server.RtspRequest.{RtspRequest, Method}
use rtsp_server.RtspRequest.Parse.Headers.{
  parse_transport, parse_headers, parse_cseq, parse_for, is_cseq_there,
}
use rtsp_server.RtspResponse.{RtspResponse, next_cseq, build_setup_tcp_req, interleaved_for}

-- The headers begin with the transport, and its parameters with the mode.
abbrev pub recorded : Bytes → Bytes
recorded rest = text "Transport: RTP/AVP/TCP;unicast;mode=record;" ++ rest

transport_recorded :
    (rest : Bytes) (q : RtspRequest)
    → parse_transport (recorded rest) q ≡ (record q { transport = rtp_over_tcp }, false)
unfolding parse_transport seek begins c_str scan_until scan_char scan_unsigned span skip_space
    is_space is_digit
transport_recorded rest q = refl

setup_recorded :
    (rest : Bytes) (q : RtspRequest)
    → parse_for Method.setup (recorded rest) q ≡ record q { transport = rtp_over_tcp }
unfolding parse_for
setup_recorded rest q = rw (transport_recorded rest q)

cseq_same :
    (message : Bytes) (q : RtspRequest)
    → ((parse_cseq message q).0.state ≡ q.state) × ((parse_cseq message q).0.method ≡ q.method)
unfolding parse_cseq
cseq_same message q = elim (Option-cases (seek (text "CSeq") message)) [
  | inl absent ↦ rw (absent, parse_cseq) (refl, refl)
  | inr (at, there) ↦ rw (there, parse_cseq) (refl, refl)
]

headers_recorded :
    (rest : Bytes) (q : RtspRequest)
    → q.method ≡ Method.setup
    → (parse_headers (recorded rest) q).0.state ≡ q.state
unfolding parse_headers
headers_recorded rest q is =
    let (state, method) = cseq_same (recorded rest) q in
    let q1 = (parse_cseq (recorded rest) q).0 in
    let found = (parse_cseq (recorded rest) q).1 in
    elim (Bool-cases (not found && not (is_cseq_there q1))) [
      | inl lost ↦ rw (lost, parse_headers) state
      | inr kept ↦
          rw (kept, parse_headers)
            (ap (λ m. (parse_for m (recorded rest) q1).state) (method ∙ is)
              ∙ ap (λ x. x.state) (setup_recorded rest q1)
              ∙ state)
    ]

-- The request line, without its CRLF.
abbrev pub setup_line : ℕ → RtspResponse → Bytes
setup_line track_id r =
    text "SETUP "
    ++ (r.rtsp_url ++ (text "/track" ++ (signed_decimal track_id ++ text " RTSP/1.0")))

-- The headers behind the mode, but for the last empty line.
abbrev behind_mode : ℕ → RtspResponse → Bytes
behind_mode track_id r =
    text "interleaved="
    ++ (decimal (interleaved_for track_id)
        ++ (text "-"
            ++ (decimal (interleaved_for track_id + 1)
                ++ (text "\r\nCSeq: "
                    ++ (next_cseq r
                        ++ (text "\r\nUser-Agent: "
                            ++ (r.user_agent
                                ++ (text "\r\nSession: " ++ (r.session ++ text "\r\n")))))))))

setup_text :
    (track_id : ℕ) (r : RtspResponse)
    → text "SETUP "
        ++ (r.rtsp_url
            ++ (text "/track"
                ++ (signed_decimal track_id
                    ++ (text " RTSP/1.0\r\nTransport: RTP/AVP/TCP;unicast;mode=record;interleaved="
                        ++ (decimal (interleaved_for track_id)
                            ++ (text "-"
                                ++ (decimal (interleaved_for track_id + 1)
                                    ++ (text "\r\nCSeq: "
                                        ++ (next_cseq r
                                            ++ (text "\r\nUser-Agent: "
                                                ++ (r.user_agent
                                                    ++ (text "\r\nSession: "
                                                        ++ (r.session
                                                            ++ text "\r\n\r\n")))))))))))))
      ≡ setup_line track_id r ++ (text "\r\n" ++ (recorded (behind_mode track_id r) ++ text "\r\n"))
setup_text track_id r = simp append_assoc

interleaved_small : (track_id : ℕ) → interleaved_for track_id ≤ 2
unfolding interleaved_for
interleaved_small track_id = ground arith

-- parseHeadersLine does not read the SETUP over TCP that RtspResponse builds (here in a buffer that
-- holds it whole) to its end, since the mode stands where it looks for the channels. The headers are
-- what stands between the CRLF behind the request line and the last CRLF: on them, the request stays
-- in the state that it was in, and is not answered.
pub build_setup_tcp_req-unread :
    (size track_id : ℕ) (r : RtspResponse) (q : RtspRequest)
    → track_id < 2 ^ 32
    → length r.rtsp_url + length r.user_agent + length r.session + 250 < size
    → q.method ≡ Method.setup
    → (headers : Bytes) × ((build_setup_tcp_req size track_id r).1
        ≡ setup_line track_id r ++ (text "\r\n" ++ (headers ++ text "\r\n")))
      × ((parse_headers headers q).0.state ≡ q.state)
unfolding build_setup_tcp_req
build_setup_tcp_req-unread size track_id r q small room is =
    let n = interleaved_for track_id in
    (
      recorded (behind_mode track_id r),
      printed-whole size _ (
            omega (
              arith,
              room,
              length-append {0},
              length-signed track_id small,
              length-decimal n (omega (arith, interleaved_small track_id)),
              length-decimal (n + 1) (omega (arith, interleaved_small track_id)),
              number-short r,
            ))
          ∙ setup_text track_id r,
      headers_recorded (behind_mode track_id r) q is,
    )
