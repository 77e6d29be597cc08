-- ===== src/RtspRequest/Parse/Transports.antt =====
-- src/media/rtsp_message.cc: what parseTransport, parseAccept and parseSessionId read from the headers
-- of a client.
use rtsp_server.Base.{
  ℕ, Bytes, true, false, ap, none, some, ◌∷◌, ◌++◌, ◌^◌, ◌<◌, ◌≡◌, refl, ◌∙◌, arith,
}
use rtsp_server.Base.Text.{text, c_str, begins, seek, is_some, is_digit, decimal}
use rtsp_server.Base.Text.Scans.{seek-decimal}
use rtsp_server.Media.{rtp_over_tcp, rtp_over_udp, rtp_over_multicast}
use rtsp_server.RtspRequest.{RtspRequest}
use rtsp_server.RtspRequest.Parse.Headers.{
  keep_pair, parse_transport, parse_tcp, parse_unicast, parse_multicast, parse_accept,
  parse_session_id,
}
use rtsp_server.RtspRequest.Parse.Fields.{with_cseq, c_str-decimal, scan_pair-lem, scan_field-lem}

-- Two numbers and what stands behind them.
abbrev pub pair : ℕ → ℕ → Bytes → Bytes
pair a b rest = decimal a ++ (b'-' ∷ (decimal b ++ (b'\r' ∷ rest)))

c_str-pair : (a b : ℕ) (rest : Bytes) → c_str (pair a b rest) ≡ pair a b (c_str rest)
unfolding c_str
c_str-pair a b rest =
    rw (c_str-decimal a (b'-' ∷ (decimal b ++ (b'\r' ∷ rest))), c_str-decimal b (b'\r' ∷ rest)) refl

-- The places of what parseTransport looks for.
header_there :
    (n : ℕ) (rest : Bytes)
    → seek (text "Transport") (with_cseq n (text "Transport" ++ rest))
      ≡ some (text "Transport" ++ rest)
unfolding seek begins is_digit
header_there n rest = seek-decimal b'T' (text "ransport") n (text "\r\nTransport" ++ rest) refl

tcp_there :
    (n : ℕ) (rest : Bytes)
    → seek (text "RTP/AVP/TCP") (with_cseq n (text "Transport: RTP/AVP/TCP" ++ rest))
      ≡ some (text "RTP/AVP/TCP" ++ rest)
unfolding seek begins is_digit
tcp_there n rest =
    seek-decimal b'R' (text "TP/AVP/TCP") n (text "\r\nTransport: RTP/AVP/TCP" ++ rest) refl

avp_there :
    (n : ℕ) (rest : Bytes)
    → seek (text "RTP/AVP") (with_cseq n (text "Transport: RTP/AVP" ++ rest))
      ≡ some (text "RTP/AVP" ++ rest)
unfolding seek begins is_digit
avp_there n rest = seek-decimal b'R' (text "TP/AVP") n (text "\r\nTransport: RTP/AVP" ++ rest) refl

tcp_absent :
    (n a b : ℕ) (rest : Bytes)
    → seek (text "RTP/AVP/TCP") rest ≡ none
    → seek
        (text "RTP/AVP/TCP")
        (with_cseq n (text "Transport: RTP/AVP;unicast;client_port=" ++ pair a b rest))
      ≡ none
unfolding seek begins is_digit
tcp_absent n a b rest absent =
    let last = decimal b ++ (b'\r' ∷ rest) in
    seek-decimal b'R' (text "TP/AVP/TCP") n
      (text "\r\nTransport: RTP/AVP;unicast;client_port=" ++ pair a b rest) refl
    ∙ seek-decimal b'R' (text "TP/AVP/TCP") a (b'-' ∷ last) refl
    ∙ seek-decimal b'R' (text "TP/AVP/TCP") b (b'\r' ∷ rest) refl
    ∙ absent

unicast_there :
    (rest : Bytes)
    → is_some (seek (text "unicast") (text "RTP/AVP;unicast;client_port=" ++ rest)) ≡ true
unfolding seek begins is_some
unicast_there rest = refl

-- A client asks for RTP over TCP, over UDP and over multicast.
abbrev pub tcp_header : ℕ → ℕ → Bytes → Bytes
tcp_header a b rest = text "Transport: RTP/AVP/TCP;unicast;interleaved=" ++ pair a b rest

abbrev pub udp_header : ℕ → ℕ → Bytes → Bytes
udp_header a b rest = text "Transport: RTP/AVP;unicast;client_port=" ++ pair a b rest

abbrev pub multicast_header : Bytes → Bytes
multicast_header rest = text "Transport: RTP/AVP;multicast\r" ++ rest

module _ (n a b : ℕ) (rest : Bytes) (small_a : a < 2 ^ 16) (small_b : b < 2 ^ 16)
    (r : RtspRequest) where
  parse_tcp_lem : parse_tcp (text "RTP/AVP/TCP;unicast;interleaved=" ++ pair a b rest) r ≡ (
    keep_pair
        (text "rtp_channel")
        (text "rtcp_channel")
        (a, b)
        (record r { transport = rtp_over_tcp }),
    true,
  )
  unfolding parse_tcp c_str
  parse_tcp_lem =
      rw
        (
          c_str-pair a b rest,
          scan_pair-lem (text "RTP/AVP/TCP") (text "unicast") (text "interleaved") a b (c_str rest)
              (ground arith) (omega arith) (ground arith) (omega arith) (ground arith) (omega arith)
              small_a small_b,
          parse_tcp,
        )
        refl

  parse_unicast_lem : parse_unicast (text "RTP/AVP;unicast;client_port=" ++ pair a b rest) r ≡ (
    keep_pair (text "rtp_port") (text "rtcp_port") (a, b) (record r { transport = rtp_over_udp }),
    true,
  )
  unfolding parse_unicast c_str
  parse_unicast_lem =
      rw
        (
          c_str-pair a b rest,
          scan_pair-lem (text "RTP/AVP") (text "unicast") (text "client_port") a b (c_str rest)
              (ground arith) (omega arith) (ground arith) (omega arith) (ground arith) (omega arith)
              small_a small_b,
          parse_unicast,
        )
        refl

  pub transport_tcp_lem : parse_transport (with_cseq n (tcp_header a b rest)) r ≡ (
    keep_pair
        (text "rtp_channel")
        (text "rtcp_channel")
        (a, b)
        (record r { transport = rtp_over_tcp }),
    true,
  )
  unfolding parse_transport
  transport_tcp_lem =
      let words = text ";unicast;interleaved=" ++ pair a b rest in
      rw
        (
          header_there n (text ": RTP/AVP/TCP" ++ words),
          tcp_there n words,
          parse_tcp_lem,
          parse_transport,
        )
        refl

  pub transport_udp_lem :
      seek (text "RTP/AVP/TCP") rest ≡ none
      → parse_transport (with_cseq n (udp_header a b rest)) r ≡ (
        keep_pair
            (text "rtp_port")
            (text "rtcp_port")
            (a, b)
            (record r { transport = rtp_over_udp }),
        true,
      )
  unfolding parse_transport
  transport_udp_lem no_tcp =
      let words = text ";unicast;client_port=" ++ pair a b rest in
      rw
        (
          header_there n (text ": RTP/AVP" ++ words),
          tcp_absent n a b rest no_tcp,
          avp_there n words,
          unicast_there (pair a b rest),
          parse_unicast_lem,
          parse_transport,
        )
        refl

module _ (n : ℕ) (rest : Bytes) where
  -- The words behind the transport.
  multicast_words :
      seek (text "unicast") rest ≡ none
      → (is_some (seek (text "unicast") (text "RTP/AVP;multicast\r" ++ rest)) ≡ false)
        × (is_some (seek (text "multicast") (text "RTP/AVP;multicast\r" ++ rest)) ≡ true)
  unfolding seek begins is_some
  multicast_words no_unicast = (ap is_some no_unicast, refl)

  multicast_no_tcp :
      seek (text "RTP/AVP/TCP") rest ≡ none
      → seek (text "RTP/AVP/TCP") (with_cseq n (multicast_header rest)) ≡ none
  unfolding seek begins is_digit
  multicast_no_tcp no_tcp =
      seek-decimal b'R' (text "TP/AVP/TCP") n (text "\r\nTransport: RTP/AVP;multicast\r" ++ rest)
        refl
      ∙ no_tcp

  pub transport_multicast_lem :
      (r : RtspRequest)
      → seek (text "RTP/AVP/TCP") rest ≡ none
      → seek (text "unicast") rest ≡ none
      → parse_transport (with_cseq n (multicast_header rest)) r ≡ (
        keep_pair
            (text "rtp_port")
            (text "rtcp_port")
            (0, 0)
            (record r { transport = rtp_over_multicast }),
        true,
      )
  unfolding parse_transport parse_multicast
  transport_multicast_lem r no_tcp no_unicast =
      let (other, there) = multicast_words no_unicast in
      let words = text ";multicast\r" ++ rest in
      rw
        (
          header_there n (text ": RTP/AVP" ++ words),
          multicast_no_tcp no_tcp,
          avp_there n words,
          other,
          there,
          parse_transport,
        )
        refl

  pub accept_lem : parse_accept (with_cseq n (text "Accept: application/sdp\r\n" ++ rest)) ≡ true
  unfolding parse_accept seek begins is_some is_digit
  accept_lem =
      let found = text "\r\nAccept: application/sdp\r\n" ++ rest in
      rw (seek-decimal b'A' (text "ccept") n found refl, seek-decimal b's' (text "dp") n found refl)
        refl

  session_there :
      (id : ℕ)
      → seek (text "Session") (with_cseq n (text "Session: " ++ (decimal id ++ (b'\r' ∷ rest))))
        ≡ some (text "Session: " ++ (decimal id ++ (b'\r' ∷ rest)))
  unfolding seek begins is_digit
  session_there id =
      seek-decimal b'S' (text "ession") n (text "\r\nSession: " ++ (decimal id ++ (b'\r' ∷ rest)))
        refl

  pub session_id_lem :
      (id : ℕ)
      → id < 2 ^ 32
      → parse_session_id (with_cseq n (text "Session: " ++ (decimal id ++ (b'\r' ∷ rest)))) ≡ true
  unfolding parse_session_id is_some c_str
  session_id_lem id small =
      rw
        (
          session_there id,
          c_str-decimal id (b'\r' ∷ rest),
          scan_field-lem (text "Session") id (c_str rest) (ground arith) (omega arith) small,
          parse_session_id,
        )
        refl
