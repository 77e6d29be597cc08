-- ===== src/RtspRequest/Parse/Asks.antt =====
-- src/media/rtsp_message.cc: the requests that a client makes of the server, and how it prints them.
use rtsp_server.Base.{
  ℕ, Bytes, false, none, some, ◌∷◌, ◌++◌, ◌^◌, ◌<◌, ◌≡◌, refl, ap, ◌∙◌, arith, ◌==◌, length,
  get_elem?, append_assoc,
}
use rtsp_server.Base.Maps.{bytes_eq, equal}
use rtsp_server.Base.Text.{text, seek, is_space, decimal}
use rtsp_server.Base.Text.Scans.{IsWord}
use rtsp_server.RtspRequest.{Method}
use rtsp_server.RtspRequest.Parse.Line.{method_of, is_unknown}
use rtsp_server.RtspRequest.Parse.RoundTrip.{print_line-append, print_url, print_line}
use rtsp_server.RtspRequest.Parse.Lines.{IsRequestLine}
use rtsp_server.RtspRequest.Parse.Fields.{with_cseq}
use rtsp_server.RtspRequest.Parse.Transports.{tcp_header, udp_header, multicast_header}

-- What a client may ask for: the channels of a SETUP over TCP, the ports of one over UDP, and the
-- session of a PLAY. A SETUP over multicast has neither.
pub data Ask : Type 0 where
  options describe teardown get_parameter setup_multicast : Ask
  setup_tcp : ℕ → ℕ → Ask
  setup_udp : ℕ → ℕ → Ask
  play : ℕ → Ask

abbrev pub method_for : Ask → Method
method_for Ask.options = Method.options
method_for Ask.describe = Method.describe
method_for Ask.teardown = Method.teardown
method_for Ask.get_parameter = Method.get_parameter
method_for (Ask.setup_tcp a b) = Method.setup
method_for (Ask.setup_udp a b) = Method.setup
method_for Ask.setup_multicast = Method.setup
method_for (Ask.play id) = Method.play

abbrev pub method_text : Ask → Bytes
method_text Ask.options = text "OPTIONS"
method_text Ask.describe = text "DESCRIBE"
method_text Ask.teardown = text "TEARDOWN"
method_text Ask.get_parameter = text "GET_PARAMETER"
method_text (Ask.setup_tcp a b) = text "SETUP"
method_text (Ask.setup_udp a b) = text "SETUP"
method_text Ask.setup_multicast = text "SETUP"
method_text (Ask.play id) = text "PLAY"

-- The header that the method needs, and the headers behind it.
abbrev pub print_field : Ask → Bytes → Bytes
print_field Ask.options rest = rest
print_field Ask.describe rest = text "Accept: application/sdp\r\n" ++ rest
print_field Ask.teardown rest = rest
print_field Ask.get_parameter rest = rest
print_field (Ask.setup_tcp a b) rest = tcp_header a b (b'\n' ∷ rest)
print_field (Ask.setup_udp a b) rest = udp_header a b (b'\n' ∷ rest)
print_field Ask.setup_multicast rest = multicast_header (b'\n' ∷ rest)
print_field (Ask.play id) rest = text "Session: " ++ (decimal id ++ (text "\r\n" ++ rest))

-- What fits: channels in 8 bits, ports in 16, and the identifier in 32. The other headers of a SETUP
-- over UDP do not name the TCP transport, and those of one over multicast not unicast either.
abbrev pub IsAsk : Ask → Bytes → Type 0
IsAsk (Ask.setup_tcp a b) rest = (a < 2 ^ 8) × (b < 2 ^ 8)
IsAsk (Ask.setup_udp a b) rest =
    (a < 2 ^ 16) × (b < 2 ^ 16) × (seek (text "RTP/AVP/TCP") rest ≡ none)
IsAsk Ask.setup_multicast rest =
    (seek (text "RTP/AVP/TCP") rest ≡ none) × (seek (text "unicast") rest ≡ none)
IsAsk (Ask.play id) rest = id < 2 ^ 32
IsAsk _ rest = Unit {0}

pub method_for-known : (ask : Ask) → method_of (method_text ask) ≡ method_for ask
unfolding method_of equal
method_for-known Ask.options = refl
method_for-known Ask.describe = refl
method_for-known Ask.teardown = refl
method_for-known Ask.get_parameter = refl
method_for-known (Ask.setup_tcp a b) = refl
method_for-known (Ask.setup_udp a b) = refl
method_for-known Ask.setup_multicast = refl
method_for-known (Ask.play id) = refl

known_line :
    (m : Bytes)
    → IsWord m
    → is_unknown (method_of m) ≡ false
    → length m < 32
    → IsRequestLine m (text "RTSP/1.0")
unfolding is_space
known_line m word known short = record {
  method_word = word;
  known = known;
  method_short = short;
  version_word = record { unblank = ground arith; nonzero = ground arith; filled = omega arith };
  version_short = omega arith;
}

method_text-IsWord : (ask : Ask) → IsWord (method_text ask)
unfolding is_space
method_text-IsWord Ask.options = record {
  unblank = ground arith;
  nonzero = ground arith;
  filled = omega arith;
}
method_text-IsWord Ask.describe = record {
  unblank = ground arith;
  nonzero = ground arith;
  filled = omega arith;
}
method_text-IsWord Ask.teardown = record {
  unblank = ground arith;
  nonzero = ground arith;
  filled = omega arith;
}
method_text-IsWord Ask.get_parameter = record {
  unblank = ground arith;
  nonzero = ground arith;
  filled = omega arith;
}
method_text-IsWord (Ask.setup_tcp a b) = record {
  unblank = ground arith;
  nonzero = ground arith;
  filled = omega arith;
}
method_text-IsWord (Ask.setup_udp a b) = record {
  unblank = ground arith;
  nonzero = ground arith;
  filled = omega arith;
}
method_text-IsWord Ask.setup_multicast = record {
  unblank = ground arith;
  nonzero = ground arith;
  filled = omega arith;
}
method_text-IsWord (Ask.play id) = record {
  unblank = ground arith;
  nonzero = ground arith;
  filled = omega arith;
}

method_for-unknown : (ask : Ask) → is_unknown (method_for ask) ≡ false
unfolding is_unknown
method_for-unknown Ask.options = refl
method_for-unknown Ask.describe = refl
method_for-unknown Ask.teardown = refl
method_for-unknown Ask.get_parameter = refl
method_for-unknown (Ask.setup_tcp a b) = refl
method_for-unknown (Ask.setup_udp a b) = refl
method_for-unknown Ask.setup_multicast = refl
method_for-unknown (Ask.play id) = refl

method_text-short : (ask : Ask) → length (method_text ask) < 32
method_text-short Ask.options = omega arith
method_text-short Ask.describe = omega arith
method_text-short Ask.teardown = omega arith
method_text-short Ask.get_parameter = omega arith
method_text-short (Ask.setup_tcp a b) = omega arith
method_text-short (Ask.setup_udp a b) = omega arith
method_text-short Ask.setup_multicast = omega arith
method_text-short (Ask.play id) = omega arith

pub method_text-IsRequestLine : (ask : Ask) → IsRequestLine (method_text ask) (text "RTSP/1.0")
method_text-IsRequestLine ask =
    known_line (method_text ask) (method_text-IsWord ask)
      (ap is_unknown (method_for-known ask) ∙ method_for-unknown ask) (method_text-short ask)

-- No request begins like an interleaved packet.
pub method_text-first :
    (ask : Ask) → (c : ℕ) × (get_elem? (method_text ask) 0 ≡ some c) × ((c == b'$') ≡ false)
method_text-first Ask.options = (b'O', refl, refl)
method_text-first Ask.describe = (b'D', refl, refl)
method_text-first Ask.teardown = (b'T', refl, refl)
method_text-first Ask.get_parameter = (b'G', refl, refl)
method_text-first (Ask.setup_tcp a b) = (b'S', refl, refl)
method_text-first (Ask.setup_udp a b) = (b'S', refl, refl)
method_text-first Ask.setup_multicast = (b'S', refl, refl)
method_text-first (Ask.play id) = (b'P', refl, refl)

-- A client's request, of version 1.0, with further headers behind the one that its method needs.
unfoldable pub print_request : Ask → ℕ → Bytes → ℕ → Bytes → Bytes → Bytes
print_request ask n ip port suffix rest =
    print_line (method_text ask) (print_url ip port suffix) (text "RTSP/1.0")
    ++ (text "\r\n" ++ (with_cseq n (print_field ask rest) ++ text "\r\n"))

with_cseq-append :
    (n : ℕ) (rest : Bytes)
    → with_cseq n rest ++ text "\r\n"
      ≡ text "CSeq: " ++ (decimal n ++ (text "\r\n" ++ (rest ++ text "\r\n")))
with_cseq-append n rest =
    ap (λ s. text "CSeq: " ++ s) (append_assoc (decimal n) (text "\r\n" ++ rest) (text "\r\n"))

pub print_request_lem :
    (ask : Ask) (n : ℕ) (ip : Bytes) (port : ℕ) (suffix rest : Bytes)
    → print_request ask n ip port suffix rest
      ≡ method_text ask
        ++ (b' '
            ∷ (print_url ip port suffix
                ++ (text " RTSP/1.0\r\nCSeq: "
                    ++ (decimal n ++ (text "\r\n" ++ (print_field ask rest ++ text "\r\n"))))))
unfolding print_request
print_request_lem ask n ip port suffix rest =
    let url = print_url ip port suffix in
    print_line-append (method_text ask) url (text "RTSP/1.0")
      (text "\r\n" ++ (with_cseq n (print_field ask rest) ++ text "\r\n"))
    ∙ ap (λ s. method_text ask ++ (b' ' ∷ (url ++ (text " RTSP/1.0\r\n" ++ s))))
        (with_cseq-append n (print_field ask rest))
