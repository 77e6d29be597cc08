-- ===== src/RtspRequest/Parse/Requests.antt =====
-- src/media/rtsp_message.cc: parseRequest on the whole requests of a client.
use rtsp_server.Base.{ℕ, Bytes, true, some, [], ◌∷◌, ◌%◌, ◌^◌, ◌<◌, ◌≡◌, refl, ap, ◌∙◌, arith}
use native.Mathlib.Nat.{mod-eq_of_lt}
use rtsp_server.Base.Maps.{bytes_eq, lookup, emplace, equal}
use rtsp_server.Base.Text.{text, begins, seek}
use rtsp_server.Media.{rtp_over_tcp, rtp_over_udp, rtp_over_multicast}
use rtsp_server.RtspRequest.{
  ParseState, RtspRequest, get_cseq, get_ip, get_rtsp_url, get_rtsp_url_suffix, get_rtp_channel,
  get_rtcp_channel, get_rtp_port, get_rtcp_port, text_of, number_of, Params,
}
use rtsp_server.RtspRequest.Parse.{Buffer, parse_request}
use rtsp_server.RtspRequest.Parse.RoundTrip.{
  print_url, print_line, IsUrl, url-IsWord, print_line-first, print_line-no_return,
}
use rtsp_server.RtspRequest.Parse.Lines.{line_read, line_read-HasLine, parse_line-line_read}
use rtsp_server.RtspRequest.Parse.Headers.{
  parse_headers, parse_for, keep_pair, parse_media_channel, all_got,
}
use rtsp_server.RtspRequest.Parse.Buffering.{IsBuffer, parse_request-whole}
use rtsp_server.RtspRequest.Parse.Fields.{with_cseq, parse_cseq-lem}
use rtsp_server.RtspRequest.Parse.Transports.{
  transport_tcp_lem, transport_udp_lem, transport_multicast_lem, accept_lem, session_id_lem,
}
use rtsp_server.RtspRequest.Parse.Asks.{
  Ask, method_for, method_text, print_field, IsAsk, print_request, method_for-known,
  method_text-IsRequestLine, method_text-first,
}

-- What the request says of the transport.
abbrev pub HasTransport : Ask → RtspRequest → Type 0
HasTransport (Ask.setup_tcp a b) r =
    (r.transport ≡ rtp_over_tcp) × (get_rtp_channel r ≡ a) × (get_rtcp_channel r ≡ b)
HasTransport (Ask.setup_udp a b) r =
    (r.transport ≡ rtp_over_udp) × (get_rtp_port r ≡ a) × (get_rtcp_port r ≡ b)
HasTransport Ask.setup_multicast r =
    (r.transport ≡ rtp_over_multicast) × (get_rtp_port r ≡ 0) × (get_rtcp_port r ≡ 0)
HasTransport _ r = Unit {0}

-- A request that was read to its end.
pub record HasAsked (ask : Ask) (n : ℕ) (ip url suffix : Bytes) (r : RtspRequest) : Type 0 where
  pub method_is : r.method ≡ method_for ask
  pub cseq_is : get_cseq r ≡ n
  pub ip_is : get_ip r ≡ ip
  pub url_is : get_rtsp_url r ≡ url
  pub suffix_is : get_rtsp_url_suffix r ≡ suffix
  pub transport_is : HasTransport ask r
  pub all_got : r.state ≡ ParseState.got_all

-- The request behind its first header.
abbrev pub cseq_read : ℕ → RtspRequest → RtspRequest
cseq_read n r = record r { header_line_param = emplace (text "cseq") ([], n) r.header_line_param }

parse_headers-parse_for :
    (n : ℕ) (rest : Bytes) (r : RtspRequest)
    → n < 2 ^ 32
    → parse_headers (with_cseq n rest) r
      ≡ (parse_for r.method (with_cseq n rest) (cseq_read n r), true)
unfolding parse_headers
parse_headers-parse_for n rest r small = rw (parse_cseq-lem n rest r small, parse_headers) refl

seek-newline :
    (rest : Bytes) → seek (text "RTP/AVP/TCP") (b'\n' ∷ rest) ≡ seek (text "RTP/AVP/TCP") rest
unfolding seek begins
seek-newline rest = refl

seek_unicast-newline :
    (rest : Bytes) → seek (text "unicast") (b'\n' ∷ rest) ≡ seek (text "unicast") rest
unfolding seek begins
seek_unicast-newline rest = refl

-- The headers of a request that are kept.
cseq_kept :
    (n : ℕ) (m : Params) → m ≡ [] → number_of (text "cseq") (emplace (text "cseq") ([], n) m) ≡ n
unfolding number_of emplace lookup equal
cseq_kept n m e = rw e

abbrev KeepsPair : Bytes → Bytes → ℕ → ℕ → ℕ → Params → Type 0
KeepsPair a_name b_name n a b m =
    let kept = emplace b_name ([], b) (emplace a_name ([], a) (emplace (text "cseq") ([], n) m)) in
    (number_of (text "cseq") kept ≡ n) × (number_of a_name kept ≡ a) × (number_of b_name kept ≡ b)

channels_kept :
    (n a b : ℕ) (m : Params) → m ≡ [] → KeepsPair (text "rtp_channel") (text "rtcp_channel") n a b m
unfolding number_of emplace lookup equal
channels_kept n a b m e = rw e (refl, refl, refl)

ports_kept :
    (n a b : ℕ) (m : Params) → m ≡ [] → KeepsPair (text "rtp_port") (text "rtcp_port") n a b m
unfolding number_of emplace lookup equal
ports_kept n a b m e = rw e (refl, refl, refl)

module _ (n : ℕ) (ip suffix version : Bytes) (port : ℕ) (r : RtspRequest)
    (fresh : r.header_line_param ≡ []) where
  abbrev behind_line : Ask → RtspRequest
  behind_line ask = line_read (method_text ask) ip suffix version port r

  got-HasAsked :
      (ask : Ask) (r2 : RtspRequest)
      → r2.method ≡ (behind_line ask).method
      → r2.request_line_param ≡ (behind_line ask).request_line_param
      → get_cseq r2 ≡ n
      → HasTransport ask r2
      → r2.state ≡ ParseState.got_all
      → HasAsked ask n ip (print_url ip port suffix) suffix r2
  unfolding get_ip get_rtsp_url get_rtsp_url_suffix
  got-HasAsked ask r2 same_method same_line cseq transport got =
      let line = line_read-HasLine (method_text ask) ip suffix version port r in
      record {
        method_is = same_method ∙ method_for-known ask;
        cseq_is = cseq;
        ip_is = ap (text_of (text "url_ip")) same_line ∙ line.ip_is;
        url_is = ap (text_of (text "url")) same_line ∙ line.url_is;
        suffix_is = ap (text_of (text "url_suffix")) same_line ∙ line.suffix_is;
        transport_is = transport;
        all_got = got;
      }

  plain-HasAsked :
      (ask : Ask)
      → HasTransport ask (all_got (cseq_read n (behind_line ask)))
      → HasAsked ask n ip
          (print_url ip port suffix)
          suffix
          (all_got (cseq_read n (behind_line ask)))
  unfolding get_cseq
  plain-HasAsked ask transport =
      got-HasAsked ask (all_got (cseq_read n (behind_line ask))) refl refl
        (cseq_kept n r.header_line_param fresh) transport refl

  abbrev Parses : Ask → Bytes → Type 0
  Parses ask rest = HasAsked ask n ip (print_url ip port suffix) suffix (
      parse_for (method_for ask) (with_cseq n (print_field ask rest))
        (cseq_read n (behind_line ask)))

  tcp-HasAsked :
      (a b : ℕ) (rest : Bytes) → IsAsk (Ask.setup_tcp a b) rest → Parses (Ask.setup_tcp a b) rest
  unfolding parse_for parse_media_channel keep_pair get_cseq get_rtp_channel get_rtcp_channel equal
  tcp-HasAsked a b rest (small_a, small_b) =
      let (c, x, y) = channels_kept n a b r.header_line_param fresh in
      rw
        (transport_tcp_lem n a b (b'\n' ∷ rest) (omega arith) (omega arith)
          (cseq_read n (behind_line (Ask.setup_tcp a b))))
        (got-HasAsked (Ask.setup_tcp a b) _ refl refl c
          (
            refl,
            ap (λ k. k % 2 ^ 8) x ∙ mod-eq_of_lt small_a,
            ap (λ k. k % 2 ^ 8) y ∙ mod-eq_of_lt small_b,
          )
          refl)

  udp-HasAsked :
      (a b : ℕ) (rest : Bytes) → IsAsk (Ask.setup_udp a b) rest → Parses (Ask.setup_udp a b) rest
  unfolding parse_for parse_media_channel keep_pair get_cseq get_rtp_port get_rtcp_port equal
  udp-HasAsked a b rest (small_a, small_b, no_tcp) =
      let (c, x, y) = ports_kept n a b r.header_line_param fresh in
      rw
        (transport_udp_lem n a b (b'\n' ∷ rest) small_a small_b
          (cseq_read n (behind_line (Ask.setup_udp a b))) (seek-newline rest ∙ no_tcp))
        (got-HasAsked (Ask.setup_udp a b) _ refl refl c
          (
            refl,
            ap (λ k. k % 2 ^ 16) x ∙ mod-eq_of_lt small_a,
            ap (λ k. k % 2 ^ 16) y ∙ mod-eq_of_lt small_b,
          )
          refl)

  multicast-HasAsked :
      (rest : Bytes) → IsAsk Ask.setup_multicast rest → Parses Ask.setup_multicast rest
  unfolding parse_for parse_media_channel keep_pair get_cseq get_rtp_port get_rtcp_port equal
  multicast-HasAsked rest (no_tcp, no_unicast) =
      let (c, x, y) = ports_kept n 0 0 r.header_line_param fresh in
      rw
        (transport_multicast_lem n (b'\n' ∷ rest) (cseq_read n (behind_line Ask.setup_multicast))
          (seek-newline rest ∙ no_tcp) (seek_unicast-newline rest ∙ no_unicast))
        (got-HasAsked Ask.setup_multicast _ refl refl c
          (refl, ap (λ k. k % 2 ^ 16) x, ap (λ k. k % 2 ^ 16) y) refl)

  -- What parseHeadersLine makes of the headers, for each of the methods.
  parse_for-HasAsked : (ask : Ask) (rest : Bytes) → IsAsk ask rest → Parses ask rest
  unfolding parse_for
  parse_for-HasAsked Ask.options rest ok = plain-HasAsked Ask.options tt
  parse_for-HasAsked Ask.describe rest ok = rw (accept_lem n rest) (plain-HasAsked Ask.describe tt)
  parse_for-HasAsked Ask.teardown rest ok = plain-HasAsked Ask.teardown tt
  parse_for-HasAsked Ask.get_parameter rest ok = plain-HasAsked Ask.get_parameter tt
  parse_for-HasAsked (Ask.setup_tcp a b) rest ok = tcp-HasAsked a b rest ok
  parse_for-HasAsked (Ask.setup_udp a b) rest ok = udp-HasAsked a b rest ok
  parse_for-HasAsked Ask.setup_multicast rest ok = multicast-HasAsked rest ok
  parse_for-HasAsked (Ask.play id) rest ok =
      rw (session_id_lem n (b'\n' ∷ rest) id ok) (plain-HasAsked (Ask.play id) tt)

-- parseRequest on a buffer that keeps muduo's laws and holds one whole request of a client: OPTIONS,
-- DESCRIBE, PLAY, TEARDOWN, GET_PARAMETER, or SETUP over TCP, UDP or multicast, with an URL with a port
-- in which all words fit, a CSeq below 2 ^ 32, channels in 8 bits, ports in 16 and a session in 32. The
-- headers behind those of the method are any, but behind a SETUP over UDP they do not name the TCP
-- transport, and behind one over multicast not unicast either. In the state in which a request begins,
-- with nothing kept of an earlier one, it reads all of it, answers true and leaves the buffer empty. The
-- method, the address, the URL, the suffix and the CSeq are those of the client, and for a SETUP so are
-- the transport and its channels or ports, which are 0 for multicast.
pub parse_request-print_request {ℓ} :
    {B : Type ℓ} (ops : Buffer B) (buf : B) (ask : Ask) (n : ℕ) (ip : Bytes) (port : ℕ)
    (suffix rest : Bytes) (r : RtspRequest)
    → IsBuffer ops
    → ops.readable buf ≡ print_request ask n ip port suffix rest
    → IsUrl ip port suffix
    → IsAsk ask rest
    → n < 2 ^ 32
    → r.request_line_param ≡ []
    → r.header_line_param ≡ []
    → r.state ≡ ParseState.parse_request_line
    → (buf' : B) × (r' : RtspRequest) × (parse_request ops buf r ≡ some (buf', r', true))
      × (ops.readable buf' ≡ [])
      × HasAsked ask n ip (print_url ip port suffix) suffix r'
unfolding print_request
parse_request-print_request ops buf ask n ip port suffix rest r laws holds url ok small no_line
      no_headers begin =
    let method = method_text ask in
    let version = text "RTSP/1.0" in
    let r1 = line_read method ip suffix version port r in
    let words = method_text-IsRequestLine ask in
    let (c, first, other) = method_text-first ask in
    let (buf', parsed, left) =
      parse_request-whole ops laws buf r r1 c (print_line method (print_url ip port suffix) version)
        (with_cseq n (print_field ask rest)) holds
        (print_line-first method (print_url ip port suffix) version c first) other
        (print_line-no_return method (print_url ip port suffix) version words.method_word
          (url-IsWord ip port suffix url) words.version_word)
        begin (parse_line-line_read method ip suffix version port r words url no_line) refl in
    let headers : parse_headers (with_cseq n (print_field ask rest)) r1
        ≡ (parse_for (method_for ask) (with_cseq n (print_field ask rest)) (cseq_read n r1), true) =
      parse_headers-parse_for n (print_field ask rest) r1 small
      ∙ ap (λ m. (parse_for m (with_cseq n (print_field ask rest)) (cseq_read n r1), true))
          (method_for-known ask) in
    (
      buf',
      parse_for (method_for ask) (with_cseq n (print_field ask rest)) (cseq_read n r1),
      parsed ∙ ap (λ p. some (buf', p.0, p.1)) headers,
      left,
      parse_for-HasAsked n ip suffix version port r no_headers ask rest ok,
    )
