-- ===== src/RtspConnection/Conversations.antt =====
-- src/media/rtsp_connection.cc: handleRtspMessage on the whole requests of a client, one after the
-- other.
use rtsp_server.Base.{
  ℕ, Bytes, Bool, true, false, Option, some, List, [], ◌∷◌, ◌++◌, ◌<◌, ◌^◌, ◌≡◌, refl, ap, ◌∙◌, map,
  arith, Bool-cases, inl, inr, ◌>>=◌,
}
use rtsp_server.Base.Text.{is_some}
use mathlib.Core.List.{map-append}
use rtsp_server.RtspServer.{RtspServer}
use rtsp_server.RtspServer.Sessions
use rtsp_server.RtspServer.Sessions.{State, started}
use rtsp_server.RtspRequest.{RtspRequest, ParseState, has_all, is_got_all}
use rtsp_server.RtspRequest.Answers.Numbers.{read_cseq}
use rtsp_server.RtspRequest.Parse.{Buffer}
use rtsp_server.RtspRequest.Parse.RoundTrip.{IsUrl}
use rtsp_server.RtspRequest.Parse.Buffering.{IsBuffer}
use rtsp_server.RtspRequest.Parse.Asks.{Ask, method_for, print_request, IsAsk}
use rtsp_server.RtspRequest.Parse.Requests.{parse_request-print_request}
use rtsp_server.RtspConnection.{RtspConnection, Outside, Effect}
use rtsp_server.RtspConnection.Messages.{dispatch, is_rtcp, handle_rtsp_message, reset_if_all}
use rtsp_server.RtspConnection.Answered.{replies, needs_rtp}
use rtsp_server.RtspConnection.ServerSteps.{with_server, dispatch-Reach}
use rtsp_server.RtspConnection.Serving.{
  IsReady, rtp_after, rtp_after_mono, replies-append, asked-IsRequest, request-other, replies-cseq,
  got-reset, rtp_after-dispatch, served-allowed, serve-dispatch, request-serve, message-request,
  drop_long-empty,
}

-- A request of a client: what it asks for, its number, the parts of its URL and its other headers.
pub record Message : Type 0 where
  pub ask : Ask
  pub cseq : ℕ
  pub ip : Bytes
  pub port : ℕ
  pub suffix : Bytes
  pub rest : Bytes

pub print_message : Message → Bytes
print_message m = print_request m.ask m.cseq m.ip m.port m.suffix m.rest

pub record IsMessage (m : Message) : Type 0 where
  pub url : IsUrl m.ip m.port m.suffix
  pub fits : IsAsk m.ask m.rest
  pub small : m.cseq < 2 ^ 31

got_all-has_all : (r : RtspRequest) → r.state ≡ ParseState.got_all → has_all r ≡ true
unfolding has_all is_got_all
got_all-has_all r e = ap is_got_all e

reset-rtp : (c : RtspConnection) → is_some (reset_if_all c).rtp_conn ≡ is_some c.rtp_conn
reset-rtp c = elim (Bool-cases (has_all c.request)) [
  | inl all ↦ rw all refl
  | inr more ↦ rw more refl
]

module _ {ℓ κ} {B : Type ℓ} {Conn : Type κ} (ops : Buffer B) where
  -- The message was answered once, with its number; it is out of the buffer; the server is in a state
  -- that it reaches; and the connection waits for the next request.
  abbrev pub Replied :
      Message
      → State Conn
      → RtspConnection
      → Option (B × RtspServer Conn × RtspConnection × List Effect)
      → Type (ℓ ⊔ κ)
  Replied m st c result =
      (buf' : B) × (srv' : RtspServer Conn) × (c' : RtspConnection) × (effects : List Effect)
      × (result ≡ some (buf', srv', c', effects))
      × (ops.readable buf' ≡ [])
      × Sessions.Reach started (with_server st srv')
      × IsReady c'
      × (map read_cseq (replies effects) ≡ some m.cseq ∷ [])
      × (rtp_after (method_for m.ask) (is_some c.rtp_conn) ≡ true → is_some c'.rtp_conn ≡ true)

  -- A whole request that reaches a connection which waits for one is answered once, with its number;
  -- it is out of the buffer, and the connection waits for the next.
  pub handle_rtsp_message-Replied :
      (laws : IsBuffer ops) (m : Message) (out : Outside) (lit : B → B) (buf : B) (st : State Conn)
      (c : RtspConnection)
      → IsMessage m
      → ops.readable buf ≡ print_message m
      → IsReady c
      → Sessions.Reach started st
      → (needs_rtp (method_for m.ask) ≡ true → is_some c.rtp_conn ≡ true)
      → Replied m st c (handle_rtsp_message ops out lit buf st.server c)
  unfolding print_message
  handle_rtsp_message-Replied laws m out lit buf st c is holds ready reached allowed =
      let (buf1, r, parsed, left, asked) =
        parse_request-print_request ops buf m.ask m.cseq m.ip m.port m.suffix m.rest c.request laws
          holds is.url is.fits (omega (arith, is.small)) ready.no_line ready.no_headers
          ready.at_line in
      let c1 = record c { request = r } in
      let (srv', c', effects, done, once, kept) =
        served-allowed (method_for m.ask) out st c1 (asked-IsRequest m.ask) ready.linked reached
          allowed in
      let dispatched : dispatch c1.request.method out st.server c1 ≡ some (srv', c', effects) =
        ap (λ k. dispatch k out st.server c1) asked.method_is ∙ done in
      let other : is_rtcp c1.request.method ≡ false =
        ap is_rtcp asked.method_is ∙ request-other (asked-IsRequest m.ask) in
      let all : has_all c1.request ≡ true = got_all-has_all r asked.all_got in
      let handled =
        request-serve ops out buf buf1 st.server c r (buf1, srv', reset_if_all c', effects) parsed
          (serve-dispatch ops out buf1 st.server srv' c1 c' effects other all dispatched) in
      (
        buf1,
        srv',
        reset_if_all c',
        effects,
        message-request ops out lit buf st.server c (buf1, srv', reset_if_all c', effects)
              ready.serves handled
            ∙ ap (λ b. some (b, srv', reset_if_all c', effects)) (drop_long-empty ops buf1 left),
        left,
        dispatch-Reach (method_for m.ask) out st srv' c1 c' effects reached done,
        got-reset c1 c' kept ready.serves all,
        replies-cseq r effects once (omega (arith, asked.cseq_is, is.small))
            ∙ ap (λ k. some k ∷ []) asked.cseq_is,
        λ known.
            reset-rtp c'
            ∙ rtp_after-dispatch (method_for m.ask) out st.server srv' c1 c' effects done kept
                known,
      )

-- The requests of a client, in an order in which none needs an RtpConnection that no DESCRIBE has made.
abbrev pub IsOrdered : Bool → List (Outside × Message) → Type 0
IsOrdered known [] = Unit {0}
IsOrdered known ((out, m) ∷ later) =
    IsMessage m
    × (needs_rtp (method_for m.ask) ≡ true → known ≡ true)
    × IsOrdered (rtp_after (method_for m.ask) known) later

-- The numbers of the requests.
abbrev pub numbers : List (Outside × Message) → List (Option ℕ)
numbers said = map (λ p. some p.1.cseq) said

module _ {ℓ κ} {B : Type ℓ} {Conn : Type κ} (ops : Buffer B) (fill : Bytes → B → B)
    (lit : B → B) where
  -- Each request arrives whole and is handled before the next.
  pub converse :
      List (Outside × Message)
      → B
      → RtspServer Conn
      → RtspConnection
      → Option (B × RtspServer Conn × RtspConnection × List Effect)
  converse [] buf srv c = some (buf, srv, c, [])
  converse ((out, m) ∷ later) buf srv c = do
    (buf1, srv1, c1, effects) ← handle_rtsp_message ops out lit (fill (print_message m) buf) srv c
    (buf2, srv2, c2, more) ← converse later buf1 srv1 c1
    some (buf2, srv2, c2, effects ++ more)

  -- A client that sends its requests one after the other, each when the one before was handled, and that
  -- makes a DESCRIBE before any PLAY, TEARDOWN or GET_PARAMETER, gets one answer to each, in order and
  -- with the number of the request. No call goes through a null pointer, nothing is left in the buffer,
  -- and the connection waits for the next request. The buffer keeps muduo's laws, and the server is in a
  -- state that orderly steps lead to.
  pub converse-numbers :
      (said : List (Outside × Message)) (known : Bool) (buf : B) (st : State Conn)
      (c : RtspConnection)
      → IsBuffer ops
      → ((s : Bytes) (b : B) → ops.readable (fill s b) ≡ ops.readable b ++ s)
      → IsOrdered known said
      → ops.readable buf ≡ []
      → IsReady c
      → Sessions.Reach started st
      → (known ≡ true → is_some c.rtp_conn ≡ true)
      → (buf' : B) × (srv' : RtspServer Conn) × (c' : RtspConnection) × (effects : List Effect)
        × (converse said buf st.server c ≡ some (buf', srv', c', effects))
        × (ops.readable buf' ≡ [])
        × IsReady c'
        × (map read_cseq (replies effects) ≡ numbers said)
  unfolding converse replies
  converse-numbers [] known buf st c laws fills order empty ready reached has =
      (buf, st.server, c, [], refl, empty, ready, refl)
  converse-numbers ((out, m) ∷ later) known buf st c laws fills (is, needs, order) empty ready
        reached has =
      let buf0 = fill (print_message m) buf in
      let (buf1, srv1, c1, effects, done, empty1, reached1, ready1, number, after) =
        handle_rtsp_message-Replied ops laws m out lit buf0 st c is
          (fills (print_message m) buf ∙ ap (λ s. s ++ print_message m) empty) ready reached
          (λ n. has (needs n)) in
      let has1 : rtp_after (method_for m.ask) known ≡ true → is_some c1.rtp_conn ≡ true =
        λ k. after (rtp_after_mono (method_for m.ask) known (is_some c.rtp_conn) has k) in
      let (buf2, srv2, c2, more, done2, empty2, ready2, number2) =
        converse-numbers later (rtp_after (method_for m.ask) known) buf1 (with_server st srv1) c1
          laws fills order empty1 ready1 reached1 has1 in
      (
        buf2,
        srv2,
        c2,
        effects ++ more,
        rw (done, done2, converse) refl,
        empty2,
        ready2,
        ap (map read_cseq) (replies-append effects more)
            ∙ map-append read_cseq (replies effects) (replies more)
            ∙ rw (number, number2) refl,
      )
