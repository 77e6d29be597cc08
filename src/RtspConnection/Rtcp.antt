-- ===== src/RtspConnection/Rtcp.antt =====
-- src/media/rtsp_connection.cc: what handleRtspMessage does with an RTCP packet over TCP.
use rtsp_server.Base.{
  ℕ, zero, suc, Bytes, Bool, true, false, some, [], ◌∷◌, ◌+◌, ◌%◌, ◌^◌, ◌≤◌, ◌<◌, ◌≡◌, refl, ap,
  ◌∙◌, arith, ◌==◌, ltb, leb, if◌then◌else◌, length, drop, all_below, all_below_sound, ==_iff, none,
  ◌>>=◌,
}
use rtsp_server.RtspServer.{RtspServer}
use rtsp_server.RtspRequest.{Method}
use rtsp_server.RtspRequest.Parse.{Buffer, parse_request}
use rtsp_server.RtspRequest.Parse.Buffering.{IsBuffer}
use rtsp_server.RtspConnection.{RtspConnection, rtsp_server_mode, Outside}
use rtsp_server.RtspConnection.Messages.{
  handle_rtsp_request, handle_by, rtcp_size, char_bits, is_rtcp, handle_rtcp, serve,
  handle_rtsp_message, drop_long,
}
use rtsp_server.RtspConnection.Serving.{drop_long-empty, request-serve, message-request}

abbrev is_itself : ℕ → Bool
is_itself lo = rtcp_size 0 lo == lo

all_itself : all_below 128 is_itself ≡ true
unfolding all_below rtcp_size char_bits
all_itself = refl

rtcp_size_small : (lo : ℕ) → lo < 128 → rtcp_size 0 lo ≡ lo
rtcp_size_small lo small =
    (==_iff (rtcp_size 0 lo) lo).0 (all_below_sound 128 is_itself lo all_itself small)

drop_all : (n : ℕ) (xs : Bytes) → length xs ≡ n → drop n xs ≡ []
drop_all zero [] e = refl
drop_all zero (x ∷ xs) e = absurd (omega (arith, e))
drop_all (suc n) [] e = refl
drop_all (suc n) (x ∷ xs) e = drop_all n xs (omega (arith, e))

-- The connection behind a packet: only the method of its request is another.
abbrev pub heard : RtspConnection → RtspConnection
heard c = record c { request = record c.request { method = Method.rtcp } }

module _ {ℓ} {B : Type ℓ} (ops : Buffer B) (laws : IsBuffer ops) (buf : B) (channel size : ℕ)
    (body : Bytes) (is : ops.readable buf ≡ b'$' ∷ channel ∷ 0 ∷ size ∷ body) (short : size < 128)
    (filled : 0 < length body) where
  handle_rtcp_lem : handle_rtcp ops buf ≡ (
      if leb (length body) size
      then (if leb size (length body) then some (ops.retrieve (size + 4) buf) else none)
      else some buf)
  unfolding handle_rtcp
  handle_rtcp_lem =
      let n = length body in
      let long : ltb 4 (suc (suc (suc (suc n)))) ≡ true = ground (arith, filled) in
      let whole : (size + 4) % 2 ^ 32 ≡ size + 4 = omega (arith, short) in
      let same : leb (suc (suc (suc (suc n)))) (size + 4) ≡ leb n size = ground arith in
      let other : leb (size + 4) (suc (suc (suc (suc n)))) ≡ leb size n = ground arith in
      rw (is, handle_rtcp, long, rtcp_size_small size short, whole, same, other) refl

  module _ {κ} {Conn : Type κ} where
    packet-serve :
        (out : Outside) (lit : B → B) (buf1 : B) (srv : RtspServer Conn) (c : RtspConnection)
        → c.conn_mode ≡ rtsp_server_mode
        → handle_rtcp ops buf ≡ some buf1
        → handle_rtsp_message ops out lit buf srv c ≡ some (drop_long ops buf1, srv, heard c, [])
    unfolding serve parse_request is_rtcp
    packet-serve out lit buf1 srv c serves done =
        let r = record c.request { method = Method.rtcp } in
        let parsed : parse_request ops buf c.request ≡ some (buf, r, true) =
          rw (is, parse_request) refl in
        message-request ops out lit buf srv c (buf1, srv, heard c, []) serves
          (request-serve ops out buf buf srv c r (buf1, srv, heard c, []) parsed
            (rw (done, serve) refl))

    packet-fails :
        (out : Outside) (lit : B → B) (srv : RtspServer Conn) (c : RtspConnection)
        → c.conn_mode ≡ rtsp_server_mode
        → handle_rtcp ops buf ≡ none
        → handle_rtsp_message ops out lit buf srv c ≡ none
    unfolding handle_rtsp_message handle_by handle_rtsp_request serve parse_request is_rtcp
    packet-fails out lit srv c serves failed =
        ap
          (λ m. (do
            (buf1, srv1, c1, effects) ← handle_by ops m out lit buf srv c
            some (drop_long ops buf1, srv1, c1, effects)))
          serves
        ∙ rw (is, handle_rtsp_request, failed, serve) refl

    -- handleRtspMessage of the server on an RTCP packet in interleaved framing that says that it has
    -- fewer than 128 bytes, of which one or more have come, in a buffer that keeps muduo's laws. When
    -- they have all come and nothing is behind them, it takes the packet out, and the buffer is empty.
    -- When more bytes are behind them, it takes nothing out, so that the packet stays in front of what
    -- follows, until there are more than 2048 bytes: then all of them are dropped. In these cases it
    -- answers nothing, the server is as before, and of the connection only the method of the request is
    -- another. When not all have come, an assertion of the buffer fails.
    pub handle_rtsp_message-rtcp :
        (out : Outside) (lit : B → B) (srv : RtspServer Conn) (c : RtspConnection)
        → c.conn_mode ≡ rtsp_server_mode
        → let handled = handle_rtsp_message ops out lit buf srv c in
          (length body ≡ size
            → (buf' : B) × (handled ≡ some (buf', srv, heard c, [])) × (ops.readable buf' ≡ []))
          × (size < length body → length body + 4 ≤ 2048 → handled ≡ some (buf, srv, heard c, []))
          × (size < length body
              → 2048 < length body + 4
              → (buf' : B) × (handled ≡ some (buf', srv, heard c, [])) × (ops.readable buf' ≡ []))
          × (length body < size → handled ≡ none)
    handle_rtsp_message-rtcp out lit srv c serves =
        let packet = ops.readable buf in
        let extent : length packet ≡ length body + 4 = ap length is ∙ omega arith in
        (
          (λ exact.
              let taken = ops.retrieve (size + 4) buf in
              let empty =
                laws.retrieves (size + 4) buf (omega (arith, extent, exact))
                ∙ drop_all (size + 4) packet (omega (arith, extent, exact)) in
              (
                taken,
                packet-serve out lit taken srv c serves (handle_rtcp_lem ∙ ground (arith, exact))
                    ∙ ap (λ b. some (b, srv, heard c, [])) (drop_long-empty ops taken empty),
                empty,
              )),
          (λ more limit.
              let kept : ltb 2048 (length packet) ≡ false = ground (arith, extent, limit) in
              packet-serve out lit buf srv c serves (handle_rtcp_lem ∙ ground (arith, more))
              ∙ ap (λ b. some (b, srv, heard c, [])) (rw kept refl)),
          (λ more over.
              let dropped : ltb 2048 (length packet) ≡ true = ground (arith, extent, over) in
              (
                ops.retrieve_all buf,
                packet-serve out lit buf srv c serves (handle_rtcp_lem ∙ ground (arith, more))
                    ∙ ap (λ b. some (b, srv, heard c, [])) (rw dropped refl),
                laws.retrieves_all buf,
              )),
          λ less. packet-fails out lit srv c serves (handle_rtcp_lem ∙ ground (arith, less)),
        )
