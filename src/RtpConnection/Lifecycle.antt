-- ===== src/RtpConnection/Lifecycle.antt =====
-- src/media/rtp_connection.cc: every change of an RtpConnection's state as one step, and what holds
-- in every state that the steps reach.
pub mod Invariants
pub mod Closing
use rtsp_server.Base.{
  some-pair, read, write, ◌∷◌, Bytes, ℕ, Bool, true, false, Option, none, some, List, [], ◌≡◌, refl,
  arith, ◌||◌, ◌>>=◌, >>=-eq-some, Bool-cases, inl, inr, subst, if◌then◌else◌,
}
use rtsp_server.Media.{
  MediaChannelId, channel_0, channel_1, Channels, get, RtpPacket, TransportMode, rtp_over_tcp,
  rtp_over_udp, rtp_over_multicast,
}
use rtsp_server.Base.Int.{ℤ, pos, negsuc}
use rtsp_server.RtpConnection.{
  MediaChannelInfo, RtpConnection, TcpConnection, SockAddr, Seeds, init, info, set_clock_rate,
  set_payload_type, play, start_record, teardown, set_frame_type, put_info,
}
use rtsp_server.RtpConnection.Setup.{Attempt, setup_rtp_over_tcp, setup_rtp_over_udp}
use rtsp_server.RtpConnection.Setup.Ports.{IsKept}
use rtsp_server.RtpConnection.Send.{
  Output, Environment, run_task, set_rtp_header, is_sending, advance_channel, after_sendto,
  transmit, send_rtp_over_udp, send_rtp_over_tcp, header_bytes, next_header, udp, behind_head,
  send_headed,
}

-- The public methods that change the state, and a task that the event loop runs.
pub data Step : RtpConnection → RtpConnection → Type 0 where
  clocks :
      (c : RtpConnection) (channel : MediaChannelId) (rate : ℕ)
      → Step c (set_clock_rate channel rate c)
  payloads :
      (c : RtpConnection) (channel : MediaChannelId) (type : ℕ)
      → Step c (set_payload_type channel type c)
  sets_up_tcp :
      (c : RtpConnection) (conn : Option TcpConnection) (channel : MediaChannelId) (rtp rtcp : ℕ)
      → Step c (setup_rtp_over_tcp conn channel rtp rtcp c).0
  sets_up_udp :
      (c : RtpConnection) (conn : Option TcpConnection) (peer : SockAddr) (attempt : ℕ → Attempt)
      (channel : MediaChannelId) (rtp rtcp : ℕ)
      → Step c (setup_rtp_over_udp conn peer attempt channel rtp rtcp c).0
  plays : (c : RtpConnection) → Step c (play c)
  records : (c : RtpConnection) → Step c (start_record c)
  tears_down : (c : RtpConnection) → Step c (teardown c)
  runs :
      (c c' : RtpConnection) (env : Environment) (channel : MediaChannelId) (pkt : RtpPacket)
      (sent : List Output)
      → run_task env channel pkt c ≡ some (c', sent)
      → Step c c'

pub data Reach (c : RtpConnection) : RtpConnection → Type 0 where
  here : Reach c c
  next : {d e : RtpConnection} → Reach c d → Step d e → Reach c e

-- `runs` keeps what its parts keep.
module _ (P : RtpConnection → Type 0)
    (framed : (t : ℕ) (c : RtpConnection) → P c → P (set_frame_type t c))
    (advanced : (channel : MediaChannelId) (pkt : RtpPacket) (c : RtpConnection)
      → P c
      → P (put_info c channel (advance_channel (info c channel) pkt)))
    (torn : (c : RtpConnection) → P c → P (teardown c)) where
  set_rtp_header-keeps :
      (channel : MediaChannelId) (pkt pkt' : RtpPacket) (c c' : RtpConnection)
      → P c
      → set_rtp_header channel pkt c ≡ some (c', pkt')
      → P c'
  unfolding set_rtp_header
  set_rtp_header-keeps channel pkt pkt' c c' p e = elim (Bool-cases (is_sending c channel)) [
    | inl sends ↦
        let i = info c channel in
        let (bytes, _, e') =
          >>=-eq-some (write pkt.bytes 4 (header_bytes (next_header i pkt)))
            (λ bytes.
              some (put_info c channel (advance_channel i pkt), record pkt { bytes = bytes }))
            (rw sends at e) in
        subst P (some-pair e') (advanced channel pkt c p)
    | inr silent ↦
        let e' : some (c, pkt) ≡ some (c', pkt') = rw silent at e in subst P (some-pair e') p
  ]

  sendto-keeps :
      (result : ℤ) (outputs sent : List Output) (c c' : RtpConnection)
      → P c
      → after_sendto result c outputs ≡ some (c', sent)
      → P c'
  unfolding after_sendto
  sendto-keeps (pos n) outputs sent c c' p e = subst P (cc) p
  sendto-keeps (negsuc n) outputs sent c c' p e = subst P (cc) (torn c p)

  udp-keeps :
      (result : ℤ) (channel : MediaChannelId) (pkt : RtpPacket) (sent : List Output)
      (c c' : RtpConnection)
      → P c
      → send_rtp_over_udp result channel pkt c ≡ some (c', sent)
      → P c'
  unfolding send_rtp_over_udp
  udp-keeps result channel pkt sent c c' p e =
      let output =
        λ (bytes : Bytes). udp (get c.rtpfd channel) (get c.peer_rtp_addr channel) bytes ∷ [] in
      let (bytes, _, e') =
        >>=-eq-some (read pkt.bytes 4 (behind_head pkt)) (λ b. after_sendto result c (output b))
          e in
      sendto-keeps result (output bytes) sent c c' p e'

  transmit-keeps :
      (mode : TransportMode) (env : Environment) (channel : MediaChannelId) (pkt : RtpPacket)
      (sent : List Output) (c c' : RtpConnection)
      → P c
      → transmit mode env channel pkt c ≡ some (c', sent)
      → P c'
  unfolding transmit
  transmit-keeps rtp_over_tcp env channel pkt sent c c' p e =
      let (outputs, _, e') =
        >>=-eq-some (send_rtp_over_tcp env.conn channel pkt c) (λ outputs. some (c, outputs)) e in
      subst P (some-pair e') p
  transmit-keeps rtp_over_udp env channel pkt sent c c' p e =
      udp-keeps env.sendto_result channel pkt sent c c' p e
  transmit-keeps rtp_over_multicast env channel pkt sent c c' p e =
      udp-keeps env.sendto_result channel pkt sent c c' p e

  send_headed-keeps :
      (env : Environment) (channel : MediaChannelId) (pkt : RtpPacket) (sent : List Output)
      (c c' : RtpConnection)
      → P c
      → send_headed env channel (c, pkt) ≡ some (c', sent)
      → P c'
  unfolding send_headed
  send_headed-keeps env channel pkt sent c c' p e = elim (Bool-cases (is_sending c channel)) [
    | inl sends ↦ transmit-keeps c.transport_mode env channel pkt sent c c' p (rw sends at e)
    | inr silent ↦
        let e' : some (c, []) ≡ some (c', sent) = rw silent at e in subst P (some-pair e') p
  ]

  pub run_task-keeps :
      (env : Environment) (channel : MediaChannelId) (pkt : RtpPacket) (sent : List Output)
      (c c' : RtpConnection)
      → P c
      → run_task env channel pkt c ≡ some (c', sent)
      → P c'
  unfolding run_task
  run_task-keeps env channel pkt sent c c' p e =
      let ((c1, pkt1), headed, rest) =
        >>=-eq-some (set_rtp_header channel pkt (set_frame_type pkt.type c))
          (send_headed env channel) e in
      send_headed-keeps env channel pkt1 sent c1 c'
        (set_rtp_header-keeps channel pkt pkt1 (set_frame_type pkt.type c) c1 (framed pkt.type c p)
          headed)
        rest
