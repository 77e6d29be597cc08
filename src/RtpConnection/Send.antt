-- ===== src/RtpConnection/Send.antt =====
-- src/media/rtp_connection.cc: setRtpHeader, sendRtpPacket, sendRtpOverTcp and sendRtpOverUdp. A
-- packet's memory is shared by the copies of the packet, so what is written to it is handed on. A
-- write outside of it is `none`. What goes to the network is a list.
pub mod Wire
pub mod Framing
pub mod Sequence
use rtsp_server.Base.{
  ℕ, Bytes, Bool, true, false, Option, none, some, List, [], ◌∷◌, ◌++◌, ◌+◌, ◌-◌, ◌*◌, ◌/◌, ◌%◌,
  ◌^◌, ◌&&◌, ◌||◌, if◌then◌else◌, ◌>>=◌, bit_and, ltb, write, read, drop,
}
use rtsp_server.Base.Int.{ℤ, pos, negsuc}
use rtsp_server.Media.{
  MediaChannelId, get, RtpPacket, TransportMode, rtp_over_tcp, rtp_over_udp, rtp_over_multicast,
}
use rtsp_server.RtpConnection.{
  RtpHeader, MediaChannelInfo, RtpConnection, TcpConnection, SockAddr, info, put_info, htons, htonl,
  set_frame_type, teardown,
}

-- The 12 bytes of an RtpHeader in the memory of a little-endian host, where the first member of a
-- bit-field takes the low bits.
unfoldable pub header_bytes : RtpHeader → Bytes
header_bytes h =
    (h.cc % 16 + h.extension % 2 * 16 + h.padding % 2 * 32 + h.version % 4 * 64)
    ∷ (h.payload % 128 + h.marker % 2 * 128)
    ∷ h.seq % 256
    ∷ h.seq / 256 % 256
    ∷ h.ts % 256
    ∷ h.ts / 256 % 256
    ∷ h.ts / 2 ^ 16 % 256
    ∷ h.ts / 2 ^ 24 % 256
    ∷ h.ssrc % 256
    ∷ h.ssrc / 256 % 256
    ∷ h.ssrc / 2 ^ 16 % 256
    ∷ h.ssrc / 2 ^ 24 % 256
    ∷ []

-- `(isPlay || isRecord) && _hasIDRFrame`
unfoldable pub is_sending : RtpConnection → MediaChannelId → Bool
is_sending c channel = ((info c channel).is_play || (info c channel).is_record) && c.has_idr_frame

-- The header of the packet, and the channel after it.
unfoldable pub next_header : MediaChannelInfo → RtpPacket → RtpHeader
next_header i pkt = record i.rtp_header {
  marker = pkt.last % 2;
  ts = htonl pkt.timestamp;
  seq = htons i.packet_seq;
}

unfoldable pub advance_channel : MediaChannelInfo → RtpPacket → MediaChannelInfo
advance_channel i pkt = record i {
  rtp_header = next_header i pkt;
  packet_seq = (i.packet_seq + 1) % 2 ^ 16;
}

unfoldable pub set_rtp_header :
    MediaChannelId → RtpPacket → RtpConnection → Option (RtpConnection × RtpPacket)
set_rtp_header channel pkt c =
    let i = info c channel in
    if is_sending c channel
    then (do
      bytes ← write pkt.bytes 4 (header_bytes (next_header i pkt))
      some (put_info c channel (advance_channel i pkt), record pkt { bytes = bytes }))
    else some (c, pkt)

pub data Output : Type 0 where
  tcp : Bytes → Output
  udp : ℤ → SockAddr → Bytes → Output

-- The four bytes in front of a packet on the TCP connection; `n` is `pkt.size - 4`.
unfoldable pub interleaved : ℕ → ℕ → Bytes
interleaved rtp_channel n = b'$' ∷ rtp_channel % 256 ∷ bit_and n 0xFF00 / 256 ∷ bit_and n 0xFF ∷ []

-- `pkt.size - 4` on 32 bits.
abbrev pub behind_head : RtpPacket → ℕ
behind_head pkt = (pkt.size + 2 ^ 32 - 4) % 2 ^ 32

-- The connection is left alone, and -1 means that it is gone.
unfoldable pub send_rtp_over_tcp :
    Option TcpConnection → MediaChannelId → RtpPacket → RtpConnection → Option (List Output)
send_rtp_over_tcp none channel pkt c = some []
send_rtp_over_tcp (some conn) channel pkt c = do
  bytes ← write pkt.bytes 0 (interleaved (info c channel).rtp_channel (behind_head pkt))
  sent ← read bytes 0 pkt.size
  some (tcp sent ∷ [])

-- What follows `sendto`, by what it answered: the connection is torn down after a failure.
unfoldable pub after_sendto : ℤ → RtpConnection → List Output → Option (RtpConnection × List Output)
after_sendto (pos n) c outputs = some (c, outputs)
after_sendto (negsuc n) c outputs = some (teardown c, outputs)

-- `result` is what `sendto` answers.
unfoldable pub send_rtp_over_udp :
    ℤ → MediaChannelId → RtpPacket → RtpConnection → Option (RtpConnection × List Output)
send_rtp_over_udp result channel pkt c = do
  sent ← read pkt.bytes 4 (behind_head pkt)
  after_sendto result c (udp (get c.rtpfd channel) (get c.peer_rtp_addr channel) sent ∷ [])

-- What the task finds when it runs: the TCP connection, and the answer of `sendto`.
pub record Environment : Type 0 where
  pub conn : Option TcpConnection
  pub sendto_result : ℤ

-- The transport of a packet, behind the headers.
unfoldable pub transmit :
    TransportMode
    → Environment
    → MediaChannelId
    → RtpPacket
    → RtpConnection
    → Option (RtpConnection × List Output)
transmit rtp_over_tcp env channel pkt c = do
  outputs ← send_rtp_over_tcp env.conn channel pkt c
  some (c, outputs)
transmit rtp_over_udp env channel pkt c = send_rtp_over_udp env.sendto_result channel pkt c
transmit rtp_over_multicast env channel pkt c = send_rtp_over_udp env.sendto_result channel pkt c

-- The task that `sendRtpPacket` hands to the event loop, behind `setRtpHeader` and as a whole.
unfoldable pub send_headed :
    Environment → MediaChannelId → RtpConnection × RtpPacket → Option (RtpConnection × List Output)
send_headed env channel (c, pkt) =
    if is_sending c channel then transmit c.transport_mode env channel pkt c else some (c, [])

unfoldable pub run_task :
    Environment → MediaChannelId → RtpPacket → RtpConnection → Option (RtpConnection × List Output)
unfolding send_headed
run_task env channel pkt c = do
  headed ← set_rtp_header channel pkt (set_frame_type pkt.type c)
  send_headed env channel headed

pub data Accepted : Type 0 where
  refused queued : Accepted

-- -1 or 1; the task is queued exactly if it is 1.
unfoldable pub send_rtp_packet : Option TcpConnection → RtpConnection → Accepted
send_rtp_packet none c = refused
send_rtp_packet (some conn) c = if c.is_closed then refused else queued

-- The tasks of a queue, one after the other, each with what it finds when it runs.
unfoldable pub run_tasks :
    List (Environment × MediaChannelId × RtpPacket)
    → RtpConnection
    → Option (RtpConnection × List Output)
run_tasks [] c = some (c, [])
run_tasks ((env, channel, pkt) ∷ tasks) c = do
  first ← run_task env channel pkt c
  rest ← run_tasks tasks first.0
  some (rest.0, first.1 ++ rest.1)
