-- ===== src/RtpConnection/Send/Framing.antt =====
-- src/media/rtp_connection.cc: the whole of a task of sendRtpPacket over TCP.
use rtsp_server.Base.{
  ℕ, Bytes, true, some, [], ◌∷◌, ◌++◌, ◌+◌, ◌-◌, ◌%◌, ◌≤◌, ◌≡◌, refl, ap, ◌∙◌, sym, arith, length,
  take, drop, write_lem, read_lem, spliced, length-spliced, drop-spliced, take-append_of_le,
  length-append, length-take, length-drop, ==_iff,
}
use rtsp_server.Base.Int.{ℤ}
use rtsp_server.Media.{
  MediaChannelId, channel_0, channel_1, RtpPacket, packet_capacity, rtp_over_tcp,
}
use rtsp_server.RtpConnection.{
  RtpHeader, MediaChannelInfo, RtpConnection, TcpConnection, info, put_info, set_frame_type,
}
use rtsp_server.RtpConnection.Send.{
  header_bytes, is_sending, next_header, advance_channel, set_rtp_header, tcp, interleaved,
  behind_head, send_rtp_over_tcp, transmit, run_task,
}
use rtsp_server.RtpConnection.Send.Wire.{
  fields_of, decode_interleaved, decode_rtp-header_bytes, length_bytes,
}

-- What lies behind the 4 bytes of the interleaved frame and the RTP header.
abbrev pub behind_headers : RtpPacket → Bytes
behind_headers pkt = take (pkt.size - 16) (drop 16 pkt.bytes)

-- The packet's memory is its own and its size leaves room for the headers.
pub record IsPacket (pkt : RtpPacket) : Type 0 where
  pub allocated : length pkt.bytes ≡ packet_capacity
  pub headed : 16 ≤ pkt.size
  pub inside : pkt.size ≤ packet_capacity

module _ (pkt : RtpPacket) (ok : IsPacket pkt) where
  behind_head_lem : behind_head pkt ≡ pkt.size - 4
  behind_head_lem = omega (arith, ok.headed, ok.inside)

  -- The memory of a packet once both headers are in it, up to its size.
  written :
      (head header : Bytes)
      → length head ≡ 4
      → length header ≡ 12
      → take pkt.size (spliced (spliced pkt.bytes 4 header) 0 head)
        ≡ head ++ (header ++ behind_headers pkt)
  written head header h4 h12 =
      let rest = drop 16 pkt.bytes in
      ap (λ d. take pkt.size (head ++ d))
        (ap (λ k. drop k (spliced pkt.bytes 4 header)) {y = 4} (omega arith)
          ∙ drop-spliced pkt.bytes 4 header (omega (arith, ok.allocated))
          ∙ ap (λ k. header ++ drop k pkt.bytes)
              (let e : 4 + length header ≡ 16 = omega arith in e))
      ∙ take-append_of_le pkt.size head (header ++ rest) (omega (arith, ok.headed))
      ∙ ap (λ d. head ++ d)
          (take-append_of_le (pkt.size - length head) header rest (omega (arith, ok.headed)))
      ∙ ap (λ k. head ++ (header ++ take k rest)) (omega arith)

advance-is_sending :
    (c : RtpConnection) (channel : MediaChannelId) (pkt : RtpPacket)
    → is_sending (put_info c channel (advance_channel (info c channel) pkt)) channel
      ≡ is_sending c channel
unfolding is_sending advance_channel
advance-is_sending c channel_0 pkt = refl
advance-is_sending c channel_1 pkt = refl

info-put_info :
    (c : RtpConnection) (channel : MediaChannelId) (i : MediaChannelInfo)
    → info (put_info c channel i) channel ≡ i
info-put_info c channel_0 i = refl
info-put_info c channel_1 i = refl

length-header_bytes : (h : RtpHeader) → length (header_bytes h) ≡ 12
unfolding header_bytes
length-header_bytes h = refl

length-interleaved : (channel n : ℕ) → length (interleaved channel n) ≡ 4
unfolding interleaved
length-interleaved channel n = refl

rtp_channel-advance :
    (i : MediaChannelInfo) (pkt : RtpPacket) → (advance_channel i pkt).rtp_channel ≡ i.rtp_channel
unfolding advance_channel
rtp_channel-advance i pkt = refl

-- A task that may send, over TCP: the connection steps to the next sequence number, and the packet
-- goes out with both headers in front of its payload.
pub run_task-tcp :
    (sendto_result : ℤ) (conn : TcpConnection) (channel : MediaChannelId) (pkt : RtpPacket)
    (c : RtpConnection)
    → let c1 = set_frame_type pkt.type c in
      let i = info c1 channel in
      IsPacket pkt
      → is_sending c1 channel ≡ true
      → c1.transport_mode ≡ rtp_over_tcp
      → run_task (record { conn = some conn; sendto_result = sendto_result }) channel pkt c
        ≡ some (
          put_info c1 channel (advance_channel i pkt),
          tcp (
                interleaved i.rtp_channel (pkt.size - 4)
                ++ (header_bytes (next_header i pkt) ++ behind_headers pkt))
              ∷ [],
        )
unfolding run_task set_rtp_header transmit send_rtp_over_tcp
run_task-tcp sendto_result conn channel pkt c ok sending over_tcp =
    let c1 = set_frame_type pkt.type c in
    let i = info c1 channel in
    let header = header_bytes (next_header i pkt) in
    let head = interleaved i.rtp_channel (pkt.size - 4) in
    let h12 = length-header_bytes (next_header i pkt) in
    let h4 = length-interleaved i.rtp_channel (pkt.size - 4) in
    let m1 = spliced pkt.bytes 4 header in
    let l1 : length m1 ≡ 1600 =
      length-spliced pkt.bytes 4 header (omega (arith, ok.allocated, h12)) ∙ ok.allocated in
    let m2 = spliced m1 0 head in
    let l2 : length m2 ≡ 1600 = length-spliced m1 0 head (omega (arith, h4, l1)) ∙ l1 in
    rw (
      sending,
      write_lem pkt.bytes 4 header (omega (arith, ok.allocated, h12)),
      advance-is_sending c1 channel pkt ∙ sending,
      over_tcp,
      behind_head_lem pkt ok,
      info-put_info c1 channel (advance_channel i pkt),
      rtp_channel-advance i pkt,
      write_lem m1 0 head (omega (arith, h4, l1)),
      read_lem m2 0 pkt.size (omega (arith, l2, ok.inside)),
      written pkt ok head header h4 h12,
    )

-- What a client reads from the TCP connection when a task has sent a packet, provided the channel
-- plays, the transport is TCP and the TCP connection is there: one whole interleaved frame on the
-- RTP channel that was set up (its low eight bits), with the header that the channel means to send
-- and the payload of the packet. The connection then has the next sequence number.
pub run_task-decode :
    (sendto_result : ℤ) (conn : TcpConnection) (channel : MediaChannelId) (pkt : RtpPacket)
    (c : RtpConnection)
    → let c1 = set_frame_type pkt.type c in
      let i = info c1 channel in
      IsPacket pkt
      → is_sending c1 channel ≡ true
      → c1.transport_mode ≡ rtp_over_tcp
      → (sent : Bytes) × (run_task
            (record { conn = some conn; sendto_result = sendto_result })
            channel
            pkt
            c
          ≡ some (put_info c1 channel (advance_channel i pkt), tcp sent ∷ []))
        × (decode_interleaved sent
            ≡ some (i.rtp_channel % 256, fields_of i pkt, behind_headers pkt))
unfolding decode_interleaved interleaved
run_task-decode sendto_result conn channel pkt c ok sending over_tcp =
    let c1 = set_frame_type pkt.type c in
    let i = info c1 channel in
    let header = header_bytes (next_header i pkt) in
    let n = pkt.size - 4 in
    let packet = header ++ behind_headers pkt in
    let len : length packet ≡ n = omega (
      arith,
      length-append header (behind_headers pkt),
      length-header_bytes (next_header i pkt),
      length-take (pkt.size - 16) (drop 16 pkt.bytes),
      length-drop 16 pkt.bytes,
      ok.allocated,
      ok.headed,
      ok.inside,
    ) in
    let fits = length_bytes n (omega (arith, ok.inside, ok.headed)) in
    (
      interleaved i.rtp_channel n ++ packet,
      run_task-tcp sendto_result conn channel pkt c ok sending over_tcp,
      rw ((==_iff _ _).1 (fits ∙ sym len), decode_rtp-header_bytes i pkt (behind_headers pkt)),
    )
