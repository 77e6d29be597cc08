-- ===== src/RtpConnection/Send/Sequence.antt =====
-- src/media/rtp_connection.cc: the sequence numbers of the packets of a stream over TCP.
use rtsp_server.Base.{
  ℕ, Bytes, true, Option, none, some, List, [], ◌∷◌, ◌+◌, ◌%◌, ◌^◌, ◌≡◌, refl, ap, arith, map, ◌||◌,
  All, ◌>>=◌,
}
use rtsp_server.Base.Int.{ℤ}
use rtsp_server.Media.{MediaChannelId, channel_0, channel_1, RtpPacket, rtp_over_tcp}
use rtsp_server.RtpConnection.{RtpConnection, TcpConnection, info, put_info, set_frame_type}
use rtsp_server.RtpConnection.Send.{
  is_sending, advance_channel, Output, tcp, udp, Environment, run_task, run_tasks,
}
use rtsp_server.RtpConnection.Send.Wire.{fields_of, decode_interleaved}
use rtsp_server.RtpConnection.Send.Framing.{IsPacket, behind_headers, run_task-decode}

-- The sequence number and the payload that a client reads from what was sent.
pub numbered : Output → Option (ℕ × Bytes)
numbered (udp fd address bytes) = none
numbered (tcp bytes) = do frame ← decode_interleaved bytes; some (frame.1.sequence, frame.2)

-- The payloads of the packets, in order, with numbers that count up from `start + k`, on 16 bits.
pub numbers : ℕ → ℕ → List RtpPacket → List (Option (ℕ × Bytes))
numbers start k [] = []
numbers start k (pkt ∷ pkts) =
    some ((start + k) % 2 ^ 16, behind_headers pkt) ∷ numbers start (k + 1) pkts

-- The channel plays or records over TCP, behind the first frame that a decoder can start with.
pub record IsStreaming (channel : MediaChannelId) (c : RtpConnection) : Type 0 where
  pub going : ((info c channel).is_play || (info c channel).is_record) ≡ true
  pub started : c.has_idr_frame ≡ true
  pub over_tcp : c.transport_mode ≡ rtp_over_tcp

module _ (channel : MediaChannelId) where
  IsStreaming-sending :
      (t : ℕ) (c : RtpConnection)
      → IsStreaming channel c
      → is_sending (set_frame_type t c) channel ≡ true
  unfolding is_sending set_frame_type
  IsStreaming-sending t c s = rw (s.going, s.started)

  transport-set_frame_type :
      (t : ℕ) (c : RtpConnection)
      → IsStreaming channel c
      → (set_frame_type t c).transport_mode ≡ rtp_over_tcp
  unfolding set_frame_type
  transport-set_frame_type t c s = s.over_tcp

  info-set_frame_type :
      (t : ℕ) (c : RtpConnection) → info (set_frame_type t c) channel ≡ info c channel
  unfolding set_frame_type
  info-set_frame_type t c = refl

after : MediaChannelId → RtpPacket → RtpConnection → RtpConnection
after channel pkt c =
    let c1 = set_frame_type pkt.type c in
    put_info c1 channel (advance_channel (info c1 channel) pkt)

after-IsStreaming :
    (channel : MediaChannelId) (pkt : RtpPacket) (c : RtpConnection)
    → IsStreaming channel c
    → IsStreaming channel (after channel pkt c)
unfolding after set_frame_type advance_channel
after-IsStreaming channel_0 pkt c s = record {
  going = s.going;
  started = rw s.started;
  over_tcp = s.over_tcp;
}
after-IsStreaming channel_1 pkt c s = record {
  going = s.going;
  started = rw s.started;
  over_tcp = s.over_tcp;
}

packet_seq-after :
    (channel : MediaChannelId) (pkt : RtpPacket) (c : RtpConnection)
    → (info (after channel pkt c) channel).packet_seq ≡ ((info c channel).packet_seq + 1) % 2 ^ 16
unfolding after set_frame_type advance_channel
packet_seq-after channel_0 pkt c = refl
packet_seq-after channel_1 pkt c = refl

sequence-fields_of :
    (channel : MediaChannelId) (pkt : RtpPacket) (c : RtpConnection)
    → (fields_of (info (set_frame_type pkt.type c) channel) pkt).sequence
      ≡ (info c channel).packet_seq % 2 ^ 16
unfolding fields_of set_frame_type
sequence-fields_of channel pkt c = refl

module _ (sendto_result : ℤ) (conn : TcpConnection) (channel : MediaChannelId) where
  abbrev env : Environment
  env = record { conn = some conn; sendto_result = sendto_result }

  abbrev pub queue : List RtpPacket → List (Environment × MediaChannelId × RtpPacket)
  queue = map (λ pkt. (env, channel, pkt))

  run_task-after :
      (pkt : RtpPacket) (c : RtpConnection)
      → IsPacket pkt
      → IsStreaming channel c
      → (bytes : Bytes) × (run_task env channel pkt c ≡ some (after channel pkt c, tcp bytes ∷ []))
        × (numbered (tcp bytes) ≡ some ((info c channel).packet_seq % 2 ^ 16, behind_headers pkt))
  unfolding after numbered
  run_task-after pkt c ok s =
      let (bytes, ran, decoded) =
        run_task-decode sendto_result conn channel pkt c ok
          (IsStreaming-sending channel pkt.type c s)
          (transport-set_frame_type channel pkt.type c s) in
      (
        bytes,
        ran,
        rw decoded (ap (λ n. some (n, behind_headers pkt)) (sequence-fields_of channel pkt c)),
      )

  -- Packets that are queued for a channel that streams over TCP are all sent: a client reads their
  -- payloads, one after the other in the order of the queue, with sequence numbers that count up by one
  -- from packet to packet, modulo 2 ^ 16, whatever the number of packets.
  pub run_tasks-numbers :
      (pkts : List RtpPacket) (c : RtpConnection) (start k : ℕ)
      → All IsPacket pkts
      → IsStreaming channel c
      → (info c channel).packet_seq % 2 ^ 16 ≡ (start + k) % 2 ^ 16
      → (c' : RtpConnection) × (sent : List Output) × (run_tasks (queue pkts) c ≡ some (c', sent))
        × (map numbered sent ≡ numbers start k pkts)
  unfolding run_tasks numbers
  run_tasks-numbers [] c start k ok s e = (c, [], refl, refl)
  run_tasks-numbers (pkt ∷ pkts) c start k ok s e =
      let (bytes, ran, numbered) = run_task-after pkt c ok.0 s in
      let later = packet_seq-after channel pkt c in
      let (c', sent, all_ran, counted) =
        run_tasks-numbers pkts (after channel pkt c) start (k + 1) ok.1
          (after-IsStreaming channel pkt c s) (omega (arith, later, e)) in
      (c', tcp bytes ∷ sent, rw (ran, all_ran), rw (numbered, counted, e))
