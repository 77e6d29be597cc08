-- ===== src/Tests/Connections.antt =====
-- src/media/rtp_connection.cc on a connection with one channel that plays.
use rtsp_server.Base.{
  ℕ, zero, suc, Bytes, ◌≡◌, refl, List, [], ◌∷◌, some, Bool, true, false, arith, replicate,
  length-replicate, map, ◌%◌, ◌++◌,
}
use rtsp_server.Base.Int.{pos}
use rtsp_server.Media.{RtpPacket, channel_0, channel_1, Channels, rtp_over_tcp}
use rtsp_server.RtpConnection.{
  RtpConnection, TcpConnection, SockAddr, MediaChannelInfo, Seeds, init, init_channel, info,
  put_info, set_frame_type, play, teardown,
}
use rtsp_server.RtpConnection.Setup.{
  Attempt, SystemCall, setup_rtp_over_udp, try_ports, start_udp, settle_udp,
}
use rtsp_server.RtpConnection.Setup.Ports.{IsBalanced, setup_rtp_over_udp-IsBalanced}
use rtsp_server.RtpConnection.Setup.Targets.{IsOverUdp, setup_rtp_over_udp-IsOverUdp}
use rtsp_server.RtpConnection.Send.{
  Environment, Output, tcp, is_sending, advance_channel, run_task, run_tasks, send_rtp_packet,
  refused,
}
use rtsp_server.RtpConnection.Send.Wire.{decode_interleaved, fields_of}
use rtsp_server.RtpConnection.Send.Framing.{IsPacket, behind_headers, run_task-decode}
use rtsp_server.RtpConnection.Send.Sequence.{
  IsStreaming, queue, numbered, numbers, run_tasks-numbers,
}
use rtsp_server.RtpConnection.Info.{get_rtp_info, joined, entry_of, get_rtp_info-joined}
use rtsp_server.Base.Text.{text, printed}
use rtsp_server.RtpConnection.Lifecycle.{plays, here, next}
use rtsp_server.RtpConnection.Lifecycle.Invariants.{IsSetUpFirst, Reach-IsSetUpFirst}
use rtsp_server.RtpConnection.Lifecycle.Closing.{teardown-refused, run_tasks-teardown}

abbrev seeds : Seeds
seeds = record { seq = 65535; ts = 1; ssrc = 2 }

abbrev playing : MediaChannelInfo
playing = record (init_channel seeds) {
  is_setup = true;
  is_play = true;
  packet_seq = 65535;
  rtp_channel = 2;
}

abbrev nowhere : SockAddr
nowhere = record { addr = 0; port = 0 }

-- Channel 0 plays over TCP, and an I frame went by.
abbrev pub streaming : RtpConnection
streaming = record {
  is_closed = false;
  has_idr_frame = true;
  transport_mode = rtp_over_tcp;
  frame_type = 1;
  local_rtp_port = record { at_0 = 0; at_1 = 0 };
  local_rtcp_port = record { at_0 = 0; at_1 = 0 };
  rtpfd = record { at_0 = pos 9; at_1 = pos 0 };
  rtcpfd = record { at_0 = pos 9; at_1 = pos 0 };
  peer_addr = nowhere;
  peer_rtp_addr = record { at_0 = nowhere; at_1 = nowhere };
  peer_rtcp_addr = record { at_0 = nowhere; at_1 = nowhere };
  media_channel_info = record { at_0 = playing; at_1 = init_channel seeds };
}

abbrev pub peer : SockAddr
peer = record { addr = 16777343; port = 0 }

abbrev pub client : TcpConnection
client = record { fd = 9; name = 65 ∷ [] }

-- The first `bind` of round 0 fails, and round 1 gets both ports.
abbrev pub attempt : ℕ → Attempt
attempt zero = record {
  random = 50001;
  rtp_fd = pos 10;
  rtp_bound = false;
  rtcp_fd = pos 11;
  rtcp_bound = false;
}
attempt (suc n) = record {
  random = 50003;
  rtp_fd = pos 10;
  rtp_bound = true;
  rtcp_fd = pos 11;
  rtcp_bound = true;
}

abbrev after_setup : RtpConnection × List SystemCall × Bool
after_setup = setup_rtp_over_udp (some client) peer attempt channel_0 6000 6001 streaming

setup_rtp_over_udp-IsBalanced_example : IsBalanced channel_0 after_setup (pos 10)
setup_rtp_over_udp-IsBalanced_example =
    setup_rtp_over_udp-IsBalanced (some client) peer attempt channel_0 6000 6001 streaming (pos 10)

after_setup-succeeds : after_setup.2 ≡ true
unfolding setup_rtp_over_udp start_udp try_ports settle_udp
after_setup-succeeds = refl

setup_rtp_over_udp-IsOverUdp_example : IsOverUdp channel_0 peer 6000 6001 after_setup.0
setup_rtp_over_udp-IsOverUdp_example =
    setup_rtp_over_udp-IsOverUdp (some client) peer attempt channel_0 6000 6001 streaming
      after_setup-succeeds

abbrev packet : RtpPacket
packet = record { bytes = replicate 1600 7; size = 20; timestamp = 90; type = 1; last = 1 }

packet-IsPacket : IsPacket packet
packet-IsPacket = record {
  allocated = length-replicate {A = ℕ} 1600 7;
  headed = omega arith;
  inside = omega arith;
}

streaming-sends : is_sending (set_frame_type 1 streaming) channel_0 ≡ true
unfolding is_sending set_frame_type
streaming-sends = refl

streaming-over_tcp : (set_frame_type 1 streaming).transport_mode ≡ rtp_over_tcp
unfolding set_frame_type
streaming-over_tcp = refl

run_task-decode_example :
    let c1 = set_frame_type 1 streaming in
    let i = info c1 channel_0 in
    (sent : Bytes) × (run_task
        (record { conn = some client; sendto_result = pos 0 })
        channel_0
        packet
        streaming
      ≡ some (put_info c1 channel_0 (advance_channel i packet), tcp sent ∷ []))
    × (decode_interleaved sent
        ≡ some (i.rtp_channel % 256, fields_of i packet, behind_headers packet))
run_task-decode_example =
    run_task-decode (pos 0) client channel_0 packet streaming packet-IsPacket streaming-sends
      streaming-over_tcp

streaming-IsStreaming : IsStreaming channel_0 streaming
streaming-IsStreaming = record { going = refl; started = refl; over_tcp = refl }

-- The numbers wrap round: 65535, 0.
run_tasks-numbers_example :
    (c : RtpConnection) × (sent : List Output) × (run_tasks
        (queue (pos 0) client channel_0 (packet ∷ packet ∷ []))
        streaming
      ≡ some (c, sent))
    × (map numbered sent ≡ numbers 65535 0 (packet ∷ packet ∷ []))
run_tasks-numbers_example =
    run_tasks-numbers (pos 0) client channel_0 (packet ∷ packet ∷ []) streaming 65535 0
      (packet-IsPacket, (packet-IsPacket, tt)) streaming-IsStreaming refl

abbrev pub both : Channels Seeds
both = record { at_0 = seeds; at_1 = seeds }

Reach-IsSetUpFirst_example : IsSetUpFirst (info (play (init streaming both)) channel_1)
Reach-IsSetUpFirst_example =
    Reach-IsSetUpFirst streaming both (play (init streaming both)) channel_1
      (next here (plays (init streaming both)))

teardown-refused_example : send_rtp_packet (some client) (play (teardown streaming)) ≡ refused
teardown-refused_example =
    teardown-refused streaming (play (teardown streaming)) (some client)
      (next here (plays (teardown streaming)))

abbrev env : Environment
env = record { conn = some client; sendto_result = pos 0 }

run_tasks-teardown_example :
    (c : RtpConnection) × (run_tasks
        ((env, channel_0, packet) ∷ (env, channel_1, packet) ∷ [])
        (teardown streaming)
      ≡ some (c, []))
run_tasks-teardown_example =
    run_tasks-teardown ((env, channel_0, packet) ∷ (env, channel_1, packet) ∷ []) streaming refl

-- Both channels are set up, with the clock rate of H.264.
abbrev described : RtpConnection
described =
    let ready = record playing { clock_rate = 90000 } in
    record streaming { media_channel_info = record { at_0 = ready; at_1 = ready } }

get_rtp_info-joined_example :
    get_rtp_info 1000 (text "rtsp://h/live") described
    ≡ some (
        printed 1024 (
          text "RTP-Info: "
          ++ joined (
              entry_of 1000 (text "rtsp://h/live") (text "0") described.media_channel_info.at_0
              ++ entry_of 1000
                  (text "rtsp://h/live")
                  (text "1")
                  described.media_channel_info.at_1)))
get_rtp_info-joined_example =
    get_rtp_info-joined 1000 (text "rtsp://h/live") described (omega arith) (omega arith)
