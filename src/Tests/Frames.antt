-- ===== src/Tests/Frames.antt =====
-- src/media/h264_source.cc on a frame of 1500 bytes, which is cut in two.
use rtsp_server.Base.{
  ℕ, Bytes, ◌≡◌, refl, List, [], ◌∷◌, some, true, arith, replicate, length-replicate, map, take,
  All,
}
use rtsp_server.Media.{AvFrame, RtpPacket, channel_0}
use rtsp_server.H264Source.{handle_frame, stamp}
use rtsp_server.H264Source.Packets.{packets, payload}
use rtsp_server.H264Source.Streams.{IsSendable, deliver, handle_frame-deliver}
use rtsp_server.H264Source.Receiver.{receive}
use rtsp_server.H264Source.Reassemble.{keep, handle_frame-receive}
use rtsp_server.H264Source.Labels.{IsLabelled, IsMarkedLast, handle_frame-AreLabelled}

abbrev pub memory : ℕ → Bytes
memory off = replicate 1600 0

-- An IDR slice: 0x65, and 1499 bytes.
abbrev pub idr : AvFrame
idr = record { buffer = 0x65 ∷ replicate 1499 7; size = 1500; type = 1; timestamp = 0 }

pub idr-IsSendable : IsSendable memory idr
idr-IsSendable = record {
  allocated = λ off. length-replicate {A = ℕ} 1600 0;
  inside = omega (arith, length-replicate {A = ℕ} 1499 7);
  short = omega arith;
}

handle_frame-deliver_example :
    handle_frame (some keep) 500 memory channel_0 idr []
    ≡ some (deliver (some keep) channel_0 (packets memory (stamp 500 idr) 0x65) [])
handle_frame-deliver_example =
    handle_frame-deliver (some keep) memory idr channel_0 500 0x65 [] idr-IsSendable refl

handle_frame-receive_example :
    (sent : List RtpPacket) × (handle_frame (some keep) 500 memory channel_0 idr []
      ≡ some (sent, true))
    × (receive (map payload sent) ≡ some (take 1500 idr.buffer))
handle_frame-receive_example =
    handle_frame-receive memory idr channel_0 500 0x65 idr-IsSendable (omega arith) refl
      (omega arith) refl

handle_frame-AreLabelled_example :
    (sent : List RtpPacket) × (handle_frame (some keep) 500 memory channel_0 idr []
      ≡ some (sent, true))
    × All (IsLabelled (stamp 500 idr)) sent
    × IsMarkedLast sent
handle_frame-AreLabelled_example =
    handle_frame-AreLabelled memory idr channel_0 500 0x65 idr-IsSendable refl
