-- ===== src/Tests/Streams.antt =====
-- A frame that is cut in two on its way to one of the clients of a session.
use rtsp_server.Base.{
  ℕ, Bytes, ◌≡◌, refl, List, none, some, true, arith, replicate, length-replicate, map, take,
}
use rtsp_server.Media.{MediaChannelId, RtpPacket, channel_0}
use rtsp_server.H264Source
use rtsp_server.H264Source.Packets.{payload}
use rtsp_server.H264Source.Receiver.{receive}
use rtsp_server.MediaSession.{MediaSession, send_frame_callback, handle_frame, is_empty}
use rtsp_server.MediaSession.Delivery.{targets}
use rtsp_server.MediaSession.Shares.{shares, count}
use rtsp_server.MediaSession.Streaming.{IsServing, handle_frame-shares}
use rtsp_server.Tests.Frames.{memory, idr, idr-IsSendable}
use rtsp_server.Tests.Sessions.{session, lock, id_now, lock-steady}

abbrev streaming : MediaSession
streaming = record session { media_sources = record { at_0 = some 7; at_1 = none } }

abbrev copies : RtpPacket → ℕ → Bytes
copies pkt conn = replicate 1600 0

once : count 90 (targets lock streaming.clients) ≡ 1
unfolding count targets is_empty
once = refl

handle_frame-shares_example :
    (s' : MediaSession) × (sent : List (ℕ × MediaChannelId × RtpPacket)) × (handle_frame
        (λ src. H264Source.handle_frame (some (send_frame_callback copies lock id_now)) 500 memory)
        channel_0
        idr
        streaming
        (some (streaming, List.[]))
      ≡ some (some (s', sent), true))
    × IsServing lock streaming s'
    × (receive (map payload (shares 90 sent)) ≡ some (take 1500 idr.buffer))
handle_frame-shares_example =
    handle_frame-shares copies lock id_now (λ pkt conn. length-replicate {A = ℕ} 1600 0) lock-steady
      memory idr channel_0 500 0x65 7 streaming idr-IsSendable (omega arith) refl (omega arith) refl
      refl 90 once
