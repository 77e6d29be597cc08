-- ===== src/MediaSession/Streaming.antt =====
-- src/media/media_session.cc with h264_source.cc: a frame on its way from the session to a client.
use rtsp_server.Base.{
  ℕ, Bytes, true, false, Option, some, List, [], ◌∷◌, ◌++◌, ◌≤◌, ◌<◌, ◌≡◌, refl, ap, sym, ◌∙◌,
  arith, length, take, map, get_elem?, append-nil, append_assoc, All,
}
use rtsp_server.Media.{MediaChannelId, AvFrame, RtpPacket, packet_capacity, get}
use rtsp_server.H264Source
use rtsp_server.H264Source.{stamp}
use rtsp_server.H264Source.Packets.{packets, payload}
use rtsp_server.H264Source.Streams.{IsSendable, deliver, handle_frame-deliver, stamp-IsSendable}
use rtsp_server.H264Source.Receiver.{receive, is_fu_a}
use rtsp_server.H264Source.Reassemble.{receive-stamp}
use rtsp_server.H264Source.Labels.{IsLabelled, packets-AreLabelled}
use rtsp_server.MediaSession.{MediaSession, send_frame_callback, handle_frame}
use rtsp_server.MediaSession.Delivery.{live, targets}
use rtsp_server.MediaSession.Broadcast.{broadcast-lem}
use rtsp_server.MediaSession.Shares.{
  shares, count, shares-append, count-reverse, one_share, payload-IsCopy, targets-live,
}

-- The session, with sources and clients to serve as before.
pub record IsServing (lock : ℕ → Option Bytes) (s s' : MediaSession) : Type 0 where
  pub sources : s'.media_sources ≡ s.media_sources
  pub served : targets lock s'.clients ≡ targets lock s.clients

module _ (memory : RtpPacket → ℕ → Bytes) (lock : ℕ → Option Bytes) (id_now : ℕ → Bytes)
    (allocated : (pkt : RtpPacket) (conn : ℕ) → length (memory pkt conn) ≡ packet_capacity)
    (steady : (conn : ℕ) (id : Bytes) → lock conn ≡ some id → id_now conn ≡ id) where
  -- One packet: a connection that is served once gets one copy more.
  callback_lem :
      (s : MediaSession) (sent : List (ℕ × MediaChannelId × RtpPacket)) (channel : MediaChannelId)
      (pkt : RtpPacket) (conn : ℕ)
      → pkt.size ≤ length pkt.bytes
      → pkt.size ≤ packet_capacity
      → count conn (targets lock s.clients) ≡ 1
      → (s' : MediaSession) × (sent' : List (ℕ × MediaChannelId × RtpPacket)) × (p : RtpPacket)
        × (send_frame_callback memory lock id_now (some (s, sent)) channel pkt
            ≡ (some (s', sent'), true))
        × IsServing lock s s'
        × (shares conn sent' ≡ shares conn sent ++ (p ∷ []))
        × (payload p ≡ payload pkt)
  unfolding send_frame_callback
  callback_lem s sent channel pkt conn inside fits once =
      let (more, done, to, copies) =
        broadcast-lem (memory pkt) lock id_now channel pkt (allocated pkt) inside fits steady s in
      let one = ap (count conn) to ∙ count-reverse conn (targets lock s.clients) ∙ once in
      let (p, e, copy) = one_share channel pkt conn more copies one in
      (
        record s { clients = live lock s.clients },
        sent ++ more,
        p,
        rw (done, send_frame_callback) refl,
        record { sources = refl; served = targets-live lock s.clients },
        shares-append conn sent more ∙ ap (λ l. shares conn sent ++ l) e,
        payload-IsCopy pkt p copy,
      )

  -- One packet after the other.
  deliver_lem :
      (frame : AvFrame) (channel : MediaChannelId) (ps : List RtpPacket) (s : MediaSession)
      (sent : List (ℕ × MediaChannelId × RtpPacket)) (conn : ℕ)
      → All (IsLabelled frame) ps
      → count conn (targets lock s.clients) ≡ 1
      → (s' : MediaSession) × (sent' : List (ℕ × MediaChannelId × RtpPacket)) × (qs : List
          RtpPacket)
        × (deliver (some (send_frame_callback memory lock id_now)) channel ps (some (s, sent))
            ≡ (some (s', sent'), true))
        × IsServing lock s s'
        × (shares conn sent' ≡ shares conn sent ++ qs)
        × (map payload qs ≡ map payload ps)
  unfolding deliver rtsp_server.H264Source.send
  deliver_lem frame channel [] s sent conn labels once =
      (s, sent, [], refl, record { sources = refl; served = refl }, sym (append-nil _), refl)
  deliver_lem frame channel (pkt ∷ ps) s sent conn (label, labels) once =
      let (s1, sent1, p, e1, serving1, share1, same) =
        callback_lem s sent channel pkt conn label.inside (omega (arith, label.short)) once in
      let (s2, sent2, qs, e2, serving2, share2, rest) =
        deliver_lem frame channel ps s1 sent1 conn labels
          (ap (count conn) serving1.served ∙ once) in
      (
        s2,
        sent2,
        p ∷ qs,
        rw (e1, deliver) e2,
        record {
          sources = serving2.sources ∙ serving1.sources;
          served = serving2.served ∙ serving1.served;
        },
        share2 ∙ ap (λ l. l ++ qs) share1 ∙ append_assoc (shares conn sent) (p ∷ []) qs,
        ap (λ l. l ∷ map payload qs) same ∙ ap (λ l. payload pkt ∷ l) rest,
      )

  -- handleFrame of a session whose channel has a source of H.264 frames, on a sendable frame that is
  -- not empty and starts with a byte that is no FU-A indicator, with memory for whole packets, while
  -- no TCP connection goes away: it answers true without a fault. To each connection that is there
  -- for one client, with a TCP connection, it hands packets from whose payloads a receiver that
  -- follows RFC 3984 gets the bytes of the frame back. The session keeps its sources, and serves whom
  -- it served before.
  pub handle_frame-shares :
      (off_memory : ℕ → Bytes) (frame : AvFrame) (channel : MediaChannelId) (micros b source : ℕ)
      (s : MediaSession)
      → IsSendable off_memory frame
      → 0 < frame.size
      → get_elem? frame.buffer 0 ≡ some b
      → b < 256
      → is_fu_a b ≡ false
      → get s.media_sources channel ≡ some source
      → (conn : ℕ) → count conn (targets lock s.clients) ≡ 1
      → (s' : MediaSession) × (sent : List (ℕ × MediaChannelId × RtpPacket)) × (handle_frame
            (λ src.
              H264Source.handle_frame
                (some (send_frame_callback memory lock id_now))
                micros
                off_memory)
            channel
            frame
            s
            (some (s, []))
          ≡ some (some (s', sent), true))
        × IsServing lock s s'
        × (receive (map payload (shares conn sent)) ≡ some (take frame.size frame.buffer))
  unfolding handle_frame shares
  handle_frame-shares off_memory frame channel micros b source s ok filled first byte whole has conn
        once =
      let callback = send_frame_callback memory lock id_now in
      let ps = packets off_memory (stamp micros frame) b in
      let labels =
        packets-AreLabelled off_memory (stamp micros frame)
          (stamp-IsSendable micros off_memory frame ok) b in
      let (s', sent, qs, e, serving, share, same) =
        deliver_lem (stamp micros frame) channel ps s [] conn labels.0 once in
      let done =
        handle_frame-deliver (some callback) off_memory frame channel micros b (some (s, [])) ok
          first in
      (
        s',
        sent,
        rw (has, done, e, handle_frame) refl,
        serving,
        ap (λ l. receive (map payload l)) share
            ∙ ap receive same
            ∙ receive-stamp off_memory frame micros b ok filled first byte whole,
      )
