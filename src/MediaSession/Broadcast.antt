-- ===== src/MediaSession/Broadcast.antt =====
-- src/media/media_session.cc: the callback of addMediaSource as a whole.
use mathlib.Core.List.{reverse, reverse-cons}
use rtsp_server.Base.{
  ℕ, Bytes, Option, some, List, [], ◌∷◌, ◌++◌, ◌≤◌, ◌≡◌, refl, ap, sym, ◌∙◌, length, map,
  append-nil, append_assoc, All,
}
use rtsp_server.Base.Maps.{bytes_eq, lookup}
use rtsp_server.Media.{MediaChannelId, RtpPacket, packet_capacity}
use rtsp_server.MediaSession.{MediaSession, dispatch, broadcast}
use rtsp_server.MediaSession.Delivery.{
  IsCopy, live, targets, push_all, Copies, HasPacket, collect-lem,
}

push_all-reverse : (cs conns : List ℕ) → push_all cs conns ≡ reverse cs ++ conns
unfolding push_all
push_all-reverse [] conns = refl
push_all-reverse (c ∷ cs) conns =
    push_all-reverse cs (c ∷ conns)
    ∙ sym (append_assoc (reverse cs) (c ∷ []) conns)
    ∙ ap (λ xs. xs ++ conns) (sym (reverse-cons c cs))

abbrev pub receivers : List (ℕ × MediaChannelId × RtpPacket) → List ℕ
receivers = map (λ d. d.0)

module _ (memory : ℕ → Bytes) (lock : ℕ → Option Bytes) (id_now : ℕ → Bytes)
    (channel : MediaChannelId) (pkt : RtpPacket)
    (allocated : (conn : ℕ) → length (memory conn) ≡ packet_capacity)
    (inside : pkt.size ≤ length pkt.bytes) (fits : pkt.size ≤ packet_capacity)
    (steady : (conn : ℕ) (id : Bytes) → lock conn ≡ some id → id_now conn ≡ id) where
  dispatch-lem :
      (packets : List (Bytes × RtpPacket)) (conns : List ℕ)
      → Copies memory lock id_now pkt allocated inside fits steady packets
      → All (HasPacket memory lock id_now pkt allocated inside fits steady packets) conns
      → (receivers (dispatch id_now channel packets conns) ≡ conns)
        × All (λ d. (d.1 ≡ channel) × IsCopy pkt d.2) (dispatch id_now channel packets conns)
  unfolding dispatch
  dispatch-lem packets [] ok has = (refl, tt)
  dispatch-lem packets (conn ∷ conns) ok (h, rest) =
      let (sent, copies) = dispatch-lem packets conns ok rest in
      rw (h.0, h.2) (ap (◌∷◌ conn) sent, ((refl, ok (id_now conn) h.1 h.2), copies))

  -- The callback, on a packet that lies inside of its memory, as long as no TCP connection goes away
  -- between its two loops: it meets no fault; each client whose connection is there and has a TCP
  -- connection gets one copy of the packet, for the channel of the callback, in the reverse of the order
  -- of the descriptors, and nobody else does; the session forgets the clients whose connection is gone, and only those.
  pub broadcast-lem :
      (s : MediaSession)
      → (sent : List (ℕ × MediaChannelId × RtpPacket)) × (broadcast memory lock id_now channel pkt s
          ≡ some (record s { clients = live lock s.clients }, sent))
        × (receivers sent ≡ reverse (targets lock s.clients))
        × All (λ d. (d.1 ≡ channel) × IsCopy pkt d.2) sent
  unfolding broadcast
  broadcast-lem s =
      let (r, e, l, k, c, h) =
        collect-lem memory lock id_now pkt allocated inside fits steady s.clients [] []
          (λ id p miss. unfold lookup in cc) tt in
      let (to, copies) = dispatch-lem r.packets r.rtp_conn_list c h in
      (
        dispatch id_now channel r.packets r.rtp_conn_list,
        rw (e, k),
        to
            ∙ l
            ∙ push_all-reverse (targets lock s.clients) []
            ∙ append-nil (reverse (targets lock s.clients)),
        copies,
      )
