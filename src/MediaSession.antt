-- ===== src/MediaSession.antt =====
-- src/media/media_session.cc and media_session.h: MediaSession. A pointer to an RtpConnection is a
-- number, and so is one to a media source; `lock` of the weak pointers in `_clients` is an argument.
-- The calls of `_notifyCallback` are a list. `broadcast` is the callback that `addMediaSource` sets.
pub mod Clients
pub mod Sdp
pub mod Described
pub mod Delivery
pub mod Broadcast
pub mod Shares
pub mod Streaming
use rtsp_server.Base.{
  ℕ, Bytes, Bool, true, false, not, Option, none, some, List, [], ◌∷◌, ◌++◌, ◌+◌, ◌%◌, ◌^◌, ◌==◌,
  ltb, if◌then◌else◌, ◌>>=◌, read, write, length,
}
use rtsp_server.Base.Maps.{nat_eq, bytes_eq, lookup, emplace, erase}
use rtsp_server.Media.{MediaChannelId, Channels, get, put, AvFrame, RtpPacket, new_packet}

-- `std::map<int, …>::emplace`, on entries in the order of their keys.
unfoldable pub emplace_sorted {ℓ} : {V : Type ℓ} → ℕ → V → List (ℕ × V) → List (ℕ × V)
emplace_sorted k v [] = (k, v) ∷ []
emplace_sorted k v ((j, w) ∷ m) =
    let rest = emplace_sorted k v m in
    if ltb k j then (k, v) ∷ (j, w) ∷ m else if k == j then (j, w) ∷ m else (j, w) ∷ rest

-- `notifies` says whether a callback was set.
pub record MediaSession : Type 0 where
  pub session_id : ℕ
  pub suffix : Bytes
  pub sdp : Bytes
  pub media_sources : Channels (Option ℕ)
  pub clients : List (ℕ × ℕ)
  pub notifies : Bool

-- `_notifyCallback(sessionId, numClients)`
pub record Notification : Type 0 where
  pub session_id : ℕ
  pub num_clients : ℕ

-- `creatNew`, from the last identifier that was given out, and the new last one.
unfoldable pub creat_new : ℕ → Bytes → MediaSession × ℕ
creat_new last_id suffix =
    let id = (last_id + 1) % 2 ^ 32 in
    (
      record {
        session_id = id;
        suffix = suffix;
        sdp = [];
        media_sources = record { at_0 = none; at_1 = none };
        clients = [];
        notifies = false;
      },
      id,
    )

unfoldable pub add_media_source : MediaChannelId → ℕ → MediaSession → MediaSession
add_media_source channel source s = record s {
  media_sources = put s.media_sources channel (some source);
}

unfoldable pub remove_media_source : MediaChannelId → MediaSession → MediaSession
remove_media_source channel s = record s { media_sources = put s.media_sources channel none }

unfoldable pub get_media_source : MediaChannelId → MediaSession → Option ℕ
get_media_source channel s = get s.media_sources channel

unfoldable pub set_rtsp_url_suffix : Bytes → MediaSession → MediaSession
set_rtsp_url_suffix suffix s = record s { suffix = suffix }

unfoldable pub get_num_client : MediaSession → ℕ
get_num_client s = length s.clients % 2 ^ 32

-- `if(_notifyCallback) _notifyCallback(_sessionId, (uint32_t)_clients.size());`
unfoldable pub notify : MediaSession → List Notification
notify s =
    if s.notifies
    then record { session_id = s.session_id; num_clients = length s.clients % 2 ^ 32 } ∷ []
    else []

unfoldable pub add_client : ℕ → ℕ → MediaSession → MediaSession × List Notification × Bool
add_client rtspfd conn s = elim (lookup rtspfd s.clients) [
  | none ↦
      let s' = record s { clients = emplace_sorted rtspfd conn s.clients } in (s', notify s', true)
  | some other ↦ (s, [], false)
]

unfoldable pub remove_client : ℕ → MediaSession → MediaSession × List Notification
remove_client rtspfd s = elim (lookup rtspfd s.clients) [
  | none ↦ (s, [])
  | some conn ↦ let s' = record s { clients = erase rtspfd s.clients } in (s', notify s')
]

-- `RtpPacket tmpPkt; memcpy(…); tmpPkt.size = pkt.size; …`
unfoldable pub copy_packet : Bytes → RtpPacket → Option RtpPacket
copy_packet memory pkt = do
  bytes ← read pkt.bytes 0 pkt.size
  copied ← write memory 0 bytes
  some (record (new_packet memory) {
    bytes = copied;
    size = pkt.size;
    last = pkt.last;
    timestamp = pkt.timestamp;
    type = pkt.type;
  })

-- What the first loop of the callback has built: `packets`, `rtpConnList`, and the clients that it
-- has not erased.
pub record Collected : Type 0 where
  pub packets : List (Bytes × RtpPacket)
  pub rtp_conn_list : List ℕ
  pub kept : List (ℕ × ℕ)

unfoldable pub is_empty : Bytes → Bool
is_empty [] = true
is_empty (x ∷ xs) = false

-- `if(packets.find(id) == packets.end()) { … packets.emplace(id, tmpPkt); }`
unfoldable pub add_copy :
    Bytes → RtpPacket → Bytes → List (Bytes × RtpPacket) → Option (List (Bytes × RtpPacket))
add_copy memory pkt id packets = elim (lookup id packets) [
  | none ↦ (do tmp ← copy_packet memory pkt; some (emplace id tmp packets))
  | some p ↦ some packets
]

-- The first loop. `lock conn` is the result of `getId` on the locked pointer, and `none` if the
-- connection is gone; `memory conn` is what the memory allocated for its copy holds.
unfoldable pub collect :
    (ℕ → Bytes)
    → (ℕ → Option Bytes)
    → RtpPacket
    → List (ℕ × ℕ)
    → List (Bytes × RtpPacket)
    → List ℕ
    → Option Collected
unfolding is_empty
collect memory lock pkt [] packets conns =
    some (record { packets = packets; rtp_conn_list = conns; kept = [] })
collect memory lock pkt ((fd, conn) ∷ rest) packets conns = elim (lock conn) [
  | none ↦ collect memory lock pkt rest packets conns
  | some id ↦ elim (is_empty id) [
    | true ↦ (do
      r ← collect memory lock pkt rest packets conns
      some (record r { kept = (fd, conn) ∷ r.kept }))
    | false ↦ (do
      more ← add_copy (memory conn) pkt id packets
      r ← collect memory lock pkt rest more (conn ∷ conns)
      some (record r { kept = (fd, conn) ∷ r.kept }))
  ]
]

-- The second loop: the calls of `sendRtpPacket`. `id_now` is `getId` at that time.
unfoldable pub dispatch :
    (ℕ → Bytes)
    → MediaChannelId
    → List (Bytes × RtpPacket)
    → List ℕ
    → List (ℕ × MediaChannelId × RtpPacket)
unfolding is_empty
dispatch id_now channel packets [] = []
dispatch id_now channel packets (conn ∷ conns) =
    let rest = dispatch id_now channel packets conns in
    if is_empty (id_now conn)
    then rest
    else elim (lookup (id_now conn) packets) [ none ↦ rest | some p ↦ (conn, channel, p) ∷ rest ]

-- The callback: the session after it, and the calls of `sendRtpPacket`, of which connection, with which
-- channel and packet.
unfoldable pub broadcast :
    (ℕ → Bytes)
    → (ℕ → Option Bytes)
    → (ℕ → Bytes)
    → MediaChannelId
    → RtpPacket
    → MediaSession
    → Option (MediaSession × List (ℕ × MediaChannelId × RtpPacket))
broadcast memory lock id_now channel pkt s = do
  r ← collect memory lock pkt s.clients [] []
  some (record s { clients = r.kept }, dispatch id_now channel r.packets r.rtp_conn_list)

-- `handleFrame`, on the state `S` that a source changes. What the source answers is not looked at.
unfoldable pub handle_frame {ℓ} :
    {S : Type ℓ}
    → (ℕ → MediaChannelId → AvFrame → S → Option (S × Bool))
    → MediaChannelId
    → AvFrame
    → MediaSession
    → S
    → Option (S × Bool)
handle_frame source_frame channel frame s state = elim (get s.media_sources channel) [
  | none ↦ some (state, false)
  | some source ↦ (do handled ← source_frame source channel frame state; some (handled.0, true))
]

-- The callback of `addMediaSource` on one packet after the other: the session and what it has handed to
-- which connection so far, and `none` behind a fault. It answers true.
unfoldable pub send_frame_callback :
    (RtpPacket → ℕ → Bytes)
    → (ℕ → Option Bytes)
    → (ℕ → Bytes)
    → Option (MediaSession × List (ℕ × MediaChannelId × RtpPacket))
    → MediaChannelId
    → RtpPacket
    → Option (MediaSession × List (ℕ × MediaChannelId × RtpPacket)) × Bool
send_frame_callback memory lock id_now none channel pkt = (none, true)
send_frame_callback memory lock id_now (some (s, sent)) channel pkt = (
  (do (s1, more) ← broadcast (memory pkt) lock id_now channel pkt s; some (s1, sent ++ more)),
  true,
)
