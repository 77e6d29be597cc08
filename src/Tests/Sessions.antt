-- ===== src/Tests/Sessions.antt =====
-- src/media/media_session.cc and rtsp_server.cc on a session with three clients.
use rtsp_server.Base.{
  ℕ, Bytes, ◌≡◌, ◌≢◌, refl, ◌⊎◌, ◌<◌, ◌^◌, ◌==◌, if◌then◌else◌, List, [], ◌∷◌, Option, none, some,
  true, arith, replicate, length-replicate, All, ◌+◌,
}
use rtsp_server.Base.Maps.{nat_eq, bytes_eq, lookup}
use rtsp_server.Media.{MediaChannelId, channel_0, RtpPacket}
use rtsp_server.MediaSession.{MediaSession, creat_new, add_client, remove_client, broadcast}
use rtsp_server.Base.Text.{text, printed}
use rtsp_server.MediaSession.Sdp.{MediaSource, h264_source, get_sdp_message}
use rtsp_server.MediaSession.Described.{description, get_sdp_message-made_once}
use rtsp_server.MediaSession.Clients.{
  Adds, Removes, HasClients, add_client-Adds, remove_client-Removes,
}
use rtsp_server.MediaSession.Delivery.{IsCopy, live, targets}
use rtsp_server.MediaSession.Broadcast.{receivers, broadcast-lem}
use rtsp_server.RtspServer.{
  RtspServer, add_media_session, remove_media_session, look_by_suffix, look_by_id,
}
use rtsp_server.RtspServer.Sessions.{
  State, started, open_session, Reach, here, next, opens, IsOrderly,
}
use rtsp_server.RtspServer.Sessions.Lookups.{
  look_by_suffix-finds, open_session-finds, remove_media_session-forgets,
}
use mathlib.Core.List.{reverse}

-- Descriptors 5, 6 and 9 belong to the connections 50, 60 and 90.
abbrev pub session : MediaSession
session = record {
  session_id = 2;
  suffix = 108 ∷ [];
  sdp = [];
  media_sources = record { at_0 = none; at_1 = none };
  clients = (5, 50) ∷ (6, 60) ∷ (9, 90) ∷ [];
  notifies = true;
}

session-HasClients : HasClients session
session-HasClients = omega arith

add_client-Adds_example : let r = add_client 7 70 session in Adds 7 70 session r.0 r.1 r.2
add_client-Adds_example = add_client-Adds 7 70 session session-HasClients

remove_client-Removes_example : let r = remove_client 6 session in Removes 6 session r.0 r.1
remove_client-Removes_example = remove_client-Removes 6 session session-HasClients

abbrev packet : RtpPacket
packet = record { bytes = replicate 1600 7; size = 20; timestamp = 90; type = 1; last = 1 }

abbrev memory : ℕ → Bytes
memory conn = replicate 1600 0

-- Connection 60 is gone; the others are named by their numbers.
abbrev pub lock : ℕ → Option Bytes
lock conn = if conn == 60 then none else some (conn ∷ [])

abbrev pub id_now : ℕ → Bytes
id_now conn = conn ∷ []

pub lock-steady : (conn : ℕ) (id : Bytes) → lock conn ≡ some id → id_now conn ≡ id
lock-steady conn id e = ground arith

broadcast-lem_example :
    (sent : List (ℕ × MediaChannelId × RtpPacket)) × (broadcast memory lock id_now channel_0 packet
        session
      ≡ some (record session { clients = live lock session.clients }, sent))
    × (receivers sent ≡ reverse (targets lock session.clients))
    × All (λ d. (d.1 ≡ channel_0) × IsCopy packet d.2) sent
broadcast-lem_example =
    broadcast-lem memory lock id_now channel_0 packet (λ conn. length-replicate {A = ℕ} 1600 0)
      (omega (arith, length-replicate {A = ℕ} 1600 7)) (omega arith) lock-steady session

abbrev live_suffix : Bytes
live_suffix = 108 ∷ []

-- One session was made, and it is registered.
abbrev opened_one : State ℕ
opened_one = open_session live_suffix started

opened_one-Reach : Reach started opened_one
unfolding IsOrderly
opened_one-Reach = next here (opens started live_suffix) (omega arith)

look_by_suffix-finds_example :
    ((look_by_suffix live_suffix opened_one.server ≡ (opened_one.server, none))
      × (lookup live_suffix opened_one.server.rtsp_suffix_map ≡ none))
    ⊎ ((s : MediaSession) × (look_by_suffix live_suffix opened_one.server
          ≡ (opened_one.server, some s))
        × (s.suffix ≡ live_suffix)
        × (look_by_id s.session_id opened_one.server ≡ some s))
look_by_suffix-finds_example = look_by_suffix-finds opened_one live_suffix opened_one-Reach

small_id : (opened_one.last_id + 1) < 2 ^ 32
unfolding creat_new
small_id = omega arith

open_session-finds_example :
    let session = (creat_new opened_one.last_id live_suffix).0 in
    let added = add_media_session session opened_one.server in
    ((look_by_suffix live_suffix opened_one.server).1 ≢ none → added ≡ (opened_one.server, 0))
    × ((look_by_suffix live_suffix opened_one.server).1 ≡ none
        → (added.1 ≡ opened_one.last_id + 1)
          × (look_by_suffix live_suffix added.0 ≡ (added.0, some session))
          × (look_by_id added.1 added.0 ≡ some session))
open_session-finds_example = open_session-finds opened_one live_suffix opened_one-Reach small_id

remove_media_session-forgets_example :
    (srv : RtspServer ℕ) × (remove_media_session 2 opened_one.server ≡ some srv)
    × (look_by_id 2 srv ≡ none)
    × ((s : MediaSession)
        → look_by_id 2 opened_one.server ≡ some s
        → look_by_suffix s.suffix srv ≡ (srv, none))
    × ((j : ℕ) → j ≢ 2 → look_by_id j srv ≡ look_by_id j opened_one.server)
remove_media_session-forgets_example = remove_media_session-forgets opened_one 2 opened_one-Reach

abbrev h264_only : ℕ → MediaSource
h264_only source = h264_source

get_sdp_message-made_once_example :
    let made = printed 1024 (description (text "10.0.0.1") 7 h264_only (text "live") session) in
    (get_sdp_message (text "10.0.0.1") 7 h264_only (text "live") session
      ≡ (record session { sdp = made }, made))
    × ((ip' : Bytes) (time' : ℕ) (sources' : ℕ → MediaSource) (name' : Bytes) (s' : MediaSession)
        → s'.sdp ≡ made
        → get_sdp_message ip' time' sources' name' s' ≡ (s', made))
get_sdp_message-made_once_example =
    get_sdp_message-made_once (text "10.0.0.1") 7 h264_only (text "live") session refl
