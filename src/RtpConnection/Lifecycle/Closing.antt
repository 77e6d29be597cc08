-- ===== src/RtpConnection/Lifecycle/Closing.antt =====
-- src/media/rtp_connection.cc: what `teardown` puts an end to.
use rtsp_server.Base.{
  ℕ, Bool, true, false, Option, none, some, List, [], ◌∷◌, ◌≡◌, refl, ◌∙◌, arith, ◌||◌,
}
use rtsp_server.Media.{MediaChannelId, channel_0, channel_1, RtpPacket}
use rtsp_server.RtpConnection.{
  RtpConnection, TcpConnection, SockAddr, set_clock_rate, set_payload_type, play, start_record,
  teardown, set_frame_type,
}
use rtsp_server.RtpConnection.Setup.{
  Attempt, SystemCall, setup_rtp_over_tcp, setup_rtp_over_udp, settle_udp, finish_udp, start_udp,
}
use rtsp_server.RtpConnection.Setup.Ports.{try_ports-lem}
use rtsp_server.RtpConnection.Send.{
  refused, send_rtp_packet, Environment, run_task, run_tasks, set_rtp_header, is_sending,
  send_headed,
}
use rtsp_server.RtpConnection.Lifecycle.{
  Step, clocks, payloads, sets_up_tcp, sets_up_udp, plays, records, tears_down, runs, Reach, here,
  next, run_task-keeps,
}

abbrev IsClosed : RtpConnection → Type 0
IsClosed c = c.is_closed ≡ true

settle_udp-IsClosed :
    (channel : MediaChannelId) (r : RtpConnection × List SystemCall × Bool)
    → IsClosed r.0
    → IsClosed (settle_udp channel r).0
unfolding settle_udp finish_udp
settle_udp-IsClosed channel (c, calls, true) h = h
settle_udp-IsClosed channel (c, calls, false) h = h

udp-IsClosed :
    (conn : Option TcpConnection) (peer : SockAddr) (attempt : ℕ → Attempt)
    (channel : MediaChannelId) (rtp rtcp : ℕ) (c : RtpConnection)
    → IsClosed c
    → IsClosed (setup_rtp_over_udp conn peer attempt channel rtp rtcp c).0
unfolding setup_rtp_over_udp start_udp
udp-IsClosed none peer attempt channel rtp rtcp c h = h
udp-IsClosed (some conn) peer attempt channel rtp rtcp c h =
    let (kept, _) = try_ports-lem 10 0 attempt channel (start_udp peer channel rtp rtcp c) [] in
    settle_udp-IsClosed channel _ (kept.flag ∙ h)

tcp-IsClosed :
    (conn : Option TcpConnection) (channel : MediaChannelId) (rtp rtcp : ℕ) (c : RtpConnection)
    → IsClosed c
    → IsClosed (setup_rtp_over_tcp conn channel rtp rtcp c).0
unfolding setup_rtp_over_tcp
tcp-IsClosed none channel rtp rtcp c h = h
tcp-IsClosed (some conn) channel rtp rtcp c h = h

teardown-IsClosed : (c : RtpConnection) → IsClosed (teardown c)
unfolding teardown
teardown-IsClosed c = ground arith

Step-IsClosed : {c d : RtpConnection} → Step c d → IsClosed c → IsClosed d
unfolding set_clock_rate set_payload_type play start_record
Step-IsClosed (clocks c channel rate) h = h
Step-IsClosed (payloads c channel type) h = h
Step-IsClosed (sets_up_tcp c conn channel rtp rtcp) h = tcp-IsClosed conn channel rtp rtcp c h
Step-IsClosed (sets_up_udp c conn peer attempt channel rtp rtcp) h =
    udp-IsClosed conn peer attempt channel rtp rtcp c h
Step-IsClosed (plays c) h = h
Step-IsClosed (records c) h = h
Step-IsClosed (tears_down c) h = teardown-IsClosed c
Step-IsClosed (runs c d env channel pkt sent e) h =
    run_task-keeps IsClosed (λ t c h. unfold set_frame_type in h) (λ channel pkt c h. h)
      (λ c h. teardown-IsClosed c) env channel pkt sent c d h e

Reach-IsClosed : {c d : RtpConnection} → Reach c d → IsClosed c → IsClosed d
Reach-IsClosed here h = h
Reach-IsClosed (next r st) h = Step-IsClosed st (Reach-IsClosed r h)

-- After `teardown` a connection takes no packet any more, whatever else is done to it: a later
-- `play` does not open it again.
pub teardown-refused :
    (c d : RtpConnection) (conn : Option TcpConnection)
    → Reach (teardown c) d
    → send_rtp_packet conn d ≡ refused
unfolding send_rtp_packet
teardown-refused c d none r = refl
teardown-refused c d (some conn) r = rw (Reach-IsClosed r (teardown-IsClosed c))

abbrev IsSilent : RtpConnection → Type 0
IsSilent c =
    ((c.media_channel_info.at_0.is_play || c.media_channel_info.at_0.is_record) ≡ false)
    × ((c.media_channel_info.at_1.is_play || c.media_channel_info.at_1.is_record) ≡ false)

is_sending-silent :
    (channel : MediaChannelId) (c : RtpConnection) → IsSilent c → is_sending c channel ≡ false
unfolding is_sending
is_sending-silent channel_0 c h = rw h.0
is_sending-silent channel_1 c h = rw h.1

run_task-silent :
    (env : Environment) (channel : MediaChannelId) (pkt : RtpPacket) (c : RtpConnection)
    → IsSilent c
    → run_task env channel pkt c ≡ some (set_frame_type pkt.type c, [])
unfolding run_task set_rtp_header
run_task-silent env channel pkt c h =
    let quiet =
      is_sending-silent channel (set_frame_type pkt.type c) (unfold set_frame_type in h) in
    rw (quiet, send_headed, quiet)

run_tasks-silent :
    (tasks : List (Environment × MediaChannelId × RtpPacket)) (c : RtpConnection)
    → IsSilent c
    → (c' : RtpConnection) × (run_tasks tasks c ≡ some (c', []))
unfolding run_tasks
run_tasks-silent [] c h = (c, refl)
run_tasks-silent ((env, channel, pkt) ∷ tasks) c h =
    let (c', rest) = run_tasks-silent tasks (set_frame_type pkt.type c) (quiet c h) in
    (c', rw (run_task-silent env channel pkt c h, rest))
  where
    quiet : (c : RtpConnection) → IsSilent c → IsSilent (set_frame_type pkt.type c)
    quiet c h = unfold set_frame_type in h

-- A connection that was open when it was torn down sends nothing from then on: each task that is
-- still queued, however many and on either channel, runs without a fault and without output.
pub run_tasks-teardown :
    (tasks : List (Environment × MediaChannelId × RtpPacket)) (c : RtpConnection)
    → c.is_closed ≡ false
    → (c' : RtpConnection) × (run_tasks tasks (teardown c) ≡ some (c', []))
run_tasks-teardown tasks c open_before = run_tasks-silent tasks (teardown c) (torn c open_before)
  where
    torn : (c : RtpConnection) → c.is_closed ≡ false → IsSilent (teardown c)
    torn c h = unfold teardown in rw h (refl, refl)
