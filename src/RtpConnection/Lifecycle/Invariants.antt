-- ===== src/RtpConnection/Lifecycle/Invariants.antt =====
-- src/media/rtp_connection.cc: invariants of every state that an RtpConnection reaches.
use rtsp_server.Base.{
  ℕ, Bool, true, false, Option, none, some, List, [], ◌≡◌, refl, sym, subst, arith, ◌||◌,
}
use rtsp_server.Media.{MediaChannelId, channel_0, channel_1, Channels, get, put}
use rtsp_server.RtpConnection.{
  MediaChannelInfo, RtpConnection, TcpConnection, SockAddr, Seeds, init, info, set_clock_rate,
  set_payload_type, play, start_record, teardown, set_frame_type,
}
use rtsp_server.RtpConnection.Setup.{
  Attempt, SystemCall, setup_rtp_over_tcp, setup_rtp_over_udp, settle_udp, finish_udp, start_udp,
}
use rtsp_server.RtpConnection.Setup.Ports.{try_ports-lem}
use rtsp_server.RtpConnection.Send.{advance_channel}
use rtsp_server.RtpConnection.Lifecycle.{
  Step, clocks, payloads, sets_up_tcp, sets_up_udp, plays, records, tears_down, runs, Reach, here,
  next, run_task-keeps,
}

-- A channel that plays or records has been set up.
abbrev pub IsSetUpFirst : MediaChannelInfo → Type 0
IsSetUpFirst i = (i.is_play || i.is_record) ≡ true → i.is_setup ≡ true

abbrev pub AreSetUpFirst : Channels MediaChannelInfo → Type 0
AreSetUpFirst a = IsSetUpFirst a.at_0 × IsSetUpFirst a.at_1

abbrev IsOrderly : RtpConnection → Type 0
IsOrderly c = AreSetUpFirst c.media_channel_info

AreSetUpFirst-put :
    (channel : MediaChannelId) (a : Channels MediaChannelInfo) (i : MediaChannelInfo)
    → AreSetUpFirst a
    → IsSetUpFirst i
    → AreSetUpFirst (put a channel i)
AreSetUpFirst-put channel_0 a i h p = (p, h.1)
AreSetUpFirst-put channel_1 a i h p = (h.0, p)

get-AreSetUpFirst :
    (channel : MediaChannelId) (a : Channels MediaChannelInfo)
    → AreSetUpFirst a
    → IsSetUpFirst (get a channel)
get-AreSetUpFirst channel_0 a h = h.0
get-AreSetUpFirst channel_1 a h = h.1

settle_udp-IsOrderly :
    (channel : MediaChannelId) (r : RtpConnection × List SystemCall × Bool)
    → IsOrderly r.0
    → IsOrderly (settle_udp channel r).0
unfolding settle_udp finish_udp
settle_udp-IsOrderly channel (c, calls, true) h =
    AreSetUpFirst-put channel c.media_channel_info _ h (λ e. refl)
settle_udp-IsOrderly channel (c, calls, false) h = h

udp-IsOrderly :
    (conn : Option TcpConnection) (peer : SockAddr) (attempt : ℕ → Attempt)
    (channel : MediaChannelId) (rtp rtcp : ℕ) (c : RtpConnection)
    → IsOrderly c
    → IsOrderly (setup_rtp_over_udp conn peer attempt channel rtp rtcp c).0
unfolding setup_rtp_over_udp start_udp
udp-IsOrderly none peer attempt channel rtp rtcp c h = h
udp-IsOrderly (some conn) peer attempt channel rtp rtcp c h =
    let started = start_udp peer channel rtp rtcp c in
    let (kept, _) = try_ports-lem 10 0 attempt channel started [] in
    settle_udp-IsOrderly channel _ (
      subst AreSetUpFirst (sym kept.infos) (
        AreSetUpFirst-put channel c.media_channel_info _ h
          (get-AreSetUpFirst channel c.media_channel_info h)))

tcp-IsOrderly :
    (conn : Option TcpConnection) (channel : MediaChannelId) (rtp rtcp : ℕ) (c : RtpConnection)
    → IsOrderly c
    → IsOrderly (setup_rtp_over_tcp conn channel rtp rtcp c).0
unfolding setup_rtp_over_tcp
tcp-IsOrderly none channel rtp rtcp c h = h
tcp-IsOrderly (some conn) channel rtp rtcp c h =
    AreSetUpFirst-put channel c.media_channel_info _ h (λ e. refl)

Step-IsOrderly : {c d : RtpConnection} → Step c d → IsOrderly c → IsOrderly d
unfolding set_clock_rate set_payload_type play start_record teardown
Step-IsOrderly (clocks c channel rate) h =
    AreSetUpFirst-put channel c.media_channel_info _ h
      (get-AreSetUpFirst channel c.media_channel_info h)
Step-IsOrderly (payloads c channel type) h =
    AreSetUpFirst-put channel c.media_channel_info _ h
      (get-AreSetUpFirst channel c.media_channel_info h)
Step-IsOrderly (sets_up_tcp c conn channel rtp rtcp) h = tcp-IsOrderly conn channel rtp rtcp c h
Step-IsOrderly (sets_up_udp c conn peer attempt channel rtp rtcp) h =
    udp-IsOrderly conn peer attempt channel rtp rtcp c h
Step-IsOrderly (plays c) h = ground arith
Step-IsOrderly (records c) h = ground arith
Step-IsOrderly (tears_down c) h = ground arith
Step-IsOrderly (runs c d env channel pkt sent e) h =
    run_task-keeps IsOrderly (λ t c h. unfold set_frame_type in h)
      (λ channel pkt c h.
        AreSetUpFirst-put channel c.media_channel_info _ h
          (unfold advance_channel in get-AreSetUpFirst channel c.media_channel_info h))
      (λ c h. unfold teardown in ground arith) env channel pkt sent c d h e

-- Whatever is done to a new connection, a channel that plays or records has been set up.
pub Reach-IsSetUpFirst :
    (memory : RtpConnection) (rd : Channels Seeds) (c : RtpConnection) (channel : MediaChannelId)
    → Reach (init memory rd) c
    → IsSetUpFirst (info c channel)
unfolding init
Reach-IsSetUpFirst memory rd c channel r = get-AreSetUpFirst channel c.media_channel_info (go r)
  where
    go : {d : RtpConnection} → Reach (init memory rd) d → IsOrderly d
    go here = (λ e. cc, λ e. cc)
    go (next r' st) = Step-IsOrderly st (go r')
