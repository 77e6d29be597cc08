-- ===== src/RtpConnection/Setup/Targets.antt =====
-- src/media/rtp_connection.cc: the state and the addresses after setupRtpOverUdp.
use rtsp_server.Base.{
  ℕ, true, false, Bool, Option, none, some, List, [], ◌^◌, ◌<◌, ◌≡◌, ◌≢◌, refl, ap, arith,
}
use rtsp_server.Media.{MediaChannelId, channel_0, channel_1, Channels, get, rtp_over_udp}
use rtsp_server.RtpConnection.{
  MediaChannelInfo, RtpConnection, TcpConnection, SockAddr, info, htons,
}
use rtsp_server.RtpConnection.Setup.{
  Attempt, SystemCall, finish_udp, start_udp, settle_udp, setup_rtp_over_udp,
}
use rtsp_server.RtpConnection.Setup.Ports.{HasPorts, IsKept, try_ports-lem}

-- What a call of `setupRtpOverUdp` has done to the channel when it answers true.
pub record IsOverUdp (channel : MediaChannelId) (peer : SockAddr) (rtp_port rtcp_port : ℕ)
    (c : RtpConnection) : Type 0 where
  pub ports : HasPorts channel c
  pub setup : (info c channel).is_setup ≡ true
  pub client_rtp : (info c channel).rtp_port ≡ rtp_port
  pub client_rtcp : (info c channel).rtcp_port ≡ rtcp_port
  pub transport : c.transport_mode ≡ rtp_over_udp
  pub rtp_host : (get c.peer_rtp_addr channel).addr ≡ peer.addr
  pub rtp_target : (get c.peer_rtp_addr channel).port ≡ htons rtcp_port
  pub rtcp_host : (get c.peer_rtcp_addr channel).addr ≡ peer.addr
  pub rtcp_target : (get c.peer_rtcp_addr channel).port ≡ htons rtcp_port

settle_udp-IsOverUdp :
    (channel : MediaChannelId) (peer : SockAddr) (rtp_port rtcp_port : ℕ) (c : RtpConnection)
    (r : RtpConnection × List SystemCall × Bool)
    → IsKept (start_udp peer channel rtp_port rtcp_port c) r.0
    → (r.2 ≡ true → HasPorts channel r.0)
    → (settle_udp channel r).2 ≡ true
    → IsOverUdp channel peer rtp_port rtcp_port (settle_udp channel r).0
unfolding settle_udp finish_udp start_udp
settle_udp-IsOverUdp channel peer rtp_port rtcp_port c (c', calls, false) k h e = cc
settle_udp-IsOverUdp channel_0 peer rtp_port rtcp_port c (c', calls, true) k h e =
    let port_of = λ (m : Channels MediaChannelInfo). m.at_0.rtp_port in
    let rtcp_of = λ (m : Channels MediaChannelInfo). m.at_0.rtcp_port in
    let host = ap (λ (s : SockAddr). s.addr) k.peer in
    let target = ap htons (ap rtcp_of k.infos) in
    let p = h refl in
    record {
      ports = record { even = p.even; next = p.next; small = p.small };
      setup = refl;
      client_rtp = ap port_of k.infos;
      client_rtcp = ap rtcp_of k.infos;
      transport = refl;
      rtp_host = host;
      rtp_target = target;
      rtcp_host = host;
      rtcp_target = target;
    }
settle_udp-IsOverUdp channel_1 peer rtp_port rtcp_port c (c', calls, true) k h e =
    let port_of = λ (m : Channels MediaChannelInfo). m.at_1.rtp_port in
    let rtcp_of = λ (m : Channels MediaChannelInfo). m.at_1.rtcp_port in
    let host = ap (λ (s : SockAddr). s.addr) k.peer in
    let target = ap htons (ap rtcp_of k.infos) in
    let p = h refl in
    record {
      ports = record { even = p.even; next = p.next; small = p.small };
      setup = refl;
      client_rtp = ap port_of k.infos;
      client_rtcp = ap rtcp_of k.infos;
      transport = refl;
      rtp_host = host;
      rtp_target = target;
      rtcp_host = host;
      rtcp_target = target;
    }

-- When `setupRtpOverUdp` answers true, the local ports of the channel are an even one and the next,
-- both below 2 ^ 16; the channel is set up with the client's two ports; and the addresses for RTP
-- and for RTCP both have the peer's host and the client's RTCP port.
pub setup_rtp_over_udp-IsOverUdp :
    (conn : Option TcpConnection) (peer : SockAddr) (attempt : ℕ → Attempt)
    (channel : MediaChannelId) (rtp_port rtcp_port : ℕ) (c : RtpConnection)
    → (setup_rtp_over_udp conn peer attempt channel rtp_port rtcp_port c).2 ≡ true
    → IsOverUdp channel peer rtp_port rtcp_port
        (setup_rtp_over_udp conn peer attempt channel rtp_port rtcp_port c).0
unfolding setup_rtp_over_udp
setup_rtp_over_udp-IsOverUdp none peer attempt channel rtp_port rtcp_port c e = cc
setup_rtp_over_udp-IsOverUdp (some conn) peer attempt channel rtp_port rtcp_port c e =
    let (k, h) =
      try_ports-lem 10 0 attempt channel (start_udp peer channel rtp_port rtcp_port c) [] in
    settle_udp-IsOverUdp channel peer rtp_port rtcp_port c _ k h e

-- The RTP packets of a channel over UDP never go to the client's RTP port, unless it is also its
-- RTCP port: the address that they are sent to has the RTCP port.
pub rtp_target_wrong :
    (conn : Option TcpConnection) (peer : SockAddr) (attempt : ℕ → Attempt)
    (channel : MediaChannelId) (rtp_port rtcp_port : ℕ) (c : RtpConnection)
    → rtp_port < 2 ^ 16
    → rtcp_port < 2 ^ 16
    → rtp_port ≢ rtcp_port
    → (setup_rtp_over_udp conn peer attempt channel rtp_port rtcp_port c).2 ≡ true
    → (get
        (setup_rtp_over_udp conn peer attempt channel rtp_port rtcp_port c).0.peer_rtp_addr
        channel).port
      ≢ htons rtp_port
unfolding htons
rtp_target_wrong conn peer attempt channel rtp_port rtcp_port c p q ne e same =
    let over = setup_rtp_over_udp-IsOverUdp conn peer attempt channel rtp_port rtcp_port c e in
    ne (omega (arith, over.rtp_target, same))
