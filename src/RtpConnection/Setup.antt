-- ===== src/RtpConnection/Setup.antt =====
-- src/media/rtp_connection.cc: setupRtpOverTcp, setupRtpOverUdp and the destructor. The system calls
-- are a list of what was opened and closed; what `socket` and `bind` answer is an argument.
pub mod Ports
pub mod Targets
use rtsp_server.Base.{
  ℕ, zero, suc, Bool, true, false, not, Option, none, some, List, [], ◌∷◌, ◌++◌, ◌+◌, ◌%◌, ◌^◌,
  bit_and, if◌then◌else◌,
}
use rtsp_server.Base.Int.{ℤ, pos, above_zero}
use rtsp_server.Media.{
  MediaChannelId, channel_0, channel_1, get, put, TransportMode, rtp_over_tcp, rtp_over_udp,
}
use rtsp_server.RtpConnection.{RtpConnection, TcpConnection, SockAddr, info, put_info, htons}

unfoldable pub setup_rtp_over_tcp :
    Option TcpConnection → MediaChannelId → ℕ → ℕ → RtpConnection → RtpConnection × Bool
setup_rtp_over_tcp none channel rtp_channel rtcp_channel c = (c, false)
setup_rtp_over_tcp (some conn) channel rtp_channel rtcp_channel c =
    let c1 = put_info c channel (record (info c channel) {
      rtp_channel = rtp_channel;
      rtcp_channel = rtcp_channel;
      is_setup = true;
    }) in
    (
      record c1 {
        rtpfd = put c.rtpfd channel (pos conn.fd);
        rtcpfd = put c.rtcpfd channel (pos conn.fd);
        transport_mode = rtp_over_tcp;
      },
      true,
    )

-- What one round of the loop gets from outside: the random number, the two results of `socket`, and
-- whether the two calls of `bind` succeed.
pub record Attempt : Type 0 where
  pub random : ℕ
  pub rtp_fd : ℤ
  pub rtp_bound : Bool
  pub rtcp_fd : ℤ
  pub rtcp_bound : Bool

pub data SystemCall : Type 0 where
  opened closed : ℤ → SystemCall

-- A round up to the first `bind`, and up to the second.
unfoldable pub try_rtp : MediaChannelId → Attempt → RtpConnection → RtpConnection
try_rtp channel a c =
    let port = bit_and a.random 0xfffe in
    record c {
      local_rtp_port = put c.local_rtp_port channel port;
      local_rtcp_port = put c.local_rtcp_port channel ((port + 1) % 2 ^ 16);
      rtpfd = put c.rtpfd channel a.rtp_fd;
    }

unfoldable pub try_rtcp : MediaChannelId → Attempt → RtpConnection → RtpConnection
unfolding try_rtp
try_rtcp channel a c =
    let c1 = try_rtp channel a c in record c1 { rtcpfd = put c1.rtcpfd channel a.rtcp_fd }

-- The loop, with the rounds that are left; `attempt n` is what round `n` gets. The result is the
-- connection, the system calls made so far and whether `break` was reached.
unfoldable pub try_ports :
    ℕ
    → ℕ
    → (ℕ → Attempt)
    → MediaChannelId
    → RtpConnection
    → List SystemCall
    → RtpConnection × List SystemCall × Bool
try_ports zero n attempt channel c calls = (c, calls, false)
try_ports (suc rounds) n attempt channel c calls =
    let a = attempt n in
    elim a.rtp_bound [
      | false ↦
          try_ports rounds (n + 1) attempt channel (try_rtp channel a c)
            (calls ++ (opened a.rtp_fd ∷ closed a.rtp_fd ∷ []))
      | true ↦ elim a.rtcp_bound [
        | false ↦ try_ports rounds (n + 1) attempt channel (try_rtcp channel a c) (
            calls ++ (opened a.rtp_fd ∷ opened a.rtcp_fd ∷ closed a.rtcp_fd ∷ closed a.rtp_fd ∷ []))
        | true ↦ (try_rtcp channel a c, calls ++ (opened a.rtp_fd ∷ opened a.rtcp_fd ∷ []), true)
      ]
    ]

-- The statements behind the loop.
unfoldable pub finish_udp : MediaChannelId → RtpConnection → RtpConnection
finish_udp channel c =
    let i = info c channel in
    let peer : SockAddr = record { addr = c.peer_addr.addr; port = htons i.rtcp_port } in
    let c1 = put_info c channel (record i { is_setup = true }) in
    record c1 {
      peer_rtp_addr = put c.peer_rtp_addr channel peer;
      peer_rtcp_addr = put c.peer_rtcp_addr channel peer;
      transport_mode = rtp_over_udp;
    }

-- The statements before the loop; `peer` is what `getpeername` stores.
unfoldable pub start_udp : SockAddr → MediaChannelId → ℕ → ℕ → RtpConnection → RtpConnection
start_udp peer channel rtp_port rtcp_port c =
    let c1 =
      put_info c channel (record (info c channel) { rtp_port = rtp_port; rtcp_port = rtcp_port }) in
    record c1 { peer_addr = peer }

-- `return false` in the last round, and what is behind the loop.
unfoldable pub settle_udp :
    MediaChannelId → RtpConnection × List SystemCall × Bool → RtpConnection × List SystemCall × Bool
settle_udp channel (c, calls, true) = (finish_udp channel c, calls, true)
settle_udp channel (c, calls, false) = (c, calls, false)

unfoldable pub setup_rtp_over_udp :
    Option TcpConnection
    → SockAddr
    → (ℕ → Attempt)
    → MediaChannelId
    → ℕ
    → ℕ
    → RtpConnection
    → RtpConnection × List SystemCall × Bool
setup_rtp_over_udp none peer attempt channel rtp_port rtcp_port c = (c, [], false)
setup_rtp_over_udp (some conn) peer attempt channel rtp_port rtcp_port c =
    settle_udp channel
      (try_ports 10 0 attempt channel (start_udp peer channel rtp_port rtcp_port c) [])

-- The calls of `close` in the destructor, for one channel and for both.
abbrev close_if_open : ℤ → List SystemCall
close_if_open fd = if above_zero fd then closed fd ∷ [] else []

unfoldable pub destroy : RtpConnection → List SystemCall
destroy c =
    close_if_open c.rtpfd.at_0
    ++ (close_if_open c.rtcpfd.at_0 ++ (close_if_open c.rtpfd.at_1 ++ close_if_open c.rtcpfd.at_1))
