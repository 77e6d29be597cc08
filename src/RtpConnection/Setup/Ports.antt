-- ===== src/RtpConnection/Setup/Ports.antt =====
-- src/media/rtp_connection.cc: the ports, the sockets and the addresses that setupRtpOverUdp leaves.
use rtsp_server.Base.{
  ℕ, zero, suc, Bool, true, false, Option, none, some, List, [], ◌∷◌, ◌++◌, ◌+◌, ◌%◌, ◌^◌, ◌<◌, ◌≡◌,
  refl, ap, arith, Bool-cases, inl, inr, bit_and-le, bit_and-mod_two, ◌==◌, if◌then◌else◌,
}
use rtsp_server.Base.Int.{ℤ, pos, negsuc}
use rtsp_server.Media.{MediaChannelId, channel_0, channel_1, Channels, get, put}
use rtsp_server.RtpConnection.{RtpConnection, TcpConnection, SockAddr}
use rtsp_server.RtpConnection.Setup.{
  Attempt, SystemCall, opened, closed, try_rtp, try_rtcp, try_ports, finish_udp, start_udp,
  settle_udp, setup_rtp_over_udp,
}

abbrev pub same_fd : ℤ → ℤ → ℕ
same_fd (pos a) (pos b) = if a == b then 1 else 0
same_fd (negsuc a) (negsuc b) = if a == b then 1 else 0
same_fd (pos a) (negsuc b) = 0
same_fd (negsuc a) (pos b) = 0

-- How often a descriptor was returned by `socket`, and how often it was closed.
abbrev pub times_opened : ℤ → List SystemCall → ℕ
times_opened fd [] = 0
times_opened fd (opened g ∷ calls) = same_fd fd g + times_opened fd calls
times_opened fd (closed g ∷ calls) = times_opened fd calls

abbrev pub times_closed : ℤ → List SystemCall → ℕ
times_closed fd [] = 0
times_closed fd (opened g ∷ calls) = times_closed fd calls
times_closed fd (closed g ∷ calls) = same_fd fd g + times_closed fd calls

times_opened-append :
    (fd : ℤ) (xs ys : List SystemCall)
    → times_opened fd (xs ++ ys) ≡ times_opened fd xs + times_opened fd ys
times_opened-append fd [] ys = omega arith
times_opened-append fd (opened g ∷ xs) ys = omega (arith, times_opened-append fd xs ys)
times_opened-append fd (closed g ∷ xs) ys = omega (arith, times_opened-append fd xs ys)

times_closed-append :
    (fd : ℤ) (xs ys : List SystemCall)
    → times_closed fd (xs ++ ys) ≡ times_closed fd xs + times_closed fd ys
times_closed-append fd [] ys = omega arith
times_closed-append fd (opened g ∷ xs) ys = omega (arith, times_closed-append fd xs ys)
times_closed-append fd (closed g ∷ xs) ys = omega (arith, times_closed-append fd xs ys)

-- What is still open is the two sockets of the channel, after a success, and nothing otherwise.
abbrev pub IsBalanced : MediaChannelId → RtpConnection × List SystemCall × Bool → ℤ → Type 0
IsBalanced channel r fd =
    times_opened fd r.1
    ≡ times_closed fd r.1
      + (if r.2
          then same_fd fd (get r.0.rtpfd channel) + same_fd fd (get r.0.rtcpfd channel)
          else 0)

get-put {ℓ} :
    {A : Type ℓ} (a : Channels A) (channel : MediaChannelId) (v : A)
    → get (put a channel v) channel ≡ v
get-put a channel_0 v = refl
get-put a channel_1 v = refl

try_ports-IsBalanced :
    (rounds n : ℕ) (attempt : ℕ → Attempt) (channel : MediaChannelId) (c : RtpConnection)
    (calls : List SystemCall) (fd : ℤ)
    → times_opened fd calls ≡ times_closed fd calls
    → IsBalanced channel (try_ports rounds n attempt channel c calls) fd
unfolding try_ports
try_ports-IsBalanced zero n attempt channel c calls fd h = omega arith
try_ports-IsBalanced (suc rounds) n attempt channel c calls fd h =
    let a = attempt n in
    let rtp = opened a.rtp_fd ∷ closed a.rtp_fd ∷ [] in
    let both = opened a.rtp_fd ∷ opened a.rtcp_fd ∷ closed a.rtcp_fd ∷ closed a.rtp_fd ∷ [] in
    let kept = opened a.rtp_fd ∷ opened a.rtcp_fd ∷ [] in
    elim (Bool-cases a.rtp_bound) [
      | inr no_rtp ↦
          rw (no_rtp, try_ports)
            (try_ports-IsBalanced rounds (n + 1) attempt channel (try_rtp channel a c)
              (calls ++ rtp) fd
              (omega (arith, times_opened-append fd calls rtp, times_closed-append fd calls rtp)))
      | inl yes_rtp ↦ elim (Bool-cases a.rtcp_bound) [
        | inr no_rtcp ↦
            rw (yes_rtp, no_rtcp, try_ports)
              (try_ports-IsBalanced rounds (n + 1) attempt channel (try_rtcp channel a c)
                (calls ++ both) fd
                (omega
                  (arith, times_opened-append fd calls both, times_closed-append fd calls both)))
        | inl yes_rtcp ↦
            rw (yes_rtp, yes_rtcp, try_ports)
              (unfold try_rtcp in
                omega (
                  arith,
                  times_opened-append fd calls kept,
                  times_closed-append fd calls kept,
                  ap (same_fd fd) (get-put c.rtpfd channel a.rtp_fd),
                  ap (same_fd fd) (get-put c.rtcpfd channel a.rtcp_fd),
                ))
      ]
    ]

-- What `try_ports` guarantees of the connection when it reaches `break`.
pub record HasPorts (channel : MediaChannelId) (c : RtpConnection) : Type 0 where
  pub even : get c.local_rtp_port channel % 2 ≡ 0
  pub next : get c.local_rtcp_port channel ≡ get c.local_rtp_port channel + 1
  pub small : get c.local_rtcp_port channel < 2 ^ 16

try_rtcp-HasPorts :
    (channel : MediaChannelId) (a : Attempt) (c : RtpConnection)
    → HasPorts channel (try_rtcp channel a c)
unfolding try_rtcp
try_rtcp-HasPorts channel_0 a c =
    let bound = bit_and-le a.random 0xfffe in
    let parity = bit_and-mod_two a.random 0xfffe refl in
    record { even = parity; next = omega (arith, bound); small = omega (arith, bound) }
try_rtcp-HasPorts channel_1 a c =
    let bound = bit_and-le a.random 0xfffe in
    let parity = bit_and-mod_two a.random 0xfffe refl in
    record { even = parity; next = omega (arith, bound); small = omega (arith, bound) }

-- The loop leaves the fields alone that are not about its own sockets and ports.
pub record IsKept (c c' : RtpConnection) : Type 0 where
  pub infos : c'.media_channel_info ≡ c.media_channel_info
  pub peer : c'.peer_addr ≡ c.peer_addr
  pub flag : c'.is_closed ≡ c.is_closed

IsKept-try_rtp :
    (channel : MediaChannelId) (a : Attempt) {c c' : RtpConnection}
    → IsKept (try_rtp channel a c) c'
    → IsKept c c'
unfolding try_rtp
IsKept-try_rtp channel a k = record { infos = k.infos; peer = k.peer; flag = k.flag }

IsKept-try_rtcp :
    (channel : MediaChannelId) (a : Attempt) {c c' : RtpConnection}
    → IsKept (try_rtcp channel a c) c'
    → IsKept c c'
unfolding try_rtcp
IsKept-try_rtcp channel a k = record { infos = k.infos; peer = k.peer; flag = k.flag }

pub try_ports-lem :
    (rounds n : ℕ) (attempt : ℕ → Attempt) (channel : MediaChannelId) (c : RtpConnection)
    (calls : List SystemCall)
    → let r = try_ports rounds n attempt channel c calls in
      IsKept c r.0 × (r.2 ≡ true → HasPorts channel r.0)
unfolding try_ports
try_ports-lem zero n attempt channel c calls =
    (record { infos = refl; peer = refl; flag = refl }, λ e. cc)
try_ports-lem (suc rounds) n attempt channel c calls =
    let a = attempt n in
    elim (Bool-cases a.rtp_bound) [
      | inr no_rtp ↦
          let (k, h) =
            try_ports-lem rounds (n + 1) attempt channel (try_rtp channel a c)
              (calls ++ (opened a.rtp_fd ∷ closed a.rtp_fd ∷ [])) in
          rw (no_rtp, try_ports) (IsKept-try_rtp channel a k, h)
      | inl yes_rtp ↦ elim (Bool-cases a.rtcp_bound) [
        | inr no_rtcp ↦
            let (k, h) = try_ports-lem rounds (n + 1) attempt channel (try_rtcp channel a c) (
              calls
              ++ (opened a.rtp_fd ∷ opened a.rtcp_fd ∷ closed a.rtcp_fd ∷ closed a.rtp_fd ∷ [])) in
            rw (yes_rtp, no_rtcp, try_ports) (IsKept-try_rtcp channel a k, h)
        | inl yes_rtcp ↦
            rw (yes_rtp, yes_rtcp, try_ports)
              (
                IsKept-try_rtcp channel a (record { infos = refl; peer = refl; flag = refl }),
                λ e. try_rtcp-HasPorts channel a c,
              )
      ]
    ]

settle_udp-IsBalanced :
    (channel : MediaChannelId) (r : RtpConnection × List SystemCall × Bool) (fd : ℤ)
    → IsBalanced channel r fd
    → IsBalanced channel (settle_udp channel r) fd
unfolding settle_udp finish_udp
settle_udp-IsBalanced channel (c, calls, true) fd h = h
settle_udp-IsBalanced channel (c, calls, false) fd h = h

-- A call of setupRtpOverUdp closes each descriptor as often as its own calls of `socket` returned it,
-- but for the two that the channel then has when it answers true, each of which stays open once more.
-- This is about the sockets that the call opens; it does not close the descriptors that the channel had
-- before, which it overwrites.
pub setup_rtp_over_udp-IsBalanced :
    (conn : Option TcpConnection) (peer : SockAddr) (attempt : ℕ → Attempt)
    (channel : MediaChannelId) (rtp_port rtcp_port : ℕ) (c : RtpConnection) (fd : ℤ)
    → IsBalanced channel (setup_rtp_over_udp conn peer attempt channel rtp_port rtcp_port c) fd
unfolding setup_rtp_over_udp
setup_rtp_over_udp-IsBalanced none peer attempt channel rtp_port rtcp_port c fd = omega arith
setup_rtp_over_udp-IsBalanced (some conn) peer attempt channel rtp_port rtcp_port c fd =
    settle_udp-IsBalanced channel _ fd (
      try_ports-IsBalanced 10 0 attempt channel (start_udp peer channel rtp_port rtcp_port c) [] fd
        refl)
