-- ===== src/RtpConnection.antt =====
-- src/media/rtp.h (RtpHeader, MediaChannelInfo), src/media/rtp_connection.h and
-- src/media/rtp_connection.cc: the state of an RtpConnection and the operations that touch nothing
-- else. `_tcpConn.lock()` is an argument where a method calls it: `none` once the TCP connection is
-- gone. The children hold the set-up of transports and the sending of packets.
pub mod Setup
pub mod Send
pub mod Info
pub mod Lifecycle
use rtsp_server.Base.{
  ℕ, Bytes, [], Bool, true, false, Option, none, some, ◌+◌, ◌*◌, ◌/◌, ◌%◌, ◌^◌, ◌&&◌, ◌||◌, not,
  ◌==◌, if◌then◌else◌,
}
use rtsp_server.Base.Int.{ℤ, pos}
use rtsp_server.Media.{
  MediaChannelId, Channels, get, put, each, TransportMode, video_frame_i, rtp_version,
}

-- The fields of the struct; `seq`, `ts` and `ssrc` hold what `htons` and `htonl` return.
pub record RtpHeader : Type 0 where
  pub cc : ℕ
  pub extension : ℕ
  pub padding : ℕ
  pub version : ℕ
  pub payload : ℕ
  pub marker : ℕ
  pub seq : ℕ
  pub ts : ℕ
  pub ssrc : ℕ

pub record MediaChannelInfo : Type 0 where
  pub rtp_header : RtpHeader
  pub rtp_channel : ℕ
  pub rtcp_channel : ℕ
  pub rtp_port : ℕ
  pub rtcp_port : ℕ
  pub packet_seq : ℕ
  pub clock_rate : ℕ
  pub packet_count : ℕ
  pub octet_count : ℕ
  pub last_rtcp_ntp_time : ℕ
  pub is_setup : Bool
  pub is_play : Bool
  pub is_record : Bool

-- `struct sockaddr_in`, with the family left out: it is AF_INET wherever it is set.
pub record SockAddr : Type 0 where
  pub addr : ℕ
  pub port : ℕ

-- What a locked `_tcpConn` is asked for.
pub record TcpConnection : Type 0 where
  pub fd : ℕ
  pub name : Bytes

pub record RtpConnection : Type 0 where
  pub is_closed : Bool
  pub has_idr_frame : Bool
  pub transport_mode : TransportMode
  pub frame_type : ℕ
  pub local_rtp_port : Channels ℕ
  pub local_rtcp_port : Channels ℕ
  pub rtpfd : Channels ℤ
  pub rtcpfd : Channels ℤ
  pub peer_addr : SockAddr
  pub peer_rtp_addr : Channels SockAddr
  pub peer_rtcp_addr : Channels SockAddr
  pub media_channel_info : Channels MediaChannelInfo

-- `htons` and `htonl` on a little-endian host.
unfoldable pub htons : ℕ → ℕ
htons n = n % 256 * 256 + n / 256 % 256

unfoldable pub htonl : ℕ → ℕ
htonl n = n % 256 * 2 ^ 24 + n / 256 % 256 * 2 ^ 16 + n / 2 ^ 16 % 256 * 256 + n / 2 ^ 24 % 256

-- Three values of the random device for a channel.
pub record Seeds : Type 0 where
  pub seq : ℕ
  pub ts : ℕ
  pub ssrc : ℕ

unfoldable pub init_channel : Seeds → MediaChannelInfo
init_channel rd = record {
  rtp_header = record {
    cc = 0;
    extension = 0;
    padding = 0;
    version = rtp_version;
    payload = 0;
    marker = 0;
    seq = 0;
    ts = htonl rd.ts;
    ssrc = htonl rd.ssrc;
  };
  rtp_channel = 0;
  rtcp_channel = 0;
  rtp_port = 0;
  rtcp_port = 0;
  packet_seq = rd.seq % 0xffff;
  clock_rate = 0;
  packet_count = 0;
  octet_count = 0;
  last_rtcp_ntp_time = 0;
  is_setup = false;
  is_play = false;
  is_record = false;
}

-- The constructor. `memory` is the object before: the transport mode, the ports and the addresses
-- are not initialised.
unfoldable pub init : RtpConnection → Channels Seeds → RtpConnection
unfolding init_channel
init memory rd = record memory {
  is_closed = false;
  has_idr_frame = false;
  frame_type = 0;
  rtpfd = record { at_0 = pos 0; at_1 = pos 0 };
  rtcpfd = record { at_0 = pos 0; at_1 = pos 0 };
  media_channel_info = record { at_0 = init_channel (rd.at_0); at_1 = init_channel (rd.at_1) };
}

-- `_mediaChannelInfo[channelId] = …`
abbrev pub info : RtpConnection → MediaChannelId → MediaChannelInfo
info c channel = get c.media_channel_info channel

abbrev pub put_info : RtpConnection → MediaChannelId → MediaChannelInfo → RtpConnection
put_info c channel i = record c { media_channel_info = put c.media_channel_info channel i }

unfoldable pub set_clock_rate : MediaChannelId → ℕ → RtpConnection → RtpConnection
set_clock_rate channel rate c = put_info c channel (record (info c channel) { clock_rate = rate })

-- The bit-field keeps 7 bits.
unfoldable pub set_payload_type : MediaChannelId → ℕ → RtpConnection → RtpConnection
set_payload_type channel payload c =
    let i = info c channel in
    put_info c channel (record i { rtp_header = record i.rtp_header { payload = payload % 128 } })

pub get_rtp_port : RtpConnection → MediaChannelId → ℕ
get_rtp_port c channel = get c.local_rtp_port channel

pub get_rtcp_port : RtpConnection → MediaChannelId → ℕ
get_rtcp_port c channel = get c.local_rtcp_port channel

unfoldable pub is_setup : RtpConnection → MediaChannelId → Bool
is_setup c channel = (info c channel).is_setup

abbrev pub play_channel : MediaChannelInfo → MediaChannelInfo
play_channel i = if i.is_setup then record i { is_play = true } else i

unfoldable pub play : RtpConnection → RtpConnection
play c = record c { media_channel_info = each play_channel c.media_channel_info }

abbrev pub record_channel : MediaChannelInfo → MediaChannelInfo
record_channel i = if i.is_setup then record i { is_record = true; is_play = true } else i

-- `record`
unfoldable pub start_record : RtpConnection → RtpConnection
start_record c = record c { media_channel_info = each record_channel c.media_channel_info }

abbrev pub stop_channel : MediaChannelInfo → MediaChannelInfo
stop_channel i = record i { is_record = false; is_play = false }

unfoldable pub teardown : RtpConnection → RtpConnection
teardown c =
    if not c.is_closed
    then record c { is_closed = true; media_channel_info = each stop_channel c.media_channel_info }
    else c

-- `setFrameType`, on an eight-bit value.
unfoldable pub set_frame_type : ℕ → RtpConnection → RtpConnection
set_frame_type frame_type c = record c {
  frame_type = frame_type;
  has_idr_frame = c.has_idr_frame || (frame_type == 0 || frame_type == video_frame_i);
}

-- `getId`
pub get_id : Option TcpConnection → Bytes
get_id none = []
get_id (some conn) = conn.name
