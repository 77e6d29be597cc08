-- ===== src/Media.antt =====
-- src/media/media.h and src/media/rtp.h: the types that the other modules share. A number of w bits
-- is a number, reduced modulo 2 ^ w where the source stores it. Allocated memory is a list of bytes.
use rtsp_server.Base.{ℕ, Bytes}

-- Both arrays of MAX_MEDIA_CHANNEL entries and MediaChannelId have two members.
pub data MediaChannelId : Type 0 where
  channel_0 channel_1 : MediaChannelId

pub record Channels {ℓ} (A : Type ℓ) : Type ℓ where
  pub at_0 : A
  pub at_1 : A

module _ {ℓ} {A : Type ℓ} where
  -- `a[channelId]`
  abbrev pub get : Channels A → MediaChannelId → A
  get a MediaChannelId.channel_0 = a.at_0
  get a MediaChannelId.channel_1 = a.at_1

  -- `a[channelId] = v`
  abbrev pub put : Channels A → MediaChannelId → A → Channels A
  put a MediaChannelId.channel_0 v = record a { at_0 = v }
  put a MediaChannelId.channel_1 v = record a { at_1 = v }

  -- `for(int chn = 0; chn < MAX_MEDIA_CHANNEL; ++chn) a[chn] = f(a[chn])`
  abbrev pub each : (A → A) → Channels A → Channels A
  each f a = record { at_0 = f a.at_0; at_1 = f a.at_1 }

pub data TransportMode : Type 0 where
  rtp_over_tcp rtp_over_udp rtp_over_multicast : TransportMode

-- VIDEO_FRAME_I
abbrev pub video_frame_i : ℕ
video_frame_i = 1

abbrev pub rtp_version : ℕ
rtp_version = 2

abbrev pub rtp_header_size : ℕ
rtp_header_size = 12

abbrev pub rtp_tcp_head_size : ℕ
rtp_tcp_head_size = 4

abbrev pub max_rtp_payload_size : ℕ
max_rtp_payload_size = 1420

pub record AvFrame : Type 0 where
  pub buffer : Bytes
  pub size : ℕ
  pub type : ℕ
  pub timestamp : ℕ

pub record RtpPacket : Type 0 where
  pub bytes : Bytes
  pub size : ℕ
  pub timestamp : ℕ
  pub type : ℕ
  pub last : ℕ

-- The capacity of RtpPacket::data.
abbrev pub packet_capacity : ℕ
packet_capacity = 1600

-- The constructor of RtpPacket, on the memory that `new` returns.
abbrev pub new_packet : Bytes → RtpPacket
new_packet memory = record { bytes = memory; size = 0; timestamp = 0; type = 0; last = 0 }
