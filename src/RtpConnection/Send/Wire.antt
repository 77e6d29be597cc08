-- ===== src/RtpConnection/Send/Wire.antt =====
-- src/media/rtp_connection.cc: what a packet looks like on the network, read by the layout of RFC
-- 3550 and, over TCP, of the interleaved frames of RFC 2326.
use rtsp_server.Base.{
  ℕ, Bytes, Bool, true, Option, none, some, ◌∷◌, ◌++◌, ◌+◌, ◌*◌, ◌/◌, ◌%◌, ◌^◌, ◌<◌, ◌≡◌, refl,
  arith, ◌==◌, ◌&&◌, if◌then◌else◌, length, bit_and, all_below, all_below_sound,
}
use rtsp_server.Media.{RtpPacket, packet_capacity}
use rtsp_server.RtpConnection.{MediaChannelInfo, htons, htonl}
use rtsp_server.RtpConnection.Send.{header_bytes, next_header}

-- The fixed part of an RTP packet, by RFC 3550: all numbers in network byte order.
pub record RtpFields : Type 0 where
  pub version : ℕ
  pub padding : ℕ
  pub extension : ℕ
  pub csrc_count : ℕ
  pub marker : ℕ
  pub payload_type : ℕ
  pub sequence : ℕ
  pub time : ℕ
  pub source : ℕ

unfoldable pub decode_rtp : Bytes → Option (RtpFields × Bytes)
decode_rtp (b0 ∷ b1 ∷ s1 ∷ s0 ∷ t3 ∷ t2 ∷ t1 ∷ t0 ∷ r3 ∷ r2 ∷ r1 ∷ r0 ∷ body) = some (
  record {
    version = b0 / 64;
    padding = b0 / 32 % 2;
    extension = b0 / 16 % 2;
    csrc_count = b0 % 16;
    marker = b1 / 128;
    payload_type = b1 % 128;
    sequence = s1 * 256 + s0;
    time = t3 * 2 ^ 24 + t2 * 2 ^ 16 + t1 * 256 + t0;
    source = r3 * 2 ^ 24 + r2 * 2 ^ 16 + r1 * 256 + r0;
  },
  body,
)
decode_rtp _ = none

-- What the channel means to say in the header of `pkt`.
unfoldable pub fields_of : MediaChannelInfo → RtpPacket → RtpFields
fields_of i pkt = record {
  version = i.rtp_header.version % 4;
  padding = i.rtp_header.padding % 2;
  extension = i.rtp_header.extension % 2;
  csrc_count = i.rtp_header.cc % 16;
  marker = pkt.last % 2;
  payload_type = i.rtp_header.payload % 128;
  sequence = i.packet_seq % 2 ^ 16;
  time = pkt.timestamp % 2 ^ 32;
  source = htonl i.rtp_header.ssrc;
}

swapped_time :
    (t : ℕ)
    → htonl t % 256 * 2 ^ 24
        + htonl t / 256 % 256 * 2 ^ 16
        + htonl t / 2 ^ 16 % 256 * 256
        + htonl t / 2 ^ 24 % 256
      ≡ t % 2 ^ 32
unfolding htonl
swapped_time t = omega arith

swapped_seq : (n : ℕ) → htons n % 256 * 256 + htons n / 256 % 256 ≡ n % 2 ^ 16
unfolding htons
swapped_seq n = omega arith

source_lem :
    (n : ℕ)
    → n % 256 * 2 ^ 24 + n / 256 % 256 * 2 ^ 16 + n / 2 ^ 16 % 256 * 256 + n / 2 ^ 24 % 256
      ≡ htonl n
unfolding htonl
source_lem n = refl

pub decode_rtp-header_bytes :
    (i : MediaChannelInfo) (pkt : RtpPacket) (body : Bytes)
    → decode_rtp (header_bytes (next_header i pkt) ++ body) ≡ some (fields_of i pkt, body)
unfolding decode_rtp header_bytes next_header fields_of
decode_rtp-header_bytes i pkt body =
    ground
      (arith, swapped_seq i.packet_seq, swapped_time pkt.timestamp, source_lem i.rtp_header.ssrc)

-- A frame on the TCP connection, by RFC 2326: a dollar sign, the channel, the length of what
-- follows in network byte order, and the RTP packet.
unfoldable pub decode_interleaved : Bytes → Option (ℕ × RtpFields × Bytes)
decode_interleaved (d ∷ channel ∷ hi ∷ lo ∷ packet) =
    if d == b'$' && hi * 256 + lo == length packet
    then (elim (decode_rtp packet) [
      | none ↦ none
      | some (fields, body) ↦ some (channel, fields, body)
    ])
    else none
decode_interleaved _ = none

-- The two length bytes, for each length that fits in the memory of a packet.
length_table : ℕ → Bool
length_table n = bit_and n 0xFF00 / 256 * 256 + bit_and n 0xFF == n

length_table_all : all_below packet_capacity length_table ≡ true
unfolding all_below length_table
length_table_all = refl

pub length_bytes : (n : ℕ) → n < packet_capacity → bit_and n 0xFF00 / 256 * 256 + bit_and n 0xFF ≡ n
unfolding length_table
length_bytes n h = ground (arith, all_below_sound packet_capacity length_table n length_table_all h)
