-- ===== src/H264Source.antt =====
-- src/media/h264_source.cc: H264Source::handleFrame, which cuts a frame into RTP packets. The
-- callback is a function on a state `S` that stands for all that it changes; `none` as the callback
-- is an empty `std::function`. A fault (a read or a write outside of an allocation) is `none`.
pub mod Packets
pub mod Streams
pub mod Receiver
pub mod Reassemble
pub mod Labels
use rtsp_server.Base.{
  ℕ, zero, suc, ◌+◌, ◌-◌, ◌*◌, ◌/◌, ◌%◌, ◌^◌, Bool, true, false, List, [], ◌∷◌, Option, none, some,
  ◌>>=◌, Bytes, leb, ltb, ◌==◌, if◌then◌else◌, read, write, get_elem?, bit_and, bit_or,
}
use rtsp_server.Media.{
  MediaChannelId, AvFrame, RtpPacket, new_packet, rtp_header_size, max_rtp_payload_size,
  packet_capacity,
}

abbrev pub u32 : ℕ → ℕ
u32 n = n % 2 ^ 32

-- `getTimestamp`, from the microseconds that the steady clock counts.
unfoldable pub get_timestamp : ℕ → ℕ
get_timestamp micros = u32 ((micros + 500) / 1000 * 90)

-- `if(frame.timestamp == 0) frame.timestamp = getTimestamp();`
unfoldable pub stamp : ℕ → AvFrame → AvFrame
unfolding get_timestamp
stamp micros frame =
    if frame.timestamp == 0 then record frame { timestamp = get_timestamp micros } else frame

-- FU_A[0] and FU_A[1] before the loop, from the first byte of the frame.
pub fu_indicator : ℕ → ℕ
fu_indicator b = bit_or (bit_and b 0xE0) 28

pub fu_header : ℕ → ℕ
fu_header b = bit_or 0x80 (bit_and b 0x1f)

-- `FU_A[1] &= ~0x80` and `FU_A[1] |= 0x40` on an eight-bit value.
pub clear_start : ℕ → ℕ
clear_start h = bit_and h 0x7f

pub set_end : ℕ → ℕ
set_end h = bit_or h 0x40

-- The packet of a frame that is sent whole.
pub single_packet : Bytes → AvFrame → Option RtpPacket
single_packet memory frame = do
  payload ← read frame.buffer 0 frame.size
  bytes ← write memory (4 + rtp_header_size) payload
  some (record (new_packet memory) {
    bytes = bytes;
    type = frame.type;
    timestamp = frame.timestamp;
    size = u32 (frame.size + 4 + rtp_header_size);
    last = 1;
  })

-- A packet that holds the two FU bytes and `n` bytes of the frame from `off` on.
pub fragment : Bytes → AvFrame → ℕ → ℕ → ℕ → ℕ → ℕ → Option RtpPacket
fragment memory frame indicator header off n last = do
  bytes0 ← write memory (rtp_header_size + 4) (indicator ∷ [])
  bytes1 ← write bytes0 (rtp_header_size + 5) (header ∷ [])
  payload ← read frame.buffer off n
  bytes ← write bytes1 (4 + rtp_header_size + 2) payload
  some (record (new_packet memory) {
    bytes = bytes;
    type = frame.type;
    timestamp = frame.timestamp;
    size = u32 (4 + rtp_header_size + 2 + n);
    last = last;
  })

-- `if(!_sendFrameCallback(…)) return false;` and what follows it.
abbrev pub proceed {ℓ κ} : {S : Type ℓ} {R : Type κ} → S × Bool → (S → R) → (S → R) → R
proceed (s, true) go stop = go s
proceed (s, false) go stop = stop s

module _ {ℓ} {S : Type ℓ} (callback : Option (S → MediaChannelId → RtpPacket → S × Bool)) where
  -- `_sendFrameCallback(channelId, rtpPkt)`, and true if there is none.
  unfoldable pub send : S → MediaChannelId → RtpPacket → S × Bool
  send s channel packet = elim callback [ none ↦ (s, true) | some f ↦ f s channel packet ]

  -- The loop, and the packet with the end bit behind it. `off` is `frameBuf` as an offset into the
  -- frame and `left` is `frameSize`; the fuel bounds the rounds. `memory off` is what the memory
  -- allocated for the packet with the bytes from `off` on holds.
  unfoldable pub send_fragments :
      ℕ → (ℕ → Bytes) → AvFrame → MediaChannelId → ℕ → ℕ → ℕ → ℕ → S → Option (S × Bool)
  send_fragments zero memory frame channel indicator header off left s = none
  send_fragments (suc fuel) memory frame channel indicator header off left s =
      elim (ltb max_rtp_payload_size (u32 (left + 2))) [
        | true ↦ (do
          packet ← fragment (memory off) frame indicator header off (max_rtp_payload_size - 2) 0
          proceed (send s channel packet)
              (λ s'.
                send_fragments fuel memory frame channel indicator (clear_start header)
                  (off + (max_rtp_payload_size - 2)) (left - (max_rtp_payload_size - 2)) s')
              (λ s'. some (s', false)))
        | false ↦ (do
          packet ← fragment (memory off) frame indicator (set_end header) off left 1
          proceed (send s channel packet) (λ s'. some (s', true)) (λ s'. some (s', false)))
      ]

  -- `handleFrame` behind the statement that sets the timestamp.
  unfoldable pub send_frame : (ℕ → Bytes) → MediaChannelId → AvFrame → S → Option (S × Bool)
  send_frame memory channel frame s =
      if leb frame.size max_rtp_payload_size
      then (do
        packet ← single_packet (memory 0) frame
        proceed (send s channel packet) (λ s'. some (s', true)) (λ s'. some (s', false)))
      else (do
        first ← get_elem? frame.buffer 0
        send_fragments frame.size memory frame channel (fu_indicator first) (fu_header first) 1
            (frame.size - 1) s)

  unfoldable pub handle_frame : ℕ → (ℕ → Bytes) → MediaChannelId → AvFrame → S → Option (S × Bool)
  handle_frame micros memory channel frame s = send_frame memory channel (stamp micros frame) s
