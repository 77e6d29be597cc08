-- ===== src/H264Source/Packets.antt =====
-- src/media/h264_source.cc: the packets of a frame, as a list, with the payload that each carries.
use rtsp_server.Base.{
  ℕ, zero, suc, ◌+◌, ◌-◌, ◌≤◌, ◌<◌, ◌≡◌, ap, ◌∙◌, List, [], ◌∷◌, some, arith, Bytes, length, take,
  drop, write_lem, read_lem, spliced, length-spliced, drop-spliced, length-take, length-drop,
  drop-take_append, take-append_of_eq, spliced_thrice, ltb, leb, ◌^◌, if◌then◌else◌,
}
use native.Mathlib.Nat.{mod-eq_of_lt}
use rtsp_server.Media.{AvFrame, RtpPacket, packet_capacity}
use rtsp_server.H264Source.{fragment, single_packet, clear_start, set_end, fu_indicator, fu_header}

-- What the packet carries behind the 4 bytes for RTP over TCP and the RTP header.
abbrev pub payload : RtpPacket → Bytes
payload p = take (p.size - 16) (drop 16 p.bytes)

-- The memory of a packet after `fragment` has filled it.
abbrev pub fragment_bytes : Bytes → Bytes → ℕ → ℕ → Bytes
fragment_bytes memory body indicator header =
    spliced (spliced (spliced memory 16 (indicator ∷ [])) 17 (header ∷ [])) 18 body

abbrev pub body_of : AvFrame → ℕ → ℕ → Bytes
body_of frame off n = take n (drop off frame.buffer)

pub length-body_of :
    (frame : AvFrame) (off n : ℕ) → off + n ≤ length frame.buffer → length (body_of frame off n) ≡ n
length-body_of frame off n h =
    omega (arith, length-take n (drop off frame.buffer), length-drop off frame.buffer)

-- The packet of a fragment.
unfoldable pub fragment_of : Bytes → AvFrame → ℕ → ℕ → ℕ → ℕ → ℕ → RtpPacket
fragment_of memory frame indicator header off n last = record {
  bytes = fragment_bytes memory (body_of frame off n) indicator header;
  size = 18 + n;
  timestamp = frame.timestamp;
  type = frame.type;
  last = last;
}

-- The packet of a whole frame.
unfoldable pub whole_of : Bytes → AvFrame → RtpPacket
whole_of memory frame = record {
  bytes = spliced memory 16 (take frame.size frame.buffer);
  size = frame.size + 4 + 12;
  timestamp = frame.timestamp;
  type = frame.type;
  last = 1;
}

module _ (memory : Bytes) (frame : AvFrame) (indicator header off n last : ℕ)
    (allocated : length memory ≡ packet_capacity) (inside : off + n ≤ length frame.buffer)
    (fits : n ≤ 1418) where
  -- A fragment of at most 1418 bytes of the frame reads and writes inside of the allocations.
  pub fragment_lem :
      fragment memory frame indicator header off n last
      ≡ some (fragment_of memory frame indicator header off n last)
  unfolding fragment fragment_of
  fragment_lem =
      let body = body_of frame off n in
      let len : length body ≡ n = length-body_of frame off n inside in
      let m0 = spliced memory 16 (indicator ∷ []) in
      let m1 = spliced m0 17 (header ∷ []) in
      let l0 : length m0 ≡ length memory =
        length-spliced memory 16 (indicator ∷ []) (omega arith) in
      let l1 : length m1 ≡ length m0 = length-spliced m0 17 (header ∷ []) (omega arith) in
      rw (
        write_lem memory 16 (indicator ∷ []) (omega arith),
        write_lem m0 17 (header ∷ []) (omega arith),
        read_lem frame.buffer off n inside,
        write_lem m1 18 body (omega arith),
        mod-eq_of_lt,
        (let e : 18 + n < 2 ^ 32 = omega arith in e),
      )

  pub payload-fragment_of :
      payload (fragment_of memory frame indicator header off n last)
      ≡ indicator ∷ header ∷ body_of frame off n
  unfolding fragment_of
  payload-fragment_of =
      let body = body_of frame off n in
      let len : length body ≡ n = length-body_of frame off n inside in
      let packed = fragment_bytes memory body indicator header in
      let size_eq : 18 + n - 16 ≡ suc (suc n) = omega arith in
      ap (λ k. take k (drop 16 packed)) size_eq
      ∙ ap (λ xs. take (suc (suc n)) (drop 16 xs))
          (spliced_thrice memory body 16 indicator header (omega arith))
      ∙ ap (take (suc (suc n))) (drop-take_append 16 memory _ (omega arith))
      ∙ ap (λ xs. indicator ∷ header ∷ xs) (take-append_of_eq n body _ len)

module _ (memory : Bytes) (frame : AvFrame) (allocated : length memory ≡ packet_capacity)
    (inside : frame.size ≤ length frame.buffer) (fits : frame.size ≤ 1420) where
  pub single_packet_lem : single_packet memory frame ≡ some (whole_of memory frame)
  unfolding single_packet whole_of
  single_packet_lem =
      let body = take frame.size frame.buffer in
      let len : length body ≡ frame.size = omega (arith, length-take frame.size frame.buffer) in
      rw (
        read_lem frame.buffer 0 frame.size (omega arith),
        write_lem memory 16 body (omega arith),
        mod-eq_of_lt,
        (let e : frame.size + 4 + 12 < 2 ^ 32 = omega arith in e),
      )

  pub payload-whole_of : payload (whole_of memory frame) ≡ take frame.size frame.buffer
  unfolding whole_of
  payload-whole_of =
      let body = take frame.size frame.buffer in
      let len : length body ≡ frame.size = omega (arith, length-take frame.size frame.buffer) in
      let size_eq : frame.size + 4 + 12 - 16 ≡ frame.size = omega arith in
      ap (λ k. take k (drop 16 (spliced memory 16 body))) size_eq
      ∙ ap (take frame.size) (drop-spliced memory 16 body (omega arith))
      ∙ take-append_of_eq frame.size body _ len

-- The packets of the loop and the one behind it.
unfoldable pub fragments : ℕ → (ℕ → Bytes) → AvFrame → ℕ → ℕ → ℕ → ℕ → List RtpPacket
fragments zero memory frame indicator header off left = []
fragments (suc fuel) memory frame indicator header off left =
    let rest =
      fragments fuel memory frame indicator (clear_start header) (off + 1418) (left - 1418) in
    if ltb 1420 (left + 2)
    then fragment_of (memory off) frame indicator header off 1418 0 ∷ rest
    else fragment_of (memory off) frame indicator (set_end header) off left 1 ∷ []

-- The packets of a frame whose first byte is `first`.
unfoldable pub packets : (ℕ → Bytes) → AvFrame → ℕ → List RtpPacket
packets memory frame first =
    if leb frame.size 1420
    then whole_of (memory 0) frame ∷ []
    else fragments frame.size memory frame (fu_indicator first) (fu_header first) 1 (frame.size - 1)
