-- ===== src/H264Source/Reassemble.antt =====
-- src/media/h264_source.cc: a receiver that follows RFC 3984 puts the frame together again.
use rtsp_server.Base.{
  ℕ, zero, suc, ◌+◌, ◌-◌, ◌≤◌, ◌<◌, ◌≡◌, ap, ◌∙◌, sym, true, false, Bool, List, [], ◌∷◌, ◌++◌, map,
  some, arith, Bytes, get_elem?, take, drop, Bool-cases, ltb, leb, inl, inr, ltb→lt, lt→ltb, leb→le,
  not_leb→lt, take_add, drop-drop, append_assoc, append-nil,
}
use rtsp_server.Media.{MediaChannelId, AvFrame, RtpPacket}
use rtsp_server.H264Source.{
  stamp, clear_start, set_end, fu_indicator, fu_header, send, handle_frame,
}
use rtsp_server.H264Source.Packets.{
  payload, payload-fragment_of, payload-whole_of, fragments, packets,
}
use rtsp_server.H264Source.Streams.{
  IsSendable, deliver, handle_frame-deliver, stamp-IsSendable, buffer-stamp, size-stamp,
}
use rtsp_server.H264Source.Receiver.{is_fu_a, unfragment, receive, FuBytes, FuBytes-of_lt}

take_cons :
    (xs : Bytes) (n b : ℕ)
    → get_elem? xs 0 ≡ some b
    → 0 < n
    → take n xs ≡ b ∷ take (n - 1) (drop 1 xs)
take_cons xs zero b e h = elim h [ ]
take_cons [] (suc n) b e h = cc
take_cons (x ∷ xs) (suc n) b e h =
    let same : x ≡ b = cc in
    ap (λ y. y ∷ take n xs) same
    ∙ ap (λ k. b ∷ take k xs) (let e' : n ≡ suc n - 1 = omega arith in e')

module _ (memory : ℕ → Bytes) (frame : AvFrame) (ok : IsSendable memory frame) (b : ℕ)
    (w : FuBytes b) where
  unfragment-fragments :
      (fuel off left : ℕ)
      → left < fuel
      → off + left ≡ frame.size
      → unfragment (
          map payload
            (fragments fuel memory frame (fu_indicator b) (clear_start (fu_header b)) off left))
        ≡ some (take left (drop off frame.buffer))
  unfolding unfragment fragments
  unfragment-fragments zero off left h e = absurd (omega arith)
  unfragment-fragments (suc fuel) off left h e = elim (Bool-cases (ltb 1420 (left + 2))) [
    | inl more ↦
        let big = ltb→lt 1420 (left + 2) more in
        let rest = drop off frame.buffer in
        let ih =
          unfragment-fragments fuel (off + 1418) (left - 1418) (omega (arith, big))
            (omega (arith, big)) in
        rw
          (
            more,
            payload-fragment_of (memory off) frame (fu_indicator b) (clear_start (fu_header b)) off
                1418 0 (ok.allocated off) (omega (arith, ok.inside, big)) (omega arith),
            w.marked,
            w.middle_start,
            w.middle_end,
            w.stable,
            ih,
          )
          (ap (λ d. some (take 1418 rest ++ take (left - 1418) d))
              (sym (drop-drop 1418 off frame.buffer))
            ∙ ap some (sym (take_add 1418 (left - 1418) rest))
            ∙ ap (λ k. some (take k rest)) (omega (arith, big)))
    | inr done ↦ rw (
      done,
      payload-fragment_of (memory off) frame (fu_indicator b) (set_end (clear_start (fu_header b)))
          off left 1 (ok.allocated off) (omega (arith, ok.inside)) (ground (arith, done)),
      w.marked,
      w.last_start,
      w.last_end,
    )
  ]

  receive-fragments :
      (fuel : ℕ)
      → frame.size ≤ fuel
      → 1420 < frame.size
      → receive (
          map payload
            (fragments fuel memory frame (fu_indicator b) (fu_header b) 1 (frame.size - 1)))
        ≡ some (b ∷ take (frame.size - 1) (drop 1 frame.buffer))
  unfolding receive fragments
  receive-fragments zero h big = absurd (omega arith)
  receive-fragments (suc fuel) h big =
      let rest = drop 1 frame.buffer in
      let left = frame.size - 1 in
      rw
        (
          lt→ltb 1420 (left + 2) (omega arith),
          payload-fragment_of (memory 1) frame (fu_indicator b) (fu_header b) 1 1418 0
              (ok.allocated 1) (omega (arith, ok.inside)) (omega arith),
          w.marked,
          w.starts,
          w.goes_on,
          w.restores,
          unfragment-fragments fuel (1 + 1418) (left - 1418) (omega arith) (omega arith),
        )
        (ap (λ d. some (b ∷ (take 1418 rest ++ take (left - 1418) d)))
            (sym (drop-drop 1418 1 frame.buffer))
          ∙ ap (λ d. some (b ∷ d)) (sym (take_add 1418 (left - 1418) rest))
          ∙ ap (λ k. some (b ∷ take k rest)) (omega arith))

  -- Packets that come in order and whole give the frame back.
  receive-packets :
      get_elem? frame.buffer 0 ≡ some b
      → is_fu_a b ≡ false
      → 0 < frame.size
      → receive (map payload (packets memory frame b)) ≡ some (take frame.size frame.buffer)
  unfolding receive packets
  receive-packets first whole filled =
      let split = take_cons frame.buffer frame.size b first filled in
      elim (Bool-cases (leb frame.size 1420)) [
        | inl small ↦ rw (
          small,
          payload-whole_of (memory 0) frame (ok.allocated 0) ok.inside (leb→le _ _ small),
          split,
          whole,
        )
        | inr large ↦ rw large (
            receive-fragments frame.size (omega arith) (not_leb→lt frame.size 1420 large)
            ∙ ap some (sym split))
      ]

-- A callback that keeps each packet and answers true.
abbrev pub keep : List RtpPacket → MediaChannelId → RtpPacket → List RtpPacket × Bool
keep sent channel p = (sent ++ (p ∷ []), true)

pub deliver-keep :
    (channel : MediaChannelId) (ps sent : List RtpPacket)
    → deliver (some keep) channel ps sent ≡ (sent ++ ps, true)
unfolding deliver send
deliver-keep channel [] sent = ap (λ xs. (xs, true)) (sym (append-nil sent))
deliver-keep channel (p ∷ ps) sent =
    deliver-keep channel ps (sent ++ (p ∷ []))
    ∙ ap (λ xs. (xs, true)) (append_assoc sent (p ∷ []) ps)

-- The receiver on the packets of a frame behind the setting of its timestamp.
pub receive-stamp :
    (memory : ℕ → Bytes) (frame : AvFrame) (micros b : ℕ)
    → IsSendable memory frame
    → 0 < frame.size
    → get_elem? frame.buffer 0 ≡ some b
    → b < 256
    → is_fu_a b ≡ false
    → receive (map payload (packets memory (stamp micros frame) b))
      ≡ some (take frame.size frame.buffer)
receive-stamp memory frame micros b ok filled first byte whole =
    let stamped = stamp micros frame in
    let size_eq = size-stamp micros frame in
    let buffer_eq = buffer-stamp micros frame in
    receive-packets memory stamped (stamp-IsSendable micros memory frame ok) b
      (FuBytes-of_lt b byte) (ap (λ d. get_elem? d 0) buffer_eq ∙ first) whole
      (omega (arith, size_eq))
    ∙ ap (λ k. some (take k stamped.buffer)) size_eq
    ∙ ap (λ d. some (take frame.size d)) buffer_eq

-- `handleFrame` on a frame that is sendable, not empty, and starts with a byte that is no FU-A
-- indicator, with a callback that keeps the packets and answers true: it answers true, and a
-- receiver that follows RFC 3984 gets the bytes of the frame back from the payloads, both when the
-- frame is sent whole and when it is cut.
pub handle_frame-receive :
    (memory : ℕ → Bytes) (frame : AvFrame) (channel : MediaChannelId) (micros b : ℕ)
    → IsSendable memory frame
    → 0 < frame.size
    → get_elem? frame.buffer 0 ≡ some b
    → b < 256
    → is_fu_a b ≡ false
    → (sent : List RtpPacket) × (handle_frame (some keep) micros memory channel frame []
        ≡ some (sent, true))
      × (receive (map payload sent) ≡ some (take frame.size frame.buffer))
handle_frame-receive memory frame channel micros b ok filled first byte whole =
    let stamped = stamp micros frame in
    let ps = packets memory stamped b in
    (
      ps,
      handle_frame-deliver (some keep) memory frame channel micros b [] ok first
          ∙ ap some (deliver-keep channel ps []),
      receive-stamp memory frame micros b ok filled first byte whole,
    )
