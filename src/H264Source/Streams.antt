-- ===== src/H264Source/Streams.antt =====
-- src/media/h264_source.cc: the callback gets the packets of the frame, in order, until it
-- answers false.
use native.Mathlib.Nat.{mod-eq_of_lt}
use rtsp_server.Base.{
  ℕ, zero, suc, ◌+◌, ◌-◌, ◌^◌, ◌≤◌, ◌<◌, ◌≡◌, refl, ap, ◌∙◌, true, false, Bool, List, [], ◌∷◌,
  Option, some, arith, Bytes, length, get_elem?, Bool-cases, ltb, leb, ◌==◌, inl, inr, ltb→lt,
  leb→le, not_leb→lt,
}
use rtsp_server.Media.{MediaChannelId, AvFrame, RtpPacket, packet_capacity}
use rtsp_server.H264Source.{
  u32, stamp, clear_start, set_end, fu_indicator, fu_header, send, proceed, send_fragments,
  send_frame, handle_frame,
}
use rtsp_server.H264Source.Packets.{fragment_lem, single_packet_lem, fragments, packets}

-- A frame whose buffer holds its bytes, short enough for the sums on 32 bits, and memory for
-- whole packets.
pub record IsSendable (memory : ℕ → Bytes) (frame : AvFrame) : Type 0 where
  pub allocated : (off : ℕ) → length (memory off) ≡ packet_capacity
  pub inside : frame.size ≤ length frame.buffer
  pub short : frame.size + 1 < 2 ^ 32

module _ {ℓ} {S : Type ℓ} (callback : Option (S → MediaChannelId → RtpPacket → S × Bool)) where
  proceed-some :
      {f : S → Option (S × Bool)} {g : S → S × Bool} (r : S × Bool)
      → ((s : S) → f s ≡ some (g s))
      → proceed r f (λ s. some (s, false)) ≡ some (proceed r g (λ s. (s, false)))
  proceed-some (s, true) h = h s
  proceed-some (s, false) h = refl

  -- The callback on one packet after the other, up to the first for which it answers false.
  unfoldable pub deliver : MediaChannelId → List RtpPacket → S → S × Bool
  deliver channel [] s = (s, true)
  deliver channel (p ∷ ps) s =
      proceed (send callback s channel p) (deliver channel ps) (λ s'. (s', false))

  module _ (memory : ℕ → Bytes) (frame : AvFrame) (channel : MediaChannelId)
      (ok : IsSendable memory frame) where
    send_fragments-deliver :
        (fuel indicator header off left : ℕ) (s : S)
        → left < fuel
        → 0 < off
        → off + left ≡ frame.size
        → send_fragments callback fuel memory frame channel indicator header off left s
          ≡ some (deliver channel (fragments fuel memory frame indicator header off left) s)
    unfolding send_fragments fragments deliver
    send_fragments-deliver zero indicator header off left s h o e = absurd (omega arith)
    send_fragments-deliver (suc fuel) indicator header off left s h o e =
        let sum : u32 (left + 2) ≡ left + 2 = mod-eq_of_lt (omega (arith, ok.short)) in
        (elim (Bool-cases (ltb 1420 (left + 2))) [
          | inl more ↦
              let big = ltb→lt 1420 (left + 2) more in
              rw
                (
                  send_fragments,
                  sum,
                  more,
                  fragment_lem (memory off) frame indicator header off 1418 0 (ok.allocated off)
                      (omega (arith, ok.inside, big)) (omega arith),
                )
                (proceed-some (send callback s channel _) (λ s'.
                  send_fragments-deliver fuel indicator (clear_start header) (off + 1418)
                    (left - 1418) s' (omega (arith, big)) (omega arith) (omega (arith, big))))
          | inr done ↦
              rw
                (
                  send_fragments,
                  sum,
                  done,
                  fragment_lem (memory off) frame indicator (set_end header) off left 1
                      (ok.allocated off) (omega (arith, ok.inside)) (ground (arith, done)),
                )
                (proceed-some (send callback s channel _) (λ s'. refl))
        ])

    send_frame-deliver :
        (first : ℕ) (s : S)
        → get_elem? frame.buffer 0 ≡ some first
        → send_frame callback memory channel frame s
          ≡ some (deliver channel (packets memory frame first) s)
    unfolding send_frame packets deliver
    send_frame-deliver first s e = elim (Bool-cases (leb frame.size 1420)) [
      | inl small ↦
          rw
            (
              small,
              single_packet_lem (memory 0) frame (ok.allocated 0) ok.inside
                  (leb→le frame.size 1420 small),
            )
            (proceed-some (send callback s channel _) (λ s'. refl))
      | inr large ↦
          let big = not_leb→lt frame.size 1420 large in
          rw (large, e)
            (send_fragments-deliver frame.size (fu_indicator first) (fu_header first) 1
              (frame.size - 1) s (omega (arith, big)) (omega arith) (omega (arith, big)))
    ]

-- The timestamp is no part of what makes a frame sendable.
pub stamp-IsSendable :
    (micros : ℕ) (memory : ℕ → Bytes) (frame : AvFrame)
    → IsSendable memory frame
    → IsSendable memory (stamp micros frame)
unfolding stamp
stamp-IsSendable micros memory frame ok = elim (Bool-cases (frame.timestamp == 0)) [
  | inl unset ↦ rw unset (record { allocated = ok.allocated; inside = ok.inside; short = ok.short })
  | inr already ↦ rw already ok
]

pub buffer-stamp : (micros : ℕ) (frame : AvFrame) → (stamp micros frame).buffer ≡ frame.buffer
unfolding stamp
buffer-stamp micros frame = ground arith

pub size-stamp : (micros : ℕ) (frame : AvFrame) → (stamp micros frame).size ≡ frame.size
unfolding stamp
size-stamp micros frame = ground arith

-- On a sendable frame `handleFrame` meets no fault and ends. It hands the packets of the frame to
-- the callback, in order, up to the first for which it answers false, and answers true exactly when
-- there is none.
pub handle_frame-deliver {ℓ} :
    {S : Type ℓ} (callback : Option (S → MediaChannelId → RtpPacket → S × Bool))
    (memory : ℕ → Bytes) (frame : AvFrame) (channel : MediaChannelId) (micros first : ℕ) (s : S)
    → IsSendable memory frame
    → get_elem? frame.buffer 0 ≡ some first
    → handle_frame callback micros memory channel frame s
      ≡ some (deliver callback channel (packets memory (stamp micros frame) first) s)
unfolding handle_frame
handle_frame-deliver callback memory frame channel micros first s ok e =
    send_frame-deliver callback memory (stamp micros frame) channel
      (stamp-IsSendable micros memory frame ok) first s
      (ap (λ b. get_elem? b 0) (buffer-stamp micros frame) ∙ e)
