-- ===== src/H264Source/Labels.antt =====
-- src/media/h264_source.cc: size, timestamp, type and marker of the packets of a frame.
use rtsp_server.Base.{
  ℕ, Bytes, zero, suc, ◌+◌, ◌-◌, ◌≤◌, ◌<◌, ◌≡◌, refl, ap, ◌∙◌, true, List, [], ◌∷◌, ◌++◌, some,
  arith, length, get_elem?, Bool-cases, ltb, leb, inl, inr, ltb→lt, leb→le, not_leb→lt, All,
  spliced, length-spliced, length-take, take,
}
use rtsp_server.Media.{MediaChannelId, AvFrame, RtpPacket, packet_capacity}
use rtsp_server.H264Source.{stamp, clear_start, set_end, fu_indicator, fu_header, handle_frame}
use rtsp_server.H264Source.Packets.{
  fragment_of, whole_of, fragments, packets, body_of, length-body_of,
}
use rtsp_server.H264Source.Streams.{IsSendable, handle_frame-deliver, stamp-IsSendable}
use rtsp_server.H264Source.Reassemble.{keep, deliver-keep}

-- The packet lies inside of its memory, is at most 4 + 12 + 1420 bytes long, and has the timestamp
-- and the type of the frame.
pub record IsLabelled (frame : AvFrame) (p : RtpPacket) : Type 0 where
  pub inside : p.size ≤ length p.bytes
  pub allocated : length p.bytes ≡ packet_capacity
  pub short : p.size ≤ 1436
  pub time : p.timestamp ≡ frame.timestamp
  pub kind : p.type ≡ frame.type

-- The marker is set in the last packet alone.
pub record IsMarkedLast (ps : List RtpPacket) : Type 0 where
  pub before : List RtpPacket
  pub final : RtpPacket
  pub split : ps ≡ before ++ (final ∷ [])
  pub unmarked : All (λ p. p.last ≡ 0) before
  pub marked : final.last ≡ 1

IsMarkedLast-cons :
    (p : RtpPacket) (ps : List RtpPacket) → p.last ≡ 0 → IsMarkedLast ps → IsMarkedLast (p ∷ ps)
IsMarkedLast-cons p ps z m = record {
  before = p ∷ m.before;
  final = m.final;
  split = ap (◌∷◌ p) m.split;
  unmarked = (z, m.unmarked);
  marked = m.marked;
}

IsMarkedLast-single : (p : RtpPacket) → p.last ≡ 1 → IsMarkedLast (p ∷ [])
IsMarkedLast-single p e = record { before = []; final = p; split = refl; unmarked = tt; marked = e }

abbrev pub AreLabelled : AvFrame → List RtpPacket → Type 0
AreLabelled frame ps = All (IsLabelled frame) ps × IsMarkedLast ps

module _ (memory : ℕ → Bytes) (frame : AvFrame) (ok : IsSendable memory frame) where
  fragment_of-IsLabelled :
      (indicator header off n last : ℕ)
      → off + n ≤ frame.size
      → n ≤ 1418
      → IsLabelled frame (fragment_of (memory off) frame indicator header off n last)
  unfolding fragment_of
  fragment_of-IsLabelled indicator header off n last h fits =
      let body = body_of frame off n in
      let len : length body ≡ n = length-body_of frame off n (omega (arith, ok.inside)) in
      let m0 = spliced (memory off) 16 (indicator ∷ []) in
      let m1 = spliced m0 17 (header ∷ []) in
      let l0 : length m0 ≡ 1600 =
        length-spliced (memory off) 16 (indicator ∷ []) (omega (arith, ok.allocated off))
        ∙ ok.allocated off in
      let l1 : length m1 ≡ 1600 = length-spliced m0 17 (header ∷ []) (omega arith) ∙ l0 in
      let l2 : length (spliced m1 18 body) ≡ 1600 = length-spliced m1 18 body (omega arith) ∙ l1 in
      record { inside = omega arith; allocated = l2; short = omega arith; time = refl; kind = refl }

  fragments-AreLabelled :
      (fuel indicator header off left : ℕ)
      → left < fuel
      → off + left ≡ frame.size
      → AreLabelled frame (fragments fuel memory frame indicator header off left)
  unfolding fragments
  fragments-AreLabelled zero indicator header off left h e = absurd (omega arith)
  fragments-AreLabelled (suc fuel) indicator header off left h e =
      elim (Bool-cases (ltb 1420 (left + 2))) [
        | inl more ↦
            let big = ltb→lt 1420 (left + 2) more in
            let rest =
              fragments-AreLabelled fuel indicator (clear_start header) (off + 1418) (left - 1418)
                (omega (arith, big)) (omega (arith, big)) in
            rw more (
              (
                fragment_of-IsLabelled indicator header off 1418 0 (omega (arith, big))
                    (omega arith),
                rest.0,
              ),
              IsMarkedLast-cons _ _ (unfold fragment_of in refl) rest.1,
            )
        | inr done ↦ rw done (
          (
            fragment_of-IsLabelled indicator (set_end header) off left 1 (omega arith)
                (ground (arith, done)),
            tt,
          ),
          IsMarkedLast-single _ (unfold fragment_of in refl),
        )
      ]

  pub packets-AreLabelled : (first : ℕ) → AreLabelled frame (packets memory frame first)
  unfolding packets whole_of
  packets-AreLabelled first = elim (Bool-cases (leb frame.size 1420)) [
    | inl small ↦
        let body = take frame.size frame.buffer in
        let short = leb→le frame.size 1420 small in
        let len : length body ≡ frame.size =
          omega (arith, ok.inside, length-take frame.size frame.buffer) in
        let l : length (spliced (memory 0) 16 body) ≡ 1600 =
          length-spliced (memory 0) 16 body (omega (arith, short, ok.allocated 0))
          ∙ ok.allocated 0 in
        rw small (
          (
            record {
              inside = omega (arith, short);
              allocated = l;
              short = omega (arith, short);
              time = refl;
              kind = refl;
            },
            tt,
          ),
          IsMarkedLast-single _ refl,
        )
    | inr large ↦
        let big = not_leb→lt frame.size 1420 large in
        rw large (
          fragments-AreLabelled frame.size (fu_indicator first) (fu_header first) 1 (frame.size - 1)
            (omega (arith, big)) (omega (arith, big)))
  ]

-- The packets that `handleFrame` sends of a sendable frame: each lies inside of its memory, is at
-- most 1436 bytes long and has the type and the timestamp of the frame (the clock's, if that of the
-- frame is 0); the marker is 1 in the last and 0 in every other.
pub handle_frame-AreLabelled :
    (memory : ℕ → Bytes) (frame : AvFrame) (channel : MediaChannelId) (micros first : ℕ)
    → IsSendable memory frame
    → get_elem? frame.buffer 0 ≡ some first
    → (sent : List RtpPacket) × (handle_frame (some keep) micros memory channel frame []
        ≡ some (sent, true))
      × All (IsLabelled (stamp micros frame)) sent
      × IsMarkedLast sent
handle_frame-AreLabelled memory frame channel micros first ok e =
    let stamped = stamp micros frame in
    let labels =
      packets-AreLabelled memory stamped (stamp-IsSendable micros memory frame ok) first in
    (
      packets memory stamped first,
      handle_frame-deliver (some keep) memory frame channel micros first [] ok e
          ∙ ap some (deliver-keep channel (packets memory stamped first) []),
      labels.0,
      labels.1,
    )
