-- ===== src/RtspRequest/Answers/Echo.antt =====
-- src/media/rtsp_message.cc: every answer has the CSeq of its request.
use rtsp_server.Base.{
  ℕ, Bytes, Bool, true, false, Option, none, some, ◌∷◌, ◌++◌, ◌-◌, ◌^◌, ◌≤◌, ◌<◌, ◌≡◌, refl, ap,
  ◌∙◌, arith, length, ltb, lt→ltb, Bool-cases, inl, inr, if◌then◌else◌, append_assoc,
}
use rtsp_server.Base.Text.{text, decimal, signed_decimal, printed, append_printed}
use rtsp_server.Base.Text.Decimal.{length-decimal}
use rtsp_server.RtspRequest.{RtspRequest, get_cseq}
use rtsp_server.RtspRequest.Answers.{
  head_of, head, signed_head, ok, build_option_res, build_describe_res, build_setup_multicast_res,
  build_setup_tcp_res, build_setup_udp_res, build_play_res, build_teardown_res,
  build_get_paramter_res, build_not_found_res, build_server_error_res, build_unsupported_res,
  play_info,
}
use rtsp_server.RtspRequest.Answers.Numbers.{
  read_cseq, IsStatus, is_ok, is_not_found, is_server_error, is_unsupported, read_cseq-head_of,
  read_cseq-minus, printed-head_of,
}

-- The eleven answers, with their arguments.
pub data Answer : Type 0 where
  option not_found server_error unsupported : Answer
  describe : Bytes → Answer
  setup_multicast : Bytes → ℕ → ℕ → Answer
  setup_tcp setup_udp : ℕ → ℕ → ℕ → Answer
  play : Option Bytes → ℕ → Answer
  teardown get_paramter : ℕ → Answer

-- The call that builds one in a buffer of `size` bytes.
unfoldable pub build : Answer → ℕ → RtspRequest → Bytes
build Answer.option size r = build_option_res size r
build Answer.not_found size r = build_not_found_res size r
build Answer.server_error size r = build_server_error_res size r
build Answer.unsupported size r = build_unsupported_res size r
build (Answer.describe sdp) size r = build_describe_res size sdp r
build (Answer.setup_multicast ip port id) size r = build_setup_multicast_res size ip port id r
build (Answer.setup_tcp a b id) size r = build_setup_tcp_res size a b id r
build (Answer.setup_udp a b id) size r = build_setup_udp_res size a b id r
build (Answer.play rtp_info id) size r = build_play_res size rtp_info id r
build (Answer.teardown id) size r = build_teardown_res size id r
build (Answer.get_paramter id) size r = build_get_paramter_res size id r

-- The answers that print the number with `%d`.
abbrev pub is_signed : Answer → Bool
is_signed Answer.unsupported = true
is_signed (Answer.play rtp_info id) = true
is_signed (Answer.teardown id) = true
is_signed (Answer.get_paramter id) = true
is_signed _ = false

pub length-signed : (n : ℕ) → n < 2 ^ 32 → length (signed_decimal n) ≤ 11
unfolding signed_decimal
length-signed n h = elim (Bool-cases (ltb n (2 ^ 31))) [
  | inl small ↦ rw small (omega (arith, length-decimal n h))
  | inr large ↦ rw large (ground (arith, length-decimal (2 ^ 32 - n)))
]

signed_decimal-small : (n : ℕ) → n < 2 ^ 31 → signed_decimal n ≡ decimal n
unfolding signed_decimal
signed_decimal-small n h = rw (lt→ltb n (2 ^ 31) h)

signed_decimal-large : (n : ℕ) → 2 ^ 31 ≤ n → signed_decimal n ≡ b'-' ∷ decimal (2 ^ 32 - n)
unfolding signed_decimal
signed_decimal-large n h = elim (Bool-cases (ltb n (2 ^ 31))) [
  | inl small ↦ absurd (ground (arith, small, h))
  | inr large ↦ rw large
]

module _ (size : ℕ) (r : RtspRequest) (room : 62 ≤ size) (fits : get_cseq r < 2 ^ 32) where
  -- The answer starts with the two lines of `status` and of the number.
  abbrev Starts : Bytes → Bytes → Bytes → Type 0
  Starts answer status cseq = (rest : Bytes) × (answer ≡ head_of status cseq ++ rest)

  head-Starts :
      {status : Bytes} (x : Bytes)
      → IsStatus status
      → Starts (printed size (head status r ++ x)) status (decimal (get_cseq r))
  unfolding head
  head-Starts x is =
      printed-head_of size (decimal (get_cseq r)) x is
        (omega (arith, length-decimal (get_cseq r) fits)) room

  signed-Starts :
      {status : Bytes} (x : Bytes)
      → IsStatus status
      → Starts (printed size (signed_head status r ++ x)) status (signed_decimal (get_cseq r))
  unfolding signed_head
  signed-Starts x is =
      printed-head_of size (signed_decimal (get_cseq r)) x is (length-signed (get_cseq r) fits) room

  append-Starts :
      (answer status cseq more : Bytes)
      → Starts answer status cseq
      → Starts (append_printed size answer more) status cseq
  unfolding append_printed
  append-Starts answer status cseq more (rest, e) = (
    rest ++ printed (size - length answer) more,
    ap (λ s. s ++ printed (size - length answer) more) e
        ∙ append_assoc (head_of status cseq) rest _,
  )

  play_info-Starts :
      (rtp_info : Option Bytes) (answer status cseq : Bytes)
      → Starts answer status cseq
      → Starts (play_info size rtp_info answer) status cseq
  unfolding play_info
  play_info-Starts none answer status cseq h = h
  play_info-Starts (some rtp_info) answer status cseq h = append-Starts answer status cseq _ h

  -- With which status an answer starts, and with the number printed in which way.
  build-Starts :
      (a : Answer)
      → (status : Bytes) × IsStatus status
        × Starts
            (build a size r)
            status
            (if is_signed a then signed_decimal (get_cseq r) else decimal (get_cseq r))
  unfolding build build_option_res build_not_found_res build_server_error_res build_unsupported_res
      build_describe_res build_setup_multicast_res build_setup_tcp_res build_setup_udp_res
      build_play_res build_teardown_res build_get_paramter_res
  build-Starts Answer.option = (_, is_ok, head-Starts _ is_ok)
  build-Starts Answer.not_found = (_, is_not_found, head-Starts _ is_not_found)
  build-Starts Answer.server_error = (_, is_server_error, head-Starts _ is_server_error)
  build-Starts Answer.unsupported = (_, is_unsupported, signed-Starts _ is_unsupported)
  build-Starts (Answer.describe sdp) = (_, is_ok, head-Starts _ is_ok)
  build-Starts (Answer.setup_multicast ip port id) = (_, is_ok, head-Starts _ is_ok)
  build-Starts (Answer.setup_tcp a b id) = (_, is_ok, head-Starts _ is_ok)
  build-Starts (Answer.setup_udp a b id) = (_, is_ok, head-Starts _ is_ok)
  build-Starts (Answer.play rtp_info id) =
      let cseq = signed_decimal (get_cseq r) in
      (
        _,
        is_ok,
        append-Starts _ ok cseq _ (play_info-Starts rtp_info _ ok cseq (signed-Starts _ is_ok)),
      )
  build-Starts (Answer.teardown id) = (_, is_ok, signed-Starts _ is_ok)
  build-Starts (Answer.get_paramter id) = (_, is_ok, signed-Starts _ is_ok)

-- In a buffer of 62 bytes or more, whatever the arguments are and however much is cut off, a client
-- reads the number of the request from each of the answers, if that number is below 2 ^ 31, or below
-- 2 ^ 32 for the answers that print it with `%u`.
pub read_cseq-build :
    (a : Answer) (size : ℕ) (r : RtspRequest)
    → 62 ≤ size
    → get_cseq r < (if is_signed a then 2 ^ 31 else 2 ^ 32)
    → read_cseq (build a size r) ≡ some (get_cseq r)
read_cseq-build a size r room fits =
    let (status, is, (rest, e)) = build-Starts size r room (ground arith) a in
    elim (Bool-cases (is_signed a)) [
      | inl signed ↦
          ap read_cseq e
          ∙ rw (signed, signed_decimal-small (get_cseq r) (rw signed at fits))
              (read_cseq-head_of (get_cseq r) rest is)
      | inr unsigned ↦ ap read_cseq e ∙ rw unsigned (read_cseq-head_of (get_cseq r) rest is)
    ]

-- From 2 ^ 31 on, the answers to PLAY, TEARDOWN and GET_PARAMETER, and the one to an unsupported
-- transport, in a buffer of 62 bytes or more, print the number less 2 ^ 32: behind a status line
-- the CSeq is a minus and what is missing to 2 ^ 32. A client that reads digits reads nothing.
pub read_cseq-signed :
    (a : Answer) (size : ℕ) (r : RtspRequest)
    → 62 ≤ size
    → is_signed a ≡ true
    → 2 ^ 31 ≤ get_cseq r
    → get_cseq r < 2 ^ 32
    → (status rest : Bytes) × IsStatus status
      × (build a size r
          ≡ status
            ++ (text "\r\nCSeq: -" ++ (decimal (2 ^ 32 - get_cseq r) ++ (text "\r\n" ++ rest))))
      × (read_cseq (build a size r) ≡ none)
read_cseq-signed a size r room signed large fits =
    let (status, is, (rest, e)) = build-Starts size r room fits a in
    let number = decimal (2 ^ 32 - get_cseq r) in
    let printed_as : build a size r ≡ head_of status (b'-' ∷ number) ++ rest =
      e ∙ rw (signed, signed_decimal-large (get_cseq r) large) refl in
    (
      status,
      rest,
      is,
      printed_as
          ∙ append_assoc status (text "\r\nCSeq: -" ++ (number ++ text "\r\n")) rest
          ∙ ap (λ s. status ++ (text "\r\nCSeq: -" ++ s)) (append_assoc number (text "\r\n") rest),
      ap read_cseq printed_as ∙ read_cseq-minus number rest is,
    )
