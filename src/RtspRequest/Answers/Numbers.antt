-- ===== src/RtspRequest/Answers/Numbers.antt =====
-- src/media/rtsp_message.cc: the number CSeq in the answers.
use rtsp_server.Base.{
  ℕ, Bytes, false, Option, none, some, [], ◌∷◌, ◌++◌, ◌-◌, ◌≤◌, ◌≡◌, refl, ap, ◌∙◌, arith, length,
  take, drop, ◌>>=◌, append_assoc, take-append_of_le, length-append,
}
use rtsp_server.Base.Text.{
  text, seek, begins, scan_digits, span, is_digit, when_any, number, decimal, printed,
}
use rtsp_server.Base.Text.Decimal.{IsNumeral, decimal-IsNumeral}
use rtsp_server.Base.Text.Scans.{span_lem}
use rtsp_server.RtspRequest.Answers.{head_of}

-- The number of an answer as a client reads it, by RFC 2326: one digit or more.
pub read_cseq : Bytes → Option ℕ
read_cseq s = do
  at ← seek (text "CSeq: ") s
  (ds, rest) ← scan_digits (drop 6 at)
  some (number 0 ds)

digits_read :
    (n c : ℕ) (rest : Bytes)
    → is_digit c ≡ false
    → scan_digits (decimal n ++ (c ∷ rest)) ≡ some (decimal n, c ∷ rest)
unfolding scan_digits
digits_read n c rest stop = go (decimal n) (decimal-IsNumeral n)
  where
    go :
        (ds : Bytes)
        → IsNumeral n ds
        → when_any (span is_digit (ds ++ (c ∷ rest))) ≡ some (ds, c ∷ rest)
    go [] w = absurd (omega (arith, w.filled))
    go (d ∷ ds) w = ap when_any (span_lem is_digit (d ∷ ds) c rest w.digits stop)

-- The texts in front of the number.
pub data IsStatus : Bytes → Type 0 where
  is_ok : IsStatus (text "RTSP/1.0 200 OK")
  is_not_found : IsStatus (text "RTSP/1.0 404 Stream Not Found")
  is_server_error : IsStatus (text "RTSP/1.0 500 Internal Server Error")
  is_unsupported : IsStatus (text "RTSP/1.0 461 Unsupported transport")

seek-status :
    {status : Bytes}
    → IsStatus status
    → (x : Bytes)
    → seek (text "CSeq: ") (status ++ (text "\r\nCSeq: " ++ x)) ≡ some (text "CSeq: " ++ x)
unfolding seek begins
seek-status is_ok x = refl
seek-status is_not_found x = refl
seek-status is_server_error x = refl
seek-status is_unsupported x = refl

length-status : {status : Bytes} → IsStatus status → length status ≤ 40
length-status is_ok = omega arith
length-status is_not_found = omega arith
length-status is_server_error = omega arith
length-status is_unsupported = omega arith

pub head_of-append :
    (status cseq x : Bytes)
    → head_of status cseq ++ x ≡ status ++ (text "\r\nCSeq: " ++ (cseq ++ (text "\r\n" ++ x)))
head_of-append status cseq x =
    append_assoc status (text "\r\nCSeq: " ++ (cseq ++ text "\r\n")) x
    ∙ ap (λ s. status ++ (text "\r\nCSeq: " ++ s)) (append_assoc cseq (text "\r\n") x)

-- The client finds the number in any text that starts with the two lines.
pub read_cseq-head_of :
    {status : Bytes} (n : ℕ) (x : Bytes)
    → IsStatus status
    → read_cseq (head_of status (decimal n) ++ x) ≡ some n
unfolding read_cseq is_digit
read_cseq-head_of n x is =
    rw
      (
        head_of-append _ (decimal n) x,
        seek-status is (decimal n ++ (text "\r\n" ++ x)),
        digits_read n b'\r' (text "\n" ++ x) refl,
      )
      (ap some (decimal-IsNumeral n).value)

-- A number with a minus sign is none.
pub read_cseq-minus :
    {status : Bytes} (ds x : Bytes)
    → IsStatus status
    → read_cseq (head_of status (b'-' ∷ ds) ++ x) ≡ none
unfolding read_cseq scan_digits span is_digit
read_cseq-minus ds x is =
    rw (head_of-append _ (b'-' ∷ ds) x, seek-status is (b'-' ∷ ds ++ (text "\r\n" ++ x)))

length-head_of :
    {status : Bytes} (cseq : Bytes)
    → IsStatus status
    → length cseq ≤ 11
    → length (head_of status cseq) ≤ 61
length-head_of cseq is short = omega (
  arith,
  length-status is,
  length-append _ (text "\r\nCSeq: " ++ (cseq ++ text "\r\n")),
  length-append cseq (text "\r\n"),
)

-- `snprintf` leaves the two lines whole.
pub printed-head_of :
    {status : Bytes} (size : ℕ) (cseq x : Bytes)
    → IsStatus status
    → length cseq ≤ 11
    → 62 ≤ size
    → (rest : Bytes) × (printed size (head_of status cseq ++ x) ≡ head_of status cseq ++ rest)
unfolding printed
printed-head_of {status} size cseq x is short room = (
  take (size - 1 - length (head_of status cseq)) x,
  take-append_of_le (size - 1) (head_of status cseq) x
      (omega (arith, length-head_of cseq is short)),
)
