-- ===== src/RtspRequest/Parse/Fields.antt =====
-- src/media/rtsp_message.cc: what parseCSeq, parseAccept, parseTransport and parseSessionId read from the
-- headers of a client.
use rtsp_server.Base.{
  ℕ, Bytes, true, false, not, some, [], ◌∷◌, ◌++◌, ◌^◌, ◌<◌, ◌≡◌, refl, arith, ◌==◌, length, All,
}
use rtsp_server.Base.Maps.{bytes_eq, emplace}
use rtsp_server.Base.Text.{
  text, c_str, begins, seek, is_digit, is_space, skip_space, scan_char, scan_unsigned, decimal,
}
use rtsp_server.Base.Text.Scans.{scan_until-lem, scan_unsigned-decimal, decimal-IsWord}
use rtsp_server.RtspRequest.{RtspRequest}
use rtsp_server.RtspRequest.Parse.Headers.{scan_field, scan_pair, parse_cseq}

-- `%u` skips the blank in front of a number.
scan_unsigned-blank : (w : ℕ) (s : Bytes) → scan_unsigned w (b' ' ∷ s) ≡ scan_unsigned w s
unfolding scan_unsigned skip_space is_space
scan_unsigned-blank w s = refl

-- A C string goes on behind a number.
c_str-append : (xs s : Bytes) → All (λ c. (c == 0) ≡ false) xs → c_str (xs ++ s) ≡ xs ++ c_str s
unfolding c_str
c_str-append [] s h = refl
c_str-append (x ∷ xs) s h = rw (h.0, c_str-append xs s h.1)

-- `%*[^:]: %u` on a field with a number.
pub scan_field-lem :
    (name : Bytes) (n : ℕ) (rest : Bytes)
    → All (λ x. not (x == b':') ≡ true) name
    → 0 < length name
    → n < 2 ^ 32
    → scan_field (name ++ (text ": " ++ (decimal n ++ (b'\r' ∷ rest)))) ≡ some n
unfolding scan_field scan_char is_digit
scan_field-lem name n rest plain filled small =
    rw
      (
        scan_until-lem b':' name (b' ' ∷ (decimal n ++ (b'\r' ∷ rest))) plain filled,
        scan_unsigned-blank 32 (decimal n ++ (b'\r' ∷ rest)),
        scan_unsigned-decimal 32 n b'\r' rest (omega (arith, small)) small refl,
        scan_field,
      )
      refl

pub c_str-decimal : (n : ℕ) (s : Bytes) → c_str (decimal n ++ s) ≡ decimal n ++ c_str s
c_str-decimal n s = c_str-append (decimal n) s (decimal-IsWord n).nonzero

-- `%*[^;];%*[^;];%*[^=]=%hu-%hu` on a pair of numbers behind three words.
pub scan_pair-lem :
    (x y z : Bytes) (a b : ℕ) (rest : Bytes)
    → All (λ c. not (c == b';') ≡ true) x
    → 0 < length x
    → All (λ c. not (c == b';') ≡ true) y
    → 0 < length y
    → All (λ c. not (c == b'=') ≡ true) z
    → 0 < length z
    → a < 2 ^ 16
    → b < 2 ^ 16
    → scan_pair (
        x
        ++ (b';'
            ∷ (y
                ++ (b';' ∷ (z ++ (b'=' ∷ (decimal a ++ (b'-' ∷ (decimal b ++ (b'\r' ∷ rest))))))))))
      ≡ some (a, b)
unfolding scan_pair scan_char is_digit
scan_pair-lem x y z a b rest px fx py fy pz fz sa sb =
    let last = decimal b ++ (b'\r' ∷ rest) in
    let numbers = decimal a ++ (b'-' ∷ last) in
    rw
      (
        scan_until-lem b';' x (y ++ (b';' ∷ (z ++ (b'=' ∷ numbers)))) px fx,
        scan_until-lem b';' y (z ++ (b'=' ∷ numbers)) py fy,
        scan_until-lem b'=' z numbers pz fz,
        scan_unsigned-decimal 16 a b'-' last (omega (arith, sa)) sa refl,
        scan_unsigned-decimal 16 b b'\r' rest (omega (arith, sb)) sb refl,
        scan_pair,
      )
      refl

-- The first header, as a client prints it, and what stands behind it.
abbrev pub with_cseq : ℕ → Bytes → Bytes
with_cseq n rest = text "CSeq: " ++ (decimal n ++ (text "\r\n" ++ rest))

pub parse_cseq-lem :
    (n : ℕ) (rest : Bytes) (r : RtspRequest)
    → n < 2 ^ 32
    → parse_cseq (with_cseq n rest) r
      ≡ (record r { header_line_param = emplace (text "cseq") ([], n) r.header_line_param }, true)
unfolding parse_cseq seek begins c_str
parse_cseq-lem n rest r small =
    rw
      (
        c_str-decimal n (text "\r\n" ++ rest),
        scan_field-lem (text "CSeq") n (b'\n' ∷ c_str rest) (ground arith) (omega arith) small,
      )
      refl
