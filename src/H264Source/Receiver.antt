-- ===== src/H264Source/Receiver.antt =====
-- src/media/h264_source.cc: a receiver that follows RFC 3984, and the FU bytes that it reads.
use rtsp_server.Base.{
  ℕ, ◌/◌, ◌%◌, ◌<◌, ◌≡◌, refl, true, false, Bool, ◌&&◌, ◌||◌, not, List, [], ◌∷◌, ◌++◌, Option,
  none, some, arith, Bytes, ◌==◌, ◌>>=◌, if◌then◌else◌, bit_or, bit_and, all_below, all_below_sound,
}
use rtsp_server.H264Source.{clear_start, set_end, fu_indicator, fu_header}

-- The bits of an FU header, and the first byte of the NAL unit that the two FU bytes stand for.
abbrev pub start_bit : ℕ → Bool
start_bit h = h / 128 % 2 == 1

abbrev pub end_bit : ℕ → Bool
end_bit h = h / 64 % 2 == 1

abbrev pub nal_byte : ℕ → ℕ → ℕ
nal_byte indicator header = bit_or (bit_and indicator 0xE0) (bit_and header 0x1f)

abbrev pub is_fu_a : ℕ → Bool
is_fu_a b = bit_and b 0x1f == 28

-- The last payload is the last.
abbrev pub when_last : List Bytes → Bytes → Option Bytes
when_last [] body = some body
when_last (p ∷ rest) body = none

-- The receiver behind the first fragment: no start bit, and the end bit at the last payload alone.
unfoldable pub unfragment : List Bytes → Option Bytes
unfragment [] = none
unfragment ([] ∷ rest) = none
unfragment ((i ∷ []) ∷ rest) = none
unfragment ((i ∷ h ∷ body) ∷ rest) =
    let more = unfragment rest in
    if not (is_fu_a i) || start_bit h
    then none
    else if end_bit h
    then when_last rest body
    else (do tail ← more; some (body ++ tail))

-- The first fragment, behind its indicator `i`.
abbrev pub start_fragment : ℕ → Bytes → List Bytes → Option Bytes
start_fragment i [] rest = none
start_fragment i (h ∷ body) rest =
    if start_bit h && not (end_bit h)
    then (do tail ← unfragment rest; some (nal_byte i h ∷ (body ++ tail)))
    else none

-- The receiver, on the payloads of one frame.
unfoldable pub receive : List Bytes → Option Bytes
receive [] = none
receive ([] ∷ rest) = none
receive ((i ∷ tail) ∷ rest) =
    if is_fu_a i then start_fragment i tail rest else when_last rest (i ∷ tail)

-- What the two FU bytes of a frame that starts with `b` say, in the first, a middle and the last
-- packet.
fu_table : ℕ → Bool
fu_table b =
    is_fu_a (fu_indicator b)
    && (start_bit (fu_header b)
        && (not (end_bit (fu_header b))
            && (nal_byte (fu_indicator b) (fu_header b) == b
                && (clear_start (clear_start (fu_header b)) == clear_start (fu_header b)
                    && (not (start_bit (clear_start (fu_header b)))
                        && (not (end_bit (clear_start (fu_header b)))
                            && (not (start_bit (set_end (clear_start (fu_header b))))
                                && end_bit (set_end (clear_start (fu_header b))))))))))

fu_table_all : all_below 256 fu_table ≡ true
unfolding all_below fu_table fu_indicator fu_header clear_start set_end
fu_table_all = refl

pub record FuBytes (b : ℕ) : Type 0 where
  pub marked : is_fu_a (fu_indicator b) ≡ true
  pub starts : start_bit (fu_header b) ≡ true
  pub goes_on : end_bit (fu_header b) ≡ false
  pub restores : nal_byte (fu_indicator b) (fu_header b) ≡ b
  pub stable : clear_start (clear_start (fu_header b)) ≡ clear_start (fu_header b)
  pub middle_start : start_bit (clear_start (fu_header b)) ≡ false
  pub middle_end : end_bit (clear_start (fu_header b)) ≡ false
  pub last_start : start_bit (set_end (clear_start (fu_header b))) ≡ false
  pub last_end : end_bit (set_end (clear_start (fu_header b))) ≡ true

pub FuBytes-of_lt : (b : ℕ) → b < 256 → FuBytes b
unfolding fu_table
FuBytes-of_lt b h = let t = all_below_sound 256 fu_table b fu_table_all h in ground arith
