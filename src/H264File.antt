-- ===== src/H264File.antt =====
-- src/h264_file.h and src/h264_file.cc: H264File, which reads a file frame by frame. The file is its
-- bytes and a position, and `none` if none is open. A read outside of `_buffer`, or a copy past the end
-- of the caller's buffer, is `none`.
pub mod Frames
pub mod Shapes
pub mod Meaning
pub mod Search
pub mod Playing
pub mod Reading
pub mod Rewinding
use rtsp_server.Base.{
  ℕ, zero, suc, Bytes, Bool, true, false, not, Option, none, some, [], ◌+◌, ◌-◌, ◌%◌, ◌^◌, ◌==◌,
  ◌&&◌, ◌||◌, leb, ltb, if◌then◌else◌, ◌>>=◌, length, take, drop, get_elem?, bit_and, read, write,
}

pub record H264File : Type 0 where
  pub fp : Option Bytes
  pub position : ℕ
  pub buffer : Bytes
  pub buf_size : ℕ
  pub bytes_used : ℕ
  pub count : ℕ

unfoldable pub init : ℕ → Bytes → H264File
init buf_size allocated = record {
  fp = none;
  position = 0;
  buffer = allocated;
  buf_size = buf_size;
  bytes_used = 0;
  count = 0;
}

unfoldable pub is_opend : H264File → Bool
is_opend f = elim f.fp [ none ↦ false | some content ↦ true ]

-- `open`, where fopen answers with the bytes of the file or fails.
unfoldable pub open_path : Option Bytes → H264File → H264File × Bool
open_path none f = (record f { fp = none }, false)
open_path (some content) f = (record f { fp = some content; position = 0 }, true)

-- `fread(_buffer, 1, _bufSize, _fp)`: the number of bytes, and the object with `_buffer` filled.
unfoldable pub fread : Bytes → H264File → Option (ℕ × H264File)
fread content f = do
  let bytes = take f.buf_size (drop f.position content)
  filled ← write f.buffer 0 bytes
  some (length bytes, record f { buffer = filled; position = f.position + length bytes })

unfoldable pub close : H264File → H264File
close f = elim f.fp [ none ↦ f | some content ↦ record f { fp = none; count = 0; bytes_used = 0 } ]

-- `&&` on reads that may fault: the second is made only if the first holds.
abbrev pub and_also : Option Bool → Option Bool → Option Bool
and_also none second = none
and_also (some true) second = second
and_also (some false) second = some false

unfoldable pub holds_at : (ℕ → Bool) → Bytes → ℕ → Option Bool
holds_at p buf i = do b ← get_elem? buf i; some (p b)

abbrev pub is_byte : ℕ → ℕ → Bool
is_byte v b = b == v

unfoldable pub has_code_3 : Bytes → ℕ → Option Bool
has_code_3 buf i =
    and_also (holds_at (is_byte 0) buf i)
      (and_also (holds_at (is_byte 0) buf (i + 1)) (holds_at (is_byte 1) buf (i + 2)))

unfoldable pub has_code_4 : Bytes → ℕ → Option Bool
has_code_4 buf i = and_also (holds_at (is_byte 0) buf i) (
    and_also (holds_at (is_byte 0) buf (i + 1))
      (and_also (holds_at (is_byte 0) buf (i + 2)) (holds_at (is_byte 1) buf (i + 3))))

-- `startCode`, and 0 for `continue`.
unfoldable pub start_code : Bytes → ℕ → Option ℕ
unfolding has_code_3 has_code_4
start_code buf i = do
  three ← has_code_3 buf i
  (if three then some 3 else (do four ← has_code_4 buf i; some (if four then 4 else 0)))

abbrev pub is_slice : ℕ → Bool
is_slice b = bit_and b 0x1f == 0x5 || bit_and b 0x1f == 0x1

abbrev pub is_header : ℕ → Bool
is_header b = bit_and b 0x1f == 0x6 || (bit_and b 0x1f == 0x7 || bit_and b 0x1f == 0x8)

abbrev pub is_first : ℕ → Bool
is_first b = bit_and b 0x80 == 0x80

-- The tests behind a start code for the first slice of a frame, and for what follows a frame.
unfoldable pub starts_frame : Bytes → ℕ → ℕ → Option Bool
starts_frame buf i code =
    and_also (holds_at is_slice buf (i + code)) (holds_at is_first buf (i + code + 1))

unfoldable pub ends_frame : Bytes → ℕ → ℕ → Option Bool
unfolding starts_frame
ends_frame buf i code = do
  header ← holds_at is_header buf (i + code)
  (if header then some true else starts_frame buf i code)

-- A round of a loop at `i`: whether a start code is there and the test holds behind it.
unfoldable pub hit_at : (Bytes → ℕ → ℕ → Option Bool) → Bytes → ℕ → Option Bool
unfolding start_code
hit_at test buf i = do code ← start_code buf i; (if code == 0 then some false else test buf i code)

-- A loop of readFrame, from `i` on and below `bound`: where it stops, and whether it has found what it
-- looks for. The fuel bounds the rounds.
unfoldable pub find : (Bytes → ℕ → ℕ → Option Bool) → ℕ → Bytes → ℕ → ℕ → Option (ℕ × Bool)
unfolding hit_at
find test zero buf bound i = none
find test (suc fuel) buf bound i = elim (ltb i bound) [
  | false ↦ some (i, false)
  | true ↦ (do
    hit ← hit_at test buf i
    elim hit [ true ↦ some (i, true) | false ↦ find test fuel buf bound (i + 1) ])
]

-- What the second loop and the statements behind it find: the end of the frame, whether there is one,
-- and `flag`.
unfoldable pub frame_end : ℕ → Bool → Bool → ℕ → ℕ → ℕ × Bool × Bool
frame_end i find_start find_end count bytes_read =
    if find_start && (not find_end && ltb 0 count)
    then (bytes_read, true, true)
    else (i, find_end, false)

-- `bytesRead - 5` on 64 bits.
abbrev pub bound_of : ℕ → ℕ
bound_of bytes_read = (bytes_read + 2 ^ 64 - 5) % 2 ^ 64

-- Both loops.
unfoldable pub find_frame : ℕ → H264File → Option (ℕ × Bool × Bool)
unfolding find
find_frame bytes_read f = do
  (i, find_start) ← find starts_frame (length f.buffer + 1) f.buffer (bound_of bytes_read) 0
  (j, find_end) ←
      find ends_frame (length f.buffer + 1) f.buffer (bound_of bytes_read)
        (if find_start then i + 4 else i)
  some (j, find_start, find_end)

-- `fseek(_fp, _bytesUsed, SEEK_SET)`, which fails and moves nothing if the `int` is negative.
unfoldable pub seek : ℕ → ℕ → ℕ
seek used position = if ltb used (2 ^ 31) then used else position

-- The copy to the caller, who gives `size` bytes, and the place of the next frame.
unfoldable pub hand_out : ℕ → ℕ → Bool → H264File → Option (H264File × Option (Bytes × Bool))
unfolding seek
hand_out size i flag f = do
  frame ← read f.buffer 0 (if leb i size then i else size)
  let used = if flag then 0 else (f.bytes_used + i) % 2 ^ 32
  some (
    record f {
      bytes_used = used;
      count = if flag then 0 else f.count + 1;
      position = seek used f.position;
    },
    some (frame, flag),
  )

-- What follows the loops.
unfoldable pub settle :
    ℕ → ℕ → H264File → ℕ × Bool × Bool → Option (H264File × Option (Bytes × Bool))
unfolding frame_end hand_out
settle size bytes_read f (i, find_start, find_end) =
    let (j, ended, flag) = frame_end i find_start find_end f.count bytes_read in
    if not find_start || not ended then some (close f, none) else hand_out size j flag f

unfoldable pub read_on : ℕ → ℕ × H264File → Option (H264File × Option (Bytes × Bool))
unfolding find_frame settle
read_on size (bytes_read, f) = do found ← find_frame bytes_read f; settle size bytes_read f found

-- The second `fread`, from the start of the file.
unfoldable pub read_again : ℕ → Bytes → H264File → Option (H264File × Option (Bytes × Bool))
unfolding read_on fread
read_again size content f = do
  (bytes_read, f1) ← fread content (record f { position = 0; count = 0; bytes_used = 0 })
  (if bytes_read == 0 then some (close f1, none) else read_on size (bytes_read, f1))

-- `readFrame`: the frame and `*endOfFrame`, or none for -1.
unfoldable pub read_frame : ℕ → H264File → Option (H264File × Option (Bytes × Bool))
unfolding read_again read_on fread
read_frame size f = elim f.fp [
  | none ↦ some (f, none)
  | some content ↦ (do
    (bytes_read, f1) ← fread content f
    (if bytes_read == 0 then read_again size content f1 else read_on size (bytes_read, f1)))
]
