-- ===== src/Tests/Files.antt =====
-- src/h264_file.cc on a file of two units, a slice and a parameter set, read through 16 bytes.
use rtsp_server.Base.{
  Bytes, ◌≡◌, refl, [], ◌∷◌, none, some, arith, Option, Bool, false, write, read, ℕ, take, ◌-◌, ◌+◌,
  if◌then◌else◌, All, are_bytes, are_bytes_sound, ◌<◌,
}
use rtsp_server.H264File.Shapes.{starts, ends}
use rtsp_server.H264File.Search.{IsFirst, find_frame-IsFirst}
use rtsp_server.H264File.{H264File, find_frame, read_frame, holds_at, starts_frame, ends_frame}
use rtsp_server.H264File.Reading.{IsOpen, Succeeds, read_frame-HandsOut}
use rtsp_server.H264File.Rewinding.{rewound, read_frame-rewound}

abbrev slice : Bytes
slice = 0 ∷ 0 ∷ 1 ∷ 0x65 ∷ 0x80 ∷ 9 ∷ []

abbrev file : Bytes
file = 0 ∷ 0 ∷ 1 ∷ 0x65 ∷ 0x80 ∷ 9 ∷ 0 ∷ 0 ∷ 1 ∷ 0x67 ∷ 1 ∷ 2 ∷ 3 ∷ 4 ∷ 5 ∷ 6 ∷ 7 ∷ []

abbrev room : Bytes
room = 0 ∷ 0 ∷ 0 ∷ 0 ∷ 0 ∷ 0 ∷ 0 ∷ 0 ∷ 0 ∷ 0 ∷ 0 ∷ 0 ∷ 0 ∷ 0 ∷ 0 ∷ 0 ∷ []

abbrev reader : H264File
reader = record {
  fp = some file;
  position = 0;
  buffer = room;
  buf_size = 16;
  bytes_used = 0;
  count = 0;
}

abbrev at_end : H264File
at_end = record {
  fp = some file;
  position = 17;
  buffer = room;
  buf_size = 16;
  bytes_used = 17;
  count = 3;
}

reader-IsOpen : IsOpen file reader
reader-IsOpen = (refl, refl, refl, omega arith, omega arith)

abbrev handed : Option (H264File × Option (Bytes × Bool)) → Option (Bytes × Bool)
handed (some (f, out)) = out
handed none = none

reads_slice : handed (read_frame 64 reader) ≡ some (slice, false)
unfolding read_frame write read holds_at starts_frame ends_frame
reads_slice = refl

read_frame-HandsOut_example : Succeeds file 64 reader (read_frame 64 reader)
read_frame-HandsOut_example =
    read_frame-HandsOut file 64 reader reader-IsOpen (omega arith) (omega arith)

read_frame-rewound_example : read_frame 64 at_end ≡ read_frame 64 (rewound at_end)
read_frame-rewound_example =
    read_frame-rewound file 64 at_end refl refl (omega arith) (omega arith) (omega arith)

-- The first 16 bytes in the buffer.
abbrev filled : H264File
filled = record reader { buffer = take 16 file }

filled-bytes : All (λ b. b < 256) filled.buffer
unfolding are_bytes
filled-bytes = are_bytes_sound filled.buffer refl

find_frame-IsFirst_example :
    (i : ℕ) × (begun : Bool) × (j : ℕ) × (ended : Bool) × (find_frame 16 filled
      ≡ some (j, begun, ended))
    × IsFirst starts filled.buffer (16 - 5) 0 i begun
    × IsFirst ends filled.buffer (16 - 5) (if begun then i + 4 else i) j ended
find_frame-IsFirst_example =
    find_frame-IsFirst 16 filled (omega arith) (omega arith) (omega arith) filled-bytes
