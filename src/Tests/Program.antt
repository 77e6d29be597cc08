-- ===== src/Tests/Program.antt =====
-- src/rtsp_h264file.cc: a session for a file of two units, with a client, and rounds of the thread.
use rtsp_server.Base.{
  ℕ, Bytes, ◌≡◌, ◌≢◌, refl, List, [], ◌∷◌, none, some, Bool, true, arith, replicate,
  length-replicate, Option, ◌⊎◌, zero, suc, ◌+◌, ◌≤◌, ◌<◌, ◌||◌, not, leb, drop, All, are_bytes,
  are_bytes_sound, all_below, all_below_sound,
}
use rtsp_server.Media.{MediaChannelId, AvFrame}
use rtsp_server.H264File.{H264File, init, open_path}
use rtsp_server.Base.Text.{begins}
use rtsp_server.H264File.Shapes.{behind_code, is_first_slice, is_parameter, starts, ends}
use rtsp_server.H264File.Playing.{IsStream, IsAhead}
use rtsp_server.MediaSession.{MediaSession}
use rtsp_server.RtspServer.{RtspServer}
use rtsp_server.RtspServer.Sessions.{started}
use rtsp_server.RtspH264file.{Started, main, set_up, send_frames}
use rtsp_server.RtspH264file.Starting.{IsStarted, main-starts}
use rtsp_server.RtspH264file.Sending.{IsReadable, Sends, send_frames-Sends}
use rtsp_server.RtspH264file.Passes.{Passes, send_frames-Passes}

abbrev suffix : Bytes
suffix = 108 ∷ 105 ∷ 118 ∷ 101 ∷ []

abbrev file : Bytes
file = 0 ∷ 0 ∷ 1 ∷ 0x65 ∷ 0x80 ∷ 9 ∷ 0 ∷ 0 ∷ 1 ∷ 0x67 ∷ 1 ∷ 2 ∷ 3 ∷ 4 ∷ 5 ∷ 6 ∷ 7 ∷ []

abbrev reader : H264File
reader = (open_path (some file) (init 500000 (replicate 500000 0))).0

reader-IsReadable : IsReadable file reader
unfolding open_path init
reader-IsReadable = record {
  opened = (refl, refl, length-replicate {A = ℕ} 500000 0, omega arith, omega arith);
  buffer_is = refl;
  left = omega arith;
}

-- A session that takes each frame as it is.
abbrev handle : MediaChannelId → AvFrame → MediaSession → MediaSession × Bool
handle channel frame s = (s, true)

abbrev served : RtspServer ℕ
served = (set_up suffix 7 1 started.server).0

abbrev times : List ℕ
times = 0 ∷ 40000 ∷ 80000 ∷ 120000 ∷ 160000 ∷ []

send_frames-Sends_example :
    Sends 2 handle file (omega arith) times served reader (send_frames 2 handle times served reader)
send_frames-Sends_example =
    send_frames-Sends 2 handle file (omega arith) times served reader reader-IsReadable

-- Two slices of six and of eight bytes.
abbrev looped : Bytes
looped = 0 ∷ 0 ∷ 1 ∷ 0x65 ∷ 0x80 ∷ 9 ∷ 0 ∷ 0 ∷ 1 ∷ 0x41 ∷ 0x80 ∷ 7 ∷ 7 ∷ 7 ∷ []

ends_below : ℕ → Bool
ends_below k = leb k 6 || not (ends (drop k looped))

ends_below-all : all_below 9 ends_below ≡ true
unfolding all_below ends_below ends behind_code begins is_first_slice is_parameter
ends_below-all = refl

nothing_behind : (k : ℕ) → k + 5 < 14 → ends (drop k looped) ≡ true → k ≤ 6
unfolding ends_below
nothing_behind k inside hits =
    let h : leb k 6 || not (ends (drop k looped)) ≡ true =
      all_below_sound 9 ends_below k ends_below-all (omega (arith, inside)) in
    ground (arith, h, hits)

looped-IsStream : IsStream looped
unfolding are_bytes starts behind_code begins is_first_slice
looped-IsStream = record {
  bytes = are_bytes_sound looped refl;
  first = 0;
  last = 6;
  begins = refl;
  begins_last = refl;
  apart = omega arith;
  inside = omega arith;
  nothing_behind = nothing_behind;
}

abbrev player : H264File
player = (open_path (some looped) (init 500000 (replicate 500000 0))).0

zeros-bytes : (n : ℕ) → All (λ b. b < 256) (replicate n 0)
zeros-bytes zero = tt
zeros-bytes (suc n) = (omega arith, zeros-bytes n)

player-IsAhead : IsAhead looped looped-IsStream player
unfolding open_path init looped-IsStream
player-IsAhead = record {
  opened = (refl, refl, length-replicate {A = ℕ} 500000 0, omega arith, omega arith);
  room = omega arith;
  bytes = zeros-bytes 500000;
  ahead = omega arith;
  anew = λ _. omega arith;
}

send_frames-Passes_example :
    Passes 2 handle looped looped-IsStream times served player
      (send_frames 2 handle times served player)
unfolding open_path init
send_frames-Passes_example =
    send_frames-Passes 2 handle looped looped-IsStream times served player player-IsAhead refl
      (omega arith)

main-starts_example :
    ((p : Started ℕ) × (main 2 (some file) (replicate 500000 0) ≡ some p) × IsStarted file p)
    × ((argc : ℕ) (answer : Option Bytes)
        → (argc ≢ 2) ⊎ (answer ≡ none)
        → main {Conn = ℕ} argc answer (replicate 500000 0) ≡ none)
main-starts_example =
    main-starts file (replicate 500000 0) (omega arith) (length-replicate {A = ℕ} 500000 0)
