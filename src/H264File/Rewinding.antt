-- ===== src/H264File/Rewinding.antt =====
-- src/h264_file.cc: readFrame starts again at the end of the file.
use rtsp_server.Base.{
  take-nil, ℕ, zero, suc, Bytes, false, some, [], ◌∷◌, ◌+◌, ◌≤◌, ◌<◌, ◌≡◌, refl, ap, sym, ◌∙◌,
  arith, ◌==◌, length, take, drop, spliced, length-take,
}
use rtsp_server.H264File.{H264File, fread, read_on, read_again, read_frame}
use rtsp_server.H264File.Reading.{filled, fread_lem, read_frame-read_on}

abbrev pub rewound : H264File → H264File
rewound f = record f { position = 0; count = 0; bytes_used = 0 }

drop-of_le : (n : ℕ) (xs : Bytes) → length xs ≤ n → drop n xs ≡ []
drop-of_le zero [] h = refl
drop-of_le zero (x ∷ xs) h = absurd (omega arith)
drop-of_le (suc n) [] h = refl
drop-of_le (suc n) (x ∷ xs) h = drop-of_le n xs (omega arith)

fread_past :
    (content : Bytes) (f : H264File)
    → length f.buffer ≡ f.buf_size
    → length content ≤ f.position
    → fread content f ≡ some (0, record f { position = f.position + 0 })
fread_past content f e past =
    fread_lem content f e
    ∙ ap
        (λ b.
          some (
            length b,
            record f { buffer = spliced f.buffer 0 b; position = f.position + length b },
          ))
        (ap (take f.buf_size) (drop-of_le f.position content past) ∙ take-nil f.buf_size)

read_frame-read_again :
    (content : Bytes) (size : ℕ) (f f1 : H264File)
    → f.fp ≡ some content
    → fread content f ≡ some (0, f1)
    → read_frame size f ≡ read_again size content f1
unfolding read_frame
read_frame-read_again content size f f1 e r = rw (e, r, read_frame) refl

read_again-read_on :
    (content : Bytes) (size n : ℕ) (f f1 : H264File)
    → fread content (rewound f) ≡ some (n, f1)
    → n == 0 ≡ false
    → read_again size content f ≡ read_on size (n, f1)
unfolding read_again
read_again-read_on content size n f f1 r more = rw (r, more, read_again) refl

-- At the end of the file, readFrame does what it does on the object wound back to the start, with
-- `_count` and `_bytesUsed` reset, if the file and the buffer are not empty.
pub read_frame-rewound :
    (content : Bytes) (size : ℕ) (f : H264File)
    → f.fp ≡ some content
    → length f.buffer ≡ f.buf_size
    → length content ≤ f.position
    → 0 < length content
    → 0 < f.buf_size
    → read_frame size f ≡ read_frame size (rewound f)
read_frame-rewound content size f open_file e past filled_file filled_buffer =
    let n = length (take f.buf_size content) in
    let more : n == 0 ≡ false = ground (arith, length-take f.buf_size content) in
    let again : fread content (rewound f) ≡ some (n, filled (rewound f) content) =
      fread_lem content (rewound f) e in
    read_frame-read_again content size f _ open_file (fread_past content f e past)
    ∙ read_again-read_on content size n _ (filled (rewound f) content) again more
    ∙ sym (
        read_frame-read_on content size n (rewound f) (filled (rewound f) content) open_file again
          more)
