-- ===== src/RtspRequest/Parse/Buffering.antt =====
-- src/media/rtsp_message.cc: parseRequest on muduo's buffer, of which the laws are stated here.
use rtsp_server.Base.{
  ℕ, suc, Bytes, Bool, true, false, Option, none, some, [], ◌∷◌, ◌++◌, ◌+◌, ◌≤◌, ◌≡◌, refl, ap, ◌∙◌,
  arith, ◌==◌, if◌then◌else◌, ◌>>=◌, length, get_elem?, get_elem?-append_first, take, drop, All,
  length-append, take-append,
}
use rtsp_server.Base.Text.{text, begins}
use rtsp_server.RtspRequest.{RtspRequest, ParseState}
use rtsp_server.RtspRequest.Parse.{
  Buffer, parse_request, rounds, line_round, headers_round, is_headers,
}
use rtsp_server.RtspRequest.Parse.Line.{parse_line}
use rtsp_server.RtspRequest.Parse.Headers.{parse_headers}

-- The place of the first and of the last CRLF.
pub first_crlf : Bytes → Option ℕ
first_crlf [] = none
first_crlf (c ∷ s) =
    let rest = first_crlf s in
    if begins (text "\r\n") (c ∷ s) then some 0 else (do at ← rest; some (at + 1))

pub last_crlf : Bytes → Option ℕ
last_crlf [] = none
last_crlf (c ∷ s) = elim (last_crlf s) [
  | some at ↦ some (at + 1)
  | none ↦ if begins (text "\r\n") (c ∷ s) then some 0 else none
]

-- What muduo says of the operations of its buffer.
pub record IsBuffer {ℓ} {B : Type ℓ} (ops : Buffer B) : Type ℓ where
  pub finds_first : (b : B) → ops.find_crlf b ≡ first_crlf (ops.readable b)
  pub finds_last : (b : B) → ops.find_last_crlf b ≡ last_crlf (ops.readable b)
  pub retrieves :
      (n : ℕ) (b : B)
      → n ≤ length (ops.readable b)
      → ops.readable (ops.retrieve n b) ≡ drop n (ops.readable b)
  pub retrieves_all : (b : B) → ops.readable (ops.retrieve_all b) ≡ []

first_crlf-lem :
    (xs rest : Bytes)
    → All (λ c. (b'\r' == c) ≡ false) xs
    → first_crlf (xs ++ (text "\r\n" ++ rest)) ≡ some (length xs)
unfolding first_crlf begins
first_crlf-lem [] rest h = refl
first_crlf-lem (x ∷ xs) rest h = rw (h.0, first_crlf-lem xs rest h.1) (ap some (omega arith))

last_crlf-lem : (xs : Bytes) → last_crlf (xs ++ text "\r\n") ≡ some (length xs)
unfolding last_crlf begins
last_crlf-lem [] = refl
last_crlf-lem (x ∷ xs) = rw (last_crlf-lem xs) (ap some (omega arith))

drop-crlf : (xs rest : Bytes) → drop (length xs + 2) (xs ++ (text "\r\n" ++ rest)) ≡ rest
drop-crlf [] rest = refl
drop-crlf (x ∷ xs) rest =
    ap (λ n. drop n (x ∷ (xs ++ (text "\r\n" ++ rest))))
      (let e : suc (length xs) + 2 ≡ suc (length xs + 2) = omega arith in e)
    ∙ drop-crlf xs rest

module _ {ℓ} {B : Type ℓ} (ops : Buffer B) (laws : IsBuffer ops) where
  retrieve-crlf :
      (buf : B) (xs rest : Bytes)
      → ops.readable buf ≡ xs ++ (text "\r\n" ++ rest)
      → ops.readable (ops.retrieve (length xs + 2) buf) ≡ rest
  retrieve-crlf buf xs rest holds =
      laws.retrieves (length xs + 2) buf
        (omega (arith, ap length holds, length-append xs (text "\r\n" ++ rest)))
      ∙ ap (drop (length xs + 2)) holds
      ∙ drop-crlf xs rest

  headers_round-lem :
      (buf : B) (r : RtspRequest) (body : Bytes) (ret : Bool)
      → ops.readable buf ≡ body ++ text "\r\n"
      → headers_round ops ret buf r
        ≡ (ops.retrieve (length body + 2) buf, (parse_headers body r).0, (parse_headers body r).1)
  unfolding headers_round
  headers_round-lem buf r body ret holds =
      let found : ops.find_last_crlf buf ≡ some (length body) =
        laws.finds_last buf ∙ ap last_crlf holds ∙ last_crlf-lem body in
      let taken : take (length body) (ops.readable buf) ≡ body =
        ap (take (length body)) holds ∙ take-append body (text "\r\n") in
      rw (found, taken, headers_round) refl

  line_round-lem :
      (buf : B) (r r1 : RtspRequest) (at : ℕ) (line : Bytes)
      → ops.find_crlf buf ≡ some at
      → take at (ops.readable buf) ≡ line
      → parse_line line r ≡ some (r1, true)
      → r1.state ≡ ParseState.parse_headers_line
      → line_round ops buf r ≡ some (headers_round ops true (ops.retrieve (at + 2) buf) r1)
  unfolding line_round
  line_round-lem buf r r1 at line found taken parsed next =
      let buf1 = ops.retrieve (at + 2) buf in
      rw (found, taken, parsed, line_round) refl
      ∙ ap (λ s. some (if is_headers s then headers_round ops true buf1 r1 else (buf1, r1, true)))
          next

  -- parseRequest on a whole message, of which the request line is read, does what parseHeadersLine
  -- does on its headers, and takes the message out of the buffer.
  pub parse_request-whole :
      (buf : B) (r r1 : RtspRequest) (c : ℕ) (line body : Bytes)
      → ops.readable buf ≡ line ++ (text "\r\n" ++ (body ++ text "\r\n"))
      → get_elem? line 0 ≡ some c
      → (c == b'$') ≡ false
      → All (λ x. (b'\r' == x) ≡ false) line
      → r.state ≡ ParseState.parse_request_line
      → parse_line line r ≡ some (r1, true)
      → r1.state ≡ ParseState.parse_headers_line
      → (buf' : B) × (parse_request ops buf r
          ≡ some (buf', (parse_headers body r1).0, (parse_headers body r1).1))
        × (ops.readable buf' ≡ [])
  unfolding parse_request rounds
  parse_request-whole buf r r1 c line body holds head other plain begin parsed next =
      let found : ops.find_crlf buf ≡ some (length line) =
        laws.finds_first buf
        ∙ ap first_crlf holds
        ∙ first_crlf-lem line (body ++ text "\r\n") plain in
      let taken : take (length line) (ops.readable buf) ≡ line =
        ap (take (length line)) holds ∙ take-append line _ in
      let left = retrieve-crlf buf line (body ++ text "\r\n") holds in
      let buf1 = ops.retrieve (length line + 2) buf in
      let first : get_elem? (ops.readable buf) 0 ≡ some c =
        ap (λ s. get_elem? s 0) holds ∙ get_elem?-append_first line _ c head in
      let round : line_round ops buf r ≡ some (headers_round ops true buf1 r1) =
        line_round-lem buf r r1 (length line) line found taken parsed next in
      (
        ops.retrieve (length body + 2) buf1,
        rw (first, other, parse_request) refl
            ∙ ap (λ s. rounds ops s buf r) begin
            ∙ round
            ∙ ap some (headers_round-lem buf1 r1 body true left),
        retrieve-crlf buf1 body [] left,
      )
