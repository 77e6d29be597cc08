-- ===== src/RtspRequest/Parse/Line.antt =====
-- src/media/rtsp_message.cc: parseRequestLine. A write past the end of one of its arrays is `none`.
use rtsp_server.Base.{
  ℕ, Bytes, Bool, true, false, Option, none, some, [], ◌||◌, not, if◌then◌else◌, ◌>>=◌, drop,
}
use rtsp_server.Base.Maps.{bytes_eq, equal, emplace}
use rtsp_server.Base.Text.{
  text, c_str, begins, scan_word, scan_until, scan_char, scan_unsigned, store,
}
use rtsp_server.RtspRequest.{Method, ParseState, Params, RtspRequest}

-- `sscanf(s, "%s %s %s", method, url, version)`: the inner `none` if it is not 3.
unfoldable pub scan_request_line : Bytes → Option (Option (Bytes × Bytes × Bytes))
scan_request_line s = elim (scan_word s) [
  | none ↦ some none
  | some (method, s1) ↦ (do
    method ← store 32 method
    elim (scan_word s1) [
      | none ↦ some none
      | some (url, s2) ↦ (do
        url ← store 128 url
        elim (scan_word s2) [
          | none ↦ some none
          | some (version, s3) ↦ (do version ← store 16 version; some (some (method, url, version)))
        ])
    ])
]

-- `:%hu/%s` and `/%s`, up to the store of the suffix.
unfoldable pub scan_port_suffix : Bytes → Option (ℕ × Bytes)
scan_port_suffix s = do
  s1 ← scan_char b':' s
  (port, s2) ← scan_unsigned 16 s1
  s3 ← scan_char b'/' s2
  (suffix, s4) ← scan_word s3
  some (port, suffix)

unfoldable pub scan_suffix : Bytes → Option (ℕ × Bytes)
scan_suffix s = do s1 ← scan_char b'/' s; (suffix, s2) ← scan_word s1; some (554, suffix)

abbrev pub store_suffix : ℕ → Bytes → Option (ℕ × Bytes) → Option (Option (Bytes × ℕ × Bytes))
store_suffix size ip none = some none
store_suffix size ip (some (port, suffix)) = do
  suffix ← store size suffix
  some (some (ip, port, suffix))

-- `sscanf(s, "%[^:]:%hu/%s", ip, &port, suffix)`
unfoldable pub scan_with_port : ℕ → Bytes → Option (Option (Bytes × ℕ × Bytes))
unfolding scan_port_suffix
scan_with_port size s = elim (scan_until b':' s) [
  | none ↦ some none
  | some (ip, s1) ↦ (do ip ← store 16 ip; store_suffix size ip (scan_port_suffix s1))
]

-- `sscanf(s, "%[^/]/%s", ip, suffix)`
unfoldable pub scan_without_port : ℕ → Bytes → Option (Option (Bytes × ℕ × Bytes))
unfolding scan_suffix
scan_without_port size s = elim (scan_until b'/' s) [
  | none ↦ some none
  | some (ip, s1) ↦ (do ip ← store 16 ip; store_suffix size ip (scan_suffix s1))
]

-- The address, the port and the suffix of an URL, behind `rtsp://`; `size` is that of `suffix`.
unfoldable pub scan_url : ℕ → Bytes → Option (Option (Bytes × ℕ × Bytes))
unfolding scan_with_port scan_without_port
scan_url size s = do
  found ← scan_with_port size s
  elim found [ some parts ↦ some (some parts) | none ↦ scan_without_port size s ]

-- The comparisons of `methodString`.
unfoldable pub method_of : Bytes → Method
method_of s =
    if equal s (text "OPTIONS")
    then Method.options
    else if equal s (text "DESCRIBE")
    then Method.describe
    else if equal s (text "SETUP")
    then Method.setup
    else if equal s (text "PLAY")
    then Method.play
    else if equal s (text "TEARDOWN")
    then Method.teardown
    else if equal s (text "GET_PARAMETER")
    then Method.get_parameter
    else Method.unknown

unfoldable pub is_unknown : Method → Bool
is_unknown Method.unknown = true
is_unknown _ = false

-- The calls of `emplace` on `_requestLineParam`.
unfoldable pub keep_line : Bytes → Bytes → Bytes → Bytes × ℕ × Bytes → Params → Params
keep_line method url version (ip, port, suffix) m =
    emplace (text "method") (method, 0)
      (emplace (text "version") (version, 0)
        (emplace (text "url_suffix") (suffix, 0)
          (emplace (text "url_port") ([], port)
            (emplace (text "url_ip") (ip, 0) (emplace (text "url") (url, 0) m)))))

-- What `parseRequestLine` does behind its first `sscanf`.
unfoldable pub read_line : Bytes → Bytes → Bytes → RtspRequest → Option (RtspRequest × Bool)
unfolding method_of is_unknown scan_url keep_line
read_line method url version r =
    let r1 = record r { method = method_of method } in
    if is_unknown (method_of method) || not (begins (text "rtsp://") url)
    then some (r1, false)
    else (do
      found ← scan_url 64 (drop 7 url)
      elim found [
        | none ↦ some (r1, false)
        | some parts ↦ some (
          record r1 {
            request_line_param = keep_line method url version parts r.request_line_param;
            state = ParseState.parse_headers_line;
          },
          true,
        )
      ])

-- `parseRequestLine`
unfoldable pub parse_line : Bytes → RtspRequest → Option (RtspRequest × Bool)
unfolding scan_request_line read_line
parse_line message r = do
  words ← scan_request_line (c_str message)
  elim words [
    | none ↦ some (r, false)
    | some (method, url, version) ↦ read_line method url version r
  ]
