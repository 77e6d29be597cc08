-- ===== src/RtspRequest/Parse/Lines.antt =====
-- src/media/rtsp_message.cc: which request lines parseRequestLine reads, and which overrun it.
use rtsp_server.Base.{
  ℕ, Bytes, true, false, not, none, some, [], ◌∷◌, ◌++◌, ◌≤◌, ◌<◌, ◌≡◌, refl, ap, sym, ◌∙◌, arith,
  length, ◌==◌, All,
}
use rtsp_server.Base.Maps.{bytes_eq, equal, lookup, emplace}
use rtsp_server.Base.Text.{text, begins, scan_until, store}
use rtsp_server.Base.Text.Scans.{IsWord, IsWord-append}
use rtsp_server.RtspRequest.{RtspRequest, ParseState, get_ip, get_rtsp_url, get_rtsp_url_suffix}
use rtsp_server.RtspRequest.Parse.Line.{
  scan_with_port, scan_url, method_of, is_unknown, keep_line, read_line, parse_line,
}
use rtsp_server.Base.Text.Scans.{span-whole}
use rtsp_server.RtspRequest.Parse.RoundTrip.{
  print_url, print_line, IsUrl, protocol-IsWord, scan_request_line_lem, behind_ip, scan_url_lem,
  url_eq, url-IsWord, url-short,
}

begins-protocol : (s : Bytes) → begins (text "rtsp://") (text "rtsp://" ++ s) ≡ true
unfolding begins
begins-protocol s = refl

-- The words of a request line other than the URL, with a method that the server knows.
pub record IsRequestLine (method version : Bytes) : Type 0 where
  pub method_word : IsWord method
  pub known : is_unknown (method_of method) ≡ false
  pub method_short : length method < 32
  pub version_word : IsWord version
  pub version_short : length version < 16

-- What the request has after its request line.
pub record HasLine (method ip url : Bytes) (suffix : Bytes) (r : RtspRequest) : Type 0 where
  pub method_is : r.method ≡ method_of method
  pub ip_is : get_ip r ≡ ip
  pub url_is : get_rtsp_url r ≡ url
  pub suffix_is : get_rtsp_url_suffix r ≡ suffix
  pub headers_next : r.state ≡ ParseState.parse_headers_line

module _ (method version : Bytes) (r : RtspRequest) (ok : IsRequestLine method version) where
  parse_line_lem :
      (url : Bytes)
      → IsWord url
      → length url < 128
      → parse_line (print_line method url version) r ≡ read_line method url version r
  unfolding parse_line
  parse_line_lem url word short =
      rw
        (
          scan_request_line_lem method version url ok.method_word ok.method_short word short
              ok.version_word ok.version_short,
          parse_line,
        )
        refl

  read_line-found :
      (s : Bytes) (parts : Bytes × ℕ × Bytes)
      → scan_url 64 s ≡ some (some parts)
      → read_line method (text "rtsp://" ++ s) version r
        ≡ some (
          record r {
            method = method_of method;
            request_line_param =
                keep_line method (text "rtsp://" ++ s) version parts r.request_line_param;
            state = ParseState.parse_headers_line;
          },
          true,
        )
  unfolding read_line
  read_line-found s parts e = rw (ok.known, begins-protocol s, e, read_line) refl

  read_line-overrun :
      (s : Bytes) → scan_url 64 s ≡ none → read_line method (text "rtsp://" ++ s) version r ≡ none
  unfolding read_line
  read_line-overrun s e = rw (ok.known, begins-protocol s, e, read_line) refl

-- The request behind its request line.
abbrev pub line_read : Bytes → Bytes → Bytes → Bytes → ℕ → RtspRequest → RtspRequest
line_read method ip suffix version port r = record r {
  method = method_of method;
  request_line_param = keep_line method (print_url ip port suffix) version (ip, port, suffix) [];
  state = ParseState.parse_headers_line;
}

-- The getters on what `keep_line` stores.
pub line_read-HasLine :
    (method ip suffix version : Bytes) (port : ℕ) (r : RtspRequest)
    → HasLine method ip
        (print_url ip port suffix)
        suffix
        (line_read method ip suffix version port r)
unfolding keep_line get_ip get_rtsp_url get_rtsp_url_suffix emplace lookup equal
line_read-HasLine method ip suffix version port r = record {
  method_is = refl;
  ip_is = refl;
  url_is = refl;
  suffix_is = refl;
  headers_next = refl;
}

pub parse_line-line_read :
    (method ip suffix version : Bytes) (port : ℕ) (r : RtspRequest)
    → IsRequestLine method version
    → IsUrl ip port suffix
    → r.request_line_param ≡ []
    → parse_line (print_line method (print_url ip port suffix) version) r
      ≡ some (line_read method ip suffix version port r, true)
parse_line-line_read method ip suffix version port r ok u empty =
    let url = print_url ip port suffix in
    parse_line_lem method version r ok url (url-IsWord ip port suffix u)
      (url-short ip port suffix u)
    ∙ ap (λ x. read_line method x version r) (url_eq ip port suffix u)
    ∙ read_line-found method version r ok (ip ++ behind_ip ip port suffix u) (ip, port, suffix)
        (scan_url_lem ip port suffix u)
    ∙ rw (empty, sym (url_eq ip port suffix u)) refl

-- A request without parameters, as it is after `reset`, takes over what a client prints: from a
-- request line with a known method and an URL with a port, all words of which fit into the arrays of
-- parseRequestLine, it has the method, the address, the URL and the suffix, and it goes on to the
-- headers.
pub parse_line-print_line :
    (method ip suffix version : Bytes) (port : ℕ) (r : RtspRequest)
    → IsRequestLine method version
    → IsUrl ip port suffix
    → r.request_line_param ≡ []
    → (r' : RtspRequest) × (parse_line (print_line method (print_url ip port suffix) version) r
        ≡ some (r', true))
      × HasLine method ip (print_url ip port suffix) suffix r'
parse_line-print_line method ip suffix version port r ok u empty = (
  line_read method ip suffix version port r,
  parse_line-line_read method ip suffix version port r ok u empty,
  line_read-HasLine method ip suffix version port r,
)

store-overrun : (s : Bytes) → 16 ≤ length s → store 16 s ≡ none
unfolding store
store-overrun s h = ground arith

scan_until-whole :
    (s : Bytes) → IsWord s → All (λ c. not (c == b':') ≡ true) s → scan_until b':' s ≡ some (s, [])
unfolding scan_until
scan_until-whole [] word plain = absurd (omega (arith, word.filled))
scan_until-whole (c ∷ s) word plain = rw (span-whole (λ c. not (c == b':')) (c ∷ s) plain) refl

scan_url-overrun :
    (s : Bytes)
    → IsWord s
    → All (λ c. not (c == b':') ≡ true) s
    → 16 ≤ length s
    → scan_url 64 s ≡ none
unfolding scan_url scan_with_port
scan_url-overrun s word plain long =
    rw (scan_until-whole s word plain, store-overrun s long, scan_with_port, scan_url) refl

-- A request line with a known method and an URL without a port, where what follows `rtsp://` has 16
-- characters or more (and makes a URL that fits), writes past the end of `ip`.
pub parse_line-overrun :
    (method version host_suffix : Bytes) (r : RtspRequest)
    → IsRequestLine method version
    → IsWord host_suffix
    → All (λ c. not (c == b':') ≡ true) host_suffix
    → 16 ≤ length host_suffix
    → length host_suffix < 121
    → parse_line (print_line method (text "rtsp://" ++ host_suffix) version) r ≡ none
parse_line-overrun method version s r ok word plain long short =
    parse_line_lem method version r ok (text "rtsp://" ++ s)
      (IsWord-append (text "rtsp://") s protocol-IsWord word) (omega arith)
    ∙ read_line-overrun method version r ok s (scan_url-overrun s word plain long)
