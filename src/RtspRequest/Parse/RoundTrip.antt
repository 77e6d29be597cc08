-- ===== src/RtspRequest/Parse/RoundTrip.antt =====
-- src/media/rtsp_message.cc: parseRequestLine on the request line of a client.
use rtsp_server.Base.{
  ℕ, Bytes, true, false, not, some, [], ◌∷◌, ◌++◌, ◌^◌, ◌<◌, ◌≡◌, refl, sym, subst, arith, length,
  ◌==◌, length-append, append_assoc, ap, ◌∙◌, All, get_elem?, get_elem?-append_first,
}
use rtsp_server.Base.Maps.{bytes_eq}
use rtsp_server.Base.Text.{text, c_str, is_digit, is_space, scan_until, scan_char, decimal}
use rtsp_server.Base.Text.Decimal.{length-decimal}
use rtsp_server.Base.Text.Scans.{
  All-map, All-append, IsWord, IsWord-append, decimal-IsWord, c_str-whole, scan_word-lem,
  scan_word-whole, scan_word-blank, scan_until-lem, scan_unsigned-decimal, store_lem,
}
use rtsp_server.RtspRequest.Parse.Line.{
  scan_request_line, scan_port_suffix, scan_with_port, scan_url,
}

-- What a client sends: an URL with its port, and a request line.
pub print_url : Bytes → ℕ → Bytes → Bytes
print_url ip port suffix = text "rtsp://" ++ (ip ++ (b':' ∷ (decimal port ++ (b'/' ∷ suffix))))

pub print_line : Bytes → Bytes → Bytes → Bytes
print_line method url version = method ++ (b' ' ∷ (url ++ (b' ' ∷ version)))

-- The parts of an URL that fit into the arrays of parseRequestLine.
pub record IsUrl (ip : Bytes) (port : ℕ) (suffix : Bytes) : Type 0 where
  pub ip_word : IsWord ip
  pub ip_plain : All (λ c. not (c == b':') ≡ true) ip
  pub ip_short : length ip < 16
  pub port_small : port < 2 ^ 16
  pub suffix_word : IsWord suffix
  pub suffix_short : length suffix < 64

pub protocol-IsWord : IsWord (text "rtsp://")
unfolding is_space
protocol-IsWord = record { unblank = ground arith; nonzero = ground arith; filled = omega arith }

module _ (ip : Bytes) (port : ℕ) (suffix : Bytes) (ok : IsUrl ip port suffix) where
  pub behind_ip : Bytes
  behind_ip = b':' ∷ (decimal port ++ (b'/' ∷ suffix))

  slash_no_digit : is_digit b'/' ≡ false
  unfolding is_digit
  slash_no_digit = refl

  scan_port_suffix_lem : scan_port_suffix behind_ip ≡ some (port, suffix)
  unfolding behind_ip scan_port_suffix scan_char
  scan_port_suffix_lem =
      rw
        (
          scan_unsigned-decimal 16 port b'/' suffix (omega (arith, ok.port_small)) ok.port_small
              slash_no_digit,
          scan_word-whole suffix ok.suffix_word,
        )
        refl

  ip_lem : scan_until b':' (ip ++ behind_ip) ≡ some (ip, behind_ip)
  unfolding behind_ip
  ip_lem = scan_until-lem b':' ip (decimal port ++ (b'/' ∷ suffix)) ok.ip_plain ok.ip_word.filled

  scan_with_port_lem : scan_with_port 64 (ip ++ behind_ip) ≡ some (some (ip, port, suffix))
  unfolding scan_with_port
  scan_with_port_lem =
      rw
        (
          ip_lem,
          store_lem 16 ip ok.ip_short,
          scan_port_suffix_lem,
          store_lem 64 suffix ok.suffix_short,
          scan_with_port,
        )
        refl

  pub scan_url_lem : scan_url 64 (ip ++ behind_ip) ≡ some (some (ip, port, suffix))
  unfolding scan_url
  scan_url_lem = rw scan_with_port_lem refl

  pub url_eq : print_url ip port suffix ≡ text "rtsp://" ++ (ip ++ behind_ip)
  unfolding print_url behind_ip
  url_eq = refl

  mark-IsWord : (c : ℕ) → is_space c ≡ false → (c == 0) ≡ false → IsWord (c ∷ [])
  mark-IsWord c h k = record { unblank = (rw h, tt); nonzero = (k, tt); filled = omega arith }

  behind_ip-IsWord : IsWord behind_ip
  unfolding behind_ip is_space
  behind_ip-IsWord = IsWord-append (b':' ∷ []) _ (mark-IsWord b':' refl refl) (
      IsWord-append (decimal port) _ (decimal-IsWord port)
        (IsWord-append (b'/' ∷ []) suffix (mark-IsWord b'/' refl refl) ok.suffix_word))

  pub url-IsWord : IsWord (print_url ip port suffix)
  url-IsWord = subst IsWord (sym url_eq) (
      IsWord-append (text "rtsp://") _ protocol-IsWord
        (IsWord-append ip behind_ip ok.ip_word behind_ip-IsWord))

  pub url-short : length (print_url ip port suffix) < 128
  unfolding print_url
  url-short = omega (
    arith,
    length-append ip (b':' ∷ (decimal port ++ (b'/' ∷ suffix))),
    length-append (decimal port) (b'/' ∷ suffix),
    length-decimal port,
    ok.ip_short,
    ok.port_small,
    ok.suffix_short,
  )

blank : is_space b' ' ≡ true
unfolding is_space
blank = refl

module _ (method version : Bytes) (url : Bytes) (m_word : IsWord method)
    (m_short : length method < 32) (u_word : IsWord url) (u_short : length url < 128)
    (v_word : IsWord version) (v_short : length version < 16) where
  plain :
      c_str (method ++ (b' ' ∷ (url ++ (b' ' ∷ version))))
      ≡ method ++ (b' ' ∷ (url ++ (b' ' ∷ version)))
  plain = c_str-whole _ (
      All-append (λ c. (c == 0) ≡ false) method _ m_word.nonzero
        (refl, All-append (λ c. (c == 0) ≡ false) url _ u_word.nonzero (refl, v_word.nonzero)))

  pub scan_request_line_lem :
      scan_request_line (c_str (print_line method url version)) ≡ some (some (method, url, version))
  unfolding scan_request_line print_line
  scan_request_line_lem =
      rw
        (
          plain,
          scan_word-lem method (url ++ (b' ' ∷ version)) b' ' m_word blank,
          store_lem 32 method m_short,
          scan_word-blank (url ++ (b' ' ∷ version)),
          scan_word-lem url version b' ' u_word blank,
          store_lem 128 url u_short,
          scan_word-blank version,
          scan_word-whole version v_word,
          store_lem 16 version v_short,
          scan_request_line,
        )
        refl

no_return : (x : ℕ) → not (is_space x) ≡ true → (b'\r' == x) ≡ false
unfolding is_space
no_return x h = ground arith

word-no_return : (w : Bytes) → IsWord w → All (λ x. (b'\r' == x) ≡ false) w
word-no_return w ok = All-map no_return w ok.unblank

pub print_line-no_return :
    (method url version : Bytes)
    → IsWord method
    → IsWord url
    → IsWord version
    → All (λ x. (b'\r' == x) ≡ false) (print_line method url version)
unfolding print_line
print_line-no_return method url version m u v =
    All-append (λ x. (b'\r' == x) ≡ false) method _ (word-no_return method m)
      (
        refl,
        All-append (λ x. (b'\r' == x) ≡ false) url _ (word-no_return url u)
            (refl, word-no_return version v),
      )

pub print_line-first :
    (method url version : Bytes) (c : ℕ)
    → get_elem? method 0 ≡ some c
    → get_elem? (print_line method url version) 0 ≡ some c
unfolding print_line
print_line-first method url version c h = get_elem?-append_first method _ c h

pub print_line-append :
    (method url version rest : Bytes)
    → print_line method url version ++ rest ≡ method ++ (b' ' ∷ (url ++ (b' ' ∷ (version ++ rest))))
unfolding print_line
print_line-append method url version rest =
    append_assoc method (b' ' ∷ (url ++ (b' ' ∷ version))) rest
    ∙ ap (λ s. method ++ (b' ' ∷ s)) (append_assoc url (b' ' ∷ version) rest)
