-- ===== src/MediaSession/Described.antt =====
-- src/media/media_session.cc: the text of getSdpMessage, and that it is made once.
use rtsp_server.Base.{
  ℕ, Bytes, false, Option, none, some, [], ◌∷◌, ◌++◌, ◌≡◌, ◌∙◌, sym, refl, ap, append_assoc,
  append-nil,
}
use rtsp_server.Base.Text.{text, c_str, decimal, printed, append_printed}
use rtsp_server.Base.Text.Printing.{append_printed-printed}
use rtsp_server.MediaSession.{MediaSession, is_empty}
use rtsp_server.MediaSession.Sdp.{MediaSource, add_source, add_name, sdp_message, get_sdp_message}

-- The lines of the session itself.
unfoldable pub session_lines : Bytes → ℕ → Bytes
session_lines ip time =
    text "v=0\r\no=- 9"
    ++ (decimal time ++ (text " 1 IN IP4 " ++ (c_str ip ++ text "\r\nt= 0 0\r\na= control:*\r\n")))

unfoldable pub name_line : Bytes → Bytes
name_line [] = []
name_line (b ∷ name) = text "s=" ++ (c_str (b ∷ name) ++ text "\r\n")

-- The three lines of the source of a channel.
unfoldable pub source_lines : (ℕ → MediaSource) → Option ℕ → Bytes → Bytes
source_lines sources none chn = []
source_lines sources (some source) chn =
    (c_str ((sources source).media_description 0) ++ text "\r\n")
    ++ ((c_str ((sources source).attribute) ++ text "\r\n")
        ++ (text "a=control:track" ++ (chn ++ text "\r\n")))

-- The description of a session, line by line.
unfoldable pub description : Bytes → ℕ → (ℕ → MediaSource) → Bytes → MediaSession → Bytes
description ip time sources name s =
    ((session_lines ip time ++ name_line name)
      ++ source_lines sources s.media_sources.at_0 (text "0"))
    ++ source_lines sources s.media_sources.at_1 (text "1")

add_name-printed :
    (name done : Bytes) → add_name name (printed 1024 done) ≡ printed 1024 (done ++ name_line name)
unfolding add_name is_empty name_line
add_name-printed [] done = ap (printed 1024) (sym (append-nil done))
add_name-printed (b ∷ name) done = append_printed-printed 1024 done _

add_source-printed :
    (sources : ℕ → MediaSource) (source : Option ℕ) (chn done : Bytes)
    → add_source sources source chn (printed 1024 done)
      ≡ printed 1024 (done ++ source_lines sources source chn)
unfolding add_source source_lines
add_source-printed sources none chn done = ap (printed 1024) (sym (append-nil done))
add_source-printed sources (some source) chn done =
    let m = c_str ((sources source).media_description 0) ++ text "\r\n" in
    let a = c_str ((sources source).attribute) ++ text "\r\n" in
    let control = text "a=control:track" ++ (chn ++ text "\r\n") in
    ap (λ b. append_printed 1024 (append_printed 1024 b a) control)
      (append_printed-printed 1024 done m)
    ∙ ap (λ b. append_printed 1024 b control) (append_printed-printed 1024 (done ++ m) a)
    ∙ append_printed-printed 1024 ((done ++ m) ++ a) control
    ∙ ap (printed 1024) (append_assoc (done ++ m) a control ∙ append_assoc done m (a ++ control))

get_sdp_message_again :
    (ip : Bytes) (time : ℕ) (sources : ℕ → MediaSource) (name : Bytes) (s : MediaSession)
    → is_empty s.sdp ≡ false
    → get_sdp_message ip time sources name s ≡ (s, s.sdp)
unfolding get_sdp_message
get_sdp_message_again ip time sources name s full = rw (full, get_sdp_message) refl

module _ (ip : Bytes) (time : ℕ) (sources : ℕ → MediaSource) (name : Bytes) where
  sdp_message-printed :
      (s : MediaSession)
      → sdp_message ip time sources name s ≡ printed 1024 (description ip time sources name s)
  unfolding sdp_message description session_lines
  sdp_message-printed s =
      let lines = session_lines ip time in
      ap
        (λ b.
          add_source sources s.media_sources.at_1 (text "1")
            (add_source sources s.media_sources.at_0 (text "0") b))
        (add_name-printed name lines)
      ∙ ap (add_source sources s.media_sources.at_1 (text "1"))
          (add_source-printed sources s.media_sources.at_0 (text "0") (lines ++ name_line name))
      ∙ add_source-printed sources s.media_sources.at_1 (text "1") _

  -- getSdpMessage of a session that has no description yet: what one call of snprintf leaves of the
  -- lines of the session, of its name and of the sources of both channels. The session keeps it, and from
  -- then on gives the same, at any time, under any address and name and with any sources.
  pub get_sdp_message-made_once :
      (s : MediaSession)
      → s.sdp ≡ []
      → let made = printed 1024 (description ip time sources name s) in
        (get_sdp_message ip time sources name s ≡ (record s { sdp = made }, made))
        × ((ip' : Bytes) (time' : ℕ) (sources' : ℕ → MediaSource) (name' : Bytes)
              (s' : MediaSession)
            → s'.sdp ≡ made
            → get_sdp_message ip' time' sources' name' s' ≡ (s', made))
  unfolding get_sdp_message is_empty description session_lines printed
  get_sdp_message-made_once s new = (
    rw (new, get_sdp_message) (ap (λ d. (record s { sdp = d }, d)) (sdp_message-printed s)),
    λ ip' time' sources' name' s' kept.
        get_sdp_message_again ip' time' sources' name' s' (ap is_empty kept)
        ∙ ap (λ d. (s', d)) kept,
  )
