-- ===== src/RtpConnection/Info.antt =====
-- src/media/rtp_connection.cc: getRtpInfo. `ts` is the time of the steady clock in milliseconds; its
-- product with a clock rate is a signed number of 64 bits, and `none` if it does not fit.
use rtsp_server.Base.{
  ℕ, Bytes, true, false, Option, none, some, List, [], ◌∷◌, ◌++◌, ◌+◌, ◌*◌, ◌/◌, ◌%◌, ◌^◌, ◌<◌, ◌≡◌,
  ◌∙◌, refl, ap, arith, append_assoc, ◌==◌, ltb, if◌then◌else◌, ◌>>=◌, Bool-cases, inl, inr,
}
use rtsp_server.Base.Text.{text, c_str, decimal, printed, append_printed}
use rtsp_server.Base.Text.Printing.{append_printed-printed}
use rtsp_server.RtpConnection.{RtpConnection, MediaChannelInfo}

-- `(uint32_t)(ts * clockRate / 1000)`
unfoldable pub rtp_time : ℕ → ℕ → Option ℕ
rtp_time ts clock_rate =
    if ltb (ts * clock_rate) (2 ^ 63) then some (ts * clock_rate / 1000 % 2 ^ 32) else none

-- What is printed for a channel.
unfoldable pub track : Bytes → Bytes → ℕ → Bytes
track url chn time =
    text "url="
    ++ (c_str url ++ (text "/track" ++ (chn ++ (text ";seq=0;rtptime=" ++ decimal time))))

-- A round of the loop, on the buffer and `numChannel`.
unfoldable pub print_channel : ℕ → Bytes → Bytes → MediaChannelInfo → Bytes × ℕ → Option (Bytes × ℕ)
unfolding track
print_channel ts url chn i (buf, num_channel) = do
  time ← rtp_time ts i.clock_rate
  let started = if num_channel == 0 then buf else append_printed 1024 buf (text ",") in
      if i.is_setup
      then some (append_printed 1024 started (track url chn time), num_channel + 1)
      else some (buf, num_channel)

unfoldable pub get_rtp_info : ℕ → Bytes → RtpConnection → Option Bytes
unfolding print_channel
get_rtp_info ts url c = do
  after_0 ←
      print_channel ts url (text "0") c.media_channel_info.at_0
        (printed 1024 (text "RTP-Info: "), 0)
  after_1 ← print_channel ts url (text "1") c.media_channel_info.at_1 after_0
  some after_1.0

-- The entries of a list, with a comma between two.
abbrev pub joined : List Bytes → Bytes
joined [] = []
joined (x ∷ []) = x
joined (x ∷ y ∷ entries) = x ++ (text "," ++ joined (y ∷ entries))

-- The entry of a channel, if it is set up.
unfoldable pub entry_of : ℕ → Bytes → Bytes → MediaChannelInfo → List Bytes
entry_of ts url chn i =
    if i.is_setup then track url chn (ts * i.clock_rate / 1000 % 2 ^ 32) ∷ [] else []

rtp_time_lem :
    (ts rate : ℕ) → ts * rate < 2 ^ 63 → rtp_time ts rate ≡ some (ts * rate / 1000 % 2 ^ 32)
unfolding rtp_time
rtp_time_lem ts rate fits = ground arith

module _ (ts : ℕ) (url : Bytes) where
  abbrev time_of : MediaChannelInfo → ℕ
  time_of i = ts * i.clock_rate / 1000 % 2 ^ 32

  -- What a round leaves, for a channel that is not set up, for the first that is and for the second.
  print_channel_lem :
      (chn : Bytes) (i : MediaChannelInfo) (buf : Bytes)
      → ts * i.clock_rate < 2 ^ 63
      → ((n : ℕ) → i.is_setup ≡ false → print_channel ts url chn i (buf, n) ≡ some (buf, n))
        × (i.is_setup ≡ true
            → print_channel ts url chn i (buf, 0)
              ≡ some (append_printed 1024 buf (track url chn (time_of i)), 1))
        × (i.is_setup ≡ true
            → print_channel ts url chn i (buf, 1)
              ≡ some (
                append_printed 1024
                    (append_printed 1024 buf (text ","))
                    (track url chn (time_of i)),
                2,
              ))
  unfolding print_channel
  print_channel_lem chn i buf fits =
      let time = rtp_time_lem ts i.clock_rate fits in
      (
        (λ n off. rw (time, off, print_channel) refl),
        (λ on. rw (time, on, print_channel) refl),
        (λ on. rw (time, on, print_channel) refl),
      )

  get_rtp_info_steps :
      (c : RtpConnection) (r q : Bytes × ℕ)
      → print_channel ts url
          (text "0")
          c.media_channel_info.at_0
          (printed 1024 (text "RTP-Info: "), 0)
        ≡ some r
      → print_channel ts url (text "1") c.media_channel_info.at_1 r ≡ some q
      → get_rtp_info ts url c ≡ some q.0
  unfolding get_rtp_info
  get_rtp_info_steps c r q e d = rw (e, d, get_rtp_info) refl

  -- The header with these entries behind it.
  abbrev headed : List Bytes → Bytes
  headed entries = printed 1024 (text "RTP-Info: " ++ joined entries)

  entry_of_lem :
      (chn : Bytes) (i : MediaChannelInfo)
      → (i.is_setup ≡ false → entry_of ts url chn i ≡ [])
        × (i.is_setup ≡ true → entry_of ts url chn i ≡ track url chn (time_of i) ∷ [])
  unfolding entry_of
  entry_of_lem chn i = (λ off. rw (off, entry_of) refl, λ on. rw (on, entry_of) refl)

  print_one :
      (x : Bytes) → append_printed 1024 (printed 1024 (text "RTP-Info: ")) x ≡ headed (x ∷ [])
  print_one x = append_printed-printed 1024 (text "RTP-Info: ") x

  print_two :
      (x y : Bytes)
      → append_printed 1024 (append_printed 1024 (headed (x ∷ [])) (text ",")) y
        ≡ headed (x ∷ y ∷ [])
  print_two x y =
      let header = text "RTP-Info: " in
      ap (λ b. append_printed 1024 b y) (append_printed-printed 1024 (header ++ x) (text ","))
      ∙ append_printed-printed 1024 ((header ++ x) ++ text ",") y
      ∙ ap (printed 1024)
          (append_assoc (header ++ x) (text ",") y ∙ append_assoc header x (text "," ++ y))

  -- getRtpInfo at a time whose products with both clock rates are below 2 ^ 63: what one call of
  -- snprintf leaves of the header with an entry for each channel that is set up, in order and with a
  -- comma between both.
  pub get_rtp_info-joined :
      (c : RtpConnection)
      → let i = c.media_channel_info.at_0 in
        let j = c.media_channel_info.at_1 in
        ts * i.clock_rate < 2 ^ 63
        → ts * j.clock_rate < 2 ^ 63
        → get_rtp_info ts url c
          ≡ some (
              printed 1024 (
                text "RTP-Info: "
                ++ joined (entry_of ts url (text "0") i ++ entry_of ts url (text "1") j)))
  get_rtp_info-joined c fits_0 fits_1 =
      let i = c.media_channel_info.at_0 in
      let j = c.media_channel_info.at_1 in
      let header = printed 1024 (text "RTP-Info: ") in
      let x = track url (text "0") (time_of i) in
      let y = track url (text "1") (time_of j) in
      let begun = append_printed 1024 header x in
      let (off_0, first_0, next_0) = print_channel_lem (text "0") i header fits_0 in
      let (off_1, first_1, next_1) = print_channel_lem (text "1") j header fits_1 in
      let (off_2, first_2, next_2) = print_channel_lem (text "1") j begun fits_1 in
      let (none_0, one_0) = entry_of_lem (text "0") i in
      let (none_1, one_1) = entry_of_lem (text "1") j in
      elim (Bool-cases i.is_setup) [
        | inl on ↦ elim (Bool-cases j.is_setup) [
          | inl also ↦
              get_rtp_info_steps c _ _ (first_0 on) (next_2 also)
              ∙ rw (one_0 on, one_1 also)
                  (ap (λ b. some (append_printed 1024 (append_printed 1024 b (text ",")) y))
                      (print_one x)
                    ∙ ap some (print_two x y))
          | inr off ↦
              get_rtp_info_steps c _ _ (first_0 on) (off_2 1 off)
              ∙ rw (one_0 on, none_1 off) (ap some (print_one x))
        ]
        | inr off ↦ elim (Bool-cases j.is_setup) [
          | inl on ↦
              get_rtp_info_steps c _ _ (off_0 0 off) (first_1 on)
              ∙ rw (none_0 off, one_1 on) (ap some (print_one y))
          | inr too ↦
              get_rtp_info_steps c _ _ (off_0 0 off) (off_1 0 too)
              ∙ rw (none_0 off, none_1 too) refl
        ]
      ]
