-- ===== src/RtspResponse.antt =====
-- src/media/rtsp_message.h and src/media/rtsp_message.cc: RtspResponse, the requests that it builds and
-- parseResponse. A word that does not fit in `sessionId` is `none`.
pub mod Requests
pub mod Unread
use rtsp_server.Base.{
  ℕ, Bytes, Bool, true, false, Option, none, some, [], ◌++◌, ◌+◌, ◌%◌, ◌^◌, ◌==◌, if◌then◌else◌,
  ◌>>=◌, length,
}
use rtsp_server.Base.Text.{
  text, c_str, seek, is_some, scan_until, scan_char, scan_word, store, decimal, signed_decimal,
  printed,
}
use rtsp_server.RtspRequest.Parse.{Buffer}

pub data Method : Type 0 where
  options describe announce setup record_stream rtcp unknown : Method

pub record RtspResponse : Type 0 where
  pub method : Method
  pub cseq : ℕ
  pub user_agent : Bytes
  pub rtsp_url : Bytes
  pub session : Bytes

-- A new response; the method is not initialised.
unfoldable pub init : RtspResponse → RtspResponse
init memory = record memory { cseq = 0; user_agent = []; rtsp_url = []; session = [] }

unfoldable pub set_user_agent : Bytes → RtspResponse → RtspResponse
set_user_agent user_agent r = record r { user_agent = c_str user_agent }

unfoldable pub set_rtsp_url : Bytes → RtspResponse → RtspResponse
set_rtsp_url url r = record r { rtsp_url = c_str url }

-- `sscanf(ptr, "%*[^:]: %s", sessionId)`: the inner `none` if it is not 1.
unfoldable pub scan_session : Bytes → Option (Option Bytes)
scan_session s = elim (do (name, s1) ← scan_until b':' s; s2 ← scan_char b':' s1; scan_word s2) [
  | none ↦ some none
  | some (word, rest) ↦ (do word ← store 50 word; some (some word))
]

unfoldable pub keep_session : Option Bytes → RtspResponse → RtspResponse
unfolding scan_session
keep_session none r = r
keep_session (some id) r = record r { session = id }

unfoldable pub read_session : Bytes → RtspResponse → Option RtspResponse
unfolding keep_session scan_session
read_session s r = elim (seek (text "Session") s) [
  | none ↦ some r
  | some at ↦ (do found ← scan_session at; some (keep_session found r))
]

-- `parseResponse`. What `peek()` points to is read up to its first 0. `retrieve_literal` is what
-- `retrieveUntil` does with the address of a literal.
unfoldable pub parse_response {ℓ} :
    {B : Type ℓ} → Buffer B → (B → B) → B → RtspResponse → Option (B × RtspResponse × Bool)
unfolding read_session
parse_response ops retrieve_literal buf r =
    let s = c_str (ops.readable buf) in
    if is_some (seek (text "\r\n\r\n") s)
    then (if is_some (seek (text "OK") s)
        then (do
          r1 ← read_session s r
          some (retrieve_literal buf, record r1 { cseq = (r1.cseq + 1) % 2 ^ 32 }, true))
        else some (buf, r, false))
    else some (buf, r, true)

-- `this->getCSeq() + 1`, as `%u`.
unfoldable pub next_cseq : RtspResponse → Bytes
next_cseq r = decimal ((r.cseq + 1) % 2 ^ 32)

unfoldable pub build_option_req : ℕ → RtspResponse → RtspResponse × Bytes
unfolding next_cseq
build_option_req size r = (
  record r { method = Method.options },
  printed size (
      text "OPTIONS "
      ++ (r.rtsp_url
          ++ (text " RTSP/1.0\r\nCSeq: "
              ++ (next_cseq r ++ (text "\r\nUser-Agent: " ++ (r.user_agent ++ text "\r\n\r\n")))))),
)

unfoldable pub build_describe_req : ℕ → RtspResponse → RtspResponse × Bytes
unfolding next_cseq
build_describe_req size r = (
  record r { method = Method.describe },
  printed size (
      text "DESCRIBE "
      ++ (r.rtsp_url
          ++ (text " RTSP/1.0\r\nCSeq: "
              ++ (next_cseq r
                  ++ (text "\r\nAccept: application/sdp\r\nUser-Agent: "
                      ++ (r.user_agent ++ text "\r\n\r\n")))))),
)

unfoldable pub build_announce_req : ℕ → Bytes → RtspResponse → RtspResponse × Bytes
unfolding next_cseq
build_announce_req size sdp r = (
  record r { method = Method.announce },
  printed size (
      text "ANNOUNCE "
      ++ (r.rtsp_url
          ++ (text " RTSP/1.0\r\nContent-Type: application/sdp\r\nCSeq: "
              ++ (next_cseq r
                  ++ (text "\r\nUser-Agent: "
                      ++ (r.user_agent
                          ++ (text "\r\nSession: "
                              ++ (r.session
                                  ++ (text "\r\nContent-Length: "
                                      ++ (signed_decimal (length (c_str sdp) % 2 ^ 32)
                                          ++ (text "\r\n\r\n" ++ c_str sdp))))))))))),
)

-- `interleaved[0]`; the other is the next.
unfoldable pub interleaved_for : ℕ → ℕ
interleaved_for track_id = if track_id == 1 then 2 else 0

unfoldable pub build_setup_tcp_req : ℕ → ℕ → RtspResponse → RtspResponse × Bytes
unfolding next_cseq interleaved_for
build_setup_tcp_req size track_id r = (
  record r { method = Method.setup },
  printed size (
      text "SETUP "
      ++ (r.rtsp_url
          ++ (text "/track"
              ++ (signed_decimal track_id
                  ++ (text " RTSP/1.0\r\nTransport: RTP/AVP/TCP;unicast;mode=record;interleaved="
                      ++ (decimal (interleaved_for track_id)
                          ++ (text "-"
                              ++ (decimal (interleaved_for track_id + 1)
                                  ++ (text "\r\nCSeq: "
                                      ++ (next_cseq r
                                          ++ (text "\r\nUser-Agent: "
                                              ++ (r.user_agent
                                                  ++ (text "\r\nSession: "
                                                      ++ (r.session
                                                          ++ text "\r\n\r\n")))))))))))))),
)

unfoldable pub build_record_req : ℕ → RtspResponse → RtspResponse × Bytes
unfolding next_cseq
build_record_req size r = (
  record r { method = Method.record_stream },
  printed size (
      text "RECORD "
      ++ (r.rtsp_url
          ++ (text " RTSP/1.0\r\nRange: npt=0.000-\r\nCSeq: "
              ++ (next_cseq r
                  ++ (text "\r\nUser-Agent: "
                      ++ (r.user_agent
                          ++ (text "\r\nSession: " ++ (r.session ++ text "\r\n\r\n")))))))),
)
