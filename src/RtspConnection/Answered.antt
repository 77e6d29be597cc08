-- ===== src/RtspConnection/Answered.antt =====
-- src/media/rtsp_connection.cc: the handlers of DESCRIBE and SETUP answer their request once.
use rtsp_server.Base.{
  ℕ, Bool, true, false, Option, none, some, List, [], ◌∷◌, ◌++◌, ◌≡◌, refl, ap, map, Option-cases,
  Bool-cases, inl, inr,
}
use rtsp_server.Media.{
  MediaChannelId, TransportMode, rtp_over_tcp, rtp_over_udp, rtp_over_multicast,
}
use rtsp_server.RtpConnection.{RtpConnection}
use rtsp_server.RtpConnection.Setup.{SystemCall, setup_rtp_over_udp}
use rtsp_server.MediaSession.{MediaSession, Notification, add_client}
use rtsp_server.RtspServer.{RtspServer, look_by_suffix}
use rtsp_server.RtspRequest.{Method, get_rtsp_url_suffix, get_rtp_port, get_rtcp_port}
use rtsp_server.RtspConnection.{
  RtspConnection, Outside, Effect, sends, shuts_down, closes_later, notifies, calls,
}
use rtsp_server.RtspConnection.Handlers.{
  rtp_of, handle_cmd_describe, describe_session, setup_by, setup_tcp, setup_udp, udp_answer,
  describe_answer,
}
use rtsp_server.RtspRequest.{RtspRequest}
use rtsp_server.RtspRequest.Answers.Echo.{Answer, build}
use rtsp_server.Base.Text.{is_some}
use rtsp_server.Base.{Bytes, sym, subst, ◌∙◌}
use rtsp_server.MediaSession.{is_empty}

-- The answers among the effects.
unfoldable pub replies : List Effect → List Bytes
replies [] = []
replies (sends bytes ∷ effects) = bytes ∷ replies effects
replies (shuts_down ∷ effects) = replies effects
replies (closes_later ∷ effects) = replies effects
replies (notifies n ∷ effects) = replies effects
replies (calls s ∷ effects) = replies effects

-- What goes on the connection that a DESCRIBE makes.
unfoldable pub needs_rtp : Method → Bool
needs_rtp Method.play = true
needs_rtp Method.teardown = true
needs_rtp Method.get_parameter = true
needs_rtp _ = false

-- The methods that have a handler.
pub data IsRequest : Method → Type 0 where
  is_options : IsRequest Method.options
  is_describe : IsRequest Method.describe
  is_setup : IsRequest Method.setup
  is_play : IsRequest Method.play
  is_teardown : IsRequest Method.teardown
  is_get_parameter : IsRequest Method.get_parameter

-- Without an RtpConnection no session was described.
abbrev pub IsLinked : RtspConnection → Type 0
IsLinked c = c.rtp_conn ≡ none → c.session_id ≡ 0

-- What a handler leaves as it was: the request that was parsed and the mode, and an RtpConnection stays.
pub record Kept (c c' : RtspConnection) : Type 0 where
  pub linked : IsLinked c'
  pub same_request : c'.request ≡ c.request
  pub same_mode : c'.conn_mode ≡ c.conn_mode
  pub still_open : is_some c.rtp_conn ≡ true → is_some c'.rtp_conn ≡ true

-- The effects have one answer, to the request.
abbrev pub AnswersOnce : RtspRequest → List Effect → Type 0
AnswersOnce r effects = (a : Answer) × (replies effects ≡ build a 1024 r ∷ [])

replies-notifies :
    (told : List Notification) (effects : List Effect)
    → replies (map notifies told ++ effects) ≡ replies effects
unfolding replies
replies-notifies [] effects = refl
replies-notifies (n ∷ told) effects = replies-notifies told effects

replies-calls :
    (made : List SystemCall) (effects : List Effect)
    → replies (map calls made ++ effects) ≡ replies effects
unfolding replies
replies-calls [] effects = refl
replies-calls (s ∷ made) effects = replies-calls made effects

-- A connection that has an RtpConnection afterwards.
pub opened :
    (c c' : RtspConnection) (rtp : ℕ × RtpConnection)
    → c'.rtp_conn ≡ some rtp
    → c'.request ≡ c.request
    → c'.conn_mode ≡ c.conn_mode
    → Kept c c'
unfolding is_some
opened c c' rtp here same_request same_mode = record {
  linked = λ gone. cc;
  same_request = same_request;
  same_mode = same_mode;
  still_open = λ _. rw here;
}

pub unchanged : (c : RtspConnection) → IsLinked c → Kept c c
unchanged c linked = record {
  linked = linked;
  same_request = refl;
  same_mode = refl;
  still_open = λ e. e;
}

describe_answer-answers :
    (sdp : Bytes) (r : RtspRequest) → (a : Answer) × (describe_answer sdp r ≡ build a 1024 r)
unfolding build
describe_answer-answers sdp r = elim (Bool-cases (is_empty sdp)) [
  | inl nothing ↦ (Answer.server_error, rw (nothing, describe_answer) refl)
  | inr filled ↦ (Answer.describe sdp, rw (filled, describe_answer) refl)
]

udp_answer-answers :
    (done : Bool) (channel : MediaChannelId) (address : ℕ) (rtp : RtpConnection) (r : RtspRequest)
    → (a : Answer) × (udp_answer done channel address rtp r ≡ build a 1024 r)
unfolding build udp_answer
udp_answer-answers true channel address rtp r = (Answer.setup_udp _ _ _, refl)
udp_answer-answers false channel address rtp r = (Answer.server_error, refl)

module _ {ℓ} {Conn : Type ℓ} where
  -- A handler has answered the request once, and keeps what is to be kept.
  abbrev pub Serves :
      RtspConnection → Option (RtspServer Conn × RtspConnection × List Effect) → Type ℓ
  Serves c result =
      (srv : RtspServer Conn) × (c' : RtspConnection) × (effects : List Effect) × (result
        ≡ some (srv, c', effects))
      × AnswersOnce c.request effects
      × Kept c c'

  describe_session-Serves :
      (out : Outside) (rtp : ℕ × RtpConnection) (s : MediaSession) (srv : RtspServer Conn)
      (c : RtspConnection)
      → Serves c (some (describe_session out rtp s srv c))
  unfolding describe_session replies
  describe_session-Serves out rtp s srv c =
      let told = (add_client c.tcp_conn.fd rtp.0 s).1 in
      let (a, e) = describe_answer-answers _ c.request in
      (
        _,
        _,
        _,
        refl,
        (a, replies-notifies told _ ∙ ap (λ b. b ∷ []) e),
        opened c _ _ refl refl refl,
      )

  pub describe-Serves :
      (out : Outside) (srv : RtspServer Conn) (c : RtspConnection)
      → Serves c (some (handle_cmd_describe out srv c))
  unfolding handle_cmd_describe replies build
  describe-Serves out srv c =
      elim (Option-cases (look_by_suffix (get_rtsp_url_suffix c.request) srv).1) [
        | inl nothing ↦
            rw (nothing, handle_cmd_describe)
              (_, _, _, refl, (Answer.not_found, refl), opened c _ _ refl refl refl)
        | inr (s, found) ↦
            rw (found, handle_cmd_describe) (describe_session-Serves out (rtp_of out c) s _ c)
      ]

-- What a handler of SETUP promises.
abbrev pub Sets : RtspConnection → Option (RtspConnection × List Effect) → Type 0
Sets c result =
    (c' : RtspConnection) × (effects : List Effect) × (result ≡ some (c', effects))
    × AnswersOnce c.request effects
    × Kept c c'

setup_tcp-Sets :
    (channel : MediaChannelId) (rtp : ℕ × RtpConnection) (c : RtspConnection)
    → Sets c (some (setup_tcp channel rtp.0 rtp.1 c))
unfolding setup_tcp replies build
setup_tcp-Sets channel rtp c =
    (_, _, refl, (Answer.setup_tcp _ _ _, refl), opened c _ _ refl refl refl)

setup_udp-Sets :
    (out : Outside) (channel : MediaChannelId) (rtp : ℕ × RtpConnection) (c : RtspConnection)
    → Sets c (some (setup_udp out channel rtp.0 rtp.1 c))
unfolding setup_udp replies
setup_udp-Sets out channel rtp c =
    let made =
      setup_rtp_over_udp (some c.tcp_conn) out.peer out.attempt channel (get_rtp_port c.request)
        (get_rtcp_port c.request) rtp.1 in
    let (a, e) = udp_answer-answers made.2 channel rtp.0 made.0 c.request in
    (_, _, refl, (a, replies-calls made.1 _ ∙ ap (λ b. b ∷ []) e), opened c _ _ refl refl refl)

pub setup_by-Sets :
    (mode : TransportMode) (out : Outside) (c : RtspConnection) (rtp : ℕ × RtpConnection)
    → c.rtp_conn ≡ some rtp
    → Sets c (setup_by mode out c)
unfolding setup_by replies build
setup_by-Sets rtp_over_tcp out c rtp here =
    subst (Sets c) (sym (rw (here, setup_by) refl)) (setup_tcp-Sets c.request.channel_id rtp c)
setup_by-Sets rtp_over_udp out c rtp here =
    subst (Sets c) (sym (rw (here, setup_by) refl)) (setup_udp-Sets out c.request.channel_id rtp c)
setup_by-Sets rtp_over_multicast out c rtp here =
    (c, _, refl, (Answer.unsupported, refl), unchanged c (λ gone. cc))
