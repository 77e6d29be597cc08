-- ===== src/RtspConnection/Serving.antt =====
-- src/media/rtsp_connection.cc: handleRtspMessage, step by step, on a request that is parsed.
use rtsp_server.Base.{
  Bool, true, false, some, List, [], ◌∷◌, ◌++◌, ◌<◌, ◌^◌, ◌≡◌, refl, ap, sym, ◌∙◌, map, arith,
  Option-cases, inl, inr,
}
use rtsp_server.Base.Text.{is_some}
use mathlib.Core.Option.{some-injective}
use rtsp_server.RtspServer.{RtspServer, look_by_suffix}
use rtsp_server.RtspServer.Sessions
use rtsp_server.RtspServer.Sessions.{State, started}
use rtsp_server.RtspServer.Sessions.Lookups.{look_by_id-none}
use rtsp_server.RtspRequest.{
  RtspRequest, Method, ParseState, has_all, reset, get_cseq, get_rtsp_url_suffix,
}
use rtsp_server.RtspRequest.Answers.Numbers.{read_cseq}
use rtsp_server.RtspRequest.Answers.Echo.{read_cseq-build}
use rtsp_server.RtspRequest.Parse.{Buffer, parse_request}
use rtsp_server.RtspRequest.Parse.Asks.{Ask, method_for}
use rtsp_server.RtspConnection.{RtspConnection, rtsp_server_mode, Outside, Effect}
use rtsp_server.RtspConnection.Handlers.{handle_cmd_describe, describe_session}
use rtsp_server.RtspConnection.Messages.{
  dispatch, is_rtcp, serve, handle_rtsp_request, handle_by, handle_rtsp_message, reset_if_all,
  drop_long,
}
use rtsp_server.RtspConnection.Answered.{
  replies, needs_rtp, IsRequest, is_options, is_describe, is_setup, is_play, is_teardown,
  is_get_parameter, IsLinked, Kept, AnswersOnce, Serves,
}
use rtsp_server.RtspConnection.Served.{served}

-- A connection that waits for the next request.
pub record IsReady (c : RtspConnection) : Type 0 where
  pub serves : c.conn_mode ≡ rtsp_server_mode
  pub no_line : c.request.request_line_param ≡ []
  pub no_headers : c.request.header_line_param ≡ []
  pub at_line : c.request.state ≡ ParseState.parse_request_line
  pub linked : IsLinked c

-- Whether there is an RtpConnection behind a request, if it is known before it.
abbrev pub rtp_after : Method → Bool → Bool
rtp_after Method.describe known = true
rtp_after _ known = known

pub rtp_after_mono :
    (m : Method) (known has : Bool)
    → (known ≡ true → has ≡ true)
    → rtp_after m known ≡ true
    → rtp_after m has ≡ true
rtp_after_mono Method.describe known has h e = refl
rtp_after_mono Method.options known has h e = h e
rtp_after_mono Method.setup known has h e = h e
rtp_after_mono Method.play known has h e = h e
rtp_after_mono Method.teardown known has h e = h e
rtp_after_mono Method.get_parameter known has h e = h e
rtp_after_mono Method.rtcp known has h e = h e
rtp_after_mono Method.unknown known has h e = h e

-- The answers of two runs.
pub replies-append : (xs ys : List Effect) → replies (xs ++ ys) ≡ replies xs ++ replies ys
unfolding replies
replies-append [] ys = refl
replies-append (Effect.sends b ∷ xs) ys = ap (◌∷◌ b) (replies-append xs ys)
replies-append (Effect.shuts_down ∷ xs) ys = replies-append xs ys
replies-append (Effect.closes_later ∷ xs) ys = replies-append xs ys
replies-append (Effect.notifies n ∷ xs) ys = replies-append xs ys
replies-append (Effect.calls k ∷ xs) ys = replies-append xs ys

pub asked-IsRequest : (ask : Ask) → IsRequest (method_for ask)
asked-IsRequest Ask.options = is_options
asked-IsRequest Ask.describe = is_describe
asked-IsRequest Ask.teardown = is_teardown
asked-IsRequest Ask.get_parameter = is_get_parameter
asked-IsRequest (Ask.setup_tcp a b) = is_setup
asked-IsRequest (Ask.setup_udp a b) = is_setup
asked-IsRequest Ask.setup_multicast = is_setup
asked-IsRequest (Ask.play id) = is_play

pub request-other : {m : Method} → IsRequest m → is_rtcp m ≡ false
unfolding is_rtcp
request-other is_options = refl
request-other is_describe = refl
request-other is_setup = refl
request-other is_play = refl
request-other is_teardown = refl
request-other is_get_parameter = refl

-- The number of an answer is the number of the request.
pub replies-cseq :
    (r : RtspRequest) (effects : List Effect)
    → AnswersOnce r effects
    → get_cseq r < 2 ^ 31
    → map read_cseq (replies effects) ≡ some (get_cseq r) ∷ []
replies-cseq r effects (a, e) small =
    ap (map read_cseq) e ∙ ap (λ n. n ∷ []) (read_cseq-build a 1024 r (omega arith) (ground arith))

-- The state behind a request that was answered.
pub got-reset :
    (c c' : RtspConnection)
    → Kept c c'
    → c.conn_mode ≡ rtsp_server_mode
    → has_all c.request ≡ true
    → IsReady (reset_if_all c')
unfolding reset
got-reset c c' kept serves all =
    let all' : has_all c'.request ≡ true = ap has_all kept.same_request ∙ all in
    rw all' (record {
      serves = kept.same_mode ∙ serves;
      no_line = refl;
      no_headers = refl;
      at_line = refl;
      linked = kept.linked;
    })

module _ {κ} {Conn : Type κ} where
  describe-opens :
      (out : Outside) (srv : RtspServer Conn) (c : RtspConnection)
      → is_some (handle_cmd_describe out srv c).1.rtp_conn ≡ true
  unfolding handle_cmd_describe describe_session is_some
  describe-opens out srv c =
      elim (Option-cases (look_by_suffix (get_rtsp_url_suffix c.request) srv).1) [
        | inl nothing ↦ rw (nothing, handle_cmd_describe) refl
        | inr (s, found) ↦ rw (found, handle_cmd_describe) refl
      ]

  -- An RtpConnection stays, and DESCRIBE makes one.
  pub rtp_after-dispatch :
      (m : Method) (out : Outside) (srv srv' : RtspServer Conn) (c c' : RtspConnection)
      (effects : List Effect)
      → dispatch m out srv c ≡ some (srv', c', effects)
      → Kept c c'
      → rtp_after m (is_some c.rtp_conn) ≡ true
      → is_some c'.rtp_conn ≡ true
  unfolding dispatch
  rtp_after-dispatch Method.describe out srv srv' c c' effects done kept e =
      let same : (handle_cmd_describe out srv c).1 ≡ c' =
        ap (λ r. r.1) (some-injective (handle_cmd_describe out srv c) (srv', c', effects) done) in
      ap (λ x. is_some x.rtp_conn) (sym same) ∙ describe-opens out srv c
  rtp_after-dispatch Method.options out srv srv' c c' effects done kept e = kept.still_open e
  rtp_after-dispatch Method.setup out srv srv' c c' effects done kept e = kept.still_open e
  rtp_after-dispatch Method.play out srv srv' c c' effects done kept e = kept.still_open e
  rtp_after-dispatch Method.teardown out srv srv' c c' effects done kept e = kept.still_open e
  rtp_after-dispatch Method.get_parameter out srv srv' c c' effects done kept e = kept.still_open e
  rtp_after-dispatch Method.rtcp out srv srv' c c' effects done kept e = kept.still_open e
  rtp_after-dispatch Method.unknown out srv srv' c c' effects done kept e = kept.still_open e

  -- A request that may be made is served.
  pub served-allowed :
      (m : Method) (out : Outside) (st : State Conn) (c : RtspConnection)
      → IsRequest m
      → IsLinked c
      → Sessions.Reach started st
      → (needs_rtp m ≡ true → is_some c.rtp_conn ≡ true)
      → Serves c (dispatch m out st.server c)
  unfolding is_some
  served-allowed m out st c is linked reached allowed =
      elim (served m out st.server c is linked (look_by_id-none st reached)) [
        | inl (needs, gone, refused) ↦ cc (allowed needs, gone)
        | inr serves ↦ serves
      ]

pub drop_long-empty {ℓ} :
    {B : Type ℓ} (ops : Buffer B) (buf : B) → ops.readable buf ≡ [] → drop_long ops buf ≡ buf
drop_long-empty ops buf empty = rw empty refl

module _ {ℓ κ} {B : Type ℓ} {Conn : Type κ} (ops : Buffer B) where
  pub serve-dispatch :
      (out : Outside) (buf : B) (srv srv' : RtspServer Conn) (c c' : RtspConnection)
      (effects : List Effect)
      → is_rtcp c.request.method ≡ false
      → has_all c.request ≡ true
      → dispatch c.request.method out srv c ≡ some (srv', c', effects)
      → serve ops out buf srv c ≡ some (buf, srv', reset_if_all c', effects)
  unfolding serve
  serve-dispatch out buf srv srv' c c' effects other all done = rw (other, all, done, serve) refl

  pub request-serve :
      (out : Outside) (buf buf1 : B) (srv : RtspServer Conn) (c : RtspConnection) (r : RtspRequest)
      (result : B × RtspServer Conn × RtspConnection × List Effect)
      → parse_request ops buf c.request ≡ some (buf1, r, true)
      → serve ops out buf1 srv (record c { request = r }) ≡ some result
      → handle_rtsp_request ops out buf srv c ≡ some result
  unfolding handle_rtsp_request
  request-serve out buf buf1 srv c r result parsed done = rw (parsed, handle_rtsp_request) done

  pub message-request :
      (out : Outside) (lit : B → B) (buf : B) (srv : RtspServer Conn) (c : RtspConnection)
      (result : B × RtspServer Conn × RtspConnection × List Effect)
      → c.conn_mode ≡ rtsp_server_mode
      → handle_rtsp_request ops out buf srv c ≡ some result
      → handle_rtsp_message ops out lit buf srv c
        ≡ some (drop_long ops result.0, result.1, result.2, result.3)
  unfolding handle_rtsp_message handle_by
  message-request out lit buf srv c result serves done =
      let handled : handle_by ops c.conn_mode out lit buf srv c ≡ some result =
        ap (λ m. handle_by ops m out lit buf srv c) serves ∙ done in
      rw (handled, handle_rtsp_message) refl
