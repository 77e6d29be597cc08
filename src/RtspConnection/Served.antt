-- ===== src/RtspConnection/Served.antt =====
-- src/media/rtsp_connection.cc: every request that was parsed gets one answer, or is a call through a
-- null pointer.
use rtsp_server.Base.{
  ℕ, true, false, none, some, ◌≡◌, refl, ap, Option-cases, Bool-cases, inl, inr, ◌⊎◌,
}
use rtsp_server.RtpConnection.{RtpConnection}
use rtsp_server.RtspServer.{RtspServer, look_by_id}
use rtsp_server.RtspRequest.{Method}
use rtsp_server.RtspConnection.{RtspConnection, Outside}
use rtsp_server.RtspConnection.Handlers.{
  handle_cmd_option, handle_cmd_setup, handle_cmd_play, handle_cmd_teardown,
  handle_cmd_get_paramter,
}
use rtsp_server.RtspConnection.Messages.{dispatch}
use rtsp_server.RtspRequest.Answers.Echo.{Answer, build}
use rtsp_server.RtspConnection.Answered.{
  replies, needs_rtp, IsRequest, is_options, is_describe, is_setup, is_play, is_teardown,
  is_get_parameter, IsLinked, Serves, opened, unchanged, describe-Serves, Sets, setup_by-Sets,
}

module _ {ℓ} {Conn : Type ℓ} where
  dispatch-refused :
      (m : Method) (out : Outside) (srv : RtspServer Conn) (c : RtspConnection)
      → needs_rtp m ≡ true
      → c.rtp_conn ≡ none
      → dispatch m out srv c ≡ none
  unfolding dispatch handle_cmd_play handle_cmd_teardown handle_cmd_get_paramter needs_rtp
  dispatch-refused Method.play out srv c n gone = rw gone
  dispatch-refused Method.teardown out srv c n gone = rw gone
  dispatch-refused Method.get_parameter out srv c n gone = rw gone
  dispatch-refused Method.options out srv c n gone = cc
  dispatch-refused Method.describe out srv c n gone = cc
  dispatch-refused Method.setup out srv c n gone = cc
  dispatch-refused Method.rtcp out srv c n gone = cc
  dispatch-refused Method.unknown out srv c n gone = cc

  setup-Sets :
      (out : Outside) (srv : RtspServer Conn) (c : RtspConnection)
      → IsLinked c
      → look_by_id 0 srv ≡ none
      → Sets c (handle_cmd_setup out srv c)
  unfolding handle_cmd_setup replies build
  setup-Sets out srv c linked absent = elim (Option-cases (look_by_id c.session_id srv)) [
    | inl nothing ↦
        rw (nothing, handle_cmd_setup) (_, _, refl, (Answer.server_error, refl), unchanged c linked)
    | inr (s, there) ↦ elim (Option-cases c.rtp_conn) [
      | inl gone ↦ absurd (cc (ap (λ k. look_by_id k srv) (linked gone), absent, there))
      | inr (rtp, here) ↦
          rw (there, handle_cmd_setup) (setup_by-Sets c.request.transport out c rtp here)
    ]
  ]

  free-Serves :
      (m : Method) (out : Outside) (srv : RtspServer Conn) (c : RtspConnection)
      → IsRequest m
      → IsLinked c
      → look_by_id 0 srv ≡ none
      → needs_rtp m ≡ false
      → Serves c (dispatch m out srv c)
  unfolding dispatch replies build handle_cmd_option needs_rtp
  free-Serves Method.options out srv c is_options linked absent free =
      (srv, c, _, refl, (Answer.option, refl), unchanged c linked)
  free-Serves Method.describe out srv c is_describe linked absent free = describe-Serves out srv c
  free-Serves Method.setup out srv c is_setup linked absent free =
      let (c', effects, done, once, kept) = setup-Sets out srv c linked absent in
      (srv, c', effects, rw done refl, once, kept)
  free-Serves Method.play out srv c is_play linked absent free = cc
  free-Serves Method.teardown out srv c is_teardown linked absent free = cc
  free-Serves Method.get_parameter out srv c is_get_parameter linked absent free = cc
  free-Serves Method.rtcp out srv c is linked absent free = elim is [ ]
  free-Serves Method.unknown out srv c is linked absent free = elim is [ ]

  bound-Serves :
      (m : Method) (out : Outside) (srv : RtspServer Conn) (c : RtspConnection)
      (rtp : ℕ × RtpConnection)
      → needs_rtp m ≡ true
      → c.rtp_conn ≡ some rtp
      → Serves c (dispatch m out srv c)
  unfolding dispatch replies build handle_cmd_play handle_cmd_teardown handle_cmd_get_paramter
      needs_rtp
  bound-Serves Method.play out srv c rtp needs here =
      rw here (srv, _, _, refl, (Answer.play none _, refl), opened _ _ _ refl refl refl)
  bound-Serves Method.teardown out srv c rtp needs here =
      rw here (srv, _, _, refl, (Answer.teardown _, refl), opened _ _ _ refl refl refl)
  bound-Serves Method.get_parameter out srv c rtp needs here =
      rw here (srv, _, _, refl, (Answer.get_paramter _, refl), opened _ _ _ refl refl refl)
  bound-Serves Method.options out srv c rtp needs here = cc
  bound-Serves Method.describe out srv c rtp needs here = cc
  bound-Serves Method.setup out srv c rtp needs here = cc
  bound-Serves Method.rtcp out srv c rtp needs here = cc
  bound-Serves Method.unknown out srv c rtp needs here = cc

  pub served :
      (m : Method) (out : Outside) (srv : RtspServer Conn) (c : RtspConnection)
      → IsRequest m
      → IsLinked c
      → look_by_id 0 srv ≡ none
      → ((needs_rtp m ≡ true) × (c.rtp_conn ≡ none) × (dispatch m out srv c ≡ none))
        ⊎ Serves c (dispatch m out srv c)
  served m out srv c is linked absent = elim (Bool-cases (needs_rtp m)) [
    | inr free ↦ inr (free-Serves m out srv c is linked absent free)
    | inl needs ↦ elim (Option-cases c.rtp_conn) [
      | inl gone ↦ inl (needs, gone, dispatch-refused m out srv c needs gone)
      | inr (rtp, here) ↦ inr (bound-Serves m out srv c rtp needs here)
    ]
  ]
