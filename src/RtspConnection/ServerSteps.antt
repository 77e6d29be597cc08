-- ===== src/RtspConnection/ServerSteps.antt =====
-- src/media/rtsp_connection.cc: what a connection does to the server is a step of the server.
use rtsp_server.Base.{
  ℕ, Bytes, Option, none, some, List, ◌≡◌, refl, ap, ◌∙◌, subst, Option-cases, Bool-cases, inl, inr,
  ◌⊎◌, ◌>>=◌,
}
use rtsp_server.Base.Maps.{nat_eq, lookup}
use rtsp_server.MediaSession.{MediaSession, add_client, is_empty}
use rtsp_server.MediaSession.Sdp.{MediaSource, get_sdp_message}
use rtsp_server.RtspServer.{RtspServer, look_by_suffix, look_by_id}
use rtsp_server.RtspServer.Sessions
use rtsp_server.RtspServer.Sessions.{State, started}
use rtsp_server.RtspServer.Sessions.Lookups.{look_by_suffix-finds}
use rtsp_server.RtspRequest.{Method, get_rtsp_url_suffix}
use rtsp_server.RtspConnection.{RtspConnection, Outside, Effect}
use rtsp_server.RtspConnection.Handlers.{
  handle_cmd_describe, describe_session, rtp_of, handle_cmd_setup, handle_cmd_play,
  handle_cmd_teardown, handle_cmd_get_paramter,
}
use rtsp_server.RtspConnection.Messages.{dispatch}

-- Neither a new client nor the SDP message changes the identifier and the suffix of a session.
abbrev SameSession : MediaSession → MediaSession → Type 0
SameSession s s' = (s'.session_id ≡ s.session_id) × (s'.suffix ≡ s.suffix)

add_client-SameSession : (fd conn : ℕ) (s : MediaSession) → SameSession s (add_client fd conn s).0
unfolding add_client
add_client-SameSession fd conn s = elim (Option-cases (lookup fd s.clients)) [
  | inl absent ↦ rw (absent, add_client) (refl, refl)
  | inr (other, there) ↦ rw (there, add_client) (refl, refl)
]

get_sdp_message-SameSession :
    (ip : Bytes) (time : ℕ) (sources : ℕ → MediaSource) (name : Bytes) (s : MediaSession)
    → SameSession s (get_sdp_message ip time sources name s).0
unfolding get_sdp_message
get_sdp_message-SameSession ip time sources name s = elim (Bool-cases (is_empty s.sdp)) [
  | inl new ↦ rw (new, get_sdp_message) (refl, refl)
  | inr made ↦ rw (made, get_sdp_message) (refl, refl)
]

module _ {ℓ} {Conn : Type ℓ} where
  abbrev pub with_server : State Conn → RtspServer Conn → State Conn
  with_server st srv = record st { server = srv }

  server_of :
      {srv srv' : RtspServer Conn} {c c' : RtspConnection} {effects effects' : List Effect}
      → ◌≡◌ {A = Option (RtspServer Conn × RtspConnection × List Effect)}
          (some (srv, c, effects))
          (some (srv', c', effects'))
      → srv ≡ srv'
  server_of e = cc

  kept_server :
      {srv srv' : RtspServer Conn} {c' : RtspConnection} {effects : List Effect}
      (result : Option (RtspConnection × List Effect))
      → ◌>>=◌ {B = RtspServer Conn × RtspConnection × List Effect} result
          (λ p. some (srv, p.0, p.1))
        ≡ some (srv', c', effects)
      → srv ≡ srv'
  kept_server none e = cc
  kept_server (some p) e = cc

  describe_session-Reach :
      (out : Outside) (s : MediaSession) (st : State Conn) (c : RtspConnection)
      → Sessions.Reach started st
      → look_by_id s.session_id st.server ≡ some s
      → Sessions.Reach started
          (with_server st (describe_session out (rtp_of out c) s st.server c).0)
  unfolding describe_session Sessions.IsOrderly
  describe_session-Reach out s st c before there =
      let fd = c.tcp_conn.fd in
      let address = (rtp_of out c).0 in
      let s1 = (add_client fd address s).0 in
      let s2 = (get_sdp_message out.local_ip out.time out.sources out.version s1).0 in
      let (id1, suffix1) = add_client-SameSession fd address s in
      let (id2, suffix2) =
        get_sdp_message-SameSession out.local_ip out.time out.sources out.version s1 in
      Sessions.next before (Sessions.updates st s.session_id s s2 there (id2 ∙ id1))
        (suffix2 ∙ suffix1)

  describe-Reach :
      (out : Outside) (st : State Conn) (c : RtspConnection)
      → Sessions.Reach started st
      → Sessions.Reach started (with_server st (handle_cmd_describe out st.server c).0)
  unfolding handle_cmd_describe Sessions.IsOrderly
  describe-Reach out st c before =
      let suffix = get_rtsp_url_suffix c.request in
      let looked = with_server st (look_by_suffix suffix st.server).0 in
      let reached : Sessions.Reach started looked =
        Sessions.next before (Sessions.looks st suffix) tt in
      elim (look_by_suffix-finds st suffix before) [
        | inl (nothing, absent) ↦ rw (ap (λ p. p.1) nothing, handle_cmd_describe) reached
        | inr (s, found, named, there) ↦
            rw (ap (λ p. p.1) found, handle_cmd_describe)
              (describe_session-Reach out s looked c reached
                (ap (λ p. look_by_id s.session_id p.0) found ∙ there))
      ]

  -- Only DESCRIBE changes the server.
  same_server :
      (m : Method) (out : Outside) (srv srv' : RtspServer Conn) (c c' : RtspConnection)
      (effects : List Effect)
      → dispatch m out srv c ≡ some (srv', c', effects)
      → (srv ≡ srv') ⊎ ((handle_cmd_describe out srv c).0 ≡ srv')
  unfolding dispatch
  same_server Method.options out srv srv' c c' effects e = inl (server_of e)
  same_server Method.describe out srv srv' c c' effects e = inr (server_of e)
  same_server Method.setup out srv srv' c c' effects e =
      inl (kept_server (handle_cmd_setup out srv c) e)
  same_server Method.play out srv srv' c c' effects e = inl (kept_server (handle_cmd_play c) e)
  same_server Method.teardown out srv srv' c c' effects e =
      inl (kept_server (handle_cmd_teardown c) e)
  same_server Method.get_parameter out srv srv' c c' effects e =
      elim (Option-cases (handle_cmd_get_paramter c)) [
        | inl gone ↦ cc
        | inr (made, there) ↦ inl (server_of (rw there at e))
      ]
  same_server Method.rtcp out srv srv' c c' effects e = inl (server_of e)
  same_server Method.unknown out srv srv' c c' effects e = inl (server_of e)

  -- The handlers of the requests take the server from a state that orderly steps lead to (no identifier
  -- is given out twice, and registered sessions keep their suffixes) to another such state.
  pub dispatch-Reach :
      (m : Method) (out : Outside) (st : State Conn) (srv' : RtspServer Conn)
      (c c' : RtspConnection) (effects : List Effect)
      → Sessions.Reach started st
      → dispatch m out st.server c ≡ some (srv', c', effects)
      → Sessions.Reach started (with_server st srv')
  dispatch-Reach m out st srv' c c' effects before e =
      elim (same_server m out st.server srv' c c' effects e) [
        | inl same ↦ subst (λ s. Sessions.Reach started (with_server st s)) same before
        | inr described ↦
            subst (λ s. Sessions.Reach started (with_server st s)) described
              (describe-Reach out st c before)
      ]
