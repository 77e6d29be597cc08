-- ===== src/RtspH264file/SetUp.antt =====
-- src/rtsp_h264file.cc: what main leaves in the server.
use rtsp_server.Base.{
  ℕ, Bytes, none, some, ◌≡◌, ◌≢◌, ◌+◌, ◌^◌, ◌<◌, refl, ap, sym, ◌∙◌, subst, arith, Option-cases,
  inl, inr,
}
use rtsp_server.Base.Maps.{nat_eq, bytes_eq, lookup, emplace}
use rtsp_server.Base.Maps.Laws.{insert-emplace}
use rtsp_server.Media.{channel_0, channel_1}
use rtsp_server.MediaSession.{
  MediaSession, creat_new, add_media_source, get_media_source, get_num_client,
}
use rtsp_server.RtspServer.{
  RtspServer, add_media_session, look_by_suffix, look_by_id, update_session,
}
use rtsp_server.RtspServer.Sessions.{
  State, started, open_session, Reach, next, opens, updates, IsOrderly,
}
use rtsp_server.RtspServer.Sessions.Sound.{creat_new-id, fresh_id, Reach-IsSound}
use rtsp_server.RtspServer.Sessions.Lookups.{add_media_session-finds, look_by_suffix-there}
use rtsp_server.RtspH264file.{set_up}

-- The session that main makes.
abbrev made : ℕ → Bytes → ℕ → MediaSession
made last_id suffix source = add_media_source channel_0 source (creat_new last_id suffix).0

made-lem :
    (last_id : ℕ) (suffix : Bytes) (source : ℕ)
    → let s = made last_id suffix source in
      (s.session_id ≡ (creat_new last_id suffix).0.session_id)
      × (s.suffix ≡ suffix)
      × (get_media_source channel_0 s ≡ some source)
      × (get_media_source channel_1 s ≡ none)
      × (get_num_client s ≡ 0)
unfolding creat_new add_media_source get_media_source get_num_client
made-lem last_id suffix source = (refl, refl, refl, refl, refl)

module _ {ℓ} {Conn : Type ℓ} where
  -- The state of the server behind `set_up`.
  abbrev pub after : Bytes → ℕ → State Conn → State Conn
  after suffix source st =
      let result = set_up suffix source st.last_id st.server in
      record { server = result.0; last_id = result.2 }

  set_up-lem :
      (suffix : Bytes) (source last_id : ℕ) (srv : RtspServer Conn)
      → let added = add_media_session (made last_id suffix source) srv in
        set_up suffix source last_id srv ≡ (added.0, added.1, (creat_new last_id suffix).1)
  unfolding set_up
  set_up-lem suffix source last_id srv = refl

  -- The source can be added in front of the registration or behind it.
  add_media_session-update :
      (s : MediaSession) (source : ℕ) (srv : RtspServer Conn)
      → lookup s.suffix srv.rtsp_suffix_map ≡ none
      → lookup s.session_id srv.media_sessions ≡ none
      → let s' = add_media_source channel_0 source s in
        (add_media_session s' srv).0 ≡ update_session s.session_id s' (add_media_session s srv).0
  unfolding add_media_session update_session add_media_source
  add_media_session-update s source srv new fresh =
      let s' = add_media_source channel_0 source s in
      rw (new, add_media_session)
        (ap
          (λ m. record {
            rtsp_conn_map = srv.rtsp_conn_map;
            media_sessions = m;
            rtsp_suffix_map = emplace s.suffix s.session_id srv.rtsp_suffix_map;
          })
          (sym (insert-emplace s.session_id (some s) (some s') srv.media_sessions fresh)))

  -- It is the state behind the registration, with the source put in through the pointer.
  set_up-Reach :
      (st : State Conn) (suffix : Bytes) (source : ℕ)
      → Reach started st
      → st.last_id + 1 < 2 ^ 32
      → lookup suffix st.server.rtsp_suffix_map ≡ none
      → lookup (made st.last_id suffix source).session_id st.server.media_sessions ≡ none
      → Reach started (after suffix source st)
  unfolding set_up add_media_source creat_new IsOrderly
  set_up-Reach st suffix source before small absent fresh =
      let (plain, last_id) = creat_new st.last_id suffix in
      let s = made st.last_id suffix source in
      let there = (add_media_session-finds plain st.server absent fresh).2 in
      let opened = next before (opens st suffix) small in
      let put_in =
        next opened (updates (open_session suffix st) plain.session_id plain s there refl) refl in
      subst (λ srv. Reach started (record { server = srv; last_id = last_id }))
        (sym (add_media_session-update plain source st.server absent fresh)) put_in

  -- What main does to the server, in any state of the server, with a suffix that no session has and
  -- before the identifiers wrap round: the server comes to one of its states, in which both lookups find
  -- the session. Its first channel has the source, the second has none, and it has no client.
  pub set_up-finds :
      (st : State Conn) (suffix : Bytes) (source : ℕ)
      → Reach started st
      → (look_by_suffix suffix st.server).1 ≡ none
      → st.last_id + 1 < 2 ^ 32
      → let result = set_up suffix source st.last_id st.server in
        Reach started (after suffix source st)
        × (s : MediaSession) × (look_by_suffix suffix result.0 ≡ (result.0, some s))
        × (look_by_id result.1 result.0 ≡ some s)
        × (result.1 ≢ 0)
        × (s.suffix ≡ suffix)
        × (get_media_source channel_0 s ≡ some source)
        × (get_media_source channel_1 s ≡ none)
        × (get_num_client s ≡ 0)
  unfolding set_up
  set_up-finds st suffix source before free small =
      let ok = Reach-IsSound before in
      let s = made st.last_id suffix source in
      let (id_eq, last_eq) = creat_new-id st.last_id suffix small in
      let (same_id, same_suffix, has_0, has_1, nobody) = made-lem st.last_id suffix source in
      let fresh = ap (λ k. lookup k st.server.media_sessions) (same_id ∙ id_eq) ∙ fresh_id st ok in
      elim (Option-cases (lookup suffix st.server.rtsp_suffix_map)) [
        | inl absent ↦
            let new = ap (λ k. lookup k st.server.rtsp_suffix_map) same_suffix ∙ absent in
            let (id_is, by_suffix, by_id) = add_media_session-finds s st.server new fresh in
            let added = add_media_session s st.server in
            (
              set_up-Reach st suffix source before small absent fresh,
              s,
              subst (λ k. look_by_suffix k added.0 ≡ (added.0, some s)) same_suffix by_suffix,
              ap (λ k. look_by_id k added.0) id_is ∙ by_id,
              (λ e. absurd (omega (arith, e, id_is, same_id, id_eq))),
              same_suffix,
              has_0,
              has_1,
              nobody,
            )
        | inr (id, taken) ↦
            let (t, at, has) = ok.consistent.named suffix id taken in
            absurd (cc (ap (λ r. r.1) (look_by_suffix-there suffix id t st.server taken at), free))
      ]
