-- ===== src/RtspServer/Sessions/Sound.antt =====
-- src/media/rtsp_server.cc: what the server does keeps its two maps of sessions in agreement.
use rtsp_server.Base.{
  ℕ, Bytes, Bool, Option, none, some, ◌≡◌, ◌+◌, ◌^◌, ◌≤◌, ◌<◌, refl, ap, sym, ◌∙◌, subst, arith,
  ◌==◌, if◌then◌else◌, Option-cases, Bool-cases, inl, inr, ◌⊎◌,
}
use rtsp_server.Base.Maps.{nat_eq, bytes_eq, lookup, insert}
use rtsp_server.Base.Maps.Laws.{
  lookup-emplace_inv, lookup-insert_self, lookup-insert_ne, lookup-insert_inv,
}
use mathlib.Core.Option.{some-injective}
use rtsp_server.MediaSession.{MediaSession, creat_new, get_num_client}
use rtsp_server.RtspServer.{
  RtspServer, init, add_media_session, remove_media_session, push_frame, look_by_suffix, look_by_id,
  update_session, on_connection, on_message,
}
use rtsp_server.RtspServer.Registry.{
  init-IsConsistent, add_media_session-IsConsistent, remove_media_session-IsConsistent,
  look_by_suffix-IsConsistent, other_suffix, test_eq,
}
use rtsp_server.RtspServer.Sessions.{
  State, started, open_session, Step, opens, removes, looks, updates, pushes, connects, hears,
  Reach, here, next, IsOrderly, IsSound,
}

pub creat_new-id :
    (last_id : ℕ) (suffix : Bytes)
    → last_id + 1 < 2 ^ 32
    → ((creat_new last_id suffix).0.session_id ≡ last_id + 1)
      × ((creat_new last_id suffix).1 ≡ last_id + 1)
unfolding creat_new
creat_new-id last_id suffix small = omega arith

module _ {ℓ} {Conn : Type ℓ} where
  look_by_id-entry :
      (id : ℕ) (srv : RtspServer Conn) (s : MediaSession)
      → look_by_id id srv ≡ some s
      → lookup id srv.media_sessions ≡ some (some s)
  unfolding look_by_id
  look_by_id-entry id srv s e = ground arith

  -- A registered session may be changed, except for its identifier and its suffix.
  update_session-IsSound :
      (st : State Conn) (id : ℕ) (s s' : MediaSession)
      → lookup id st.server.media_sessions ≡ some (some s)
      → s'.session_id ≡ s.session_id
      → s'.suffix ≡ s.suffix
      → IsSound st
      → IsSound (record st { server = update_session id s' st.server })
  unfolding update_session
  update_session-IsSound st id s s' there same_id same_suffix ok =
      let sessions = st.server.media_sessions in
      let (s0, full, has, found) = ok.consistent.owned id (some s) there in
      let same : s ≡ s0 = some-injective s s0 full in
      record {
        consistent = record {
          named = λ suffix j e.
              let (t, at, named) = ok.consistent.named suffix j e in
              elim (test_eq id j) [
                | inl q ↦ (
                  s',
                  subst (λ k. lookup k (insert id (some s') sessions) ≡ some (some s')) q
                      (lookup-insert_self id (some s') sessions),
                  same_suffix ∙ other_suffix id j s t sessions there refl q at named,
                )
                | inr ne ↦ (t, lookup-insert_ne id j (some s') sessions ne ∙ at, named)
              ];
          owned = λ j entry e. elim (lookup-insert_inv id j (some s') entry sessions e) [
            | inl (q, new) ↦ (
              s',
              sym new,
              same_id ∙ ap (λ x. x.session_id) same ∙ has ∙ q,
              ap (λ x. lookup x st.server.rtsp_suffix_map) (same_suffix ∙ ap (λ x. x.suffix) same)
                  ∙ found
                  ∙ ap some q,
            )
            | inr (ne, old) ↦ ok.consistent.owned j entry old
          ];
        };
        given = λ j entry e. elim (lookup-insert_inv id j (some s') entry sessions e) [
          | inl (q, new) ↦ omega (arith, q, ok.given id (some s) there)
          | inr (ne, old) ↦ ok.given j entry old
        ];
        positive = λ j entry e. elim (lookup-insert_inv id j (some s') entry sessions e) [
          | inl (q, new) ↦ omega (arith, q, ok.positive id (some s) there)
          | inr (ne, old) ↦ ok.positive j entry old
        ];
      }

  -- Soundness is about the two maps of sessions only.
  maps-IsSound :
      (st : State Conn) (srv : RtspServer Conn)
      → srv.media_sessions ≡ st.server.media_sessions
      → srv.rtsp_suffix_map ≡ st.server.rtsp_suffix_map
      → IsSound st
      → IsSound (record st { server = srv })
  maps-IsSound st srv same_sessions same_suffixes ok = record {
    consistent = record {
      named = λ suffix id e.
          let (s, at, has) =
            ok.consistent.named suffix id (sym (ap (lookup suffix) same_suffixes) ∙ e) in
          (s, ap (lookup id) same_sessions ∙ at, has);
      owned = λ id entry e.
          let (s, full, has, found) =
            ok.consistent.owned id entry (sym (ap (lookup id) same_sessions) ∙ e) in
          (s, full, has, ap (lookup s.suffix) same_suffixes ∙ found);
    };
    given = λ id entry e. ok.given id entry (sym (ap (lookup id) same_sessions) ∙ e);
    positive = λ id entry e. ok.positive id entry (sym (ap (lookup id) same_sessions) ∙ e);
  }

  on_message-maps :
      (name : Bytes) (handle : Conn → Conn) (srv srv' : RtspServer Conn)
      → on_message name handle srv ≡ some srv'
      → (srv'.media_sessions ≡ srv.media_sessions) × (srv'.rtsp_suffix_map ≡ srv.rtsp_suffix_map)
  unfolding on_message
  on_message-maps name handle srv srv' e = elim (Option-cases (lookup name srv.rtsp_conn_map)) [
    | inl absent ↦ cc
    | inr (conn, there) ↦
        let e' = rw (there, on_message) at e in
        let same =
          some-injective
            (record srv { rtsp_conn_map = insert name (handle conn) srv.rtsp_conn_map }) srv' e' in
        (sym (ap (λ x. x.media_sessions) same), sym (ap (λ x. x.rtsp_suffix_map) same))
  ]

  on_connection-maps :
      (name : Bytes) (connected : Bool) (fresh : Conn) (srv : RtspServer Conn)
      → ((on_connection name connected fresh srv).media_sessions ≡ srv.media_sessions)
        × ((on_connection name connected fresh srv).rtsp_suffix_map ≡ srv.rtsp_suffix_map)
  unfolding on_connection
  on_connection-maps name connected fresh srv = elim (Bool-cases connected) [
    | inl up ↦ rw (up, if◌then◌else◌) (refl, refl)
    | inr down ↦ rw (down, if◌then◌else◌) (refl, refl)
  ]

  pub fresh_id :
      (st : State Conn) → IsSound st → lookup (st.last_id + 1) st.server.media_sessions ≡ none
  fresh_id st ok = elim (Option-cases (lookup (st.last_id + 1) st.server.media_sessions)) [
    | inl absent ↦ absent
    | inr (entry, there) ↦
        let le : st.last_id + 1 ≤ st.last_id = ok.given (st.last_id + 1) entry there in
        absurd (omega (arith, le))
  ]

  add_media_session-entry :
      (session : MediaSession) (st : State Conn)
      → IsSound st
      → session.session_id ≡ st.last_id + 1
      → (id : ℕ) (entry : Option MediaSession)
      → lookup id (add_media_session session st.server).0.media_sessions ≡ some entry
      → (st.last_id + 1 ≡ id) ⊎ (lookup id st.server.media_sessions ≡ some entry)
  unfolding add_media_session
  add_media_session-entry session st ok is_next id entry e =
      elim (Option-cases (lookup session.suffix st.server.rtsp_suffix_map)) [
        | inr (old, taken) ↦ inr (rw (taken, add_media_session) at e)
        | inl new ↦
            elim (lookup-emplace_inv session.session_id id (some session) entry
              st.server.media_sessions
              (ap (λ k. lookup k st.server.media_sessions) is_next ∙ fresh_id st ok)
              (rw (new, add_media_session) at e)) [
                | inl (same, at) ↦ inl (omega (arith, same, is_next))
                | inr before ↦ inr before
              ]
      ]

  pub open_session-IsSound :
      (st : State Conn) (suffix : Bytes)
      → st.last_id + 1 < 2 ^ 32
      → IsSound st
      → IsSound (open_session suffix st)
  open_session-IsSound st suffix small ok =
      let (id_eq, last_eq) = creat_new-id st.last_id suffix small in
      let session = (creat_new st.last_id suffix).0 in
      record {
        consistent =
            add_media_session-IsConsistent session st.server ok.consistent
              (ap (λ k. lookup k st.server.media_sessions) id_eq ∙ fresh_id st ok);
        given = λ id entry e. elim (add_media_session-entry session st ok id_eq id entry e) [
          | inl new ↦ omega (arith, last_eq, new)
          | inr old ↦ omega (arith, last_eq, ok.given id entry old)
        ];
        positive = λ id entry e. elim (add_media_session-entry session st ok id_eq id entry e) [
          | inl new ↦ omega (arith, new)
          | inr old ↦ ok.positive id entry old
        ];
      }

  push_frame-IsSound :
      (st : State Conn) (id : ℕ) (handle : MediaSession → MediaSession × Bool)
      → ((s : MediaSession) → (handle s).0.session_id ≡ s.session_id)
      → ((s : MediaSession) → (handle s).0.suffix ≡ s.suffix)
      → IsSound st
      → IsSound (record st { server = (push_frame id handle st.server).0 })
  unfolding push_frame update_session
  push_frame-IsSound st id handle same_id same_suffix ok =
      elim (Option-cases (lookup id st.server.media_sessions)) [
        | inl absent ↦ rw (absent, push_frame) ok
        | inr (entry, there) ↦
            let (s, full, has, found) = ok.consistent.owned id entry there in
            elim (Bool-cases (get_num_client s == 0)) [
              | inl idle ↦ rw (there, full, idle, push_frame, if◌then◌else◌) ok
              | inr busy ↦
                  rw (there, full, busy, push_frame, if◌then◌else◌)
                    (update_session-IsSound st id s (handle s).0 (there ∙ ap some full) (same_id s)
                      (same_suffix s) ok)
            ]
      ]

  look_by_suffix-IsSound :
      (st : State Conn) (suffix : Bytes)
      → IsSound st
      → IsSound (record st { server = (look_by_suffix suffix st.server).0 })
  look_by_suffix-IsSound st suffix ok =
      elim (look_by_suffix-IsConsistent suffix st.server ok.consistent) [
        | inl (same, absent) ↦ subst (λ r. IsSound (record st { server = r.0 })) (sym same) ok
        | inr (s, same, named, found) ↦
            subst (λ r. IsSound (record st { server = r.0 })) (sym same) ok
      ]

  remove_media_session-IsSound :
      (st : State Conn) (srv : RtspServer Conn) (id : ℕ)
      → remove_media_session id st.server ≡ some srv
      → IsSound st
      → IsSound (record st { server = srv })
  remove_media_session-IsSound st srv id e ok =
      let (srv', removed, consistent, gone, before) =
        remove_media_session-IsConsistent id st.server ok.consistent in
      let same : srv' ≡ srv = some-injective srv' srv (sym removed ∙ e) in
      subst (λ x. IsSound (record st { server = x })) same
        (record {
          consistent = consistent;
          given = λ j entry there. ok.given j entry (before j entry there);
          positive = λ j entry there. ok.positive j entry (before j entry there);
        })

  Step-IsSound :
      {st st' : State Conn} (step : Step st st') → IsOrderly step → IsSound st → IsSound st'
  unfolding IsOrderly
  Step-IsSound (opens st suffix) small ok = open_session-IsSound st suffix small ok
  Step-IsSound (removes st srv id e) orderly ok = remove_media_session-IsSound st srv id e ok
  Step-IsSound (looks st suffix) orderly ok = look_by_suffix-IsSound st suffix ok
  Step-IsSound (updates st id s s' e same_id) same_suffix ok =
      update_session-IsSound st id s s' (look_by_id-entry id st.server s e) same_id same_suffix ok
  Step-IsSound (pushes st id handle same_id) same_suffix ok =
      push_frame-IsSound st id handle same_id same_suffix ok
  Step-IsSound (connects st name connected fresh) orderly ok =
      let (s, t) = on_connection-maps name connected fresh st.server in
      maps-IsSound st (on_connection name connected fresh st.server) s t ok
  Step-IsSound (hears st srv name handle e) orderly ok =
      let (s, t) = on_message-maps name handle st.server srv e in maps-IsSound st srv s t ok

  Reach-keeps : {st st' : State Conn} → Reach st st' → IsSound st → IsSound st'
  Reach-keeps here ok = ok
  Reach-keeps (next before step orderly) ok = Step-IsSound step orderly (Reach-keeps before ok)

  pub started-IsSound : IsSound (started {Conn = Conn})
  unfolding init lookup
  started-IsSound = record {
    consistent = init-IsConsistent;
    given = λ id entry e. cc;
    positive = λ id entry e. cc;
  }

  -- In every state that a server reaches, its two maps agree, and every identifier was given out.
  pub Reach-IsSound : {st : State Conn} → Reach started st → IsSound st
  Reach-IsSound before = Reach-keeps before started-IsSound
