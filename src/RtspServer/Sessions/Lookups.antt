-- ===== src/RtspServer/Sessions/Lookups.antt =====
-- src/media/rtsp_server.cc: what the lookups find in every state that a server reaches.
use rtsp_server.Base.{
  arith, ℕ, Bytes, Option, none, some, ◌≡◌, ◌≢◌, ◌+◌, ◌^◌, ◌<◌, refl, ap, sym, ◌∙◌, subst,
  Option-cases, inl, inr,
}
use rtsp_server.Base.Maps.{nat_eq, bytes_eq, lookup, erase}
use rtsp_server.Base.Maps.Laws.{lookup-emplace_self, lookup-erase_self, lookup-erase_ne}
use rtsp_server.Base.{◌⊎◌}
use mathlib.Core.Option.{some-injective}
use rtsp_server.MediaSession.{MediaSession, creat_new}
use rtsp_server.RtspServer.{
  RtspServer, add_media_session, remove_media_session, look_by_suffix, look_by_id,
}
use rtsp_server.RtspServer.Registry.{look_by_suffix-IsConsistent}
use rtsp_server.RtspServer.Sessions.{State, started, Reach}
use rtsp_server.RtspServer.Sessions.Sound.{creat_new-id, fresh_id, Reach-IsSound}

creat_new-suffix : (last_id : ℕ) (suffix : Bytes) → (creat_new last_id suffix).0.suffix ≡ suffix
unfolding creat_new
creat_new-suffix last_id suffix = refl

module _ {ℓ} {Conn : Type ℓ} where
  pub add_media_session-finds :
      (session : MediaSession) (srv : RtspServer Conn)
      → lookup session.suffix srv.rtsp_suffix_map ≡ none
      → lookup session.session_id srv.media_sessions ≡ none
      → let added = (add_media_session session srv).0 in
        ((add_media_session session srv).1 ≡ session.session_id)
        × (look_by_suffix session.suffix added ≡ (added, some session))
        × (look_by_id session.session_id added ≡ some session)
  unfolding add_media_session look_by_suffix look_by_id
  add_media_session-finds session srv new fresh =
      let there = lookup-emplace_self session.session_id (some session) srv.media_sessions fresh in
      let named = lookup-emplace_self session.suffix session.session_id srv.rtsp_suffix_map new in
      rw (new, add_media_session)
        (refl, rw (named, there, look_by_suffix) refl, rw (there, look_by_id) refl)

  add_media_session-taken :
      (session : MediaSession) (id : ℕ) (srv : RtspServer Conn)
      → lookup session.suffix srv.rtsp_suffix_map ≡ some id
      → add_media_session session srv ≡ (srv, 0)
  unfolding add_media_session
  add_media_session-taken session id srv taken = rw (taken, add_media_session) refl

  pub look_by_suffix-absent :
      (suffix : Bytes) (srv : RtspServer Conn)
      → lookup suffix srv.rtsp_suffix_map ≡ none
      → look_by_suffix suffix srv ≡ (srv, none)
  unfolding look_by_suffix
  look_by_suffix-absent suffix srv absent = rw (absent, look_by_suffix) refl

  pub look_by_suffix-there :
      (suffix : Bytes) (id : ℕ) (s : MediaSession) (srv : RtspServer Conn)
      → lookup suffix srv.rtsp_suffix_map ≡ some id
      → lookup id srv.media_sessions ≡ some (some s)
      → look_by_suffix suffix srv ≡ (srv, some s)
  unfolding look_by_suffix
  look_by_suffix-there suffix id s srv there at = rw (there, at, look_by_suffix) refl

  look_by_id-lem :
      (id : ℕ) (srv : RtspServer Conn) (entry : Option (Option MediaSession))
      → lookup id srv.media_sessions ≡ entry
      → look_by_id id srv ≡ (elim entry [ none ↦ none | some s ↦ s ])
  unfolding look_by_id
  look_by_id-lem id srv entry at = rw (at, look_by_id) refl

  -- In no state that orderly steps lead to is a session found under the identifier 0, which
  -- addMediaSession answers with when a suffix is taken: they do not let the identifiers wrap round.
  pub look_by_id-none : (st : State Conn) → Reach started st → look_by_id 0 st.server ≡ none
  look_by_id-none st before = elim (Option-cases (lookup 0 st.server.media_sessions)) [
    | inl absent ↦ look_by_id-lem 0 st.server none absent
    | inr (entry, there) ↦
        let more : 0 < 0 = (Reach-IsSound before).positive 0 entry there in
        absurd (omega (arith, more))
  ]

  -- In every state of a server whose identifiers have not wrapped round and whose registered sessions
  -- kept their suffixes, a lookup by suffix leaves the server as it is. Either no session is
  -- registered under the suffix, and none is found; or it finds a session with that suffix, the same
  -- one that a lookup by its identifier finds.
  pub look_by_suffix-finds :
      (st : State Conn) (suffix : Bytes)
      → Reach started st
      → ((look_by_suffix suffix st.server ≡ (st.server, none))
          × (lookup suffix st.server.rtsp_suffix_map ≡ none))
        ⊎ ((s : MediaSession) × (look_by_suffix suffix st.server ≡ (st.server, some s))
            × (s.suffix ≡ suffix)
            × (look_by_id s.session_id st.server ≡ some s))
  look_by_suffix-finds st suffix before =
      look_by_suffix-IsConsistent suffix st.server (Reach-IsSound before).consistent

  -- In every state of a server whose identifiers have not wrapped round, also not by this one, and whose
  -- registered sessions kept their suffixes, a session that is created
  -- and added under a suffix that is taken gets 0 and the server is as before; under any other suffix
  -- it gets the next identifier, and then both lookups find it and change nothing.
  pub open_session-finds :
      (st : State Conn) (suffix : Bytes)
      → Reach started st
      → st.last_id + 1 < 2 ^ 32
      → let session = (creat_new st.last_id suffix).0 in
        let added = add_media_session session st.server in
        ((look_by_suffix suffix st.server).1 ≢ none → added ≡ (st.server, 0))
        × ((look_by_suffix suffix st.server).1 ≡ none
            → (added.1 ≡ st.last_id + 1)
              × (look_by_suffix suffix added.0 ≡ (added.0, some session))
              × (look_by_id added.1 added.0 ≡ some session))
  open_session-finds st suffix before small =
      let ok = Reach-IsSound before in
      let (id_eq, last_eq) = creat_new-id st.last_id suffix small in
      let session = (creat_new st.last_id suffix).0 in
      let named = creat_new-suffix st.last_id suffix in
      elim (Option-cases (lookup suffix st.server.rtsp_suffix_map)) [
        | inl absent ↦
            let (id_is, by_suffix, by_id) =
              add_media_session-finds session st.server
                (ap (λ k. lookup k st.server.rtsp_suffix_map) named ∙ absent)
                (ap (λ k. lookup k st.server.media_sessions) id_eq ∙ fresh_id st ok) in
            let added = add_media_session session st.server in
            (
              (λ other.
                  absurd (other (ap (λ r. r.1) (look_by_suffix-absent suffix st.server absent)))),
              λ same. (
                id_is ∙ id_eq,
                subst (λ k. look_by_suffix k added.0 ≡ (added.0, some session)) named by_suffix,
                ap (λ k. look_by_id k added.0) id_is ∙ by_id,
              ),
            )
        | inr (id, taken) ↦
            let (s, at, has) = ok.consistent.named suffix id taken in
            let found = ap (λ r. r.1) (look_by_suffix-there suffix id s st.server taken at) in
            (
              (λ other.
                  add_media_session-taken session id st.server
                    (ap (λ k. lookup k st.server.rtsp_suffix_map) named ∙ taken)),
              λ same. cc,
            )
      ]

  -- In every state of a server whose identifiers have not wrapped round and whose registered sessions
  -- kept their suffixes, removing a session is no call through a null pointer. Afterwards the
  -- identifier finds nothing, and neither does the suffix of the session that was there; what
  -- another identifier finds is as before.
  pub remove_media_session-forgets :
      (st : State Conn) (id : ℕ)
      → Reach started st
      → (srv : RtspServer Conn) × (remove_media_session id st.server ≡ some srv)
        × (look_by_id id srv ≡ none)
        × ((s : MediaSession)
            → look_by_id id st.server ≡ some s
            → look_by_suffix s.suffix srv ≡ (srv, none))
        × ((j : ℕ) → j ≢ id → look_by_id j srv ≡ look_by_id j st.server)
  unfolding remove_media_session
  remove_media_session-forgets st id before =
      elim (Option-cases (lookup id st.server.media_sessions)) [
        | inl absent ↦
            let nothing = look_by_id-lem id st.server none absent in
            (
              st.server,
              rw (absent, remove_media_session) refl,
              nothing,
              (λ s found. cc),
              λ j other. refl,
            )
        | inr (entry, there) ↦
            let (s, full, has, found) = (Reach-IsSound before).consistent.owned id entry there in
            let srv = record st.server {
              rtsp_suffix_map = erase s.suffix st.server.rtsp_suffix_map;
              media_sessions = erase id st.server.media_sessions;
            } in
            (
              srv,
              rw (there, full, remove_media_session) refl,
              look_by_id-lem id srv none (lookup-erase_self id st.server.media_sessions),
              (λ t at.
                  let same : s ≡ t = some-injective s t (
                    sym (look_by_id-lem id st.server (some (some s)) (there ∙ ap some full))
                    ∙ at) in
                  subst (λ x. look_by_suffix x.suffix srv ≡ (srv, none)) same
                    (look_by_suffix-absent s.suffix srv
                      (lookup-erase_self s.suffix st.server.rtsp_suffix_map))),
              λ j other.
                  look_by_id-lem j srv (lookup j st.server.media_sessions)
                    (lookup-erase_ne id j st.server.media_sessions (λ q. other (sym q)))
                  ∙ sym (look_by_id-lem j st.server (lookup j st.server.media_sessions) refl),
            )
      ]
