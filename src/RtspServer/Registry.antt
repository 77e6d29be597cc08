-- ===== src/RtspServer/Registry.antt =====
-- src/media/rtsp_server.cc: the two maps of sessions agree.
use native.Mathlib.Decide.{ℕ_discrete}
use rtsp_server.Base.{
  ℕ, Bytes, Option, none, some, List, ◌≡◌, ◌≢◌, ◌⊎◌, ap, sym, ◌∙◌, subst, Option-cases, inl, inr,
}
use rtsp_server.Base.Maps.{nat_eq, bytes_eq, lookup, emplace, erase, lookup-emplace_keeps}
use rtsp_server.Base.Maps.Laws.{
  lookup-emplace_self, lookup-emplace_inv, lookup-erase_self, lookup-erase_ne, lookup-erase_inv,
}
use mathlib.Core.Option.{some-injective}
use rtsp_server.MediaSession.{MediaSession}
use rtsp_server.RtspServer.{
  RtspServer, init, add_media_session, remove_media_session, look_by_suffix, look_by_id,
}

pub other_suffix :
    (id j : ℕ) {entry : Option MediaSession} (s t : MediaSession) {suffix : Bytes}
    (m : List (ℕ × Option MediaSession))
    → lookup id m ≡ some entry
    → entry ≡ some s
    → id ≡ j
    → lookup j m ≡ some (some t)
    → t.suffix ≡ suffix
    → s.suffix ≡ suffix
other_suffix id j s t m there full same at named =
    let both : some (some s) ≡ some (some t) =
      ap some (sym full) ∙ sym there ∙ ap (λ k. lookup k m) same ∙ at in
    ap (λ x. x.suffix) (some-injective s t (some-injective (some s) (some t) both)) ∙ named

pub test_eq : (a b : ℕ) → (a ≡ b) ⊎ (a ≢ b)
test_eq a b = elim (ℕ_discrete a b) [ yes p ↦ inl p | no p ↦ inr p ]

module _ {ℓ} {Conn : Type ℓ} where
  -- An entry of either map has its counterpart in the other, and no session pointer is null.
  pub record IsConsistent (srv : RtspServer Conn) : Type 0 where
    pub named :
        (suffix : Bytes) (id : ℕ)
        → lookup suffix srv.rtsp_suffix_map ≡ some id
        → (s : MediaSession) × (lookup id srv.media_sessions ≡ some (some s)) × (s.suffix ≡ suffix)
    pub owned :
        (id : ℕ) (entry : Option MediaSession)
        → lookup id srv.media_sessions ≡ some entry
        → (s : MediaSession) × (entry ≡ some s)
          × (s.session_id ≡ id)
          × (lookup s.suffix srv.rtsp_suffix_map ≡ some id)

  pub init-IsConsistent : IsConsistent init
  unfolding init lookup
  init-IsConsistent = record { named = λ suffix id e. cc; owned = λ id entry e. cc }

  -- A session with a new identifier keeps the maps in agreement.
  pub add_media_session-IsConsistent :
      (session : MediaSession) (srv : RtspServer Conn)
      → IsConsistent srv
      → lookup session.session_id srv.media_sessions ≡ none
      → IsConsistent (add_media_session session srv).0
  unfolding add_media_session
  add_media_session-IsConsistent session srv ok fresh =
      elim (Option-cases (lookup session.suffix srv.rtsp_suffix_map)) [
        | inr (id, taken) ↦ rw (taken, add_media_session) ok
        | inl new ↦
            rw (new, add_media_session)
              (record {
                named = λ suffix id e.
                    elim (lookup-emplace_inv session.suffix suffix session.session_id id
                      srv.rtsp_suffix_map new e) [
                        | inl (at, same) ↦ (
                          session,
                          subst
                              (λ k.
                                lookup k
                                  (emplace session.session_id (some session) srv.media_sessions)
                                ≡ some (some session))
                              same
                              (lookup-emplace_self session.session_id (some session)
                                srv.media_sessions fresh),
                          at,
                        )
                        | inr old ↦
                            let (s, found, has) = ok.named suffix id old in
                            (
                              s,
                              lookup-emplace_keeps session.session_id id (some session) (some s)
                                  srv.media_sessions found,
                              has,
                            )
                      ];
                owned = λ id entry e.
                    elim (lookup-emplace_inv session.session_id id (some session) entry
                      srv.media_sessions fresh e) [
                        | inl (at, same) ↦ (
                          session,
                          sym same,
                          at,
                          lookup-emplace_self session.suffix session.session_id srv.rtsp_suffix_map
                                new
                              ∙ ap some at,
                        )
                        | inr old ↦
                            let (s, full, has, found) = ok.owned id entry old in
                            (
                              s,
                              full,
                              has,
                              lookup-emplace_keeps session.suffix s.suffix session.session_id id
                                  srv.rtsp_suffix_map found,
                            )
                      ];
              })
      ]

  pub remove_media_session-IsConsistent :
      (id : ℕ) (srv : RtspServer Conn)
      → IsConsistent srv
      → (srv' : RtspServer Conn) × (remove_media_session id srv ≡ some srv')
        × IsConsistent srv'
        × (look_by_id id srv' ≡ none)
        × ((j : ℕ) (entry : Option MediaSession)
            → lookup j srv'.media_sessions ≡ some entry
            → lookup j srv.media_sessions ≡ some entry)
  unfolding remove_media_session look_by_id
  remove_media_session-IsConsistent id srv ok = elim (Option-cases (lookup id srv.media_sessions)) [
    | inl absent ↦
        (srv, rw (absent, remove_media_session), ok, rw (absent, look_by_id), λ j entry e. e)
    | inr (entry, there) ↦
        let (s, full, has, found) = ok.owned id entry there in
        let srv' = record srv {
          rtsp_suffix_map = erase s.suffix srv.rtsp_suffix_map;
          media_sessions = erase id srv.media_sessions;
        } in
        (
          srv',
          rw (there, full, remove_media_session),
          record {
            named = λ suffix j e.
                let (ne, old) = lookup-erase_inv s.suffix suffix j srv.rtsp_suffix_map e in
                let (t, at, named_t) = ok.named suffix j old in
                (
                  t,
                  lookup-erase_ne id j srv.media_sessions (λ same.
                        ne (other_suffix id j s t srv.media_sessions there full same at named_t))
                      ∙ at,
                  named_t,
                );
            owned = λ j entry_j e.
                let (ne, old) = lookup-erase_inv id j entry_j srv.media_sessions e in
                let (t, full_t, has_t, found_t) = ok.owned j entry_j old in
                (
                  t,
                  full_t,
                  has_t,
                  lookup-erase_ne s.suffix t.suffix srv.rtsp_suffix_map (λ same. ne (
                        some-injective id j
                          (sym found ∙ ap (λ x. lookup x srv.rtsp_suffix_map) same ∙ found_t)))
                      ∙ found_t,
                );
          },
          rw (lookup-erase_self id srv.media_sessions, look_by_id),
          λ j entry e. (lookup-erase_inv id j entry srv.media_sessions e).1,
        )
  ]

  -- A lookup by suffix changes nothing: it finds a session with that suffix, the same as a lookup by
  -- its identifier does, exactly when one is registered.
  pub look_by_suffix-IsConsistent :
      (suffix : Bytes) (srv : RtspServer Conn)
      → IsConsistent srv
      → ((look_by_suffix suffix srv ≡ (srv, none)) × (lookup suffix srv.rtsp_suffix_map ≡ none))
        ⊎ ((s : MediaSession) × (look_by_suffix suffix srv ≡ (srv, some s))
            × (s.suffix ≡ suffix)
            × (look_by_id s.session_id srv ≡ some s))
  unfolding look_by_suffix look_by_id
  look_by_suffix-IsConsistent suffix srv ok =
      elim (Option-cases (lookup suffix srv.rtsp_suffix_map)) [
        | inl absent ↦ inl (rw (absent, look_by_suffix), absent)
        | inr (id, there) ↦
            let (s, at, named) = ok.named suffix id there in
            let (t, full, has, found) = ok.owned id (some s) at in
            let same : s ≡ t = some-injective s t full in
            inr (
              s,
              rw (there, at, look_by_suffix),
              named,
              ap (λ k. look_by_id k srv) (ap (λ x. x.session_id) same ∙ has) ∙ rw (at, look_by_id),
            )
      ]
