-- ===== src/RtspServer/Sessions.antt =====
-- src/media/rtsp_server.cc and media_session.h: how a server comes to a state, as a step relation.
pub mod Sound
pub mod Lookups
use rtsp_server.Base.{
  ℕ, Bytes, Bool, true, false, Option, none, some, List, [], ◌∷◌, ◌≡◌, ◌≢◌, ◌+◌, ◌%◌, ◌^◌, ◌≤◌, ◌<◌,
  refl, ap, sym, ◌∙◌, subst, arith, ◌==◌, ==_iff, if◌then◌else◌, Option-cases, Bool-cases, inl, inr,
}
use rtsp_server.Base.Maps.{
  nat_eq, bytes_eq, equal, equal_iff, lookup, insert, emplace, erase, lookup-emplace_keeps,
}
use rtsp_server.Base.Maps.Laws.{
  lookup-emplace_self, lookup-emplace_inv, lookup-erase_self, lookup-erase_ne, lookup-erase_inv,
  lookup-insert_self, lookup-insert_ne, lookup-insert_inv,
}
use mathlib.Core.Option.{some-injective}
use rtsp_server.MediaSession.{MediaSession, creat_new, get_num_client}
use rtsp_server.RtspServer.{
  RtspServer, init, add_media_session, remove_media_session, push_frame, look_by_suffix, look_by_id,
  update_session, on_connection, on_message,
}
use rtsp_server.RtspServer.Registry.{
  IsConsistent, init-IsConsistent, add_media_session-IsConsistent,
  remove_media_session-IsConsistent, look_by_suffix-IsConsistent, other_suffix, test_eq,
}

-- The server, and `_lastMediaSessionId`.
pub record State {ℓ} (Conn : Type ℓ) : Type ℓ where
  pub server : RtspServer Conn
  pub last_id : ℕ

-- The state of a server that was just made: `_lastMediaSessionId` starts at 1.
abbrev pub started {ℓ} : {Conn : Type ℓ} → State Conn
started = record { server = init; last_id = 1 }

-- A session is created and added.
abbrev pub open_session {ℓ} : {Conn : Type ℓ} → Bytes → State Conn → State Conn
open_session suffix st =
    let made = creat_new st.last_id suffix in
    record { server = (add_media_session made.0 st.server).0; last_id = made.1 }

module _ {ℓ} {Conn : Type ℓ} where
  -- What changes the server: a session is created and added, also when the identifiers wrap round; a
  -- session is removed, looked up by its suffix, changed through a pointer that a lookup gave (also by
  -- setRtspUrlSuffix), or handed a frame; a connection comes or goes; a message is handled. Nothing
  -- changes the identifier of a session.
  pub data Step : State Conn → State Conn → Type ℓ where
    opens : (st : State Conn) (suffix : Bytes) → Step st (open_session suffix st)
    removes :
        (st : State Conn) (srv : RtspServer Conn) (id : ℕ)
        → remove_media_session id st.server ≡ some srv
        → Step st (record st { server = srv })
    looks :
        (st : State Conn) (suffix : Bytes)
        → Step st (record st { server = (look_by_suffix suffix st.server).0 })
    updates :
        (st : State Conn) (id : ℕ) (s s' : MediaSession)
        → look_by_id id st.server ≡ some s
        → s'.session_id ≡ s.session_id
        → Step st (record st { server = update_session id s' st.server })
    pushes :
        (st : State Conn) (id : ℕ) (handle : MediaSession → MediaSession × Bool)
        → ((s : MediaSession) → (handle s).0.session_id ≡ s.session_id)
        → Step st (record st { server = (push_frame id handle st.server).0 })
    connects :
        (st : State Conn) (name : Bytes) (connected : Bool) (fresh : Conn)
        → Step st (record st { server = on_connection name connected fresh st.server })
    hears :
        (st : State Conn) (srv : RtspServer Conn) (name : Bytes) (handle : Conn → Conn)
        → on_message name handle st.server ≡ some srv
        → Step st (record st { server = srv })

  -- A step that gives out no identifier a second time, since they have not wrapped round, and that leaves
  -- the suffix of a registered session as it is. The program calls setRtspUrlSuffix nowhere.
  unfoldable pub IsOrderly : {st st' : State Conn} → Step st st' → Type 0
  IsOrderly (opens st suffix) = st.last_id + 1 < 2 ^ 32
  IsOrderly (removes st srv id e) = Unit
  IsOrderly (looks st suffix) = Unit
  IsOrderly (updates st id s s' there same_id) = s'.suffix ≡ s.suffix
  IsOrderly (pushes st id handle same_id) = (s : MediaSession) → (handle s).0.suffix ≡ s.suffix
  IsOrderly (connects st name connected fresh) = Unit
  IsOrderly (hears st srv name handle e) = Unit

  -- The states that orderly steps lead to.
  pub data Reach (st : State Conn) : State Conn → Type ℓ where
    here : Reach st st
    next :
        {st' st'' : State Conn}
        → Reach st st'
        → (step : Step st' st'') → IsOrderly step
        → Reach st st''

  -- Every identifier of a registered session was given out, and is not 0.
  pub record IsSound (st : State Conn) : Type 0 where
    pub consistent : IsConsistent st.server
    pub given :
        (id : ℕ) (entry : Option MediaSession)
        → lookup id st.server.media_sessions ≡ some entry
        → id ≤ st.last_id
    pub positive :
        (id : ℕ) (entry : Option MediaSession)
        → lookup id st.server.media_sessions ≡ some entry
        → 0 < id
