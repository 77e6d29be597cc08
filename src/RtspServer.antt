-- ===== src/RtspServer.antt =====
-- src/media/rtsp_server.cc and rtsp_server.h: RtspServer. A `shared_ptr` to a MediaSession is an
-- Option, since `operator[]` of a map can put a null pointer there; the server owns the sessions, so
-- a session is the value behind its entry. `Conn` is the type of an RtspConnection. The mutex
-- `_sessionMutex` makes each of the operations one step.
pub mod Registry
pub mod Sessions
use rtsp_server.Base.{
  ℕ, Bytes, Bool, true, false, Option, none, some, List, [], ◌∷◌, ◌==◌, if◌then◌else◌,
}
use rtsp_server.Base.Maps.{nat_eq, bytes_eq, lookup, insert, emplace, erase}
use rtsp_server.MediaSession.{MediaSession, get_num_client}

pub record RtspServer {ℓ} (Conn : Type ℓ) : Type ℓ where
  pub rtsp_conn_map : List (Bytes × Conn)
  pub media_sessions : List (ℕ × Option MediaSession)
  pub rtsp_suffix_map : List (Bytes × ℕ)

module _ {ℓ} {Conn : Type ℓ} where
  unfoldable pub init : RtspServer Conn
  init = record { rtsp_conn_map = []; media_sessions = []; rtsp_suffix_map = [] }

  -- `fresh` is the RtspConnection that is made for the connection.
  unfoldable pub on_connection : Bytes → Bool → Conn → RtspServer Conn → RtspServer Conn
  on_connection name connected fresh srv =
      if connected
      then record srv { rtsp_conn_map = insert name fresh srv.rtsp_conn_map }
      else record srv { rtsp_conn_map = erase name srv.rtsp_conn_map }

  -- A message for a name that has no entry is a call through a null pointer.
  unfoldable pub on_message : Bytes → (Conn → Conn) → RtspServer Conn → Option (RtspServer Conn)
  on_message name handle srv = elim (lookup name srv.rtsp_conn_map) [
    | none ↦ none
    | some conn ↦ some (record srv { rtsp_conn_map = insert name (handle conn) srv.rtsp_conn_map })
  ]

  unfoldable pub add_media_session : MediaSession → RtspServer Conn → RtspServer Conn × ℕ
  add_media_session session srv = elim (lookup session.suffix srv.rtsp_suffix_map) [
    | some id ↦ (srv, 0)
    | none ↦ (
      record srv {
        rtsp_suffix_map = emplace session.suffix session.session_id srv.rtsp_suffix_map;
        media_sessions = emplace session.session_id (some session) srv.media_sessions;
      },
      session.session_id,
    )
  ]

  -- A null entry is a call through a null pointer.
  unfoldable pub remove_media_session : ℕ → RtspServer Conn → Option (RtspServer Conn)
  remove_media_session id srv = elim (lookup id srv.media_sessions) [
    | none ↦ some srv
    | some none ↦ none
    | some (some session) ↦ some (record srv {
      rtsp_suffix_map = erase session.suffix srv.rtsp_suffix_map;
      media_sessions = erase id srv.media_sessions;
    })
  ]

  -- `handle` is `handleFrame` of the session, on the channel and the frame.
  unfoldable pub push_frame :
      ℕ → (MediaSession → MediaSession × Bool) → RtspServer Conn → RtspServer Conn × Bool
  push_frame id handle srv = elim (lookup id srv.media_sessions) [
    | none ↦ (srv, false)
    | some none ↦ (srv, false)
    | some (some session) ↦
        if get_num_client session == 0
        then (srv, false)
        else let (session', done) = handle session in
          (record srv { media_sessions = insert id (some session') srv.media_sessions }, done)
  ]

  -- `lookMediaSession(suffix)`: `_mediaSessions[id]` makes a null entry where there is none.
  unfoldable pub look_by_suffix : Bytes → RtspServer Conn → RtspServer Conn × Option MediaSession
  look_by_suffix suffix srv = elim (lookup suffix srv.rtsp_suffix_map) [
    | none ↦ (srv, none)
    | some id ↦ elim (lookup id srv.media_sessions) [
      | none ↦ (record srv { media_sessions = insert id none srv.media_sessions }, none)
      | some session ↦ (srv, session)
    ]
  ]

  -- `lookMediaSession(sessionId)`
  unfoldable pub look_by_id : ℕ → RtspServer Conn → Option MediaSession
  look_by_id id srv = elim (lookup id srv.media_sessions) [ none ↦ none | some session ↦ session ]

  -- The caller of a lookup changes the session through its pointer.
  unfoldable pub update_session : ℕ → MediaSession → RtspServer Conn → RtspServer Conn
  update_session id session srv = record srv {
    media_sessions = insert id (some session) srv.media_sessions;
  }
