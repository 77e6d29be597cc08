-- ===== src/RtspH264file/Starting.antt =====
-- src/rtsp_h264file.cc: main up to the start of the thread.
use rtsp_server.Base.{
  ℕ, Bytes, Option, none, some, ◌≡◌, ◌≢◌, ◌⊎◌, inl, inr, ◌≤◌, ◌++◌, refl, ap, sym, arith, length,
}
use rtsp_server.Base.Maps.{lookup}
use rtsp_server.Base.Text.{text}
use rtsp_server.Media.{channel_0}
use rtsp_server.MediaSession.{MediaSession, creat_new, get_media_source}
use rtsp_server.H264File
use rtsp_server.H264File.{open_path}
use rtsp_server.RtspServer
use rtsp_server.RtspServer.{look_by_suffix, look_by_id}
use rtsp_server.RtspServer.Sessions.{started, Reach, here}
use rtsp_server.RtspH264file.{Started, set_up, main}
use rtsp_server.RtspH264file.SetUp.{set_up-finds}
use rtsp_server.RtspH264file.Sending.{IsReadable}

opened-IsReadable :
    (content allocated : Bytes)
    → 5 ≤ length content
    → length allocated ≡ 500000
    → IsReadable content (open_path (some content) (H264File.init 500000 allocated)).0
unfolding open_path H264File.init
opened-IsReadable content allocated long room = record {
  opened = (refl, refl, room, omega arith, omega arith);
  buffer_is = refl;
  left = omega (arith, long);
}

free_first {ℓ} :
    (Conn : Type ℓ) → (look_by_suffix {Conn = Conn} (text "live") started.server).1 ≡ none
unfolding look_by_suffix lookup RtspServer.init
free_first Conn = refl

module _ {ℓ} {Conn : Type ℓ} where
  -- What main leaves for the thread and for the clients.
  pub record IsStarted (content : Bytes) (p : Started Conn) : Type ℓ where
    pub readable : IsReadable content p.file
    pub reached : Reach started (record { server = p.server; last_id = p.last_id })
    pub session : MediaSession
    pub by_suffix : look_by_suffix (text "live") p.server ≡ (p.server, some session)
    pub by_id : look_by_id p.session_id p.server ≡ some session
    pub url : p.rtsp_url ≡ text "rtsp://0.0.0.0:554/" ++ session.suffix
    pub source : get_media_source channel_0 session ≡ some 0

  abbrev begun : Bytes → Bytes → Started Conn
  begun content allocated =
      let (server, session_id, last_id) = set_up (text "live") 0 1 started.server in
      record {
        server = server;
        session_id = session_id;
        last_id = last_id;
        file = (open_path (some content) (H264File.init 500000 allocated)).0;
        rtsp_url = text "rtsp://0.0.0.0:554/live";
      }

  main_opened :
      (content allocated : Bytes) → main 2 (some content) allocated ≡ some (begun content allocated)
  unfolding main open_path creat_new
  main_opened content allocated = refl

  main_returns :
      (argc : ℕ) (answer : Option Bytes) (allocated : Bytes)
      → (argc ≢ 2) ⊎ (answer ≡ none)
      → main {Conn = Conn} argc answer allocated ≡ none
  unfolding main open_path
  main_returns argc none allocated either = ground arith
  main_returns argc (some content) allocated (inl other) = ground (arith, other)
  main_returns argc (some content) allocated (inr e) = absurd (cc e)

  -- main with one argument that names a file of at least five bytes: it comes to the start of the
  -- thread. The file can be read from its start, and the server is in a state that it reaches, in
  -- which the suffix of the URL that is shown, and the identifier that the thread pushes to, find the
  -- session with its source. With another number of arguments, or a file that is not opened, main
  -- returns in front of that.
  pub main-starts :
      (content allocated : Bytes)
      → 5 ≤ length content
      → length allocated ≡ 500000
      → ((p : Started Conn) × (main 2 (some content) allocated ≡ some p) × IsStarted content p)
        × ((argc : ℕ) (answer : Option Bytes)
            → (argc ≢ 2) ⊎ (answer ≡ none)
            → main {Conn = Conn} argc answer allocated ≡ none)
  unfolding open_path
  main-starts content allocated long room =
      let (reached, session, by_suffix, by_id, given, suffix_is, source, _, _) =
        set_up-finds started (text "live") 0 here (free_first Conn) (omega arith) in
      (
        (
          begun content allocated,
          main_opened content allocated,
          record {
            readable = opened-IsReadable content allocated long room;
            reached = reached;
            session = session;
            by_suffix = by_suffix;
            by_id = by_id;
            url = ap (λ b. text "rtsp://0.0.0.0:554/" ++ b) (sym suffix_is);
            source = source;
          },
        ),
        λ argc answer either. main_returns argc answer allocated either,
      )
