-- ===== src/RtspConnection/Lifecycle.antt =====
-- src/media/rtsp_connection.cc: what a connection goes through, and that its requests are answered.
use rtsp_server.Base.{true, none, some, List, ◌≡◌, refl, ap, sym, ◌∙◌, subst, inl, inr, ◌⊎◌}
use mathlib.Core.Option.{some-injective}
use rtsp_server.RtpConnection.{TcpConnection}
use rtsp_server.RtspServer.{RtspServer}
use rtsp_server.RtspServer.Sessions
use rtsp_server.RtspServer.Sessions.Lookups.{look_by_id-none}
use rtsp_server.RtspRequest.{RtspRequest, Method}
use rtsp_server.RtspResponse.{RtspResponse}
use rtsp_server.RtspConnection.{RtspConnection, init, Outside, Effect}
use rtsp_server.RtspConnection.Messages.{dispatch}
use rtsp_server.RtspConnection.Answered.{needs_rtp, IsRequest, IsLinked, AnswersOnce}
use rtsp_server.RtspConnection.Served.{served}

module _ {ℓ} (Conn : Type ℓ) where
  -- What changes a connection: a message is parsed into its request, and a request is handled, on the
  -- server in a state that it reaches.
  pub data Step : RtspConnection → RtspConnection → Type ℓ where
    parses : (c : RtspConnection) (r : RtspRequest) → Step c (record c { request = r })
    handles :
        (c c' : RtspConnection) (m : Method) (out : Outside) (st : Sessions.State Conn)
        (srv' : RtspServer Conn) (effects : List Effect)
        → IsRequest m
        → Sessions.Reach Sessions.started st
        → dispatch m out st.server c ≡ some (srv', c', effects)
        → Step c c'

  pub data Reach (c : RtspConnection) : RtspConnection → Type ℓ where
    here : Reach c c
    next : {d e : RtspConnection} → Reach c d → Step d e → Reach c e

module _ {ℓ} {Conn : Type ℓ} where
  Step-IsLinked : {c d : RtspConnection} → Step Conn c d → IsLinked c → IsLinked d
  Step-IsLinked (parses c r) linked = linked
  Step-IsLinked (handles c c' m out st srv' effects is reached e) linked =
      elim (served m out st.server c is linked (look_by_id-none st reached)) [
        | inl (needs, gone, refused) ↦ cc
        | inr (srv1, c1, effects1, done, once, kept) ↦
            let same : (srv1, c1, effects1) ≡ (srv', c', effects) =
              some-injective (srv1, c1, effects1) (srv', c', effects) (sym done ∙ e) in
            subst IsLinked (ap (λ t. t.1) same) kept.linked
      ]

  Reach-IsLinked : {c d : RtspConnection} → Reach Conn c d → IsLinked c → IsLinked d
  Reach-IsLinked here linked = linked
  Reach-IsLinked (next before step) linked = Step-IsLinked step (Reach-IsLinked before linked)

  -- In every state of a new connection, and of a server whose identifiers have not wrapped round and whose
  -- registered sessions kept their suffixes, each of the six methods is answered exactly
  -- once, or it is a call through a null pointer. The second happens only to PLAY, TEARDOWN and
  -- GET_PARAMETER, and only if there is no RtpConnection, which a DESCRIBE makes; it never happens to
  -- SETUP.
  pub Reach-served :
      (conn : TcpConnection) (request : RtspRequest) (response : RtspResponse) (c : RtspConnection)
      (m : Method) (out : Outside) (st : Sessions.State Conn)
      → Reach Conn (init conn request response) c
      → IsRequest m
      → Sessions.Reach Sessions.started st
      → ((needs_rtp m ≡ true) × (c.rtp_conn ≡ none) × (dispatch m out st.server c ≡ none))
        ⊎ ((srv' : RtspServer Conn) × (c' : RtspConnection) × (effects : List Effect) × (dispatch m
                out st.server c
              ≡ some (srv', c', effects))
            × AnswersOnce c.request effects)
  unfolding init
  Reach-served conn request response c m out st before is reached =
      elim (served m out st.server c is (Reach-IsLinked before (λ e. refl))
        (look_by_id-none st reached)) [
          | inl refused ↦ inl refused
          | inr (srv', c', effects, done, once, kept) ↦ inr (srv', c', effects, done, once)
        ]
