-- ===== src/RtspConnection/Handlers.antt =====
-- src/media/rtsp_connection.cc: handleCmdOption, handleCmdDescribe, handleCmdSetup, handleCmdPlay,
-- handleCmdTeardown and handleCmdGetParamter. Each answers from a buffer of 1024 bytes.
use rtsp_server.Base.{
  ℕ, Bytes, Bool, true, false, Option, none, some, List, [], ◌∷◌, ◌++◌, ◌%◌, ◌^◌, ◌>>=◌, map,
}
use rtsp_server.Media.{
  MediaChannelId, channel_0, channel_1, TransportMode, rtp_over_tcp, rtp_over_udp,
  rtp_over_multicast,
}
use rtsp_server.RtpConnection.{
  RtpConnection, init as init_rtp, play as play_rtp, teardown as teardown_rtp, set_clock_rate,
  set_payload_type, get_rtp_port, get_rtcp_port,
}
use rtsp_server.RtpConnection.Setup.{setup_rtp_over_tcp, setup_rtp_over_udp}
use rtsp_server.MediaSession.{MediaSession, add_client, get_media_source, is_empty}
use rtsp_server.MediaSession.Sdp.{MediaSource, get_sdp_message}
use rtsp_server.RtspServer.{RtspServer, look_by_suffix, look_by_id, update_session}
use rtsp_server.RtspRequest.{
  RtspRequest, get_rtsp_url_suffix, get_rtp_channel, get_rtcp_channel,
  get_rtp_port as client_rtp_port, get_rtcp_port as client_rtcp_port,
}
use rtsp_server.RtspRequest.Answers.{
  build_option_res, build_describe_res, build_setup_tcp_res, build_setup_udp_res, build_play_res,
  build_teardown_res, build_get_paramter_res, build_not_found_res, build_server_error_res,
  build_unsupported_res,
}
use rtsp_server.RtspConnection.{
  RtspConnection, ConnectionState, Outside, Effect, sends, shuts_down, closes_later, notifies,
  calls,
}

unfoldable pub handle_cmd_option : RtspConnection → List Effect
handle_cmd_option c = sends (build_option_res 1024 c.request) ∷ []

-- `if(_rtpConnPtr == nullptr) _rtpConnPtr.reset(new RtpConnection(_tcpConn));`
unfoldable pub rtp_of : Outside → RtspConnection → ℕ × RtpConnection
rtp_of out c = elim c.rtp_conn [
  | none ↦ (out.address, init_rtp out.memory out.seeds)
  | some rtp ↦ rtp
]

-- A round of the loop over the channels.
unfoldable pub take_source :
    (ℕ → MediaSource) → MediaSession → MediaChannelId → RtpConnection → RtpConnection
take_source sources s channel rtp = elim (get_media_source channel s) [
  | none ↦ rtp
  | some source ↦
      set_payload_type channel (sources source).payload
        (set_clock_rate channel (sources source).clock_rate rtp)
]

abbrev pub describe_answer : Bytes → RtspRequest → Bytes
describe_answer sdp r = elim (is_empty sdp) [
  | true ↦ build_server_error_res 1024 r
  | false ↦ build_describe_res 1024 sdp r
]

module _ {ℓ} {Conn : Type ℓ} where
  -- What handleCmdDescribe does with the session that it has found.
  unfoldable pub describe_session :
      Outside
      → ℕ × RtpConnection
      → MediaSession
      → RtspServer Conn
      → RtspConnection
      → RtspServer Conn × RtspConnection × List Effect
  unfolding take_source is_empty
  describe_session out (address, rtp) s srv c =
      let (s1, told, added) = add_client c.tcp_conn.fd address s in
      let rtp1 = take_source out.sources s1 channel_1 (take_source out.sources s1 channel_0 rtp) in
      let (s2, sdp) = get_sdp_message out.local_ip out.time out.sources out.version s1 in
      (
        update_session s.session_id s2 srv,
        record c { rtp_conn = some (address, rtp1); session_id = s.session_id },
        map notifies told ++ (sends (describe_answer sdp c.request) ∷ []),
      )

  unfoldable pub handle_cmd_describe :
      Outside → RtspServer Conn → RtspConnection → RtspServer Conn × RtspConnection × List Effect
  unfolding rtp_of describe_session
  handle_cmd_describe out srv c =
      let rtp = rtp_of out c in
      let (srv1, found) = look_by_suffix (get_rtsp_url_suffix c.request) srv in
      elim found [
        | none ↦ (
          srv1,
          record c { rtp_conn = some rtp },
          sends (build_not_found_res 1024 c.request) ∷ [],
        )
        | some s ↦ describe_session out rtp s srv1 c
      ]

-- `uint16_t sessionId = _rtpConnPtr->getRtpSessionId();`
abbrev pub short_id : ℕ → ℕ
short_id address = address % 2 ^ 32 % 2 ^ 16

-- The branches of handleCmdSetup for a session that is there, by the transport.
unfoldable pub setup_tcp :
    MediaChannelId → ℕ → RtpConnection → RtspConnection → RtspConnection × List Effect
setup_tcp channel address rtp c =
    let r = c.request in
    let rtp_channel = get_rtp_channel r in
    let rtcp_channel = get_rtcp_channel r in
    (
      record c {
        rtp_conn = some (
          address,
          (setup_rtp_over_tcp (some c.tcp_conn) channel rtp_channel rtcp_channel rtp).0,
        );
      },
      sends (build_setup_tcp_res 1024 rtp_channel rtcp_channel (short_id address) r) ∷ [],
    )

unfoldable pub udp_answer : Bool → MediaChannelId → ℕ → RtpConnection → RtspRequest → Bytes
udp_answer true channel address rtp r =
    build_setup_udp_res 1024 (get_rtp_port rtp channel) (get_rtcp_port rtp channel)
      (short_id address) r
udp_answer false channel address rtp r = build_server_error_res 1024 r

unfoldable pub setup_udp :
    Outside → MediaChannelId → ℕ → RtpConnection → RtspConnection → RtspConnection × List Effect
unfolding udp_answer
setup_udp out channel address rtp c =
    let r = c.request in
    let (rtp1, made, done) =
      setup_rtp_over_udp (some c.tcp_conn) out.peer out.attempt channel (client_rtp_port r)
        (client_rtcp_port r) rtp in
    (
      record c { rtp_conn = some (address, rtp1) },
      map calls made ++ (sends (udp_answer done channel address rtp1 r) ∷ []),
    )

unfoldable pub setup_by :
    TransportMode → Outside → RtspConnection → Option (RtspConnection × List Effect)
unfolding setup_tcp setup_udp
setup_by rtp_over_tcp out c = do
  (address, rtp) ← c.rtp_conn
  some (setup_tcp c.request.channel_id address rtp c)
setup_by rtp_over_udp out c = do
  (address, rtp) ← c.rtp_conn
  some (setup_udp out c.request.channel_id address rtp c)
setup_by rtp_over_multicast out c = some (c, sends (build_unsupported_res 1024 c.request) ∷ [])

unfoldable pub handle_cmd_setup {ℓ} :
    {Conn : Type ℓ}
    → Outside
    → RtspServer Conn
    → RtspConnection
    → Option (RtspConnection × List Effect)
unfolding setup_by
handle_cmd_setup out srv c = elim (look_by_id c.session_id srv) [
  | none ↦ some (c, sends (build_server_error_res 1024 c.request) ∷ [])
  | some s ↦ setup_by c.request.transport out c
]

unfoldable pub handle_cmd_play : RtspConnection → Option (RtspConnection × List Effect)
handle_cmd_play c = do
  (address, rtp) ← c.rtp_conn
  some (
    record c { conn_state = ConnectionState.start_play; rtp_conn = some (address, play_rtp rtp) },
    sends (build_play_res 1024 none (short_id address) c.request) ∷ [],
  )

unfoldable pub handle_cmd_teardown : RtspConnection → Option (RtspConnection × List Effect)
handle_cmd_teardown c = do
  (address, rtp) ← c.rtp_conn
  some (
    record c { rtp_conn = some (address, teardown_rtp rtp) },
    sends (build_teardown_res 1024 (short_id address) c.request) ∷ shuts_down ∷ closes_later ∷ [],
  )

-- `handleCmdGetParamter`
unfoldable pub handle_cmd_get_paramter : RtspConnection → Option (List Effect)
handle_cmd_get_paramter c = do
  (address, rtp) ← c.rtp_conn
  some (sends (build_get_paramter_res 1024 (short_id address) c.request) ∷ [])
