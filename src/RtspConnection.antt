-- ===== src/RtspConnection.antt =====
-- src/media/rtsp_connection.h and src/media/rtsp_connection.cc: the state of an RtspConnection, the
-- handlers of the requests, and the handling of a message. A call through a null `_rtpConnPtr` is
-- `none`. What the TCP connection is asked to do is a list.
pub mod Handlers
pub mod Messages
pub mod Answered
pub mod Served
pub mod ServerSteps
pub mod Serving
pub mod Rtcp
pub mod Conversations
pub mod Lifecycle
use rtsp_server.Base.{ℕ, Bytes, Bool, true, false, Option, none, some, List, []}
use rtsp_server.Media.{Channels}
use rtsp_server.RtpConnection.{RtpConnection, TcpConnection, SockAddr, Seeds}
use rtsp_server.RtpConnection.Setup.{Attempt, SystemCall}
use rtsp_server.MediaSession.{Notification}
use rtsp_server.MediaSession.Sdp.{MediaSource}
use rtsp_server.RtspRequest.{RtspRequest}
use rtsp_server.RtspResponse.{RtspResponse}

pub data ConnectionMode : Type 0 where
  rtsp_server_mode rtsp_pusher_mode : ConnectionMode

pub data ConnectionState : Type 0 where
  start_connect start_play start_push : ConnectionState

-- `_rtpConnPtr` is its address and the object.
pub record RtspConnection : Type 0 where
  pub tcp_conn : TcpConnection
  pub conn_mode : ConnectionMode
  pub conn_state : ConnectionState
  pub session_id : ℕ
  pub request : RtspRequest
  pub response : RtspResponse
  pub rtp_conn : Option (ℕ × RtpConnection)

-- The constructor, on the objects that it makes.
unfoldable pub init : TcpConnection → RtspRequest → RtspResponse → RtspConnection
init conn request response = record {
  tcp_conn = conn;
  conn_mode = ConnectionMode.rtsp_server_mode;
  conn_state = ConnectionState.start_connect;
  session_id = 0;
  request = request;
  response = response;
  rtp_conn = none;
}

-- What a handler gets from outside: the memory of a new RtpConnection with its address, the random
-- device, the version of the server, the local address and the time, the media sources, the address
-- of the peer and the rounds of setupRtpOverUdp.
pub record Outside : Type 0 where
  pub address : ℕ
  pub memory : RtpConnection
  pub seeds : Channels Seeds
  pub version : Bytes
  pub local_ip : Bytes
  pub time : ℕ
  pub sources : ℕ → MediaSource
  pub peer : SockAddr
  pub attempt : ℕ → Attempt

-- What a handler does besides: an answer, the end of the connection, a call of the session's
-- callback, a system call.
pub data Effect : Type 0 where
  sends : Bytes → Effect
  shuts_down closes_later : Effect
  notifies : Notification → Effect
  calls : SystemCall → Effect
