-- ===== src/RtspConnection/Messages.antt =====
-- src/media/rtsp_connection.cc: handleRtspMessage, handleRtspRequest, handleRtcp, handleRtspResponse.
use rtsp_server.Base.{
  ℕ, Bool, true, false, Option, some, List, [], ◌+◌, ◌*◌, ◌-◌, ◌%◌, ◌^◌, ◌==◌, ◌&&◌, leb, ltb,
  if◌then◌else◌, ◌>>=◌, get_elem?, length, bit_or, none,
}
use rtsp_server.RtspServer.{RtspServer}
use rtsp_server.RtspRequest.{Method, has_all, reset}
use rtsp_server.RtspRequest.Parse.{Buffer, parse_request}
use rtsp_server.RtspResponse.{parse_response}
use rtsp_server.RtspConnection.{
  RtspConnection, ConnectionMode, rtsp_server_mode, rtsp_pusher_mode, Outside, Effect,
}
use rtsp_server.RtspConnection.Handlers.{
  handle_cmd_option, handle_cmd_describe, handle_cmd_setup, handle_cmd_play, handle_cmd_teardown,
  handle_cmd_get_paramter,
}

-- A `char` as 32 bits.
unfoldable pub char_bits : ℕ → ℕ
char_bits b = if ltb b 128 then b else 2 ^ 32 - 256 + b

-- `peek[2] << 8 | peek[3]`
unfoldable pub rtcp_size : ℕ → ℕ → ℕ
unfolding char_bits
rtcp_size hi lo = bit_or (char_bits hi * 2 ^ 8 % 2 ^ 32) (char_bits lo)

unfoldable pub is_rtcp : Method → Bool
is_rtcp Method.rtcp = true
is_rtcp _ = false

abbrev pub max_rtsp_message_size : ℕ
max_rtsp_message_size = 2048

-- The `switch` of handleRtspRequest.
unfoldable pub dispatch {ℓ} :
    {Conn : Type ℓ}
    → Method
    → Outside
    → RtspServer Conn
    → RtspConnection
    → Option (RtspServer Conn × RtspConnection × List Effect)
dispatch Method.options out srv c = some (srv, c, handle_cmd_option c)
dispatch Method.describe out srv c = some (handle_cmd_describe out srv c)
dispatch Method.setup out srv c = do
  (c1, effects) ← handle_cmd_setup out srv c
  some (srv, c1, effects)
dispatch Method.play out srv c = do (c1, effects) ← handle_cmd_play c; some (srv, c1, effects)
dispatch Method.teardown out srv c = do
  (c1, effects) ← handle_cmd_teardown c
  some (srv, c1, effects)
dispatch Method.get_parameter out srv c = do
  effects ← handle_cmd_get_paramter c
  some (srv, c, effects)
dispatch Method.rtcp out srv c = some (srv, c, [])
dispatch Method.unknown out srv c = some (srv, c, [])

abbrev pub reset_if_all : RtspConnection → RtspConnection
reset_if_all c = if has_all c.request then record c { request = reset c.request } else c

module _ {ℓ} {B : Type ℓ} (ops : Buffer B) where
  -- The assertion of `retrieve` fails on more bytes than are readable.
  unfoldable pub handle_rtcp : B → Option B
  unfolding rtcp_size
  handle_rtcp buf =
      let readable = ops.readable buf in
      do
        first ← get_elem? readable 0
        (if first == b'$' && ltb 4 (length readable)
            then (do
              hi ← get_elem? readable 2
              lo ← get_elem? readable 3
              (let n = (rtcp_size hi lo + 4) % 2 ^ 32 in
                  if leb (length readable) n
                  then (if leb n (length readable) then some (ops.retrieve n buf) else none)
                  else some buf))
            else some buf)

  -- The functions that handleRtspResponse calls are empty.
  unfoldable pub handle_rtsp_response : (B → B) → B → RtspConnection → Option (B × RtspConnection)
  handle_rtsp_response retrieve_literal buf c = do
    (buf1, r, ok) ← parse_response ops retrieve_literal buf c.response
    some (buf1, record c { response = r })

  abbrev pub drop_long : B → B
  drop_long buf =
      if ltb max_rtsp_message_size (length (ops.readable buf)) then ops.retrieve_all buf else buf

module _ {ℓ κ} {B : Type ℓ} {Conn : Type κ} (ops : Buffer B) where
  -- handleRtspRequest behind a parseRequest that has answered true.
  unfoldable pub serve :
      Outside
      → B
      → RtspServer Conn
      → RtspConnection
      → Option (B × RtspServer Conn × RtspConnection × List Effect)
  unfolding handle_rtcp dispatch is_rtcp
  serve out buf srv c =
      if is_rtcp c.request.method
      then (do buf1 ← handle_rtcp ops buf; some (buf1, srv, c, []))
      else if has_all c.request
      then (do
        (srv1, c1, effects) ← dispatch c.request.method out srv c
        some (buf, srv1, reset_if_all c1, effects))
      else some (buf, srv, c, [])

  unfoldable pub handle_rtsp_request :
      Outside
      → B
      → RtspServer Conn
      → RtspConnection
      → Option (B × RtspServer Conn × RtspConnection × List Effect)
  unfolding serve
  handle_rtsp_request out buf srv c = do
    (buf1, r, ok) ← parse_request ops buf c.request
    (let c1 = record c { request = r } in
        if ok then serve out buf1 srv c1 else some (buf1, srv, c1, []))

  unfoldable pub handle_by :
      ConnectionMode
      → Outside
      → (B → B)
      → B
      → RtspServer Conn
      → RtspConnection
      → Option (B × RtspServer Conn × RtspConnection × List Effect)
  unfolding handle_rtsp_request handle_rtsp_response
  handle_by rtsp_server_mode out retrieve_literal buf srv c = handle_rtsp_request out buf srv c
  handle_by rtsp_pusher_mode out retrieve_literal buf srv c = do
    (buf1, c1) ← handle_rtsp_response ops retrieve_literal buf c
    some (buf1, srv, c1, [])

  unfoldable pub handle_rtsp_message :
      Outside
      → (B → B)
      → B
      → RtspServer Conn
      → RtspConnection
      → Option (B × RtspServer Conn × RtspConnection × List Effect)
  unfolding handle_by
  handle_rtsp_message out retrieve_literal buf srv c = do
    (buf1, srv1, c1, effects) ← handle_by c.conn_mode out retrieve_literal buf srv c
    some (drop_long ops buf1, srv1, c1, effects)
