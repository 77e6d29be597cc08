-- ===== src/RtspRequest/Answers.antt =====
-- src/media/rtsp_message.cc: the functions that build an answer. The result is what they leave in the
-- buffer of `size` bytes, up to its 0, of which they return the length.
pub mod Numbers
pub mod Echo
use rtsp_server.Base.{ℕ, Bytes, Option, none, some, ◌++◌, ◌-◌, ◌%◌, ◌^◌, length}
use rtsp_server.Base.Text.{text, c_str, decimal, signed_decimal, printed, append_printed}
use rtsp_server.RtspRequest.{RtspRequest, get_cseq, get_ip, get_rtp_port, get_rtcp_port}

-- The first two lines.
abbrev pub head_of : Bytes → Bytes → Bytes
head_of status cseq = status ++ (text "\r\nCSeq: " ++ (cseq ++ text "\r\n"))

-- With `%u` and with `%d` for the number.
unfoldable pub head : Bytes → RtspRequest → Bytes
head status r = head_of status (decimal (get_cseq r))

unfoldable pub signed_head : Bytes → RtspRequest → Bytes
signed_head status r = head_of status (signed_decimal (get_cseq r))

abbrev pub ok : Bytes
ok = text "RTSP/1.0 200 OK"

unfoldable pub build_option_res : ℕ → RtspRequest → Bytes
unfolding head
build_option_res size r =
    printed size (head ok r ++ text "Public: OPTIONS, DESCRIBE, SETUP, TRARDOWN, PLAT\r\n\r\n")

unfoldable pub build_describe_res : ℕ → Bytes → RtspRequest → Bytes
unfolding head
build_describe_res size sdp r = printed size (
    head ok r
    ++ (text "Content-Length: "
        ++ (signed_decimal (length (c_str sdp) % 2 ^ 32)
            ++ (text "\r\nContent-Type: application/sdp\r\n\r\n" ++ c_str sdp))))

-- `Session: %u` and the empty line.
unfoldable pub session_end : ℕ → Bytes
session_end session_id = text "Session: " ++ (decimal session_id ++ text "\r\n\r\n")

unfoldable pub build_setup_multicast_res : ℕ → Bytes → ℕ → ℕ → RtspRequest → Bytes
unfolding head session_end
build_setup_multicast_res size multicast_ip port session_id r = printed size (
    head ok r
    ++ (text "Transport: RTP/AVP;multicast;destination="
        ++ (c_str multicast_ip
            ++ (text ";source="
                ++ (c_str (get_ip r)
                    ++ (text ";port="
                        ++ (decimal port ++ (text "-0;ttl=255\r\n" ++ session_end session_id))))))))

unfoldable pub build_setup_tcp_res : ℕ → ℕ → ℕ → ℕ → RtspRequest → Bytes
unfolding head session_end
build_setup_tcp_res size rtp_chn rtcp_chn session_id r = printed size (
    head ok r
    ++ (text "Transport: RTP/AVP/TCP;unicast;interleaved="
        ++ (decimal rtp_chn
            ++ (text "-" ++ (decimal rtcp_chn ++ (text "\r\n" ++ session_end session_id))))))

unfoldable pub build_setup_udp_res : ℕ → ℕ → ℕ → ℕ → RtspRequest → Bytes
unfolding head session_end
build_setup_udp_res size rtp_chn rtcp_chn session_id r = printed size (
    head ok r
    ++ (text "Transport: RTP/AVP;unicast;client_port="
        ++ (decimal (get_rtp_port r)
            ++ (text "-"
                ++ (decimal (get_rtcp_port r)
                    ++ (text ";server_port="
                        ++ (decimal rtp_chn
                            ++ (text "-"
                                ++ (decimal rtcp_chn
                                    ++ (text "\r\n" ++ session_end session_id))))))))))

unfoldable pub play_info : ℕ → Option Bytes → Bytes → Bytes
unfolding append_printed
play_info size none s = s
play_info size (some rtp_info) s = append_printed size s (c_str rtp_info ++ text "\r\n")

unfoldable pub build_play_res : ℕ → Option Bytes → ℕ → RtspRequest → Bytes
unfolding signed_head play_info append_printed
build_play_res size rtp_info session_id r =
    append_printed size
      (play_info size rtp_info (
        printed size (
          signed_head ok r
          ++ (text "Range: npt=0.000-\r\nSession: "
              ++ (decimal session_id ++ text "; timeout=60\r\n")))))
      (text "\r\n")

unfoldable pub build_teardown_res : ℕ → ℕ → RtspRequest → Bytes
unfolding signed_head session_end
build_teardown_res size session_id r = printed size (signed_head ok r ++ session_end session_id)

-- `buildGetParamterRes`
unfoldable pub build_get_paramter_res : ℕ → ℕ → RtspRequest → Bytes
unfolding signed_head session_end
build_get_paramter_res size session_id r = printed size (signed_head ok r ++ session_end session_id)

unfoldable pub build_not_found_res : ℕ → RtspRequest → Bytes
unfolding head
build_not_found_res size r =
    printed size (head (text "RTSP/1.0 404 Stream Not Found") r ++ text "\r\n")

unfoldable pub build_server_error_res : ℕ → RtspRequest → Bytes
unfolding head
build_server_error_res size r =
    printed size (head (text "RTSP/1.0 500 Internal Server Error") r ++ text "\r\n")

unfoldable pub build_unsupported_res : ℕ → RtspRequest → Bytes
unfolding signed_head
build_unsupported_res size r =
    printed size (signed_head (text "RTSP/1.0 461 Unsupported transport") r ++ text "\r\n")
