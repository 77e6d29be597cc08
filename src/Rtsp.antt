-- ===== src/Rtsp.antt =====
-- src/media/rtsp.h: the class Rtsp, with its two versions of lookMediaSession left to RtspServer. A
-- read in front of or a write past the end of an array is `none`.
use rtsp_server.Base.{
  ℕ, Bytes, Bool, true, false, Option, none, some, ltb, length, drop, if◌then◌else◌, ◌>>=◌,
}
use rtsp_server.Base.Text.{c_str}
use rtsp_server.RtspRequest.Parse.Line.{scan_url}

pub record RtspUrlInfo : Type 0 where
  pub url : Bytes
  pub ip : Bytes
  pub port : ℕ
  pub suffix : Bytes

pub record Rtsp : Type 0 where
  pub version : Bytes
  pub url_info : RtspUrlInfo

unfoldable pub set_version : Bytes → Rtsp → Rtsp
set_version version r = record r { version = version }

unfoldable pub get_version : Rtsp → Bytes
get_version r = r.version

unfoldable pub get_rtsp_url : Rtsp → Bytes
get_rtsp_url r = r.url_info.url

-- `parseRtspUrl`; the array `suffix` has 128 bytes.
unfoldable pub parse_rtsp_url : Bytes → Rtsp → Option (Rtsp × Bool)
parse_rtsp_url url r = if ltb (length (c_str url)) 7 then none else (do
  found ← scan_url 128 (drop 7 (c_str url))
  elim found [
    | none ↦ some (r, false)
    | some (ip, port, suffix) ↦
        some (
          record r { url_info = record { url = url; ip = ip; port = port; suffix = suffix } },
          true,
        )
  ])
