-- ===== src/Address.antt =====
-- src/media/address.h: getLocalIpAddress. What socket and ioctl answer are arguments: a descriptor or
-- -1, and the entries that SIOCGIFCONF writes or none for -1. `ifr_flags` and `ifr_addr` are members of
-- one union, so the flags are the family of the address. A read behind the entries is `none`.
pub mod Chosen
use rtsp_server.Base.{
  ℕ, zero, suc, Bytes, Bool, true, false, Option, none, some, List, [], ◌∷◌, ◌++◌, ◌==◌,
  if◌then◌else◌, ◌>>=◌, length,
}
use rtsp_server.Base.Int.{ℤ, pos, negsuc}
use rtsp_server.Base.Maps.{equal}
use rtsp_server.Base.Text.{text, c_str, decimal}

-- The bytes of an address, in the order of the network.
pub record InAddr : Type 0 where
  pub b0 : ℕ
  pub b1 : ℕ
  pub b2 : ℕ
  pub b3 : ℕ

pub record Ifreq : Type 0 where
  pub ifr_name : Bytes
  pub ifr_flags : ℕ
  pub sin_addr : InAddr

-- AF_INET
abbrev pub af_inet : ℕ
af_inet = 2

unfoldable pub inet_ntoa : InAddr → Bytes
inet_ntoa a =
    decimal a.b0
    ++ (text "." ++ (decimal a.b1 ++ (text "." ++ (decimal a.b2 ++ (text "." ++ decimal a.b3)))))

abbrev pub any_address : Bytes
any_address = text "0.0.0.0"

-- `strcmp(ifreq->ifr_name, "lo") == 0`
unfoldable pub is_lo : Ifreq → Bool
is_lo r = equal (c_str r.ifr_name) (text "lo")

-- The loop with `i` rounds left, from the entry that `ifreq` points to. The pointer goes on only behind
-- an entry of AF_INET.
unfoldable pub look : ℕ → List Ifreq → Option Bytes
unfolding is_lo inet_ntoa
look zero entries = some any_address
look (suc i) [] = none
look (suc i) (r ∷ entries) =
    let after = look i entries in
    let again = look i (r ∷ entries) in
    if r.ifr_flags == af_inet
    then (if is_lo r then after else some (inet_ntoa r.sin_addr))
    else again

-- `sockfd == -1`
unfoldable pub is_minus_one : ℤ → Bool
is_minus_one (negsuc zero) = true
is_minus_one _ = false

-- The result, and the descriptors that are closed, in order.
unfoldable pub get_local_ip_address : ℤ → Option (List Ifreq) → Option (Bytes × List ℤ)
unfolding is_minus_one look
get_local_ip_address sockfd answer = elim (is_minus_one sockfd) [
  | true ↦ some (any_address, sockfd ∷ [])
  | false ↦ elim answer [
    | none ↦ some (any_address, sockfd ∷ [])
    | some entries ↦ (do address ← look (length entries) entries; some (address, sockfd ∷ []))
  ]
]
