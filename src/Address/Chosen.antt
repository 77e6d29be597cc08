-- ===== src/Address/Chosen.antt =====
-- src/media/address.h: which address getLocalIpAddress chooses.
use rtsp_server.Base.{
  ℕ, zero, suc, Bytes, true, false, Option, none, some, List, [], ◌∷◌, ◌≡◌, refl, arith, ◌==◌, ◌&&◌,
  if◌then◌else◌, length, Bool-cases, inl, inr,
}
use rtsp_server.Base.Int.{ℤ}
use rtsp_server.Address.{
  Ifreq, af_inet, inet_ntoa, any_address, is_lo, is_minus_one, look, get_local_ip_address,
}

-- The entries from the first on that is not the loopback device with an address of AF_INET.
unfoldable pub behind_lo : List Ifreq → List Ifreq
behind_lo [] = []
behind_lo (r ∷ entries) =
    let rest = behind_lo entries in if r.ifr_flags == af_inet && is_lo r then rest else r ∷ entries

-- The address of the first entry, if it is one of AF_INET.
unfoldable pub head_address : List Ifreq → Bytes
head_address [] = any_address
head_address (r ∷ entries) = if r.ifr_flags == af_inet then inet_ntoa r.sin_addr else any_address

-- At an entry of another family the pointer stays until no rounds are left.
look-other :
    (i : ℕ) (r : Ifreq) (entries : List Ifreq)
    → r.ifr_flags == af_inet ≡ false
    → look i (r ∷ entries) ≡ some any_address
unfolding look
look-other zero r entries other = refl
look-other (suc i) r entries other = ground (arith, other, look-other i r entries other)

look_lem :
    (entries : List Ifreq) → look (length entries) entries ≡ some (head_address (behind_lo entries))
unfolding look behind_lo head_address
look_lem [] = refl
look_lem (r ∷ entries) = ground (arith, look_lem entries, look-other (length entries) r entries)

abbrev pub chosen_address : ℤ → Option (List Ifreq) → Bytes
chosen_address sockfd answer = elim (is_minus_one sockfd) [
  | true ↦ any_address
  | false ↦ elim answer [ some entries ↦ head_address (behind_lo entries) | none ↦ any_address ]
]

chosen_from :
    (sockfd : ℤ) (answer : Option (List Ifreq))
    → is_minus_one sockfd ≡ false
    → get_local_ip_address sockfd answer ≡ some (chosen_address sockfd answer, sockfd ∷ [])
unfolding get_local_ip_address
chosen_from sockfd none made = rw (made, get_local_ip_address, chosen_address) refl
chosen_from sockfd (some entries) made =
    rw (made, look_lem entries, get_local_ip_address, chosen_address) refl

-- getLocalIpAddress, from what socket and ioctl answer: it reads no entry behind the last one. With no
-- descriptor or no entries it is 0.0.0.0. Else, of the entries behind the loopback devices of AF_INET
-- at the front, it is the address of the first one if that is of AF_INET, and 0.0.0.0 if it is not, or
-- if there is none. What socket answered is closed once, also -1.
pub get_local_ip_address-chosen :
    (sockfd : ℤ) (answer : Option (List Ifreq))
    → get_local_ip_address sockfd answer ≡ some (chosen_address sockfd answer, sockfd ∷ [])
unfolding get_local_ip_address
get_local_ip_address-chosen sockfd answer = elim (Bool-cases (is_minus_one sockfd)) [
  | inl failed ↦ rw (failed, get_local_ip_address, chosen_address) refl
  | inr made ↦ chosen_from sockfd answer made
]
