-- ===== src/Tests/Addresses.antt =====
-- src/media/address.h on a host with a loopback device and one other.
use rtsp_server.Base.{◌≡◌, refl, [], ◌∷◌, some}
use rtsp_server.Base.Int.{pos}
use rtsp_server.Base.Maps.{equal}
use rtsp_server.Base.Text.{text, c_str, decimal}
use rtsp_server.Address.{Ifreq, look, is_lo, is_minus_one, inet_ntoa, get_local_ip_address}
use rtsp_server.Address.Chosen.{chosen_address, get_local_ip_address-chosen}

abbrev lo : Ifreq
lo = record {
  ifr_name = text "lo";
  ifr_flags = 2;
  sin_addr = record { b0 = 127; b1 = 0; b2 = 0; b3 = 1 };
}

abbrev eth0 : Ifreq
eth0 = record {
  ifr_name = text "eth0";
  ifr_flags = 2;
  sin_addr = record { b0 = 192; b1 = 168; b2 = 1; b3 = 10 };
}

chooses_eth0 :
    get_local_ip_address (pos 3) (some (lo ∷ eth0 ∷ [])) ≡ some (text "192.168.1.10", pos 3 ∷ [])
unfolding get_local_ip_address look is_lo is_minus_one inet_ntoa c_str equal decimal
chooses_eth0 = refl

get_local_ip_address-chosen_example :
    get_local_ip_address (pos 3) (some (lo ∷ eth0 ∷ []))
    ≡ some (chosen_address (pos 3) (some (lo ∷ eth0 ∷ [])), pos 3 ∷ [])
get_local_ip_address-chosen_example = get_local_ip_address-chosen (pos 3) (some (lo ∷ eth0 ∷ []))
