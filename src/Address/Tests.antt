-- ===== src/Address/Tests.antt =====
-- Addresses compared by aether/address.cpp, and the instances of the theorems.
use aether_client_cpp_new.Prelude.{
  ℕ, ◌≡◌, refl, true, false, ◌&&◌, ltb, ◌==◌, if◌then◌else◌, List, [], ◌∷◌,
}
use aether_client_cpp_new.Address.{ipv4, ipv6, IpAddressPortProtocol, less_bytes, less}
use aether_client_cpp_new.Address.Order.{key, less-key, less_irrefl}

abbrev twelve : List ℕ
twelve = 0 ∷ 0 ∷ 0 ∷ 0 ∷ 0 ∷ 0 ∷ 0 ∷ 0 ∷ 0 ∷ 0 ∷ 0 ∷ 0 ∷ []

abbrev local : IpAddressPortProtocol
local = record {
  ip = record { version = ipv4; value = 10 ∷ 0 ∷ 0 ∷ 1 ∷ twelve };
  port = 9010;
  protocol = 0;
}

-- the same with bytes behind the four that count
abbrev dirty : IpAddressPortProtocol
dirty = record {
  ip = record {
    version = ipv4;
    value = 10 ∷ 0 ∷ 0 ∷ 1 ∷ 7 ∷ 0 ∷ 0 ∷ 0 ∷ 0 ∷ 0 ∷ 0 ∷ 0 ∷ 0 ∷ 0 ∷ 0 ∷ 7 ∷ [];
  };
  port = 9010;
  protocol = 0;
}

abbrev remote : IpAddressPortProtocol
remote = record {
  ip = record { version = ipv4; value = 10 ∷ 0 ∷ 0 ∷ 2 ∷ twelve };
  port = 80;
  protocol = 0;
}

abbrev six : IpAddressPortProtocol
six = record {
  ip = record { version = ipv6; value = 1 ∷ 0 ∷ 0 ∷ 2 ∷ twelve };
  port = 80;
  protocol = 0;
}

less-key_example :
    less local remote
    ≡ (if (ipv4 == ipv4) && ltb ipv6 ipv4 then false else less_bytes (key local) (key remote))
less-key_example = less-key local remote refl refl

less_irrefl_example : less six six ≡ false
less_irrefl_example = less_irrefl six refl

local-below-remote : less local remote ≡ true
unfolding less
local-below-remote = refl

remote-below-six : less remote six ≡ true
unfolding less
remote-below-six = refl

local-below-dirty : less local dirty ≡ false
unfolding less
local-below-dirty = refl

dirty-below-local : less dirty local ≡ false
unfolding less
dirty-below-local = refl

-- Two ports under a version that is not known, and neither is less than the other.
abbrev unknown : ℕ → IpAddressPortProtocol
unknown port = record {
  ip = record { version = 7; value = 10 ∷ 0 ∷ 0 ∷ 1 ∷ twelve };
  port = port;
  protocol = 0;
}

unknown_ports : (less (unknown 80) (unknown 90) ≡ false) × (less (unknown 90) (unknown 80) ≡ false)
unfolding less
unknown_ports = (refl, refl)
