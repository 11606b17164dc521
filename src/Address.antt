-- ===== src/Address.antt =====
-- aether/address.h and address.cpp with both versions of IP: the order of addresses, and their bytes
-- in a stream.
pub mod Order
mod Tests
use aether_client_cpp_new.Prelude.{
  ℕ, Bool, true, false, not, ◌&&◌, List, [], ◌∷◌, ◌++◌, ltb, ◌==◌, if◌then◌else◌, length, take,
  drop,
}
use aether_client_cpp_new.MStream.{write, write_uint}

-- the values of `IpAddress::Version`; a version is any byte, as a stream reads one
abbrev pub ipv4 : ℕ
ipv4 = 0

abbrev pub ipv6 : ℕ
ipv6 = 1

-- the size of the array of a version; one that is not known has none
unfoldable pub size_of : ℕ → ℕ
size_of version = if version == ipv6 then 16 else (if version == ipv4 then 4 else 0)

-- `IpAddress`: the union is its 16 bytes
pub record IpAddress : Type 0 where
  pub version : ℕ
  pub value : List ℕ

-- `IpAddressPortProtocol` with its base `IpAddressPort`; a protocol is its number
pub record IpAddressPortProtocol : Type 0 where
  pub ip : IpAddress
  pub port : ℕ
  pub protocol : ℕ

-- the array of the union that the version names
unfoldable pub bytes_of : IpAddress → List ℕ
unfolding size_of
bytes_of a = take (size_of a.version) a.value

-- `std::equal` and `std::lexicographical_compare`
unfoldable pub equal_bytes : List ℕ → List ℕ → Bool
equal_bytes [] ys = true
equal_bytes (x ∷ xs) [] = false
equal_bytes (x ∷ xs) (y ∷ ys) = (x == y) && equal_bytes xs ys

unfoldable pub less_bytes : List ℕ → List ℕ → Bool
less_bytes [] [] = false
less_bytes [] (y ∷ ys) = true
less_bytes (x ∷ xs) [] = false
less_bytes (x ∷ xs) (y ∷ ys) =
    let rest = less_bytes xs ys in if ltb x y then true else (if ltb y x then false else rest)

-- `operator==` and `operator<` of addresses
unfoldable pub equal_ip : IpAddress → IpAddress → Bool
unfolding bytes_of equal_bytes
equal_ip left right =
    if not (left.version == right.version)
    then false
    else (if left.version == ipv6
        then equal_bytes (bytes_of left) (bytes_of right)
        else (if left.version == ipv4 then equal_bytes (bytes_of left) (bytes_of right) else false))

unfoldable pub less_ip : IpAddress → IpAddress → Bool
unfolding bytes_of less_bytes
less_ip left right =
    let by_version = ltb left.version right.version in
    if left.version == right.version
    then (if left.version == ipv6
        then less_bytes (bytes_of left) (bytes_of right)
        else (if left.version == ipv4
            then less_bytes (bytes_of left) (bytes_of right)
            else by_version))
    else by_version

-- `set_value`
unfoldable set_value : IpAddress → List ℕ → IpAddress
unfolding size_of
set_value a val = record a {
  value = take (size_of a.version) val ++ drop (size_of a.version) a.value;
}

-- `operator<` of addresses with port and protocol
unfoldable pub less : IpAddressPortProtocol → IpAddressPortProtocol → Bool
unfolding equal_ip less_ip
less left right =
    if equal_ip left.ip right.ip
    then (if left.port == right.port
        then ltb left.protocol right.protocol
        else ltb left.port right.port)
    else less_ip left.ip right.ip
