-- ===== src/Address/Order.antt =====
-- The order of aether/address.cpp is the lexicographic one on all that an address holds.
use aether_client_cpp_new.Prelude.{
  ℕ, ◌≡◌, refl, ◌∙◌, false, ◌&&◌, List, [], ◌∷◌, ◌++◌, ltb, ◌==◌, if◌then◌else◌, length,
  length-take, Bool-cases, inl, inr, arith,
}
use aether_client_cpp_new.Address.{
  ipv6, size_of, IpAddress, IpAddressPortProtocol, bytes_of, equal_bytes, less_bytes, equal_ip,
  less_ip, less,
}

-- the numbers that an address is compared by
abbrev pub key : IpAddressPortProtocol → List ℕ
key a = a.ip.version ∷ (bytes_of a.ip ++ (a.port ∷ a.protocol ∷ []))

-- the union has its 16 bytes
abbrev pub IsFull : IpAddressPortProtocol → Type 0
IsFull a = length a.ip.value ≡ 16

pub less_bytes_irrefl : (xs : List ℕ) → less_bytes xs xs ≡ false
unfolding less_bytes
less_bytes_irrefl [] = refl
less_bytes_irrefl (x ∷ xs) = ground (arith, less_bytes_irrefl xs)

-- Behind strings of one length the rest decides when they are equal.
less_bytes-append :
    (xs ys us vs : List ℕ)
    → length xs ≡ length ys
    → less_bytes (xs ++ us) (ys ++ vs)
      ≡ (if equal_bytes xs ys then less_bytes us vs else less_bytes xs ys)
unfolding less_bytes equal_bytes
less_bytes-append [] [] us vs e = refl
less_bytes-append [] (y ∷ ys) us vs e = grind arith
less_bytes-append (x ∷ xs) [] us vs e = grind arith
less_bytes-append (x ∷ xs) (y ∷ ys) us vs e =
    ground (arith, less_bytes-append xs ys us vs (omega (arith, e)))

length-bytes_of :
    (a b : IpAddress)
    → length a.value ≡ 16
    → length b.value ≡ 16
    → a.version ≡ b.version
    → length (bytes_of a) ≡ length (bytes_of b)
unfolding bytes_of size_of
length-bytes_of a b h k e = rw e (
    ground (
      arith,
      h,
      k,
      length-take 4 a.value,
      length-take 4 b.value,
      length-take 16 a.value,
      length-take 16 b.value,
    ))

-- Of two addresses with whole unions whose version is the same byte, but neither `kIpV4` nor `kIpV6`,
-- none is less than the other, whatever they hold. On all others with whole unions, the code's order is
-- the lexicographic one on version, bytes of that version, port and protocol.
pub less-key :
    (a b : IpAddressPortProtocol)
    → IsFull a
    → IsFull b
    → less a b ≡ (
        if (a.ip.version == b.ip.version) && ltb ipv6 a.ip.version
        then false
        else less_bytes (key a) (key b))
unfolding less equal_ip less_ip less_bytes
less-key a b h k = elim (Bool-cases (a.ip.version == b.ip.version)) [
  | inl e ↦
      let same : a.ip.version ≡ b.ip.version = ground (arith, e) in
      let tail =
        less_bytes-append (bytes_of a.ip) (bytes_of b.ip) (a.port ∷ a.protocol ∷ [])
          (b.port ∷ b.protocol ∷ []) (length-bytes_of a.ip b.ip h k same) in
      ground (arith, same, tail)
  | inr e ↦ ground (arith, e)
]

-- No address with a whole union is below itself.
pub less_irrefl : (a : IpAddressPortProtocol) → IsFull a → less a a ≡ false
less_irrefl a h = less-key a a h h ∙ ground (arith, less_bytes_irrefl (key a))
