-- ===== src/Net/Address.antt =====
-- Addresses as numbers of 32 and 128 bits, with the ranges that the standard library names, and the public ones.
use Prim.Native.Nat.{bit_and}
use lazypock.Base.{
  ℕ, zero, suc, ◌^◌, ◌+◌, ◌*◌, ◌/◌, ◌%◌, Bool, not, ◌&&◌, ◌||◌, List, [], ◌∷◌, Option, none, some,
  leb, ◌==◌, if◌then◌else◌, all, take, drop,
}

pub data IpAddr : Type 0 where
  v4 v6 : ℕ → IpAddr

-- An octet of an IPv4 address, and a segment of an IPv6 address, from the left.
abbrev pub octet : ℕ → ℕ → ℕ
octet zero n = n / 16777216 % 256
octet (suc zero) n = n / 65536 % 256
octet (suc (suc zero)) n = n / 256 % 256
octet (suc (suc (suc i))) n = n % 256

abbrev pub segments : ℕ → List ℕ
segments n =
    n / 2 ^ 112 % 65536
    ∷ n / 2 ^ 96 % 65536
    ∷ n / 2 ^ 80 % 65536
    ∷ n / 2 ^ 64 % 65536
    ∷ n / 2 ^ 48 % 65536
    ∷ n / 2 ^ 32 % 65536
    ∷ n / 2 ^ 16 % 65536
    ∷ n % 65536
    ∷ []

abbrev pub segment : ℕ → ℕ → ℕ
segment i n = head (drop i (segments n))
  where
    head : List ℕ → ℕ
    head [] = 0
    head (x ∷ xs) = x

-- `Ipv4Addr::is_private`, `is_loopback`, `is_link_local`, `is_broadcast`, `is_documentation`, `is_multicast`.
abbrev is_private : ℕ → ℕ → Bool
is_private a b = a == 10 || (a == 172 && (leb 16 b && leb b 31) || a == 192 && b == 168)

abbrev is_documentation : ℕ → ℕ → ℕ → Bool
is_documentation a b c =
    a == 192 && (b == 0 && c == 2)
    || (a == 198 && (b == 51 && c == 100) || a == 203 && (b == 0 && c == 113))

abbrev is_multicast : ℕ → Bool
is_multicast a = leb 224 a && leb a 239

-- `is_public_v4`, by the octets.
unfoldable pub is_public_octets : ℕ → ℕ → ℕ → ℕ → Bool
is_public_octets a b c d = not (
    a == 0
    || (is_private a b
        || (a == 127
            || (a == 169 && b == 254
                || (a == 255 && (b == 255 && (c == 255 && d == 255))
                    || (is_documentation a b c
                        || (is_multicast a
                            || (a == 0 && (b == 0 && (c == 0 && d == 0))
                                || (a == 100 && (leb 64 b && leb b 127)
                                    || (a == 192 && (b == 0 && c == 0)
                                        || (a == 192 && (b == 88 && c == 99)
                                            || (a == 198 && (b == 18 || b == 19)
                                                || leb 240 a))))))))))))

unfoldable pub is_public_v4 : ℕ → Bool
unfolding is_public_octets
is_public_v4 n = is_public_octets (octet 0 n) (octet 1 n) (octet 2 n) (octet 3 n)

abbrev pub zeros : List ℕ → Bool
zeros = all (λ s. s == 0)

-- `Ipv6Addr::to_ipv4_mapped`: the last 32 bits, after `::ffff`.
abbrev pub to_ipv4_mapped : ℕ → Option ℕ
to_ipv4_mapped n =
    if zeros (take 5 (segments n)) && segment 5 n == 0xffff
    then some (segment 6 n * 65536 + segment 7 n)
    else none

-- The two segments as the four octets of an IPv4 address.
unfoldable pub is_public_pair : ℕ → ℕ → Bool
unfolding is_public_octets
is_public_pair a b = is_public_octets (a / 256) (bit_and a 0xff) (b / 256) (bit_and b 0xff)

abbrev is_reserved_v6 : ℕ → Bool
is_reserved_v6 n =
    n == 1
    || (n == 0
        || (leb 0xff00 (segment 0 n)
            || (zeros (take 6 (segments n))
                || (bit_and (segment 0 n) 0xfe00 == 0xfc00
                    || (bit_and (segment 0 n) 0xffc0 == 0xfec0
                        || (bit_and (segment 0 n) 0xffc0 == 0xfe80
                            || (segment 0 n == 0x2001 && segment 1 n == 0x0db8
                                || (segment 0 n == 0x2001 && segment 1 n == 0x0000
                                    || (segment 0 n == 0x0064
                                          && (segment 1 n == 0xff9b && segment 2 n == 0x0001)
                                        || segment 0 n == 0x0100
                                          && zeros (take 3 (drop 1 (segments n))))))))))))

abbrev is_nat64 : ℕ → Bool
is_nat64 n =
    segment 0 n == 0x0064 && (segment 1 n == 0xff9b && zeros (take 4 (drop 2 (segments n))))

-- What is left of `is_public_v6` when no IPv4 address is mapped.
unfoldable pub is_public_unmapped : ℕ → Bool
unfolding is_public_pair
is_public_unmapped n =
    if is_nat64 n
    then is_public_pair (segment 6 n) (segment 7 n)
    else if segment 0 n == 0x2002
    then is_public_pair (segment 1 n) (segment 2 n)
    else not (is_reserved_v6 n)

unfoldable pub is_public_v6 : ℕ → Bool
unfolding is_public_unmapped is_public_v4
is_public_v6 n = elim (to_ipv4_mapped n) [
  | some mapped ↦ is_public_v4 mapped
  | none ↦ is_public_unmapped n
]

unfoldable pub is_public_ip : IpAddr → Bool
unfolding is_public_v4 is_public_v6
is_public_ip (IpAddr.v4 n) = is_public_v4 n
is_public_ip (IpAddr.v6 n) = is_public_v6 n
