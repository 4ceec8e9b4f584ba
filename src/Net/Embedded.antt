-- ===== src/Net/Embedded.antt =====
-- A mapped address is judged as the IPv4 address that it spells.
use lazypock.Base.{ℕ, ◌+◌, ◌*◌, ◌/◌, ◌%◌, ◌^◌, ◌<◌, ◌≡◌, some, refl, arith, ap}
use lazypock.Net.Address.{IpAddr, is_public_ip, is_public_v6, to_ipv4_mapped}
use lazypock.Net.Proxies.{as_v6}

to_ipv4_mapped-mapped : (n : ℕ) → n < 4294967296 → to_ipv4_mapped (281470681743360 + n) ≡ some n
to_ipv4_mapped-mapped n h =
    let s0 : (281470681743360 + n) / 5192296858534827628530496329220096 % 65536 ≡ 0 =
      omega (arith, h) in
    let s1 : (281470681743360 + n) / 79228162514264337593543950336 % 65536 ≡ 0 = omega (arith, h) in
    let s2 : (281470681743360 + n) / 1208925819614629174706176 % 65536 ≡ 0 = omega (arith, h) in
    let s3 : (281470681743360 + n) / 18446744073709551616 % 65536 ≡ 0 = omega (arith, h) in
    let s4 : (281470681743360 + n) / 281474976710656 % 65536 ≡ 0 = omega (arith, h) in
    let s5 : (281470681743360 + n) / 4294967296 % 65536 ≡ 65535 = omega (arith, h) in
    let low : (281470681743360 + n) / 65536 % 65536 * 65536 + (281470681743360 + n) % 65536 ≡ n =
      omega (arith, h) in
    rw (s0, s1, s2, s3, s4, s5) (ap (λ x. some x) low)

-- An IPv4 address and its mapped form in IPv6 are judged alike as public or not.
pub is_public_ip-as_v6 :
    (n : ℕ)
    → n < 2 ^ 32
    → is_public_ip (IpAddr.v6 (as_v6 (IpAddr.v4 n))) ≡ is_public_ip (IpAddr.v4 n)
unfolding is_public_ip as_v6
is_public_ip-as_v6 n h = rw (is_public_v6, to_ipv4_mapped-mapped n h) refl
