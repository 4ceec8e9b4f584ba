-- ===== src/Net/Tests.antt =====
-- The rules on addresses and hosts at concrete inputs: an address is read from its number of one digit.
use lazypock.Base.{
  ℕ, ◌≡◌, ◌↔◌, ◌-◌, refl, subst, arith, true, false, Option, some, none, List, [], ◌∷◌, null, leb,
  ◌&&◌, if◌then◌else◌,
}
use lazypock.Base.Text.{Text, codes, split, trim}
use lazypock.Net.Address.{IpAddr, is_public_ip}
use lazypock.Net.Proxies.{TrustedNet, as_v6, contains, address, Skipped, address-rightmost}
use lazypock.Net.Hosts.{HostPattern, allows, bare, SomeNamed, allows_iff}
use lazypock.Net.Embedded.{is_public_ip-as_v6}

abbrev parse_ip : Text → Option IpAddr
parse_ip (c ∷ []) = if leb b'0' c && leb c b'9' then some (IpAddr.v4 (c - b'0')) else none
parse_ip _ = none

abbrev parse_u8 : Text → Option ℕ
parse_u8 (c ∷ []) = if leb b'0' c && leb c b'9' then some (c - b'0') else none
parse_u8 _ = none

-- One proxy, at address 1.
abbrev proxies : List TrustedNet
proxies = record { base = IpAddr.v4 1; prefix = 32 } ∷ []

trusted : contains proxies (IpAddr.v4 1) ≡ true
unfolding contains
trusted = refl

untrusted : contains proxies (IpAddr.v4 7) ≡ false
unfolding contains
untrusted = refl

parts : split b',' (codes "9, 7,1") ≡ codes "9" ∷ codes " 7" ∷ codes "1" ∷ []
unfolding split
parts = refl

skipped : Skipped parse_ip proxies (codes "1")
skipped a read =
    let mine : IpAddr.v4 1 ≡ a = unfold trim in cc in
    subst (λ x. contains proxies x ≡ true) mine trusted

address-rightmost_example :
    address parse_ip proxies (some (IpAddr.v4 1)) (some (codes "9, 7,1")) ≡ some (IpAddr.v4 7)
address-rightmost_example =
    address-rightmost parse_ip proxies (IpAddr.v4 1) (IpAddr.v4 7) (codes "9, 7,1") (codes " 7")
      (codes "9" ∷ []) (codes "1" ∷ []) trusted parts (unfold trim in refl) untrusted (skipped, tt)

abbrev patterns : List HostPattern
patterns = record { host = codes "example.com"; subdomains = true; port = 443 } ∷ []

allowed : allows patterns (codes "API.Example.com.") 443 ≡ true
unfolding allows
allowed = refl

allows_iff_example : (allows patterns (codes "API.Example.com.") 443 ≡ true) ↔ (
    (null (bare (codes "API.Example.com.")) ≡ false)
    × SomeNamed patterns (bare (codes "API.Example.com.")) 443)
allows_iff_example = allows_iff patterns (codes "API.Example.com.") 443

is_public_ip-as_v6_example :
    is_public_ip (IpAddr.v6 (as_v6 (IpAddr.v4 167772161))) ≡ is_public_ip (IpAddr.v4 167772161)
is_public_ip-as_v6_example = is_public_ip-as_v6 167772161 (omega arith)
