-- ===== src/Net/Proxies.antt =====
-- The trusted proxies of crates/core/src/net.rs, and `address` of crates/api/src/client.rs. The standard library's
-- reading of an address from text is a parameter.
use Prim.Native.Nat.{bit_and}
use lazypock.Base.{
  ℕ, zero, suc, ◌+◌, ◌-◌, ◌*◌, ◌^◌, ◌%◌, Bool, true, false, List, [], ◌∷◌, ◌++◌, Option, none, some,
  ◌==◌, if◌then◌else◌, any, Option-cases, null, All, ◌≡◌, refl, inl, inr, ◌∙◌, ap, sym, subst,
  append_assoc,
}
use lazypock.Base.Text.{Text, trim, split}
use lazypock.Net.Address.{IpAddr}

pub record TrustedNet : Type 0 where
  pub base : IpAddr
  pub prefix : ℕ

-- The prefix counted from the start of the 128-bit form.
unfoldable pub prefix_in_v6 : TrustedNet → ℕ
prefix_in_v6 net = elim net.base [ IpAddr.v4 n ↦ 96 + net.prefix | IpAddr.v6 n ↦ net.prefix ]

unfoldable pub as_v6 : IpAddr → ℕ
as_v6 (IpAddr.v6 n) = n
as_v6 (IpAddr.v4 n) = 0xffff * 2 ^ 32 + n

-- `u128::MAX << (128 - prefix)`, in 128 bits.
unfoldable pub v6_mask : ℕ → ℕ
v6_mask zero = 0
v6_mask (suc p) = (2 ^ 128 - 1) * 2 ^ (128 - suc p) % 2 ^ 128

unfoldable pub net_contains : TrustedNet → IpAddr → Bool
unfolding v6_mask as_v6 prefix_in_v6
net_contains net address =
    let mask = v6_mask (prefix_in_v6 net) in
    bit_and (as_v6 net.base) mask == bit_and (as_v6 address) mask

-- `TrustedProxies::contains` and `is_empty`.
unfoldable pub contains : List TrustedNet → IpAddr → Bool
unfolding net_contains
contains nets address = any (λ net. net_contains net address) nets

unfoldable pub is_empty : List TrustedNet → Bool
is_empty nets = null nets

-- The loop of `address` over the chain.
unfoldable pub first_untrusted : List TrustedNet → List IpAddr → IpAddr → IpAddr
unfolding contains
first_untrusted nets [] peer = peer
first_untrusted nets (candidate ∷ chain) peer =
    let rest = first_untrusted nets chain peer in
    if contains nets candidate then rest else candidate

abbrev pub reversed : List Text → List Text
reversed [] = []
reversed (x ∷ xs) = reversed xs ++ x ∷ []

module _ (parse_ip : Text → Option IpAddr) where
  unfoldable pub parsed : List Text → List IpAddr
  unfolding trim
  parsed [] = []
  parsed (entry ∷ entries) =
      let rest = parsed entries in elim (parse_ip (trim entry)) [ none ↦ rest | some a ↦ a ∷ rest ]

  -- `forwarded`, of the header that was found.
  unfoldable pub forwarded : Option Text → List IpAddr
  unfolding parsed split
  forwarded none = []
  forwarded (some raw) = parsed (reversed (split b',' raw))

  unfoldable pub address : List TrustedNet → Option IpAddr → Option Text → Option IpAddr
  unfolding first_untrusted forwarded
  address nets none header = none
  address nets (some peer) header =
      if contains nets peer then some (first_untrusted nets (forwarded header) peer) else some peer

module _ (nets : List TrustedNet) where
  first_untrusted-append :
      (xs ys : List IpAddr) (peer : IpAddr)
      → All (λ a. contains nets a ≡ true) xs
      → first_untrusted nets (xs ++ ys) peer ≡ first_untrusted nets ys peer
  unfolding first_untrusted
  first_untrusted-append [] ys peer h = refl
  first_untrusted-append (x ∷ xs) ys peer h = rw h.0 (first_untrusted-append xs ys peer h.1)

first_untrusted-hit :
    (nets : List TrustedNet) (a : IpAddr) (chain : List IpAddr) (peer : IpAddr)
    → contains nets a ≡ false
    → first_untrusted nets (a ∷ chain) peer ≡ a
unfolding first_untrusted
first_untrusted-hit nets a chain peer h = rw h refl

reversed-append :
    (xs : List Text) (e : Text) (ys : List Text)
    → reversed (xs ++ e ∷ ys) ≡ reversed ys ++ e ∷ reversed xs
reversed-append [] e ys = refl
reversed-append (x ∷ xs) e ys =
    ap (λ r. r ++ x ∷ []) (reversed-append xs e ys)
    ∙ append_assoc (reversed ys) (e ∷ reversed xs) (x ∷ [])

module _ (parse_ip : Text → Option IpAddr) where
  parsed-hit :
      (e : Text) (es : List Text) (a : IpAddr)
      → parse_ip (trim e) ≡ some a
      → parsed parse_ip (e ∷ es) ≡ a ∷ parsed parse_ip es
  unfolding parsed
  parsed-hit e es a read = rw (parsed, read) refl

  parsed-miss :
      (e : Text) (es : List Text)
      → parse_ip (trim e) ≡ none
      → parsed parse_ip (e ∷ es) ≡ parsed parse_ip es
  unfolding parsed
  parsed-miss e es unread = rw (parsed, unread) refl

  parsed-append :
      (xs ys : List Text) → parsed parse_ip (xs ++ ys) ≡ parsed parse_ip xs ++ parsed parse_ip ys
  unfolding parsed
  parsed-append [] ys = refl
  parsed-append (x ∷ xs) ys = elim (Option-cases (parse_ip (trim x))) [
    | inl unread ↦
        parsed-miss x (xs ++ ys) unread
        ∙ (parsed-append xs ys
            ∙ ap (λ more. more ++ parsed parse_ip ys) (sym (parsed-miss x xs unread)))
    | inr (a, read) ↦
        parsed-hit x (xs ++ ys) a read
        ∙ (ap (λ more. a ∷ more) (parsed-append xs ys)
            ∙ ap (λ more. more ++ parsed parse_ip ys) (sym (parsed-hit x xs a read)))
  ]

  -- An entry that names a trusted proxy, or no address at all.
  abbrev pub Skipped : List TrustedNet → Text → Type 0
  Skipped nets e = (a : IpAddr) → parse_ip (trim e) ≡ some a → contains nets a ≡ true

  Skipped-parsed :
      (nets : List TrustedNet) (xs : List Text)
      → All (Skipped nets) xs
      → All (λ a. contains nets a ≡ true) (parsed parse_ip xs)
  unfolding parsed
  Skipped-parsed nets [] h = tt
  Skipped-parsed nets (x ∷ xs) h = elim (Option-cases (parse_ip (trim x))) [
    | inl unread ↦
        subst (All (λ a. contains nets a ≡ true)) (sym (parsed-miss x xs unread))
          (Skipped-parsed nets xs h.1)
    | inr (a, read) ↦
        subst (All (λ a. contains nets a ≡ true)) (sym (parsed-hit x xs a read))
          (h.0 a read, Skipped-parsed nets xs h.1)
  ]

  All-append :
      (P : Text → Type 0) (xs : List Text) (y : Text) → All P xs → P y → All P (xs ++ y ∷ [])
  All-append P [] y h k = (k, tt)
  All-append P (x ∷ xs) y h k = (h.0, All-append P xs y h.1 k)

  All-reversed : (P : Text → Type 0) (xs : List Text) → All P xs → All P (reversed xs)
  All-reversed P [] h = tt
  All-reversed P (x ∷ xs) h = All-append P (reversed xs) x (All-reversed P xs h.1) h.0

  -- When the peer is a trusted proxy, the address of a request is that of the header's rightmost
  -- entry that names an address outside the trusted blocks, whatever stands to the left of it. To
  -- its right are only entries that name trusted proxies or no address.
  pub address-rightmost :
      (nets : List TrustedNet) (peer a : IpAddr) (raw e : Text) (before after : List Text)
      → contains nets peer ≡ true
      → split b',' raw ≡ before ++ e ∷ after
      → parse_ip (trim e) ≡ some a
      → contains nets a ≡ false
      → All (Skipped nets) after
      → address parse_ip nets (some peer) (some raw) ≡ some a
  unfolding address forwarded
  address-rightmost nets peer a raw e before after trusted parts read untrusted skipped =
      let chain : parsed parse_ip (reversed (split b',' raw))
          ≡ parsed parse_ip (reversed after) ++ a ∷ parsed parse_ip (reversed before) =
        ap (λ es. parsed parse_ip (reversed es)) parts
        ∙ (ap (parsed parse_ip) (reversed-append before e after)
            ∙ (parsed-append (reversed after) (e ∷ reversed before)
                ∙ ap (λ more. parsed parse_ip (reversed after) ++ more)
                    (parsed-hit e (reversed before) a read))) in
      let scan =
        first_untrusted-append nets (parsed parse_ip (reversed after))
          (a ∷ parsed parse_ip (reversed before)) peer
          (Skipped-parsed nets (reversed after) (All-reversed (Skipped nets) after skipped)) in
      rw trusted (
        ap (λ x. some x)
          (ap (λ found. first_untrusted nets found peer) chain
            ∙ (scan
                ∙ first_untrusted-hit nets a (parsed parse_ip (reversed before)) peer untrusted)))
