-- ===== src/Net/Patterns.antt =====
-- The reading of `HostPattern`, `HostAllowlist`, `TrustedNet` and `TrustedProxies` of crates/core/src/net.rs. An error
-- stands by what was wrong, without the text that it quotes; the standard library's reading of an
-- address, of a `u16` and of a `u8` is a parameter.
use lazypock.Base.{
  ℕ, Bool, true, false, not, ◌&&◌, ◌||◌, List, [], ◌∷◌, Option, none, some, ltb, leb, ◌==◌,
  if◌then◌else◌, any, all, null, ◌≡◌, refl, arith, ◌≤◌, All, Bool-cases, inl, inr, Result, ok, err,
  guard, ◌>>=◌, ◌>>◌, Meets, returns, fails, Meets-if, Meets-bind, Meets-ok,
}
use lazypock.Base.Text.{Text, codes, text_eq, trim, split, byte_length, is_ascii_alphanumeric}
use lazypock.Net.Address.{IpAddr}
use lazypock.Net.Hosts.{HostPattern, bare, ends_with}
use lazypock.Net.Proxies.{TrustedNet, prefix_in_v6}

pub data NetError : Type 0 where
  empty_entry not_a_host is_an_address not_a_port port_of_zero not_a_hostname bad_label
        bad_character bad_hyphen not_an_address not_a_prefix long_prefix :
      NetError

abbrev pub starts : Text → Text → Bool
unfolding text_eq
starts [] s = true
starts (x ∷ prefix) [] = false
starts (x ∷ prefix) (c ∷ s) = c == x && starts prefix s

-- `str::contains`.
abbrev pub holds : Text → Text → Bool
unfolding starts
holds part [] = null part
holds part (c ∷ s) = starts part (c ∷ s) || holds part s

-- `str::split_once` and `str::rsplit_once`.
unfoldable pub split_first : ℕ → Text → Option (Text × Text)
split_first sep [] = none
split_first sep (c ∷ s) =
    let rest = split_first sep s in
    if c == sep
    then some ([], s)
    else elim rest [ none ↦ none | some (before, after) ↦ some (c ∷ before, after) ]

unfoldable pub split_last : ℕ → Text → Option (Text × Text)
split_last sep [] = none
split_last sep (c ∷ s) = elim (split_last sep s) [
  | some (before, after) ↦ some (c ∷ before, after)
  | none ↦ if c == sep then some ([], s) else none
]

-- `strip_prefix("*.")`, with whether there was one.
abbrev pub strip_wildcard : Text → Bool × Text
strip_wildcard (x ∷ y ∷ s) = if x == b'*' && y == b'.' then (true, s) else (false, x ∷ y ∷ s)
strip_wildcard s = (false, s)

abbrev pub is_label_character : ℕ → Bool
unfolding is_ascii_alphanumeric
is_label_character c = is_ascii_alphanumeric c || (c == b'-' || c == b'_')

abbrev pub check_label : Text → Result NetError (Unit {0})
unfolding is_label_character
check_label label = do
  guard (not (null label || ltb 63 (byte_length label))) NetError.bad_label
  guard (all is_label_character label) NetError.bad_character
  guard (not (starts (b'-' ∷ []) label || ends_with b'-' label)) NetError.bad_hyphen

unfoldable pub check_labels : List Text → Result NetError (Unit {0})
unfolding check_label
check_labels [] = ok tt
check_labels (label ∷ labels) = check_label label >> check_labels labels

abbrev pub is_hostname : Text → Bool
is_hostname host =
    not
      (null host || (starts (b'.' ∷ []) host || (ends_with b'.' host || any (λ c. c == b'*') host)))

module _ (parse_ip : Text → Option IpAddr) (parse_u16 : Text → Option ℕ) where
  abbrev is_ip : Text → Bool
  is_ip s = elim (parse_ip s) [ none ↦ false | some a ↦ true ]

  abbrev port_number : Text → Option ℕ → Result NetError (Text × ℕ)
  port_number host none = err NetError.not_a_port
  port_number host (some port) = do guard (not (port == 0)) NetError.port_of_zero; ok (host, port)

  -- The host and the port; 443 unless one is named.
  abbrev host_port : Text → Option (Text × Text) → Result NetError (Text × ℕ)
  unfolding trim
  host_port raw none = ok (raw, 443)
  host_port raw (some (host, port)) = port_number host (parse_u16 (trim port))

  -- `HostPattern::parse`.
  unfoldable pub parse_pattern : Text → Result NetError HostPattern
  unfolding bare holds split_last host_port check_labels trim split
  parse_pattern input = do
    let raw = bare (trim input)
    guard (not (null raw)) NetError.empty_entry
    guard (not (holds (codes "://") raw || (holds (codes "/") raw || holds (codes "@") raw)))
        NetError.not_a_host
    guard (not (is_ip raw || starts (codes "[") raw)) NetError.is_an_address
    parts ← host_port raw (split_last b':' raw)
    guard (not (is_ip parts.0)) NetError.is_an_address
    let (wildcard, host) = strip_wildcard parts.0
    guard (is_hostname host) NetError.not_a_hostname
    check_labels (split b'.' host)
    ok (record { host = host; subdomains = wildcard; port = parts.1 })

  abbrev parse_patterns : List Text → Result NetError (List HostPattern)
  unfolding parse_pattern trim
  parse_patterns [] = ok []
  parse_patterns (entry ∷ entries) =
      let more = parse_patterns entries in
      if null (trim entry)
      then more
      else (parse_pattern (trim entry) >>= λ p. more >>= λ ps. ok (p ∷ ps))

  -- `HostAllowlist::parse`.
  unfoldable pub parse_allowlist : Text → Result NetError (List HostPattern)
  unfolding parse_patterns split
  parse_allowlist raw = parse_patterns (split b',' raw)

abbrev pub width : IpAddr → ℕ
width (IpAddr.v4 n) = 32
width (IpAddr.v6 n) = 128

abbrev prefix_length : ℕ → Option (Option ℕ) → Result NetError ℕ
prefix_length bits none = ok bits
prefix_length bits (some none) = err NetError.not_a_prefix
prefix_length bits (some (some p)) = do guard (leb p bits) NetError.long_prefix; ok p

-- A prefix is no longer than 128 bits in the form that is compared.
abbrev pub Fits : TrustedNet → Type 0
Fits n = prefix_in_v6 n ≤ 128

module _ (parse_ip : Text → Option IpAddr) (parse_u8 : Text → Option ℕ) where
  abbrev read_net : Option IpAddr → Option (Option ℕ) → Result NetError TrustedNet
  read_net none prefix = err NetError.not_an_address
  read_net (some base) prefix = do
    p ← prefix_length (width base) prefix
    ok (record { base = base; prefix = p })

  abbrev read_parts : Text → Option (Text × Text) → Result NetError TrustedNet
  unfolding trim
  read_parts raw none = read_net (parse_ip (trim raw)) none
  read_parts raw (some (address, prefix)) =
      read_net (parse_ip (trim address)) (some (parse_u8 (trim prefix)))

  -- `TrustedNet::parse`.
  unfoldable pub parse_net : Text → Result NetError TrustedNet
  unfolding trim split_first read_parts
  parse_net input = do
    let raw = trim input
    guard (not (null raw)) NetError.empty_entry
    read_parts raw (split_first b'/' raw)

  abbrev parse_nets : List Text → Result NetError (List TrustedNet)
  unfolding parse_net trim
  parse_nets [] = ok []
  parse_nets (entry ∷ entries) =
      let more = parse_nets entries in
      if null (trim entry)
      then more
      else (parse_net (trim entry) >>= λ n. more >>= λ ns. ok (n ∷ ns))

  -- `TrustedProxies::parse`.
  unfoldable pub parse_proxies : Text → Result NetError (List TrustedNet)
  unfolding parse_nets split
  parse_proxies raw = parse_nets (split b',' raw)

  read_net-Fits :
      (base : Option IpAddr) (prefix : Option (Option ℕ)) (n : TrustedNet)
      → read_net base prefix ≡ ok n
      → Fits n
  unfolding prefix_in_v6
  read_net-Fits base prefix n h = ground arith

  read_parts-Fits :
      (raw : Text) (parts : Option (Text × Text)) (n : TrustedNet)
      → read_parts raw parts ≡ ok n
      → Fits n
  unfolding read_parts
  read_parts-Fits raw none n h = read_net-Fits (parse_ip (trim raw)) none n h
  read_parts-Fits raw (some (address, prefix)) n h =
      read_net-Fits (parse_ip (trim address)) (some (parse_u8 (trim prefix))) n h

  parse_net-Fits : (raw : Text) (n : TrustedNet) → parse_net raw ≡ ok n → Fits n
  unfolding parse_net
  parse_net-Fits raw n h = elim (Bool-cases (null (trim raw))) [
    | inl empty ↦ let refused : err NetError.empty_entry ≡ ok n = rw (parse_net, empty) at h in cc
    | inr full ↦
        read_parts-Fits (trim raw) (split_first b'/' (trim raw)) n (rw (parse_net, full) at h)
  ]

  Meets-of :
      {A : Type 0} {P : A → Type 0} (r : Result NetError A)
      → ((a : A) → r ≡ ok a → P a)
      → Meets (λ e. Unit {0}) P r
  Meets-of (ok a) h = returns (h a refl)
  Meets-of (err e) h = fails tt

  parse_nets-Fits : (entries : List Text) → Meets (λ e. Unit {0}) (All Fits) (parse_nets entries)
  unfolding parse_nets
  parse_nets-Fits [] = returns tt
  parse_nets-Fits (entry ∷ entries) =
      Meets-if (null (trim entry)) (λ blank. parse_nets-Fits entries)
        (λ there.
          Meets-bind (Meets-of (parse_net (trim entry)) (parse_net-Fits (trim entry)))
            (λ n fits. Meets-bind (parse_nets-Fits entries) (λ ns more. returns (fits, more))))

  -- Every block that the list of trusted proxies is read as has a prefix of at most 128 bits in
  -- the form that is compared.
  parse_proxies-Fits :
      (raw : Text) (nets : List TrustedNet) → parse_proxies raw ≡ ok nets → All Fits nets
  unfolding parse_proxies
  parse_proxies-Fits raw nets h = Meets-ok (parse_nets-Fits (split b',' raw)) h
