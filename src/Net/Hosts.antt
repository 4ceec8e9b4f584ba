-- ===== src/Net/Hosts.antt =====
-- The hosts that a hook may reach: `HostPattern` and `HostAllowlist` of crates/core/src/net.rs. An error stands by what
-- was wrong, without the text that it quotes; the standard library's reading of addresses and of 16-bit numbers is a parameter.
use lazypock.Base.{
  ℕ, ◌+◌, ◌≤◌, Bool, true, false, not, ◌&&◌, List, [], ◌∷◌, ◌++◌, Option, none, some, ltb, leb,
  ◌==◌, if◌then◌else◌, any, null, length, length-append, subst, &&-true, ltb→lt, lt→ltb, ==_iff,
  ◌⊎◌, ◌≡◌, refl, ap, arith, ◌↔◌, Bool-cases, Option-cases, inl, inr,
}
use lazypock.Base.Text.{Text, text_eq, text_eq_iff, text_eq_refl}

pub record HostPattern : Type 0 where
  pub host : Text
  pub subdomains : Bool
  pub port : ℕ

abbrev pub ends_with : ℕ → Text → Bool
ends_with c [] = false
ends_with c (x ∷ []) = x == c
ends_with c (x ∷ y ∷ s) = ends_with c (y ∷ s)

-- `trim_end_matches` of one character.
unfoldable pub trim_end_char : ℕ → Text → Text
trim_end_char c [] = []
trim_end_char c (x ∷ s) =
    let rest = trim_end_char c s in if x == c && null rest then [] else x ∷ rest

abbrev lower : ℕ → ℕ
lower c = if leb b'A' c && leb c b'Z' then c + 32 else c

-- `to_ascii_lowercase`.
abbrev pub to_lower : Text → Text
to_lower [] = []
to_lower (c ∷ s) = lower c ∷ to_lower s

-- `str::strip_suffix`.
unfoldable pub strip_suffix : Text → Text → Option Text
unfolding text_eq
strip_suffix suffix [] = if null suffix then some [] else none
strip_suffix suffix (c ∷ s) =
    let rest = strip_suffix suffix s in
    if text_eq (c ∷ s) suffix then some [] else elim rest [ none ↦ none | some p ↦ some (c ∷ p) ]

-- What the wildcard asks of the text before the host.
abbrev is_label_prefix : Option Text → Bool
is_label_prefix none = false
is_label_prefix (some p) = ends_with b'.' p && ltb 1 (length p)

unfoldable pub matches : HostPattern → Text → ℕ → Bool
unfolding strip_suffix text_eq
matches pattern host port =
    if not (pattern.port == port)
    then false
    else if not pattern.subdomains
    then text_eq pattern.host host
    else is_label_prefix (strip_suffix pattern.host host)

unfoldable pub allows : List HostPattern → Text → ℕ → Bool
unfolding matches trim_end_char
allows patterns host port =
    let name = to_lower (trim_end_char b'.' host) in
    if null name then false else any (λ p. matches p name port) patterns

-- A host is allowed by a pattern of its port that names it, or that is a wildcard whose host it ends with, after
-- a text of two characters or more that ends in a point.
abbrev pub Named : HostPattern → Text → ℕ → Type 0
Named p host port =
    (p.port ≡ port)
    × (if p.subdomains
        then ((label : Text) × ((host ≡ label ++ p.host)
              × (ends_with b'.' label ≡ true)
              × (2 ≤ length label)))
        else p.host ≡ host)

-- A suffix that is stripped is one, and every suffix is stripped.
strip_suffix→eq : (suffix s p : Text) → strip_suffix suffix s ≡ some p → s ≡ p ++ suffix
unfolding strip_suffix
strip_suffix→eq [] [] p h = let empty : [] ≡ p = cc in subst (λ q. [] ≡ q ++ []) empty refl
strip_suffix→eq (x ∷ suffix) [] p h = cc
strip_suffix→eq suffix (c ∷ s) p h = elim (Bool-cases (text_eq (c ∷ s) suffix)) [
  | inl same ↦
      let whole : some [] ≡ some p = rw same at h in
      let empty : [] ≡ p = cc in
      subst (λ q. c ∷ s ≡ q ++ suffix) empty ((text_eq_iff (c ∷ s) suffix).0 same)
  | inr longer ↦ elim (Option-cases (strip_suffix suffix s)) [
    | inl no_suffix ↦ let failed : none ≡ some p = rw (longer, no_suffix) at h in cc
    | inr (q, found) ↦
        let head : some (c ∷ q) ≡ some p = rw (longer, found) at h in
        let eq : c ∷ q ≡ p = cc in
        subst (λ q. c ∷ s ≡ q ++ suffix) eq (ap (λ t. c ∷ t) (strip_suffix→eq suffix s q found))
  ]
]

longer_ne : (x : ℕ) (q suffix : Text) → text_eq (x ∷ q ++ suffix) suffix ≡ false
longer_ne x q suffix = elim (Bool-cases (text_eq (x ∷ q ++ suffix) suffix)) [
  | inl same ↦
      let eq = ap length ((text_eq_iff (x ∷ q ++ suffix) suffix).0 same) in
      absurd (omega (arith, eq, length-append q suffix))
  | inr apart ↦ apart
]

strip_suffix-append : (suffix p : Text) → strip_suffix suffix (p ++ suffix) ≡ some p
unfolding strip_suffix
strip_suffix-append [] [] = refl
strip_suffix-append (x ∷ suffix) [] = rw (text_eq_refl (x ∷ suffix)) refl
strip_suffix-append suffix (c ∷ p) = rw (longer_ne c p suffix, strip_suffix-append suffix p) refl

-- The wildcard's test.
is_label_prefix_iff :
    (suffix host : Text)
    → (is_label_prefix (strip_suffix suffix host) ≡ true) ↔ (
        (label : Text) × ((host ≡ label ++ suffix)
          × (ends_with b'.' label ≡ true)
          × (2 ≤ length label)))
is_label_prefix_iff suffix host = (forth, back)
  where
    forth :
        is_label_prefix (strip_suffix suffix host) ≡ true
        → ((label : Text) × ((host ≡ label ++ suffix)
              × (ends_with b'.' label ≡ true)
              × (2 ≤ length label)))
    forth h = elim (Option-cases (strip_suffix suffix host)) [
      | inl no_suffix ↦ let failed : false ≡ true = rw no_suffix at h in cc
      | inr (label, found) ↦
          let tests : (ends_with b'.' label && ltb 1 (length label)) ≡ true = rw found at h in
          let both = &&-true (ends_with b'.' label) (ltb 1 (length label)) tests in
          (label, (strip_suffix→eq suffix host label found, both.0, ltb→lt 1 (length label) both.1))
    ]

    back :
        ((label : Text) × ((host ≡ label ++ suffix)
            × (ends_with b'.' label ≡ true)
            × (2 ≤ length label)))
        → is_label_prefix (strip_suffix suffix host) ≡ true
    back (label, n) =
        rw (n.0, strip_suffix-append suffix label, n.1, lt→ltb 1 (length label) n.2) refl

matches_iff :
    (p : HostPattern) (host : Text) (port : ℕ) → (matches p host port ≡ true) ↔ Named p host port
unfolding matches
matches_iff p host port = elim (Bool-cases (p.port == port)) [
  | inl same ↦ elim (Bool-cases p.subdomains) [
    | inl wild ↦
        let test = is_label_prefix_iff p.host host in
        rw (same, wild) (λ h. ((==_iff p.port port).0 same, test.0 h), λ n. test.1 n.1)
    | inr exact ↦
        let test = text_eq_iff p.host host in
        rw (same, exact) (λ h. ((==_iff p.port port).0 same, test.0 h), λ n. test.1 n.1)
  ]
  | inr apart ↦
      let never : p.port ≡ port → false ≡ true = λ e. rw apart at ((==_iff p.port port).1 e) in
      rw apart (λ h. cc, λ n. never n.0)
]

-- Some pattern names the host.
abbrev pub SomeNamed : List HostPattern → Text → ℕ → Type 0
SomeNamed [] host port = ⊥
SomeNamed (p ∷ ps) host port = Named p host port ⊎ SomeNamed ps host port

-- A host without the points at its end, in lower case.
unfoldable pub bare : Text → Text
unfolding trim_end_char
bare host = to_lower (trim_end_char b'.' host)

-- A host is allowed on a port exactly when, in lower case and without the points at its end, it
-- is not empty and a pattern of that port names it: it is the pattern's host, or the pattern is a
-- wildcard and it ends in the pattern's host after a text of two characters or more that ends in
-- a point.
pub allows_iff :
    (patterns : List HostPattern) (host : Text) (port : ℕ)
    → (allows patterns host port ≡ true)
      ↔ ((null (bare host) ≡ false) × SomeNamed patterns (bare host) port)
unfolding allows bare
allows_iff patterns host port = elim (Bool-cases (null (to_lower (trim_end_char b'.' host)))) [
  | inl nameless ↦ rw nameless (λ h. cc, λ n. cc)
  | inr named ↦ rw named (
    λ h. (refl, (some_iff patterns (to_lower (trim_end_char b'.' host))).0 h),
    λ n. (some_iff patterns (to_lower (trim_end_char b'.' host))).1 n.1,
  )
]
  where
    some_iff :
        (ps : List HostPattern) (name : Text)
        → (any (λ p. matches p name port) ps ≡ true) ↔ SomeNamed ps name port
    some_iff [] name = (λ h. cc, λ n. absurd n)
    some_iff (p ∷ ps) name =
        let first = matches_iff p name port in
        elim (Bool-cases (matches p name port)) [
          | inl hit ↦ rw hit (λ h. inl (first.0 hit), λ n. refl)
          | inr miss ↦
              let never : Named p name port → false ≡ true = λ n. rw miss at (first.1 n) in
              rw miss (
                λ h. inr ((some_iff ps name).0 h),
                λ n. elim n [
                  | inl named ↦ (let no = never named in cc)
                  | inr others ↦ (some_iff ps name).1 others
                ],
              )
        ]
