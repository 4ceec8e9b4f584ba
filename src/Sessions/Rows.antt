-- ===== src/Sessions/Rows.antt =====
-- The statements on the rows: what a lookup by token hash finds after them.
use lazypock.Base.{
  ℕ, Bool, true, false, [], ◌∷◌, Option, none, some, if◌then◌else◌, ◌≡◌, refl, ap, subst, ok,
  retain, All, Bool-cases, inl, inr,
}
use lazypock.Base.Text.{Text, text_eq, text_eq_iff}
use lazypock.Sessions.{Row, Table, update_where, query_opt, claim, claimable, has_hash, revoke_at}

-- The row of a token hash.
unfoldable pub find : Text → Table → Option Row
unfolding text_eq
find hash [] = none
find hash (r ∷ rs) = let deeper = find hash rs in if has_hash hash r then some r else deeper

-- No row has the hash.
abbrev pub Missing : Text → Table → Type 0
Missing hash = All (λ r. has_hash hash r ≡ false)

-- The table's unique index on the token hash.
abbrev pub Unique : Table → Type 0
Unique [] = Unit
Unique (r ∷ rs) = Missing r.token_hash rs × Unique rs

-- What an update does to one row.
abbrev pub changed_row : (Row → Bool) → (Row → Row) → Row → Row
changed_row p f r = if p r then f r else r

abbrev pub map_option : (Row → Row) → Option Row → Option Row
map_option f none = none
map_option f (some r) = some (f r)

pub update_where-misses :
    (p : Row → Bool) (f : Row → Row) (t : Table)
    → All (λ r. p r ≡ false) t
    → update_where p f t ≡ (t, [])
unfolding update_where
update_where-misses p f [] h = refl
update_where-misses p f (r ∷ rs) h = rw (h.0, update_where-misses p f rs h.1)

module _ (p : Row → Bool) (now : ℕ) where
  pub Missing-update :
      (hash : Text) (t : Table) → Missing hash t → Missing hash (update_where p (revoke_at now) t).0
  unfolding update_where
  Missing-update hash [] h = tt
  Missing-update hash (r ∷ rs) h = elim (Bool-cases (p r)) [
    | inl hit ↦ rw hit (h.0, Missing-update hash rs h.1)
    | inr miss ↦ rw miss (h.0, Missing-update hash rs h.1)
  ]

  pub Unique-update : (t : Table) → Unique t → Unique (update_where p (revoke_at now) t).0
  unfolding update_where
  Unique-update [] h = tt
  Unique-update (r ∷ rs) h = elim (Bool-cases (p r)) [
    | inl hit ↦ rw hit (Missing-update r.token_hash rs h.0, Unique-update rs h.1)
    | inr miss ↦ rw miss (Missing-update r.token_hash rs h.0, Unique-update rs h.1)
  ]

  -- A revocation keeps the hashes, so each is found where it was.
  pub find-update :
      (hash : Text) (t : Table)
      → find hash (update_where p (revoke_at now) t).0
        ≡ map_option (changed_row p (revoke_at now)) (find hash t)
  unfolding find update_where
  find-update hash [] = refl
  find-update hash (r ∷ rs) = elim (Bool-cases (p r)) [
    | inl hit ↦ elim (Bool-cases (has_hash hash r)) [
      | inl here ↦ rw (hit, here) (rw hit refl)
      | inr there ↦ rw (hit, there) (find-update hash rs)
    ]
    | inr miss ↦ elim (Bool-cases (has_hash hash r)) [
      | inl here ↦ rw (miss, here) (rw miss refl)
      | inr there ↦ rw (miss, there) (find-update hash rs)
    ]
  ]

retain-Missing : (hash : Text) (t : Table) → Missing hash t → retain (has_hash hash) t ≡ []
retain-Missing hash [] h = refl
retain-Missing hash (r ∷ rs) h = rw (h.0, retain-Missing hash rs h.1)

pub find-Missing : (hash : Text) (t : Table) → Missing hash t → find hash t ≡ none
unfolding find
find-Missing hash [] h = refl
find-Missing hash (r ∷ rs) h = rw (h.0, find-Missing hash rs h.1)

pub Missing-hash :
    (hash : Text) (r : Row) (rs : Table)
    → has_hash hash r ≡ true
    → Missing r.token_hash rs
    → Missing hash rs
Missing-hash hash r rs e h = subst (λ x. Missing x rs) ((text_eq_iff r.token_hash hash).0 e) h

-- The unique index: a query by hash finds at most one row.
pub query_opt-find :
    (hash : Text) (t : Table) → Unique t → query_opt (retain (has_hash hash) t) ≡ ok (find hash t)
unfolding find
query_opt-find hash [] h = refl
query_opt-find hash (r ∷ rs) h = elim (Bool-cases (has_hash hash r)) [
  | inl here ↦ rw (here, retain-Missing hash rs (Missing-hash hash r rs here h.0))
  | inr there ↦ rw there (query_opt-find hash rs h.1)
]

-- The row that a claim hands out.
abbrev pub claimed : Text → ℕ → Option Row → Option Row
claimed hash now none = none
claimed hash now (some r) = if claimable hash now r then some (revoke_at now r) else none

pub Missing-claimable :
    (hash : Text) (now : ℕ) (t : Table) → Missing hash t → All (λ r. claimable hash now r ≡ false) t
Missing-claimable hash now [] h = tt
Missing-claimable hash now (r ∷ rs) h = (rw h.0 refl, Missing-claimable hash now rs h.1)

pub query_opt-claim :
    (hash : Text) (now : ℕ) (t : Table)
    → Unique t
    → query_opt (claim t hash now).1 ≡ ok (claimed hash now (find hash t))
unfolding find claim
query_opt-claim hash now [] h = refl
query_opt-claim hash now (r ∷ rs) h = elim (Bool-cases (has_hash hash r)) [
  | inl here ↦
      let rest =
        update_where-misses (claimable hash now) (revoke_at now) rs
          (Missing-claimable hash now rs (Missing-hash hash r rs here h.0)) in
      elim (Bool-cases (claimable hash now r)) [
        | inl live ↦ rw (rest, live, here) (rw live refl)
        | inr dead ↦ rw (rest, dead, here) (rw dead refl)
      ]
  | inr there ↦ rw there (query_opt-claim hash now rs h.1)
]

-- A claim that hands out nothing changes nothing.
pub claim-none :
    (hash : Text) (now : ℕ) (t : Table)
    → Unique t
    → claimed hash now (find hash t) ≡ none
    → (claim t hash now).0 ≡ t
unfolding find claim
claim-none hash now [] h k = refl
claim-none hash now (r ∷ rs) h k = elim (Bool-cases (has_hash hash r)) [
  | inl here ↦
      let rest =
        update_where-misses (claimable hash now) (revoke_at now) rs
          (Missing-claimable hash now rs (Missing-hash hash r rs here h.0)) in
      let found : claimed hash now (some r) ≡ none = rw here at k in
      elim (Bool-cases (claimable hash now r)) [
        | inl live ↦ let gone : some (revoke_at now r) ≡ none = rw live at found in cc
        | inr dead ↦ rw (rest, dead)
      ]
  | inr there ↦ rw there (ap (λ t. r ∷ t) (claim-none hash now rs h.1 (rw there at k)))
]
