-- ===== src/Sessions/Races.antt =====
-- Two rotations, or a rotation and a revocation, whose statements interleave.
use lazypock.Base.{
  ℕ, Bool, true, false, not, ◌&&◌, &&-false, ◌||◌, List, [], ◌∷◌, ◌++◌, Option, none, some, ltb,
  ◌≡◌, refl, subst, arith, ok, err, any, retain, All, Bool-cases, inl, inr,
}
use lazypock.Base.Text.{Text, text_eq, text_eq_refl}
use lazypock.Sessions.{
  Row, Table, Error, Draw, update_where, claim, claimable, has_hash, revoke_at, is_set,
  not_distinct, insert_session, inserted, issue_token, revoke_family, revoke_for_user, of_user,
  in_family, purge_expired, hash_token, new_row, issue_in_family, unwrap, nullif,
}
use lazypock.Sessions.Rows.{
  find, Missing, Missing-hash, Missing-claimable, Unique, claimed, update_where-misses,
}
use lazypock.Sessions.Verdict.{live, retain-revoked}

-- Every row of the hash is revoked.
abbrev pub Dead : Text → Table → Type 0
Dead hash = All (λ r. (has_hash hash r && not (is_set r.revoked_at)) ≡ false)

Dead-update :
    (hash : Text) (p : Row → Bool) (now : ℕ) (t : Table)
    → Dead hash t
    → Dead hash (update_where p (revoke_at now) t).0
unfolding update_where
Dead-update hash p now [] h = tt
Dead-update hash p now (r ∷ rs) h = elim (Bool-cases (p r)) [
  | inl hit ↦ rw hit (&&-false (has_hash hash r), Dead-update hash p now rs h.1)
  | inr miss ↦ rw miss (h.0, Dead-update hash p now rs h.1)
]

Dead-retain : (hash : Text) (p : Row → Bool) (t : Table) → Dead hash t → Dead hash (retain p t)
Dead-retain hash p [] h = tt
Dead-retain hash p (r ∷ rs) h = elim (Bool-cases (p r)) [
  | inl hit ↦ rw hit (h.0, Dead-retain hash p rs h.1)
  | inr miss ↦ rw miss (Dead-retain hash p rs h.1)
]

Dead-append :
    (hash : Text) (t : Table) (new : Row)
    → has_hash hash new ≡ false
    → Dead hash t
    → Dead hash (t ++ new ∷ [])
Dead-append hash [] new k h = (rw k refl, tt)
Dead-append hash (r ∷ rs) new k h = (h.0, Dead-append hash rs new k h.1)

Dead-claimable :
    (hash : Text) (now : ℕ) (t : Table) → Dead hash t → All (λ r. claimable hash now r ≡ false) t
Dead-claimable hash now [] h = tt
Dead-claimable hash now (r ∷ rs) h = (
  stays (has_hash hash r) (not (is_set r.revoked_at)) (ltb now r.expires_at) h.0,
  Dead-claimable hash now rs h.1,
)
  where
    stays : (a b c : Bool) → (a && b) ≡ false → (a && (b && c)) ≡ false
    stays a b c k = ground arith

Dead-Missing : (hash : Text) (t : Table) → Missing hash t → Dead hash t
Dead-Missing hash [] h = tt
Dead-Missing hash (r ∷ rs) h = (rw h.0 refl, Dead-Missing hash rs h.1)

-- The one row that a claim hands out was the last of its hash.
claim-Dead :
    (hash : Text) (now : ℕ) (t : Table) (r : Row)
    → Unique t
    → claimed hash now (find hash t) ≡ some r
    → Dead hash (claim t hash now).0
unfolding find claim
claim-Dead hash now [] r h k = cc
claim-Dead hash now (s ∷ rs) r h k = elim (Bool-cases (has_hash hash s)) [
  | inl here ↦
      let rest =
        update_where-misses (claimable hash now) (revoke_at now) rs
          (Missing-claimable hash now rs (Missing-hash hash s rs here h.0)) in
      let won : claimed hash now (some s) ≡ some r = rw here at k in
      elim (Bool-cases (claimable hash now s)) [
        | inl live ↦
            rw (live, rest)
              (&&-false (has_hash hash s), Dead-Missing hash rs (Missing-hash hash s rs here h.0))
        | inr dead ↦ let none_won : none ≡ some r = rw dead at won in cc
      ]
  | inr there ↦ rw there (rw there refl, claim-Dead hash now rs r h.1 (rw there at k))
]

-- One statement of any request, an insert being of another token.
pub data Step (hash : Text) (t : Table) : Table → Type 0 where
  claims : (other : Text) (now : ℕ) → Step hash t (claim t other now).0
  revokes_family : (family : Text) (now : ℕ) → Step hash t (revoke_family t family now).0
  revokes_user :
      (collection user : Text) (now : ℕ) → Step hash t (revoke_for_user t collection user now).0
  purges : (now : ℕ) → Step hash t (purge_expired t now).0
  inserts :
      (new : Row) {after : Table}
      → has_hash hash new ≡ false
      → insert_session t new ≡ ok after
      → Step hash t after

pub data Run (hash : Text) : Table → Table → Type 0 where
  stop : {t : Table} → Run hash t t
  next : {t u v : Table} → Step hash t u → Run hash u v → Run hash t v

Step-Dead : {hash : Text} {t u : Table} → Step hash t u → Dead hash t → Dead hash u
unfolding claim revoke_family revoke_for_user purge_expired insert_session
Step-Dead {hash} {t} (Step.claims other now) d = Dead-update hash (claimable other now) now t d
Step-Dead {hash} {t} (Step.revokes_family family now) d =
    Dead-update hash (in_family family) now t d
Step-Dead {hash} {t} (Step.revokes_user collection user now) d =
    Dead-update hash (of_user collection user) now t d
Step-Dead {hash} {t} (Step.purges now) d = Dead-retain hash (λ r. not (ltb r.expires_at now)) t d
Step-Dead {hash} {t} {u} (Step.inserts new k e) d =
    let taken = any (λ r. text_eq r.id new.id || text_eq r.token_hash new.token_hash) t in
    elim (Bool-cases taken) [
      | inl conflict ↦ let refused : err Error.database ≡ ok u = rw conflict at e in cc
      | inr free ↦
          let done : ok (t ++ new ∷ []) ≡ ok u = rw free at e in
          let same : t ++ new ∷ [] ≡ u = cc in
          subst (λ x. Dead hash x) same (Dead-append hash t new k d)
    ]

Run-Dead : {hash : Text} {t u : Table} → Run hash t u → Dead hash t → Dead hash u
Run-Dead Run.stop d = d
Run-Dead (Run.next step more) d = Run-Dead more (Step-Dead step d)

-- After one claim of a token has succeeded, no later claim of it hands out a row, whatever
-- statements of other requests run in between, if no other token of the same hash is inserted.
pub claim-once :
    (hash : Text) (now later : ℕ) (t u : Table) (r : Row)
    → Unique t
    → claimed hash now (find hash t) ≡ some r
    → Run hash (claim t hash now).0 u
    → claim u hash later ≡ (u, [])
unfolding claim
claim-once hash now later t u r unique won run =
    update_where-misses (claimable hash later) (revoke_at later) u
      (Dead-claimable hash later u (Run-Dead run (claim-Dead hash now t r unique won)))

not_distinct_refl : (o : Option Text) → not_distinct o o ≡ true
not_distinct_refl none = refl
not_distinct_refl (some s) = text_eq_refl s

retain-append :
    (p : Row → Bool) (t : Table) (new : Row)
    → retain p t ≡ []
    → p new ≡ true
    → retain p (t ++ new ∷ []) ≡ new ∷ []
retain-append p [] new h k = rw k refl
retain-append p (r ∷ rs) new h k = elim (Bool-cases (p r)) [
  | inl hit ↦ let full : r ∷ retain p rs ≡ [] = rw hit at h in cc
  | inr miss ↦ rw miss (retain-append p rs new (rw miss at h) k)
]

pub revoke_for_user-none :
    (t : Table) (collection user : Text) (now : ℕ)
    → retain (of_user collection user) (revoke_for_user t collection user now).0 ≡ []
unfolding revoke_for_user
revoke_for_user-none t collection user now = retain-revoked (of_user collection user) now t (λ r.
    rw (&&-false (not_distinct r.collection_id (nullif collection)))
      (&&-false (text_eq r.user_id user)))

module _ (sha256 : Text → List ℕ) where
  -- When the second statement of a rotation runs after all the user's sessions were revoked, and
  -- meets no conflict, the user is left with exactly one session that is not revoked, the new
  -- one.
  pub issue_in_family-revoke_for_user :
      (t : Table) (now later : ℕ) (collection user family : Text) (user_agent ip : Option Text)
      (draw : Draw) (token : Text)
      → draw.token ≡ some token
      → any
          (λ r. text_eq r.id draw.id || text_eq r.token_hash (hash_token sha256 token))
          (revoke_for_user t collection user now).0
        ≡ false
      → retain
          (of_user collection user)
          (issue_in_family sha256
            (revoke_for_user t collection user now).0
            later
            collection
            user
            family
            user_agent
            ip
            draw).0
        ≡ new_row sha256 collection user family (unwrap user_agent) (unwrap ip) later token draw.id
          ∷ []
  unfolding issue_in_family insert_session inserted new_row issue_token
  issue_in_family-revoke_for_user t now later collection user family user_agent ip draw token drawn
        free =
      let left : Table = (revoke_for_user t collection user now).0 in
      let new =
        new_row sha256 collection user family (unwrap user_agent) (unwrap ip) later token draw.id in
      rw (drawn, free)
        (retain-append (of_user collection user) left new
          (revoke_for_user-none t collection user now)
          (rw (text_eq_refl user, not_distinct_refl (nullif collection))))
