-- ===== src/Sessions/Verdict.antt =====
-- The answer of a rotation, on every branch, in the statements that it runs.
use lazypock.Base.{
  ℕ, Bool, true, false, &&-false, List, [], ◌∷◌, Option, none, some, ltb, if◌then◌else◌, ◌≡◌, refl,
  ap, ◌∙◌, Result, ok, err, retain, Bool-cases, inl, inr,
}
use lazypock.Base.Text.{Text, text_eq, codes}
use lazypock.Sessions.{
  update_where, in_family, Row, Table, Session, Error, Draw, claim, revoke_family, revoke_at,
  is_set, unwrap, has_hash, hash_token, issue_in_family, rotate, after_claim, refuse, from_row,
}
use lazypock.Sessions.Rows.{find, Unique, claimed, query_opt-find, query_opt-claim, claim-none}

-- The rows of a family that are not revoked.
abbrev pub live : Text → Table → List Row
live family t = retain (in_family family) t

-- The rows that a revocation is about are none after it.
pub retain-revoked :
    (p : Row → Bool) (now : ℕ) (t : Table)
    → ((r : Row) → p (revoke_at now r) ≡ false)
    → retain p (update_where p (revoke_at now) t).0 ≡ []
unfolding update_where
retain-revoked p now [] h = refl
retain-revoked p now (r ∷ rs) h = elim (Bool-cases (p r)) [
  | inl hit ↦ rw (hit, h r) (retain-revoked p now rs h)
  | inr miss ↦ rw miss (rw miss (retain-revoked p now rs h))
]

pub live-revoke_family :
    (t : Table) (family : Text) (now : ℕ) → live family (revoke_family t family now).0 ≡ []
unfolding revoke_family
live-revoke_family t family now =
    retain-revoked (in_family family) now t (λ r. &&-false (text_eq r.family_id family))

module _ (sha256 : Text → List ℕ) where
  -- The statements that follow on the row of the token, if there is one.
  abbrev pub answer :
      Table
      → ℕ
      → Text
      → Option Text
      → Option Text
      → Draw
      → Option Row
      → Table × Result Error (Text × Session)
  answer t now token user_agent ip draw none =
      (t, err (Error.unauthorized (codes "the refresh token is not recognised")))
  answer t now token user_agent ip draw (some r) =
      if is_set r.revoked_at
      then (
        (revoke_family t r.family_id now).0,
        err (Error.unauthorized (codes "this refresh token has already been used")),
      )
      else if ltb now r.expires_at
      then issue_in_family sha256 (claim t (hash_token sha256 token) now).0 now
          (unwrap r.collection_id) r.user_id r.family_id user_agent ip draw
      else (t, err (Error.unauthorized (codes "the refresh token has expired")))

  find-hash : (hash : Text) (t : Table) (r : Row) → find hash t ≡ some r → has_hash hash r ≡ true
  unfolding find
  find-hash hash [] r h = cc
  find-hash hash (s ∷ t) r h = elim (Bool-cases (has_hash hash s)) [
    | inl here ↦ let same : some s ≡ some r = rw here at h in let eq : s ≡ r = cc in rw (← eq) here
    | inr there ↦ find-hash hash t r (rw there at h)
  ]

  after_claim-answer :
      (t : Table) (now : ℕ) (token : Text) (user_agent ip : Option Text) (draw : Draw)
      (o : Option Row)
      → find (hash_token sha256 token) t ≡ o
      → Unique t
      → after_claim sha256
          (claim t (hash_token sha256 token) now).0
          now
          (hash_token sha256 token)
          user_agent
          ip
          draw
          (ok (claimed (hash_token sha256 token) now o))
        ≡ answer t now token user_agent ip draw o
  unfolding from_row after_claim refuse
  after_claim-answer t now token user_agent ip draw none h u =
      let same = claim-none (hash_token sha256 token) now t u (rw h refl) in
      rw (same, query_opt-find (hash_token sha256 token) t u, h) refl
  after_claim-answer t now token user_agent ip draw (some r) h u =
      let here = find-hash (hash_token sha256 token) t r h in
      elim (Bool-cases (is_set r.revoked_at)) [
        | inl used ↦
            let dead : claimed (hash_token sha256 token) now (some r) ≡ none =
              rw (here, used) refl in
            let same =
              claim-none (hash_token sha256 token) now t u
                (ap (claimed (hash_token sha256 token) now) h ∙ dead) in
            rw (dead, same, query_opt-find (hash_token sha256 token) t u, h, used) refl
        | inr unused ↦ elim (Bool-cases (ltb now r.expires_at)) [
          | inl live ↦
              let won : claimed (hash_token sha256 token) now (some r) ≡ some (revoke_at now r) =
                rw (here, unused, live) refl in
              rw (won, unused, live) refl
          | inr late ↦
              let dead : claimed (hash_token sha256 token) now (some r) ≡ none =
                rw (here, unused, late) refl in
              let same =
                claim-none (hash_token sha256 token) now t u
                  (ap (claimed (hash_token sha256 token) now) h ∙ dead) in
              rw (dead, same, query_opt-find (hash_token sha256 token) t u, h, unused, late) refl
        ]
      ]

  pub rotate-answer :
      (t : Table) (now : ℕ) (token : Text) (user_agent ip : Option Text) (draw : Draw)
      → Unique t
      → rotate sha256 t now token user_agent ip draw
        ≡ answer t now token user_agent ip draw (find (hash_token sha256 token) t)
  unfolding rotate
  rotate-answer t now token user_agent ip draw u =
      rw (query_opt-claim (hash_token sha256 token) now t u) (
        after_claim-answer t now token user_agent ip draw (find (hash_token sha256 token) t) refl u)

  -- When a token that was already retired is presented, the rotation is refused and no session of
  -- its family is left unrevoked.
  pub rotate-replay :
      (t : Table) (now : ℕ) (token : Text) (user_agent ip : Option Text) (draw : Draw) (r : Row)
      → Unique t
      → find (hash_token sha256 token) t ≡ some r
      → is_set r.revoked_at ≡ true
      → (live r.family_id (rotate sha256 t now token user_agent ip draw).0 ≡ [])
        × ((rotate sha256 t now token user_agent ip draw).1
            ≡ err (Error.unauthorized (codes "this refresh token has already been used")))
  rotate-replay t now token user_agent ip draw r u found used =
      let ran : rotate sha256 t now token user_agent ip draw ≡ (
        (revoke_family t r.family_id now).0,
        err (Error.unauthorized (codes "this refresh token has already been used")),
      ) =
        rotate-answer t now token user_agent ip draw u ∙ rw (found, used) refl in
      rw ran (live-revoke_family t r.family_id now, refl)
