-- ===== src/Sessions/Rotation.antt =====
-- A rotation as it is described: what it does to the rows, and what it answers.
use lazypock.Base.{
  ℕ, ◌+◌, Bool, true, false, not, ◌&&◌, ◌||◌, List, [], ◌∷◌, ◌++◌, map, Option, none, some, ltb,
  if◌then◌else◌, any, ◌≡◌, refl, ap, ◌∙◌, Result, ok, err, Bool-cases, inl, inr,
}
use lazypock.Base.Text.{Text, text_eq, codes}
use lazypock.Sessions.{
  Row, Table, Session, Error, Draw, claim, claimable, has_hash, hash_token, insert_session,
  issue_in_family, from_row, is_set, nullif, refresh_token_ttl, revoke_at, revoke_family, in_family,
  rotate, unwrap, update_where,
}
use lazypock.Sessions.Rows.{
  Missing, Missing-claimable, Missing-hash, Unique, changed_row, find, update_where-misses,
}
use lazypock.Sessions.Verdict.{answer, rotate-answer}

-- The row of a token, once it is retired.
abbrev pub retired : Text → ℕ → Row → Row
retired hash now r = if text_eq r.token_hash hash then record r { revoked_at = some now } else r

-- A row, once the family has ended.
abbrev pub ended : Text → ℕ → Row → Row
ended family now r =
    if text_eq r.family_id family && not (is_set r.revoked_at)
    then record r { revoked_at = some now }
    else r

module _ (sha256 : Text → List ℕ) where
  -- The session that follows on the row `r`.
  abbrev pub follower : ℕ → Option Text → Option Text → Text → Text → Row → Row
  unfolding hash_token
  follower now user_agent ip token id r = record {
    id = id;
    collection_id = nullif (unwrap r.collection_id);
    user_id = r.user_id;
    token_hash = hash_token sha256 token;
    family_id = r.family_id;
    expires_at = now + refresh_token_ttl;
    revoked_at = none;
    user_agent = nullif (unwrap user_agent);
    ip = nullif (unwrap ip);
  }

  abbrev pub as_session : Row → Session
  as_session r = record {
    id = r.id;
    collection_id = unwrap r.collection_id;
    user_id = r.user_id;
    family_id = r.family_id;
    expires_at = r.expires_at;
    revoked = is_set r.revoked_at;
  }

  -- The table with the session that follows, unless nothing was drawn for it or what was drawn is taken.
  abbrev pub continued :
      Table
      → ℕ
      → Option Text
      → Option Text
      → Row
      → Text
      → Option Text
      → Table × Result Error (Text × Session)
  unfolding follower text_eq
  continued t now user_agent ip r id none = (t, err Error.no_randomness)
  continued t now user_agent ip r id (some token) =
      let new = follower now user_agent ip token id r in
      if any (λ s. text_eq s.id id || text_eq s.token_hash new.token_hash) t
      then (t, err Error.database)
      else (t ++ new ∷ [], ok (token, as_session new))

  -- What a rotation promises of the row of the token, if there is one.
  abbrev pub verdict :
      Table
      → ℕ
      → Text
      → Option Text
      → Option Text
      → Draw
      → Option Row
      → Table × Result Error (Text × Session)
  unfolding continued hash_token
  verdict t now token user_agent ip draw none =
      (t, err (Error.unauthorized (codes "the refresh token is not recognised")))
  verdict t now token user_agent ip draw (some r) =
      if is_set r.revoked_at
      then (
        map (ended r.family_id now) t,
        err (Error.unauthorized (codes "this refresh token has already been used")),
      )
      else if ltb now r.expires_at
      then continued (map (retired (hash_token sha256 token) now) t) now user_agent ip r draw.id
          draw.token
      else (t, err (Error.unauthorized (codes "the refresh token has expired")))

update_where-map :
    (p : Row → Bool) (f : Row → Row) (t : Table) → (update_where p f t).0 ≡ map (changed_row p f) t
unfolding update_where
update_where-map p f [] = refl
update_where-map p f (r ∷ rs) = elim (Bool-cases (p r)) [
  | inl hit ↦ rw hit (ap (λ t. f r ∷ t) (update_where-map p f rs))
  | inr miss ↦ rw miss (ap (λ t. r ∷ t) (update_where-map p f rs))
]

revoke_family-ended :
    (t : Table) (family : Text) (now : ℕ)
    → (revoke_family t family now).0 ≡ map (ended family now) t
unfolding revoke_family
revoke_family-ended t family now = update_where-map (in_family family) (revoke_at now) t

retired-Missing :
    (hash : Text) (now : ℕ) (t : Table) → Missing hash t → map (retired hash now) t ≡ t
retired-Missing hash now [] h = refl
retired-Missing hash now (r ∷ rs) h = rw h.0 (ap (λ t. r ∷ t) (retired-Missing hash now rs h.1))

-- A claim of a live row retires it, and no other.
claim-retired :
    (hash : Text) (now : ℕ) (t : Table) (r : Row)
    → Unique t
    → find hash t ≡ some r
    → is_set r.revoked_at ≡ false
    → ltb now r.expires_at ≡ true
    → (claim t hash now).0 ≡ map (retired hash now) t
unfolding find claim
claim-retired hash now [] r u h unused live = refl
claim-retired hash now (s ∷ t) r u h unused live = elim (Bool-cases (has_hash hash s)) [
  | inl here ↦
      let same : some s ≡ some r = rw here at h in
      let eq : s ≡ r = cc in
      let missing = Missing-hash hash s t here u.0 in
      let rest =
        update_where-misses (claimable hash now) (revoke_at now) t
          (Missing-claimable hash now t missing) in
      let idle : is_set s.revoked_at ≡ false = rw eq unused in
      let early : ltb now s.expires_at ≡ true = rw eq live in
      rw (rest, here, idle, early, retired-Missing hash now t missing) refl
  | inr there ↦
      rw there (ap (λ t. s ∷ t) (claim-retired hash now t r u.1 (rw there at h) unused live))
]

issue_in_family-continued :
    (sha256 : Text → List ℕ) (t : Table) (now : ℕ) (user_agent ip : Option Text) (r : Row)
    (id : Text) (o : Option Text)
    → issue_in_family sha256 t now
        (unwrap r.collection_id)
        r.user_id
        r.family_id
        user_agent
        ip
        (record { token = o; id = id })
      ≡ continued sha256 t now user_agent ip r id o
unfolding issue_in_family insert_session continued from_row
issue_in_family-continued sha256 t now user_agent ip r id none = refl
issue_in_family-continued sha256 t now user_agent ip r id (some token) =
    elim (Bool-cases
      (any (λ s. text_eq s.id id || text_eq s.token_hash (hash_token sha256 token)) t)) [
        | inl taken ↦ rw taken refl
        | inr free ↦ rw free refl
      ]

answer-verdict :
    (sha256 : Text → List ℕ) (t : Table) (now : ℕ) (token : Text) (user_agent ip : Option Text)
    (draw : Draw) (o : Option Row)
    → find (hash_token sha256 token) t ≡ o
    → Unique t
    → answer sha256 t now token user_agent ip draw o
      ≡ verdict sha256 t now token user_agent ip draw o
unfolding verdict
answer-verdict sha256 t now token user_agent ip draw none h u = refl
answer-verdict sha256 t now token user_agent ip draw (some r) h u =
    elim (Bool-cases (is_set r.revoked_at)) [
      | inl used ↦ rw (used, revoke_family-ended t r.family_id now) refl
      | inr unused ↦ elim (Bool-cases (ltb now r.expires_at)) [
        | inl live ↦
            rw (unused, live, claim-retired (hash_token sha256 token) now t r u h unused live)
              (issue_in_family-continued sha256 (map (retired (hash_token sha256 token) now) t) now
                user_agent ip r draw.id draw.token)
        | inr late ↦ rw (unused, late) refl
      ]
    ]

-- With token hashes unique, a rotation answers by the row of the token. None is not recognised
-- and changes nothing; a revoked one is refused, and every session of its family that was not
-- revoked is; an expired one is refused and changes nothing; of a live one, that row and no other
-- is revoked, and a new session of the same user, collection and family, which expires after the
-- term and is not revoked, is added and handed out, unless there was no randomness for a token,
-- or its id or its hash is taken, which is an error.
pub rotate-verdict :
    (sha256 : Text → List ℕ) (t : Table) (now : ℕ) (token : Text) (user_agent ip : Option Text)
    (draw : Draw)
    → Unique t
    → rotate sha256 t now token user_agent ip draw
      ≡ verdict sha256 t now token user_agent ip draw (find (hash_token sha256 token) t)
rotate-verdict sha256 t now token user_agent ip draw u =
    rotate-answer sha256 t now token user_agent ip draw u
    ∙ answer-verdict sha256 t now token user_agent ip draw (find (hash_token sha256 token) t) refl u
