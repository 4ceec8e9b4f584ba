-- ===== src/Sessions.antt =====
-- crates/auth/src/sessions.rs: the table of refresh sessions and the statements on it. The table is the rows of
-- `_sessions` (migrations/0001_system_tables.sql); a statement is one step, at its own `now()`. The
-- digest, and what the random generators drew, are parameters.
mod Rows
pub mod Verdict
pub mod Rotation
pub mod Races
mod Tests
use lazypock.Base.{
  ℕ, ◌+◌, ◌/◌, ◌%◌, Bool, true, false, not, ◌&&◌, ◌||◌, List, [], ◌∷◌, ◌++◌, Option, none, some,
  ltb, if◌then◌else◌, Result, ok, err, length, any, null, retain,
}
use lazypock.Base.Text.{Text, text_eq, codes}

pub record Row : Type 0 where
  pub id : Text
  pub collection_id : Option Text
  pub user_id : Text
  pub token_hash : Text
  pub family_id : Text
  pub expires_at : ℕ
  pub revoked_at : Option ℕ
  pub user_agent : Option Text
  pub ip : Option Text

abbrev pub Table : Type 0
Table = List Row

pub record Session : Type 0 where
  pub id : Text
  pub collection_id : Text
  pub user_id : Text
  pub family_id : Text
  pub expires_at : ℕ
  pub revoked : Bool

-- An internal error stands by its cause: no random bytes, or a refusal of the database.
pub data Error : Type 0 where
  unauthorized : Text → Error
  no_randomness database : Error

-- `REFRESH_TOKEN_TTL`, in seconds.
abbrev pub refresh_token_ttl : ℕ
refresh_token_ttl = 2592000

-- What the generators drew for one session: the token, if there was randomness, and the id.
pub record Draw : Type 0 where
  pub token : Option Text
  pub id : Text

abbrev hex_digit : ℕ → ℕ
hex_digit n = if ltb n 10 then b'0' + n else 87 + n

abbrev pub hex : List ℕ → Text
hex [] = []
hex (byte ∷ bytes) = hex_digit (byte / 16) ∷ hex_digit (byte % 16) ∷ hex bytes

abbrev pub is_set {ℓ} : {A : Type ℓ} → Option A → Bool
is_set none = false
is_set (some a) = true

-- SQL's `nullif(text, '')`, and Rust's `unwrap_or_default`.
abbrev pub nullif : Text → Option Text
nullif s = if null s then none else some s

abbrev pub unwrap : Option Text → Text
unwrap none = []
unwrap (some s) = s

-- SQL's `is not distinct from`.
abbrev pub not_distinct : Option Text → Option Text → Bool
not_distinct none none = true
not_distinct (some s) (some t) = text_eq s t
not_distinct _ _ = false

-- An `update … where … returning`: the table after it, and the rows it changed.
unfoldable pub update_where : (Row → Bool) → (Row → Row) → Table → Table × List Row
update_where p f [] = ([], [])
update_where p f (r ∷ rs) =
    let (rest, changed) = update_where p f rs in
    if p r then (f r ∷ rest, f r ∷ changed) else (r ∷ rest, changed)

-- `run_query_opt`, which refuses more than one row.
abbrev pub query_opt : List Row → Result Error (Option Row)
query_opt [] = ok none
query_opt (r ∷ []) = ok (some r)
query_opt (r ∷ s ∷ rs) = err Error.database

unfoldable pub from_row : Row → Session
from_row r = record {
  id = r.id;
  collection_id = unwrap r.collection_id;
  user_id = r.user_id;
  family_id = r.family_id;
  expires_at = r.expires_at;
  revoked = is_set r.revoked_at;
}

-- The `insert`: ids and token hashes are unique.
unfoldable pub insert_session : Table → Row → Result Error Table
unfolding text_eq
insert_session t new =
    if any (λ r. text_eq r.id new.id || text_eq r.token_hash new.token_hash) t
    then err Error.database
    else ok (t ++ new ∷ [])

abbrev pub revoke_at : ℕ → Row → Row
revoke_at now r = record r { revoked_at = some now }

abbrev pub has_hash : Text → Row → Bool
has_hash hash r = text_eq r.token_hash hash

abbrev pub claimable : Text → ℕ → Row → Bool
claimable hash now r = has_hash hash r && (not (is_set r.revoked_at) && ltb now r.expires_at)

-- The conditional statement of `rotate`.
unfoldable pub claim : Table → Text → ℕ → Table × List Row
unfolding update_where text_eq
claim t hash now = update_where (claimable hash now) (revoke_at now) t

abbrev pub in_family : Text → Row → Bool
in_family family r = text_eq r.family_id family && not (is_set r.revoked_at)

unfoldable pub revoke_family : Table → Text → ℕ → Table × ℕ
unfolding update_where text_eq
revoke_family t family now =
    let (after, changed) = update_where (in_family family) (revoke_at now) t in
    (after, length changed)

abbrev pub of_user : Text → Text → Row → Bool
of_user collection user r =
    text_eq r.user_id user
    && (not_distinct r.collection_id (nullif collection) && not (is_set r.revoked_at))

unfoldable pub revoke_for_user : Table → Text → Text → ℕ → Table × ℕ
unfolding update_where text_eq
revoke_for_user t collection user now =
    let (after, changed) = update_where (of_user collection user) (revoke_at now) t in
    (after, length changed)

unfoldable pub purge_expired : Table → ℕ → Table × ℕ
purge_expired t now =
    (retain (λ r. not (ltb r.expires_at now)) t, length (retain (λ r. ltb r.expires_at now) t))

module _ (sha256 : Text → List ℕ) where
  unfoldable pub hash_token : Text → Text
  hash_token token = hex (sha256 token)

  abbrev pub new_row : Text → Text → Text → Text → Text → ℕ → Text → Text → Row
  unfolding hash_token
  new_row collection user family user_agent ip now token id = record {
    id = id;
    collection_id = nullif collection;
    user_id = user;
    token_hash = hash_token token;
    family_id = family;
    expires_at = now + refresh_token_ttl;
    revoked_at = none;
    user_agent = nullif user_agent;
    ip = nullif ip;
  }

  abbrev pub inserted :
      Table → Text → Row → Result Error Table → Table × Result Error (Text × Session)
  unfolding from_row
  inserted t token row (err e) = (t, err e)
  inserted t token row (ok after) = (after, ok (token, from_row row))

  abbrev pub issue_token :
      Table
      → ℕ
      → Text
      → Text
      → Text
      → Text
      → Text
      → Text
      → Option Text
      → Table × Result Error (Text × Session)
  unfolding insert_session
  issue_token t now collection user family user_agent ip id none = (t, err Error.no_randomness)
  issue_token t now collection user family user_agent ip id (some token) =
      let row = new_row collection user family user_agent ip now token id in
      inserted t token row (insert_session t row)

  unfoldable pub issue_in_family :
      Table
      → ℕ
      → Text
      → Text
      → Text
      → Option Text
      → Option Text
      → Draw
      → Table × Result Error (Text × Session)
  issue_in_family t now collection user family user_agent ip draw =
      issue_token t now collection user family (unwrap user_agent) (unwrap ip) draw.id draw.token

  -- `issue`, with the family that was drawn.
  unfoldable pub issue :
      Table
      → ℕ
      → Text
      → Text
      → Option Text
      → Option Text
      → Text
      → Draw
      → Table × Result Error (Text × Session)
  unfolding issue_in_family
  issue t now collection user user_agent ip family draw =
      issue_in_family t now collection user family user_agent ip draw

  abbrev pub peeked : Result Error (Option Row) → Result Error (Option Session)
  unfolding from_row
  peeked (err e) = err e
  peeked (ok none) = ok none
  peeked (ok (some r)) = ok (some (from_row r))

  unfoldable pub peek : Table → Text → Result Error (Option Session)
  unfolding hash_token
  peek t token = peeked (query_opt (retain (has_hash (hash_token token)) t))

  -- Why nothing was claimed.
  abbrev pub refuse : Table → ℕ → Result Error (Option Row) → Table × Result Error (Text × Session)
  unfolding from_row revoke_family
  refuse t now (err e) = (t, err e)
  refuse t now (ok none) =
      (t, err (Error.unauthorized (codes "the refresh token is not recognised")))
  refuse t now (ok (some r)) =
      let session = from_row r in
      if session.revoked
      then (
        (revoke_family t session.family_id now).0,
        err (Error.unauthorized (codes "this refresh token has already been used")),
      )
      else (t, err (Error.unauthorized (codes "the refresh token has expired")))

  abbrev pub after_claim :
      Table
      → ℕ
      → Text
      → Option Text
      → Option Text
      → Draw
      → Result Error (Option Row)
      → Table × Result Error (Text × Session)
  unfolding issue_in_family
  after_claim t now hash user_agent ip draw (err e) = (t, err e)
  after_claim t now hash user_agent ip draw (ok (some r)) =
      let session = from_row r in
      issue_in_family t now session.collection_id session.user_id session.family_id user_agent ip
        draw
  after_claim t now hash user_agent ip draw (ok none) =
      refuse t now (query_opt (retain (has_hash hash) t))

  unfoldable pub rotate :
      Table → ℕ → Text → Option Text → Option Text → Draw → Table × Result Error (Text × Session)
  unfolding claim hash_token
  rotate t now token user_agent ip draw =
      let hash = hash_token token in
      let (after, claimed) = claim t hash now in
      after_claim after now hash user_agent ip draw (query_opt claimed)
