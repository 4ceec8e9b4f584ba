-- ===== src/Sessions/Tests.antt =====
-- The sessions at concrete inputs: a digest that keeps the token, and draws that are given.
use lazypock.Base.{ℕ, List, [], ◌∷◌, some, none, ◌≡◌, refl, err, retain}
use lazypock.Base.Text.{Text, codes}
use lazypock.Sessions.{
  Row, Table, Error, Draw, inserted, issue_token, issue, issue_in_family, rotate, claim, hash_token,
  new_row, revoke_for_user, of_user, revoke_at,
}
use lazypock.Sessions.Rows.{find, Unique}
use lazypock.Sessions.Rotation.{rotate-verdict, verdict}
use lazypock.Sessions.Verdict.{live, rotate-replay}
use lazypock.Sessions.Races.{Run, Step, claim-once, issue_in_family-revoke_for_user}

abbrev sha256 : Text → List ℕ
sha256 token = token

abbrev draw : Text → Text → Draw
draw token id = record { token = some token; id = id }

-- Of a member of the posts' collection, issued at second 10.
abbrev first : Row
unfolding hash_token
first = new_row sha256 (codes "c1") (codes "u1") (codes "f1") [] [] 10 (codes "t1") (codes "s1")

abbrev table : Table
table = first ∷ []

abbrev used : Table
used = revoke_at 20 first ∷ []

issued :
    (issue sha256 [] 10
      (codes "c1")
      (codes "u1")
      none
      none
      (codes "f1")
      (draw (codes "t1") (codes "s1"))).0
    ≡ table
unfolding issue issue_token inserted first new_row
issued = refl

table-Unique : Unique table
table-Unique = (tt, tt)

used-Unique : Unique used
used-Unique = (tt, tt)

rotate-verdict_example :
    rotate sha256 table 20 (codes "t1") none none (draw (codes "t2") (codes "s2"))
    ≡ verdict sha256 table 20
        (codes "t1")
        none
        none
        (draw (codes "t2") (codes "s2"))
        (find (hash_token sha256 (codes "t1")) table)
rotate-verdict_example =
    rotate-verdict sha256 table 20 (codes "t1") none none (draw (codes "t2") (codes "s2"))
      table-Unique

rotate-replay_example :
    (live
        (codes "f1")
        (rotate sha256 used 30 (codes "t1") none none (draw (codes "t3") (codes "s3"))).0
      ≡ [])
    × ((rotate sha256 used 30 (codes "t1") none none (draw (codes "t3") (codes "s3"))).1
        ≡ err (Error.unauthorized (codes "this refresh token has already been used")))
unfolding first
rotate-replay_example =
    rotate-replay sha256 used 30 (codes "t1") none none (draw (codes "t3") (codes "s3"))
      (revoke_at 20 first) used-Unique (unfold find in refl) refl

claim-once_example :
    claim (revoke_for_user used (codes "c1") (codes "u1") 25).0 (hash_token sha256 (codes "t1")) 30
    ≡ ((revoke_for_user used (codes "c1") (codes "u1") 25).0, [])
unfolding find claim first
claim-once_example =
    claim-once (hash_token sha256 (codes "t1")) 20 30 table
      (revoke_for_user used (codes "c1") (codes "u1") 25).0 (revoke_at 20 first) table-Unique refl
      (Run.next (Step.revokes_user (codes "c1") (codes "u1") 25) Run.stop)

-- The user's sessions are revoked between the claim and the insert of a rotation.
issue_in_family-revoke_for_user_example :
    retain
      (of_user (codes "c1") (codes "u1"))
      (issue_in_family sha256
        (revoke_for_user used (codes "c1") (codes "u1") 25).0
        30
        (codes "c1")
        (codes "u1")
        (codes "f1")
        none
        none
        (draw (codes "t2") (codes "s2"))).0
    ≡ new_row sha256 (codes "c1") (codes "u1") (codes "f1") [] [] 30 (codes "t2") (codes "s2") ∷ []
issue_in_family-revoke_for_user_example =
    issue_in_family-revoke_for_user sha256 used 25 30 (codes "c1") (codes "u1") (codes "f1") none
      none (draw (codes "t2") (codes "s2")) (codes "t2") refl
      (unfold revoke_for_user hash_token in refl)
