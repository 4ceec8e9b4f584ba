-- ===== src/Crons/Tests.antt =====
-- The scheduler at concrete inputs: an expression is a period, the time zone is UTC, and every action succeeds.
use lazypock.Base.{
  ℕ, ◌+◌, ◌⊎◌, All, inl, Bool, true, false, List, [], ◌∷◌, Option, none, some, ◌≡◌, refl, arith,
  length, ok, Fault,
}
use lazypock.Base.Text.{Text, codes}
use lazypock.Schema.Json.{Json, Members}
use lazypock.Crons.{CronInput, Job, Table, claim_due}
use lazypock.Crons.Claims.{IsLater, claim_due-once, holds}
use lazypock.Crons.Due.{Holds, IsDue, NoLater, claim_due-ready}
use lazypock.Crons.Handlers.{Sent, Server, create}
use lazypock.Crons.Stored.{Runnable, Steps-Runnable, created, done, next}

abbrev read_period : Text → Option ℕ
read_period s = some 60

abbrev utc : Text → Option Bool
utc s = some true

abbrev after : ℕ → Bool → ℕ → Option ℕ
after period zone now = some (now + (period + 1))

after-later : IsLater ℕ Bool read_period utc after
after-later c z now n h = ground arith

abbrev nobody : Text → Bool
nobody id = false

abbrev job : Text → Option ℕ → Job
job id at = record {
  id = id;
  name = id;
  expression = codes "every minute";
  timezone = codes "UTC";
  enabled = true;
  action = codes "sql";
  config =
      Json.object
        (Members.member (codes "statement") (Json.string (codes "select 1")) Members.close);
  next_run_at = at;
  last_run_at = none;
  last_status = none;
  last_duration_ms = none;
  last_error = none;
}

abbrev table : Table
table = job (codes "a") (some 50) ∷ job (codes "b") (some 500) ∷ job (codes "c") (some 40) ∷ []

claim_due_runs :
    (claim_due ℕ Bool read_period utc after nobody 10 100 table).1
    ≡ job (codes "c") (some 40) ∷ job (codes "a") (some 50) ∷ []
unfolding claim_due
claim_due_runs = refl

-- With a limit of one, the later of the two jobs that are due is left.
claim_due-ready_example :
    All
      (λ k. Holds k table × IsDue nobody 100 k)
      (claim_due ℕ Bool read_period utc after nobody 1 100 table).1
    × ((¬ IsDue nobody 100 (job (codes "a") (some 50)))
        ⊎ (Holds
              (job (codes "a") (some 50))
              (claim_due ℕ Bool read_period utc after nobody 1 100 table).1
            ⊎ ((length (claim_due ℕ Bool read_period utc after nobody 1 100 table).1 ≡ 1)
                × All
                    (λ k. NoLater k.next_run_at (some 50))
                    (claim_due ℕ Bool read_period utc after nobody 1 100 table).1)))
claim_due-ready_example =
    claim_due-ready ℕ Bool read_period utc after nobody 1 100 table (job (codes "a") (some 50))
      (inl refl)

claimed : holds (codes "a") (claim_due ℕ Bool read_period utc after nobody 10 100 table).1 ≡ true
unfolding claim_due holds
claimed = refl

claim_due-once_example :
    holds
      (codes "a")
      (claim_due ℕ Bool read_period utc after nobody 5 100
        (claim_due ℕ Bool read_period utc after nobody 10 100 table).0).1
    ≡ false
claim_due-once_example =
    claim_due-once ℕ Bool read_period utc after nobody nobody 10 5 100 table (codes "a") after-later
      claimed

abbrev no_error : Text → Option Text
no_error statement = none

abbrev read_method : Text → Option Text
read_method name = some name

abbrev send : Text → Text → List (Text × Text) → Option Text → Sent
send method url headers body = Sent.answered true (codes "200")

abbrev message : Fault → Text
message e = []

abbrev input : CronInput
input = record {
  name = some (codes "a");
  expression = some (codes "every minute");
  timezone = none;
  enabled = none;
  action = some (codes "sql");
  config = some (
      Json.object
        (Members.member (codes "statement") (Json.string (codes "select 1")) Members.close));
}

abbrev empty : Server
empty = record { crons = []; trail = [] }

abbrev one : Server
one = record {
  crons = job (codes "a") (some 161) ∷ [];
  trail =
      record {
        actor = codes "root";
        action = codes "cron.change";
        target = codes "a";
        details = Json.object (
            Members.member (codes "change") (Json.string (codes "create"))
              (Members.member (codes "action") (Json.string (codes "sql")) Members.close));
      }
      ∷ [];
}

made : create ℕ Bool read_period utc after (codes "root") (codes "a") input 100 empty ≡ ok one
unfolding create
made = refl

empty-Runnable : Runnable ℕ Bool read_period utc after empty.crons
unfolding Runnable
empty-Runnable = tt

Steps-Runnable_example : Runnable ℕ Bool read_period utc after one.crons
Steps-Runnable_example =
    Steps-Runnable ℕ Bool read_period utc after no_error Text read_method send message
      (next (created (codes "root") (codes "a") input 100 made) done) empty-Runnable
