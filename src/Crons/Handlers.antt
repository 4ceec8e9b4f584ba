-- ===== src/Crons/Handlers.antt =====
-- crates/api/src/crons.rs: the requests of an operator and the scheduler's tick, on the table of jobs and the audit trail.
-- A run happens at one instant, with a duration that is given; an error's message is a parameter.
use lazypock.Base.{
  ℕ, Bool, true, false, not, ◌&&◌, List, [], ◌∷◌, ◌++◌, Option, none, some, if◌then◌else◌, any,
  retain, length, Result, ok, err, guard, ◌>>=◌, ◌>>◌, Fault,
}
use lazypock.Base.Text.{Text, codes, text_eq}
use lazypock.Schema.Json.{Json, Members, get, as_str, unwrap_or}
use lazypock.Crons.{
  CronInput, Job, Prepared, Table, advance_schedule, claim_due, next_run, prepare_create,
  prepare_update, record_run, setting, succeeded,
}

-- An entry of the audit trail.
pub record Entry : Type 0 where
  pub actor : Text
  pub action : Text
  pub target : Text
  pub details : Json

pub record Server : Type 0 where
  pub crons : Table
  pub trail : List Entry

-- What an HTTP request came to: an answer with its status, or a failure.
pub data Sent : Type 0 where
  answered : Bool → Text → Sent
  unsent : Text → Sent

-- The headers that have a text.
abbrev text_members : Members → List (Text × Text)
text_members Members.close = []
text_members (Members.member name (Json.string value) more) = (name, value) ∷ text_members more
text_members (Members.member name _ more) = text_members more

abbrev headers : Option Json → List (Text × Text)
headers (some (Json.object members)) = text_members members
headers _ = []

unfoldable pub find_job : Text → Table → Option Job
unfolding text_eq
find_job id [] = none
find_job id (j ∷ t) = let deeper = find_job id t in if text_eq j.id id then some j else deeper

abbrev pub is_except : Text → Option Text → Bool
unfolding text_eq
is_except id none = false
is_except id (some e) = text_eq id e

unfoldable pub name_taken : Text → Option Text → Table → Bool
unfolding text_eq is_except
name_taken name except t = any (λ j. text_eq j.name name && not (is_except j.id except)) t

abbrev pub found {ℓ} : {A : Type ℓ} → Option A → Result Fault A
found none = err Fault.not_found
found (some a) = ok a

unfoldable pub store : Text → Prepared → ℕ → Table → Table
unfolding text_eq
store id p next [] = []
store id p next (j ∷ t) =
    let more = store id p next t in
    if text_eq j.id id
    then record j {
      name = p.name;
      expression = p.expression;
      timezone = p.timezone;
      enabled = p.enabled;
      action = p.action;
      config = p.config;
      next_run_at = some next;
    }
      ∷ more
    else j ∷ more

abbrev new_job : Text → Prepared → ℕ → Job
new_job id p next = record {
  id = id;
  name = p.name;
  expression = p.expression;
  timezone = p.timezone;
  enabled = p.enabled;
  action = p.action;
  config = p.config;
  next_run_at = some next;
  last_run_at = none;
  last_status = none;
  last_duration_ms = none;
  last_error = none;
}

abbrev changed : Text → Members → Members
changed change more = Members.member (codes "change") (Json.string change) more

abbrev logged : Server → Table → Text → Text → Text → Members → Server
logged s crons actor action target details = record {
  crons = crons;
  trail =
      s.trail
      ++ record { actor = actor; action = action; target = target; details = Json.object details }
        ∷ [];
}

unfoldable pub delete : Text → Text → Server → Result Fault Server
unfolding text_eq
delete actor id s = do
  guard (any (λ j. text_eq j.id id) s.crons) Fault.not_found
  ok (
      logged s (retain (λ j. not (text_eq j.id id)) s.crons) actor (codes "cron.change") id
        (changed (codes "delete") Members.close))

module _ (Cron Tz : Type 0) (read_cron : Text → Option Cron) (read_timezone : Text → Option Tz)
    (find_next : Cron → Tz → ℕ → Option ℕ) where
  unfoldable pub create : Text → Text → CronInput → ℕ → Server → Result Fault Server
  unfolding prepare_create name_taken next_run
  create actor id input now s = do
    p ← prepare_create Cron Tz read_cron read_timezone find_next input
    guard (not (name_taken p.name none s.crons)) Fault.conflict
    next ← next_run Cron Tz read_cron read_timezone find_next p.expression p.timezone now
    ok (
        logged s (s.crons ++ new_job id p next ∷ []) actor (codes "cron.change") p.name (
          changed (codes "create")
            (Members.member (codes "action") (Json.string p.action) Members.close)))

  unfoldable pub update : Text → Text → CronInput → ℕ → Server → Result Fault Server
  unfolding find_job prepare_update name_taken next_run store
  update actor id input now s = do
    existing ← found (find_job id s.crons)
    p ← prepare_update Cron Tz read_cron read_timezone find_next input existing
    guard (not (name_taken p.name (some id) s.crons)) Fault.conflict
    next ← next_run Cron Tz read_cron read_timezone find_next p.expression p.timezone now
    ok (
        logged s (store id p next s.crons) actor (codes "cron.change") p.name (
          changed (codes "update")
            (Members.member (codes "action") (Json.string p.action) Members.close)))

  module _ (batch_execute : Text → Option Text) (Method : Type 0)
      (read_method : Text → Option Method)
      (send : Method → Text → List (Text × Text) → Option Text → Sent)
      (message : Fault → Text) where
    abbrev outcome : Option Text → Text × Option Text
    outcome none = (codes "ok", none)
    outcome (some error) = (codes "error", some error)

    abbrev sent : Sent → Text × Option Text
    sent (answered true status) = (codes "ok", none)
    sent (answered false status) =
        (codes "error", some (codes "the request returned HTTP " ++ status))
    sent (unsent error) = (codes "error", some error)

    abbrev known_method : Option Method → Result Fault Method
    known_method none = err Fault.invalid
    known_method (some method) = ok method

    abbrev request : Json → Result Fault (Text × Option Text)
    unfolding get setting
    request config = do
      method ←
          known_method
            (read_method (unwrap_or (as_str (get config (codes "method"))) (codes "GET")))
      ok (
          sent (
            send method (setting config (codes "url")) (headers (get config (codes "headers")))
              (as_str (get config (codes "body")))))

    unfoldable pub execute : Job → Result Fault (Text × Option Text)
    unfolding text_eq request setting
    execute j =
        if text_eq j.action (codes "sql")
        then ok (outcome (batch_execute (setting j.config (codes "statement"))))
        else if text_eq j.action (codes "http")
        then request j.config
        else if text_eq j.action (codes "hook")
        then err Fault.unsupported
        else err Fault.invalid

    unfoldable pub run_now : Text → Text → ℕ → ℕ → Server → Result Fault Server
    unfolding find_job execute next_run advance_schedule record_run
    run_now actor id now duration s = do
      j ← found (find_job id s.crons)
      done ← execute j
      let next =
          succeeded (next_run Cron Tz read_cron read_timezone find_next j.expression j.timezone now)
      ok (
          logged s (record_run id now done.0 duration done.1 (advance_schedule id next s.crons))
            actor (codes "cron.run") j.name
            (Members.member (codes "status") (Json.string done.0) Members.close))

    abbrev settled : Result Fault (Text × Option Text) → Text × Option Text
    settled (ok done) = done
    settled (err e) = (codes "error", some (message e))

    -- The loop of `run_due` over the jobs that it has claimed.
    unfoldable pub run_all : ℕ → (Job → ℕ) → Table → Table → Table
    unfolding execute record_run
    run_all now duration [] t = t
    run_all now duration (j ∷ js) t =
        let done = settled (execute j) in
        run_all now duration js (record_run j.id now done.0 (duration j) done.1 t)

    unfoldable pub run_due : (Text → Bool) → ℕ → ℕ → (Job → ℕ) → Server → Server × ℕ
    unfolding claim_due run_all
    run_due locked limit now duration s =
        let claimed =
          claim_due Cron Tz read_cron read_timezone find_next locked limit now s.crons in
        (record s { crons = run_all now duration claimed.1 claimed.0 }, length claimed.1)
