-- ===== src/Crons.antt =====
-- crates/api/src/crons.rs: the scheduled jobs of `_crons`, their claiming by the scheduler, and what an operator stores. The
-- cron expressions of croner, the time zones of chrono-tz, the database and HTTP calls of an action and the clock are
-- parameters. An instant is a number of seconds; a connection that fails is not modelled.
pub mod Claims
pub mod Due
pub mod Handlers
pub mod Stored
mod Tests
use lazypock.Base.{
  ℕ, Bool, true, false, not, ◌&&◌, ◌||◌, List, [], ◌∷◌, ◌++◌, map, Option, none, some, leb,
  if◌then◌else◌, any, null, take, retain, Result, ok, err, guard, ◌>>=◌, ◌>>◌, Fault,
}
use lazypock.Base.Text.{Text, codes, text_eq, trim}
use lazypock.Schema.Json.{Json, Members, get, as_str, unwrap_or}

-- A row of `_crons`, with the job that it holds and the outcome of its last run.
pub record Job : Type 0 where
  pub id : Text
  pub name : Text
  pub expression : Text
  pub timezone : Text
  pub enabled : Bool
  pub action : Text
  pub config : Json
  pub next_run_at : Option ℕ
  pub last_run_at : Option ℕ
  pub last_status : Option Text
  pub last_duration_ms : Option ℕ
  pub last_error : Option Text

abbrev pub Table : Type 0
Table = List Job

pub record CronInput : Type 0 where
  pub name : Option Text
  pub expression : Option Text
  pub timezone : Option Text
  pub enabled : Option Bool
  pub action : Option Text
  pub config : Option Json

-- The values that a create or an update stores.
pub record Prepared : Type 0 where
  pub name : Text
  pub expression : Text
  pub timezone : Text
  pub enabled : Bool
  pub action : Text
  pub config : Json

-- `next_run_at <= now()`, which no missing time meets.
abbrev pub has_arrived : ℕ → Option ℕ → Bool
has_arrived now none = false
has_arrived now (some t) = leb t now

-- The condition of the claim's query, behind the locks of other transactions.
unfoldable pub is_due : (Text → Bool) → ℕ → Job → Bool
is_due locked now j = j.enabled && (has_arrived now j.next_run_at && not (locked j.id))

abbrev pub runs_before : Option ℕ → Option ℕ → Bool
runs_before (some s) (some t) = leb s t
runs_before (some s) none = true
runs_before none o = false

-- `order by next_run_at`.
unfoldable pub insert_job : Job → Table → Table
insert_job j [] = j ∷ []
insert_job j (k ∷ t) =
    let deeper = insert_job j t in
    if runs_before j.next_run_at k.next_run_at then j ∷ k ∷ t else k ∷ deeper

unfoldable pub by_next_run : Table → Table
unfolding insert_job
by_next_run [] = []
by_next_run (j ∷ t) = insert_job j (by_next_run t)

unfoldable pub due_jobs : (Text → Bool) → ℕ → ℕ → Table → Table
unfolding is_due by_next_run
due_jobs locked limit now t = take limit (by_next_run (retain (is_due locked now) t))

-- `ADVANCE_SCHEDULE` and `RECORD_RUN`.
unfoldable pub advance_schedule : Text → Option ℕ → Table → Table
unfolding text_eq
advance_schedule id next t =
    map (λ j. if text_eq j.id id then record j { next_run_at = next } else j) t

unfoldable pub record_run : Text → ℕ → Text → ℕ → Option Text → Table → Table
unfolding text_eq
record_run id now status duration error t =
    map
      (λ j.
        if text_eq j.id id
        then record j {
          last_run_at = some now;
          last_status = some status;
          last_duration_ms = some duration;
          last_error = error;
        }
        else j)
      t

abbrev pub succeeded {ℓ} : {A : Type ℓ} → Result Fault A → Option A
succeeded (ok a) = some a
succeeded (err e) = none

-- A text of the settings, or the empty one.
unfoldable pub setting : Json → Text → Text
unfolding get
setting config key = unwrap_or (as_str (get config key)) []

-- What the settings of an action must have.
unfoldable pub validate_action : Text → Json → Result Fault (Unit {0})
unfolding text_eq setting trim
validate_action action config =
    if text_eq action (codes "http")
    then guard (not (null (trim (setting config (codes "url"))))) Fault.invalid
    else if text_eq action (codes "sql")
    then guard (not (null (trim (setting config (codes "statement"))))) Fault.invalid
    else if text_eq action (codes "hook")
    then guard (not (null (trim (setting config (codes "event"))))) Fault.invalid
    else err Fault.invalid

abbrev pub required {ℓ} : {A : Type ℓ} → Option A → Result Fault A
required none = err Fault.invalid
required (some a) = ok a

unfoldable pub defaulted : CronInput → Prepared
unfolding trim
defaulted input = record {
  name = trim (unwrap_or input.name []);
  expression = trim (unwrap_or input.expression []);
  timezone = unwrap_or input.timezone (codes "UTC");
  enabled = unwrap_or input.enabled true;
  action = unwrap_or input.action (codes "http");
  config = unwrap_or input.config (Json.object Members.close);
}

abbrev pub merged : CronInput → Job → Prepared
merged input existing = record {
  name = unwrap_or input.name existing.name;
  expression = unwrap_or input.expression existing.expression;
  timezone = unwrap_or input.timezone existing.timezone;
  enabled = unwrap_or input.enabled existing.enabled;
  action = unwrap_or input.action existing.action;
  config = unwrap_or input.config existing.config;
}

module _ (Cron Tz : Type 0) (read_cron : Text → Option Cron) (read_timezone : Text → Option Tz)
    (find_next : Cron → Tz → ℕ → Option ℕ) where
  unfoldable pub parse_expression : Text → Result Fault Cron
  unfolding trim
  parse_expression expression =
      guard (not (null (trim expression))) Fault.invalid >> required (read_cron (trim expression))

  unfoldable pub parse_timezone : Text → Result Fault Tz
  unfolding trim
  parse_timezone timezone = required (read_timezone (trim timezone))

  unfoldable pub next_run : Text → Text → ℕ → Result Fault ℕ
  unfolding parse_expression parse_timezone
  next_run expression timezone now = do
    cron ← parse_expression expression
    zone ← parse_timezone timezone
    required (find_next cron zone now)

  -- The loop of `claim_due` over the rows that it has locked.
  unfoldable pub advance_all : ℕ → Table → Table → Table
  unfolding next_run advance_schedule
  advance_all now [] t = t
  advance_all now (j ∷ js) t =
      advance_all now js
        (advance_schedule j.id (succeeded (next_run j.expression j.timezone now)) t)

  -- The table as the transaction leaves it, and the jobs that it has claimed.
  unfoldable pub claim_due : (Text → Bool) → ℕ → ℕ → Table → Table × Table
  unfolding due_jobs advance_all
  claim_due locked limit now t =
      let claimed = due_jobs locked limit now t in (advance_all now claimed t, claimed)

  unfoldable pub validate_prepared : Prepared → Result Fault (Unit {0})
  unfolding trim parse_expression parse_timezone validate_action
  validate_prepared p = do
    guard (not (null (trim p.name))) Fault.invalid
    cron ← parse_expression p.expression
    zone ← parse_timezone p.timezone
    validate_action p.action p.config

  unfoldable pub prepare_create : CronInput → Result Fault Prepared
  unfolding validate_prepared defaulted
  prepare_create input =
      guard (not (null (defaulted input).name)) Fault.invalid
      >> (guard (not (null (defaulted input).expression)) Fault.invalid
          >> (validate_prepared (defaulted input) >> ok (defaulted input)))

  unfoldable pub prepare_update : CronInput → Job → Result Fault Prepared
  unfolding validate_prepared
  prepare_update input existing =
      validate_prepared (merged input existing) >> ok (merged input existing)
