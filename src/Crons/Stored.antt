-- ===== src/Crons/Stored.antt =====
-- Every job that is stored can be run: its expression and its time zone are read, and its action has what it needs.
use lazypock.Base.{
  ℕ, Bool, not, List, [], ◌∷◌, ◌++◌, map, Option, ◌≡◌, retain, All, Bool-cases, inl, inr, ok, guard,
  ◌>>◌, Fault, Meets, returns, Meets-bind, Meets-imp, Meets-ok, Meets-self, Meets-then,
}
use lazypock.Base.Text.{Text, text_eq}
use lazypock.Schema.Json.{Json}
use lazypock.Crons.{
  CronInput, Job, Prepared, Table, advance_all, advance_schedule, claim_due, due_jobs, defaulted,
  merged, next_run, parse_expression, parse_timezone, prepare_create, prepare_update, record_run,
  validate_action, validate_prepared,
}
use lazypock.Crons.Handlers.{
  Sent, Server, create, delete, execute, find_job, found, update, run_all, run_due, run_now, store,
}

All-append {ℓ κ} :
    {A : Type ℓ} (P : A → Type κ) (xs ys : List A) → All P xs → All P ys → All P (xs ++ ys)
All-append P [] ys h k = k
All-append P (x ∷ xs) ys h k = (h.0, All-append P xs ys h.1 k)

All-retain {ℓ κ} :
    {A : Type ℓ} (P : A → Type κ) (keep : A → Bool) (xs : List A)
    → All P xs
    → All P (retain keep xs)
All-retain P keep [] h = tt
All-retain P keep (x ∷ xs) h = elim (Bool-cases (keep x)) [
  | inl e ↦ rw e (h.0, All-retain P keep xs h.1)
  | inr e ↦ rw e (All-retain P keep xs h.1)
]

All-map {ℓ κ} :
    {A : Type ℓ} (P : A → Type κ) (f : A → A) (xs : List A)
    → ((a : A) → P a → P (f a))
    → All P xs
    → All P (map f xs)
All-map P f [] k h = tt
All-map P f (x ∷ xs) k h = (k x h.0, All-map P f xs k h.1)

module _ (Cron Tz : Type 0) (read_cron : Text → Option Cron) (read_timezone : Text → Option Tz)
    (find_next : Cron → Tz → ℕ → Option ℕ) where
  -- What can be run on a schedule.
  unfoldable pub Runs : Text → Text → Text → Json → Type 0
  unfolding parse_expression parse_timezone validate_action
  Runs expression timezone action config =
      ((c : Cron) × (parse_expression Cron Tz read_cron read_timezone find_next expression ≡ ok c))
      × (((z : Tz) × (parse_timezone Cron Tz read_cron read_timezone find_next timezone ≡ ok z))
          × (validate_action action config ≡ ok tt))

  unfoldable pub Runnable : Table → Type 0
  unfolding Runs
  Runnable t = All (λ j. Runs j.expression j.timezone j.action j.config) t

  abbrev Prepares : Prepared → Type 0
  unfolding Runs
  Prepares p = Runs p.expression p.timezone p.action p.config

  validate_prepared-Prepares :
      (p : Prepared)
      → Meets
          (λ e. Unit {0})
          (λ done. Prepares p)
          (validate_prepared Cron Tz read_cron read_timezone find_next p)
  unfolding validate_prepared Prepares Runs
  validate_prepared-Prepares p = Meets-bind (Meets-self (guard (not _) Fault.invalid)) (λ named u.
      Meets-bind
        (Meets-self (parse_expression Cron Tz read_cron read_timezone find_next p.expression))
        (λ c h.
          Meets-bind
            (Meets-self (parse_timezone Cron Tz read_cron read_timezone find_next p.timezone))
            (λ z k.
              Meets-imp (Meets-self (validate_action p.action p.config))
                (λ done v. ((c, h), ((z, k), v))))))

  checked-Prepares :
      (p : Prepared)
      → Meets
          (λ e. Unit {0})
          Prepares
          (validate_prepared Cron Tz read_cron read_timezone find_next p >> ok p)
  checked-Prepares p = Meets-bind (validate_prepared-Prepares p) (λ done h. returns h)

  prepare_create-Prepares :
      (input : CronInput)
      → Meets
          (λ e. Unit {0})
          Prepares
          (prepare_create Cron Tz read_cron read_timezone find_next input)
  unfolding prepare_create
  prepare_create-Prepares input =
      Meets-then _ _ (Meets-then _ _ (checked-Prepares (defaulted input)))

  prepare_update-Prepares :
      (input : CronInput) (existing : Job)
      → Meets
          (λ e. Unit {0})
          Prepares
          (prepare_update Cron Tz read_cron read_timezone find_next input existing)
  unfolding prepare_update
  prepare_update-Prepares input existing = checked-Prepares (merged input existing)

  store-Runnable :
      (id : Text) (p : Prepared) (next : ℕ) (t : Table)
      → Prepares p
      → Runnable t
      → Runnable (store id p next t)
  unfolding store Runnable Prepares
  store-Runnable id p next [] h k = tt
  store-Runnable id p next (j ∷ t) h k = elim (Bool-cases (text_eq j.id id)) [
    | inl e ↦ rw e (h, store-Runnable id p next t h k.1)
    | inr e ↦ rw e (k.0, store-Runnable id p next t h k.1)
  ]

  create-Runnable :
      (actor id : Text) (input : CronInput) (now : ℕ) (s : Server)
      → Runnable s.crons
      → Meets
          (λ e. Unit {0})
          (λ done. Runnable done.crons)
          (create Cron Tz read_cron read_timezone find_next actor id input now s)
  unfolding create Runnable Prepares
  create-Runnable actor id input now s k = Meets-bind (prepare_create-Prepares input) (λ p h.
      Meets-then _ _ (
        Meets-bind
          (Meets-self
            (next_run Cron Tz read_cron read_timezone find_next p.expression p.timezone now))
          (λ next v. returns (All-append _ s.crons _ k (h, tt)))))

  update-Runnable :
      (actor id : Text) (input : CronInput) (now : ℕ) (s : Server)
      → Runnable s.crons
      → Meets
          (λ e. Unit {0})
          (λ done. Runnable done.crons)
          (update Cron Tz read_cron read_timezone find_next actor id input now s)
  unfolding update
  update-Runnable actor id input now s k =
      Meets-bind (Meets-self (found (find_job id s.crons))) (λ existing w.
        Meets-bind (prepare_update-Prepares input existing) (λ p h. Meets-then _ _ (
          Meets-bind
            (Meets-self
              (next_run Cron Tz read_cron read_timezone find_next p.expression p.timezone now))
            (λ next v. returns (store-Runnable id p next s.crons h k)))))

  advance-Runnable :
      (id : Text) (next : Option ℕ) (t : Table) → Runnable t → Runnable (advance_schedule id next t)
  unfolding advance_schedule Runnable
  advance-Runnable id next [] k = tt
  advance-Runnable id next (j ∷ t) k = elim (Bool-cases (text_eq j.id id)) [
    | inl e ↦ rw e (k.0, advance-Runnable id next t k.1)
    | inr e ↦ rw e (k.0, advance-Runnable id next t k.1)
  ]

  record_run-Runnable :
      (id : Text) (now : ℕ) (status : Text) (duration : ℕ) (error : Option Text) (t : Table)
      → Runnable t
      → Runnable (record_run id now status duration error t)
  unfolding record_run Runnable
  record_run-Runnable id now status duration error [] k = tt
  record_run-Runnable id now status duration error (j ∷ t) k = elim (Bool-cases (text_eq j.id id)) [
    | inl e ↦ rw e (k.0, record_run-Runnable id now status duration error t k.1)
    | inr e ↦ rw e (k.0, record_run-Runnable id now status duration error t k.1)
  ]

  advance_all-Runnable :
      (now : ℕ) (js t : Table)
      → Runnable t
      → Runnable (advance_all Cron Tz read_cron read_timezone find_next now js t)
  unfolding advance_all
  advance_all-Runnable now [] t k = k
  advance_all-Runnable now (j ∷ js) t k =
      advance_all-Runnable now js (advance_schedule j.id _ t) (advance-Runnable j.id _ t k)

  delete-Runnable :
      (actor id : Text) (s : Server)
      → Runnable s.crons
      → Meets (λ e. Unit {0}) (λ done. Runnable done.crons) (delete actor id s)
  unfolding delete Runnable
  delete-Runnable actor id s k = Meets-then _ _ (returns (All-retain _ _ s.crons k))

  module _ (batch_execute : Text → Option Text) (Method : Type 0)
      (read_method : Text → Option Method)
      (send : Method → Text → List (Text × Text) → Option Text → Sent)
      (message : Fault → Text) where
    run_all-Runnable :
        (now : ℕ) (duration : Job → ℕ) (js t : Table)
        → Runnable t
        → Runnable (
            run_all Cron Tz read_cron read_timezone find_next batch_execute Method read_method send
              message now duration js t)
    unfolding run_all
    run_all-Runnable now duration [] t k = k
    run_all-Runnable now duration (j ∷ js) t k =
        run_all-Runnable now duration js (record_run j.id now _ (duration j) _ t)
          (record_run-Runnable j.id now _ (duration j) _ t k)

    run_now-Runnable :
        (actor id : Text) (now duration : ℕ) (s : Server)
        → Runnable s.crons
        → Meets
            (λ e. Unit {0})
            (λ done. Runnable done.crons)
            (run_now Cron Tz read_cron read_timezone find_next batch_execute Method read_method send
              message actor id now duration s)
    unfolding run_now
    run_now-Runnable actor id now duration s k =
        Meets-bind (Meets-self (found (find_job id s.crons))) (λ j w.
          Meets-bind
            (Meets-self (
              execute Cron Tz read_cron read_timezone find_next batch_execute Method read_method
                send message j))
            (λ done v. returns (
              record_run-Runnable id now done.0 duration done.1 _
                (advance-Runnable id _ s.crons k))))

    -- What an operator or the scheduler does to the jobs.
    pub data Step : Server → Server → Type 0 where
      created :
          (actor id : Text) (input : CronInput) (now : ℕ) {s s' : Server}
          → create Cron Tz read_cron read_timezone find_next actor id input now s ≡ ok s'
          → Step s s'
      updated :
          (actor id : Text) (input : CronInput) (now : ℕ) {s s' : Server}
          → update Cron Tz read_cron read_timezone find_next actor id input now s ≡ ok s'
          → Step s s'
      deleted : (actor id : Text) {s s' : Server} → delete actor id s ≡ ok s' → Step s s'
      ran :
          (actor id : Text) (now duration : ℕ) {s s' : Server}
          → run_now Cron Tz read_cron read_timezone find_next batch_execute Method read_method send
              message actor id now duration s
            ≡ ok s'
          → Step s s'
      ticked :
          (locked : Text → Bool) (limit now : ℕ) (duration : Job → ℕ) {s : Server}
          → Step s
              (run_due Cron Tz read_cron read_timezone find_next batch_execute Method read_method
                send message locked limit now duration s).0

    pub data Steps : Server → Server → Type 0 where
      done : {s : Server} → Steps s s
      next : {s s' s'' : Server} → Step s s' → Steps s' s'' → Steps s s''

    Step-Runnable : {s s' : Server} → Step s s' → Runnable s.crons → Runnable s'.crons
    unfolding run_due claim_due
    Step-Runnable (created actor id input now h) k =
        Meets-ok (create-Runnable actor id input now _ k) h
    Step-Runnable (updated actor id input now h) k =
        Meets-ok (update-Runnable actor id input now _ k) h
    Step-Runnable (deleted actor id h) k = Meets-ok (delete-Runnable actor id _ k) h
    Step-Runnable (ran actor id now duration h) k =
        Meets-ok (run_now-Runnable actor id now duration _ k) h
    Step-Runnable {s} (ticked locked limit now duration) k =
        let claimed = due_jobs locked limit now s.crons in
        run_all-Runnable now duration claimed _ (advance_all-Runnable now claimed s.crons k)

-- Whatever operators and the scheduler do, every job that is stored has an expression and a time
-- zone that are read, and an action with the settings that it needs, if this held before.
pub Steps-Runnable :
    (Cron Tz : Type 0) (read_cron : Text → Option Cron) (read_timezone : Text → Option Tz)
    (find_next : Cron → Tz → ℕ → Option ℕ) (batch_execute : Text → Option Text) (Method : Type 0)
    (read_method : Text → Option Method)
    (send : Method → Text → List (Text × Text) → Option Text → Sent) (message : Fault → Text)
    {s s' : Server}
    → Steps Cron Tz read_cron read_timezone find_next batch_execute Method read_method send message
        s s'
    → Runnable Cron Tz read_cron read_timezone find_next s.crons
    → Runnable Cron Tz read_cron read_timezone find_next s'.crons
Steps-Runnable Cron Tz read_cron read_timezone find_next batch_execute Method read_method send
      message done k =
    k
Steps-Runnable Cron Tz read_cron read_timezone find_next batch_execute Method read_method send
      message (next step steps) k =
    Steps-Runnable Cron Tz read_cron read_timezone find_next batch_execute Method read_method send
      message steps
      (Step-Runnable Cron Tz read_cron read_timezone find_next batch_execute Method read_method send
        message step k)
