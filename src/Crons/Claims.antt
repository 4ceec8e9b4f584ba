-- ===== src/Crons/Claims.antt =====
-- The scheduler's claims, one behind the other.
use lazypock.Base.{
  ℕ, Bool, true, false, ◌&&◌, ◌||◌, [], ◌∷◌, Option, none, some, ◌≡◌, ◌<◌, suc, zero, refl, ap, ◌∙◌,
  arith, if◌then◌else◌, any, take, retain, Bool-cases, inl, inr, Result, ok, err, ◌>>=◌, Fault,
}
use lazypock.Base.Text.{Text, text_eq, text_eq_iff}
use lazypock.Crons.{
  Job, Table, advance_all, advance_schedule, by_next_run, claim_due, due_jobs, has_arrived,
  insert_job, is_due, next_run, parse_expression, parse_timezone, required, runs_before, succeeded,
}

-- Some job of the id.
unfoldable pub holds : Text → Table → Bool
unfolding text_eq
holds id t = any (λ j. text_eq j.id id) t

or_swap : (a b c : Bool) → (a || (b || c)) ≡ (b || (a || c))
or_swap a b c = ground arith

any-insert_job : (p : Job → Bool) (j : Job) (t : Table) → any p (insert_job j t) ≡ (p j || any p t)
unfolding insert_job
any-insert_job p j [] = refl
any-insert_job p j (k ∷ t) = elim (Bool-cases (runs_before j.next_run_at k.next_run_at)) [
  | inl e ↦ rw e refl
  | inr e ↦ rw e (ap (λ b. p k || b) (any-insert_job p j t) ∙ or_swap (p k) (p j) (any p t))
]

any-by_next_run : (p : Job → Bool) (t : Table) → any p (by_next_run t) ≡ any p t
unfolding by_next_run
any-by_next_run p [] = refl
any-by_next_run p (j ∷ t) =
    any-insert_job p j (by_next_run t) ∙ ap (λ b. p j || b) (any-by_next_run p t)

any-retain : (p q : Job → Bool) (t : Table) → any p (retain q t) ≡ any (λ j. p j && q j) t
any-retain p q [] = refl
any-retain p q (j ∷ t) = elim (Bool-cases (q j)) [
  | inl e ↦ rw (e, any-retain p q t) (shown (p j) _)
  | inr e ↦ rw (e, any-retain p q t) (hidden (p j) _)
]
  where
    shown : (a b : Bool) → (a || b) ≡ ((a && true) || b)
    shown a b = ground arith

    hidden : (a b : Bool) → b ≡ ((a && false) || b)
    hidden a b = ground arith

any-take : (p : Job → Bool) (n : ℕ) (t : Table) → any p t ≡ false → any p (take n t) ≡ false
any-take p zero t h = refl
any-take p (suc n) [] h = refl
any-take p (suc n) (j ∷ t) h = ground (arith, any-take p n t)

-- Less holds of nothing where more does.
any-imp :
    (p q : Job → Bool) (t : Table)
    → ((j : Job) → q j ≡ true → p j ≡ true)
    → any p t ≡ false
    → any q t ≡ false
any-imp p q [] k h = refl
any-imp p q (j ∷ t) k h = ground (arith, any-imp p q t k, k j)

-- Some job of the id is due, to whoever finds those jobs locked.
unfoldable pub ready : (Text → Bool) → ℕ → Text → Table → Bool
unfolding text_eq is_due
ready locked now id t = any (λ j. text_eq j.id id && is_due locked now j) t

-- Some job of the id is to run by now.
abbrev pending : ℕ → Text → Table → Bool
unfolding text_eq
pending now id t = any (λ j. text_eq j.id id && has_arrived now j.next_run_at) t

holds-due_jobs :
    (locked : Text → Bool) (now : ℕ) (id : Text) (t : Table)
    → holds id (by_next_run (retain (is_due locked now) t)) ≡ ready locked now id t
unfolding holds ready
holds-due_jobs locked now id t =
    any-by_next_run (λ j. text_eq j.id id) (retain (is_due locked now) t)
    ∙ any-retain (λ j. text_eq j.id id) (is_due locked now) t

pending-advance :
    (now : ℕ) (id k : Text) (next : Option ℕ) (t : Table)
    → has_arrived now next ≡ false
    → pending now id (advance_schedule k next t)
      ≡ (if text_eq k id then false else pending now id t)
unfolding pending advance_schedule
pending-advance now id k next [] h = ground arith
pending-advance now id k next (j ∷ t) h = elim (Bool-cases (text_eq j.id k)) [
  | inl e ↦
      rw (e, pending-advance now id k next t h, h, (text_eq_iff j.id k).0 e)
        (moved (text_eq k id) (has_arrived now j.next_run_at) (pending now id t))
  | inr e ↦
      rw (e, pending-advance now id k next t h)
        (ground (arith, text_eq_iff j.id k, text_eq_iff j.id id, text_eq_iff k id))
]
  where
    moved :
        (a b r : Bool)
        → (a && false || (if a then false else r)) ≡ (if a then false else (a && b || r))
    moved a b r = ground arith

module _ (Cron Tz : Type 0) (read_cron : Text → Option Cron) (read_timezone : Text → Option Tz)
    (find_next : Cron → Tz → ℕ → Option ℕ) where
  -- The next occurrence of an expression is later than the instant that it is asked for at.
  abbrev pub IsLater : Type 0
  IsLater = (c : Cron) (z : Tz) (now next : ℕ) → find_next c z now ≡ some next → now < next

  next_run-later :
      (expression timezone : Text) (now : ℕ)
      → IsLater
      → has_arrived now
          (succeeded (next_run Cron Tz read_cron read_timezone find_next expression timezone now))
        ≡ false
  unfolding next_run
  next_run-later expression timezone now later =
      arrives (parse_expression Cron Tz read_cron read_timezone find_next expression)
        (parse_timezone Cron Tz read_cron read_timezone find_next timezone)
    where
      occurrence :
          (o : Option ℕ)
          → ((next : ℕ) → o ≡ some next → now < next)
          → has_arrived now (succeeded (required o)) ≡ false
      occurrence none h = refl
      occurrence (some next) h = ground (arith, h next refl)

      arrives :
          (c : Result Fault Cron) (z : Result Fault Tz)
          → has_arrived now
              (succeeded (c >>= λ cron. z >>= λ zone. required (find_next cron zone now)))
            ≡ false
      arrives (err e) z = refl
      arrives (ok c) (err e) = refl
      arrives (ok c) (ok z) = occurrence (find_next c z now) (λ next. later c z now next)

  pending-advance_all :
      (now : ℕ) (id : Text) (js t : Table)
      → IsLater
      → pending now id (advance_all Cron Tz read_cron read_timezone find_next now js t)
        ≡ (if holds id js then false else pending now id t)
  unfolding advance_all holds
  pending-advance_all now id [] t later = refl
  pending-advance_all now id (j ∷ js) t later =
      let next =
        succeeded
          (next_run Cron Tz read_cron read_timezone find_next j.expression j.timezone now) in
      let moved =
        pending-advance now id j.id next t (next_run-later j.expression j.timezone now later) in
      pending-advance_all now id js (advance_schedule j.id next t) later
      ∙ rw moved (either (text_eq j.id id) (holds id js) (pending now id t))
    where
      either :
          (a b r : Bool)
          → (if b then false else (if a then false else r)) ≡ (if a || b then false else r)
      either a b r = ground arith

-- A job that is claimed is not claimed again at the same instant, whatever the limits are and
-- whatever is locked, where the next occurrence of an expression is later.
pub claim_due-once :
    (Cron Tz : Type 0) (read_cron : Text → Option Cron) (read_timezone : Text → Option Tz)
    (find_next : Cron → Tz → ℕ → Option ℕ) (locked locked' : Text → Bool) (limit limit' now : ℕ)
    (t : Table) (id : Text)
    → IsLater Cron Tz read_cron read_timezone find_next
    → holds id (claim_due Cron Tz read_cron read_timezone find_next locked limit now t).1 ≡ true
    → holds id
        (claim_due Cron Tz read_cron read_timezone find_next locked' limit' now
          (claim_due Cron Tz read_cron read_timezone find_next locked limit now t).0).1
      ≡ false
unfolding claim_due due_jobs holds is_due ready
claim_due-once Cron Tz read_cron read_timezone find_next locked locked' limit limit' now t id later
      claimed =
    let first = due_jobs locked limit now t in
    let rest = advance_all Cron Tz read_cron read_timezone find_next now first t in
    let gone = pending-advance_all Cron Tz read_cron read_timezone find_next now id first t later in
    any-take (λ j. text_eq j.id id) limit' (by_next_run (retain (is_due locked' now) rest))
      (holds-due_jobs locked' now id rest
        ∙ any-imp (λ j. text_eq j.id id && has_arrived now j.next_run_at)
            (λ j. text_eq j.id id && is_due locked' now j) rest (λ j h. ground arith)
            (gone ∙ rw claimed refl))
