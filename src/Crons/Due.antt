-- ===== src/Crons/Due.antt =====
-- Which jobs a claim hands out: those that are due, the earliest ones first where there are more than the limit.
use lazypock.Base.{
  ℕ, zero, suc, Bool, true, false, not, ◌&&◌, [], ◌∷◌, Option, none, some, ◌≡◌, ◌≤◌, ◌⊎◌, refl, sym,
  ap, subst, arith, length, take, retain, All, Bool-cases, inl, inr,
}
use lazypock.Base.Text.{Text}
use lazypock.Crons.{
  Job, Table, by_next_run, claim_due, due_jobs, has_arrived, insert_job, is_due, runs_before,
}

abbrev pub Holds : Job → Table → Type 0
Holds j [] = ⊥
Holds j (k ∷ t) = (j ≡ k) ⊎ Holds j t

-- The job is enabled, no other transaction has it locked, and its time has come.
abbrev pub IsDue : (Text → Bool) → ℕ → Job → Type 0
IsDue locked now j =
    (j.enabled ≡ true)
    × ((locked j.id ≡ false) × ((at : ℕ) × ((j.next_run_at ≡ some at) × (at ≤ now))))

-- No time comes behind all others.
abbrev pub NoLater : Option ℕ → Option ℕ → Type 0
NoLater o none = Unit
NoLater none (some at) = ⊥
NoLater (some s) (some at) = s ≤ at

-- The jobs stand in the order of their times.
abbrev Sorted : Table → Type 0
Sorted [] = Unit
Sorted (j ∷ t) = All (λ k. NoLater j.next_run_at k.next_run_at) t × Sorted t

arrived :
    (now : ℕ) (o : Option ℕ) → has_arrived now o ≡ true → (at : ℕ) × ((o ≡ some at) × (at ≤ now))
arrived now none h = cc
arrived now (some at) h = (at, (refl, ground (arith, h)))

has_arrived-at :
    (now : ℕ) (o : Option ℕ) (at : ℕ) → o ≡ some at → at ≤ now → has_arrived now o ≡ true
has_arrived-at now none at e h = cc
has_arrived-at now (some s) at e h = let same : s ≡ at = cc in rw same (ground (arith, h))

due_parts : (a b c : Bool) → (a && (b && not c)) ≡ true → (a ≡ true) × ((c ≡ false) × (b ≡ true))
due_parts true true false h = (refl, (refl, refl))
due_parts true true true h = cc
due_parts true false c h = cc
due_parts false b c h = cc

IsDue-of :
    (locked : Text → Bool) (now : ℕ) (j : Job) → is_due locked now j ≡ true → IsDue locked now j
unfolding is_due
IsDue-of locked now j h =
    let parts = due_parts j.enabled (has_arrived now j.next_run_at) (locked j.id) h in
    (parts.0, (parts.1.0, arrived now j.next_run_at parts.1.1))

is_due-of :
    (locked : Text → Bool) (now : ℕ) (j : Job) → IsDue locked now j → is_due locked now j ≡ true
unfolding is_due
is_due-of locked now j (on, (free, (at, (e, early)))) =
    rw (on, free, has_arrived-at now j.next_run_at at e early) refl

NoLater-trans : (a b c : Option ℕ) → NoLater a b → NoLater b c → NoLater a c
NoLater-trans a b none h k = tt
NoLater-trans a none (some at) h k = absurd k
NoLater-trans none (some s) (some at) h k = absurd h
NoLater-trans (some r) (some s) (some at) h k = omega (arith, h, k)

runs_before-NoLater : (a b : Option ℕ) → runs_before a b ≡ true → NoLater a b
runs_before-NoLater a none h = tt
runs_before-NoLater none (some at) h = cc
runs_before-NoLater (some s) (some at) h = ground (arith, h)

runs_behind-NoLater : (a b : Option ℕ) → runs_before a b ≡ false → NoLater b a
runs_behind-NoLater none b h = tt
runs_behind-NoLater (some s) none h = cc
runs_behind-NoLater (some s) (some at) h = ground (arith, h)

All-map : (P Q : Job → Type 0) (t : Table) → ((j : Job) → P j → Q j) → All P t → All Q t
All-map P Q [] k h = tt
All-map P Q (j ∷ t) k h = (k j h.0, All-map P Q t k h.1)

All-Holds : (P : Job → Type 0) (j : Job) (t : Table) → All P t → Holds j t → P j
All-Holds P j [] h k = absurd k
All-Holds P j (i ∷ t) h (inl same) = subst P (sym same) h.0
All-Holds P j (i ∷ t) h (inr later) = All-Holds P j t h.1 later

All-insert_job : (P : Job → Type 0) (j : Job) (t : Table) → P j → All P t → All P (insert_job j t)
unfolding insert_job
All-insert_job P j [] p h = (p, tt)
All-insert_job P j (k ∷ t) p h = elim (Bool-cases (runs_before j.next_run_at k.next_run_at)) [
  | inl e ↦ rw e (p, h)
  | inr e ↦ rw e (h.0, All-insert_job P j t p h.1)
]

All-by_next_run : (P : Job → Type 0) (t : Table) → All P t → All P (by_next_run t)
unfolding by_next_run
All-by_next_run P [] h = tt
All-by_next_run P (j ∷ t) h = All-insert_job P j (by_next_run t) h.0 (All-by_next_run P t h.1)

All-take : (P : Job → Type 0) (n : ℕ) (t : Table) → All P t → All P (take n t)
All-take P zero t h = tt
All-take P (suc n) [] h = tt
All-take P (suc n) (j ∷ t) h = (h.0, All-take P n t h.1)

insert_job-Sorted : (j : Job) (t : Table) → Sorted t → Sorted (insert_job j t)
unfolding insert_job
insert_job-Sorted j [] h = (tt, tt)
insert_job-Sorted j (k ∷ t) h = elim (Bool-cases (runs_before j.next_run_at k.next_run_at)) [
  | inl e ↦
      let first = runs_before-NoLater j.next_run_at k.next_run_at e in
      rw e (
        (
          first,
          All-map _ _ t (λ i. NoLater-trans j.next_run_at k.next_run_at i.next_run_at first) h.0,
        ),
        h,
      )
  | inr e ↦ rw e (
    All-insert_job _ j t (runs_behind-NoLater j.next_run_at k.next_run_at e) h.0,
    insert_job-Sorted j t h.1,
  )
]

by_next_run-Sorted : (t : Table) → Sorted (by_next_run t)
unfolding by_next_run
by_next_run-Sorted [] = tt
by_next_run-Sorted (j ∷ t) = insert_job-Sorted j (by_next_run t) (by_next_run-Sorted t)

insert_job-Holds : (i j : Job) (t : Table) → (i ≡ j) ⊎ Holds i t → Holds i (insert_job j t)
unfolding insert_job
insert_job-Holds i j [] h = h
insert_job-Holds i j (k ∷ t) h = elim (Bool-cases (runs_before j.next_run_at k.next_run_at)) [
  | inl e ↦ rw e h
  | inr e ↦ rw e (elim h [
    | inl same ↦ inr (insert_job-Holds i j t (inl same))
    | inr there ↦ elim there [
      | inl first ↦ inl first
      | inr later ↦ inr (insert_job-Holds i j t (inr later))
    ]
  ])
]

by_next_run-Holds : (i : Job) (t : Table) → Holds i t → Holds i (by_next_run t)
unfolding by_next_run
by_next_run-Holds i [] h = absurd h
by_next_run-Holds i (j ∷ t) (inl same) = insert_job-Holds i j (by_next_run t) (inl same)
by_next_run-Holds i (j ∷ t) (inr later) =
    insert_job-Holds i j (by_next_run t) (inr (by_next_run-Holds i t later))

retain-Holds :
    (p : Job → Bool) (i : Job) (t : Table) → Holds i t → p i ≡ true → Holds i (retain p t)
retain-Holds p i [] h k = absurd h
retain-Holds p i (j ∷ t) (inl same) k = let kept : p j ≡ true = rw (← same) k in rw kept (inl same)
retain-Holds p i (j ∷ t) (inr later) k = elim (Bool-cases (p j)) [
  | inl e ↦ rw e (inr (retain-Holds p i t later k))
  | inr e ↦ rw e (retain-Holds p i t later k)
]

-- What is retained is of the table and due.
retain-Due :
    (locked : Text → Bool) (now : ℕ) (whole t : Table)
    → ((j : Job) → Holds j t → Holds j whole)
    → All (λ j. Holds j whole × IsDue locked now j) (retain (is_due locked now) t)
retain-Due locked now whole [] h = tt
retain-Due locked now whole (j ∷ t) h = elim (Bool-cases (is_due locked now j)) [
  | inl e ↦ rw e (
    (h j (inl refl), IsDue-of locked now j e),
    retain-Due locked now whole t (λ i k. h i (inr k)),
  )
  | inr e ↦ rw e (retain-Due locked now whole t (λ i k. h i (inr k)))
]

-- Of a table in order, the first few hold a job, or are as many as they may be and none later than it.
take-Sorted :
    (n : ℕ) (j : Job) (t : Table)
    → Sorted t
    → Holds j t
    → Holds j (take n t)
      ⊎ ((length (take n t) ≡ n) × All (λ k. NoLater k.next_run_at j.next_run_at) (take n t))
take-Sorted n j [] s h = absurd h
take-Sorted zero j (k ∷ t) s h = inr (refl, tt)
take-Sorted (suc n) j (k ∷ t) s (inl same) = inl (inl same)
take-Sorted (suc n) j (k ∷ t) s (inr later) = elim (take-Sorted n j t s.1 later) [
  | inl taken ↦ inl (inr taken)
  | inr full ↦ inr (
    ap (λ m. suc m) full.0,
    (All-Holds (λ i. NoLater k.next_run_at i.next_run_at) j t s.0 later, full.1),
  )
]

-- Every job that is claimed is of the table, enabled, not locked by another transaction, and its
-- time has come. A job of the table that is all this is claimed, unless as many jobs as the limit
-- are, of which none has a later time.
pub claim_due-ready :
    (Cron Tz : Type 0) (read_cron : Text → Option Cron) (read_timezone : Text → Option Tz)
    (find_next : Cron → Tz → ℕ → Option ℕ) (locked : Text → Bool) (limit now : ℕ) (t : Table)
    (j : Job)
    → Holds j t
    → All
        (λ k. Holds k t × IsDue locked now k)
        (claim_due Cron Tz read_cron read_timezone find_next locked limit now t).1
      × ((¬ IsDue locked now j)
          ⊎ (Holds j (claim_due Cron Tz read_cron read_timezone find_next locked limit now t).1
              ⊎ ((length (claim_due Cron Tz read_cron read_timezone find_next locked limit now t).1
                    ≡ limit)
                  × All
                      (λ k. NoLater k.next_run_at j.next_run_at)
                      (claim_due Cron Tz read_cron read_timezone find_next locked limit now t).1)))
unfolding claim_due due_jobs
claim_due-ready Cron Tz read_cron read_timezone find_next locked limit now t j h =
    let due = retain (is_due locked now) t in
    (
      All-take _ limit (by_next_run due)
          (All-by_next_run _ due (retain-Due locked now t t (λ i k. k))),
      elim (Bool-cases (is_due locked now j)) [
        | inl e ↦ inr (
            take-Sorted limit j (by_next_run due) (by_next_run-Sorted due)
              (by_next_run-Holds j due (retain-Holds (is_due locked now) j t h e)))
        | inr e ↦ inl (λ d. let on = is_due-of locked now j d in cc)
      ],
    )
