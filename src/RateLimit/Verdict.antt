-- ===== src/RateLimit/Verdict.antt =====
-- `Limiter::check` against its promise: so many requests in a window for each key.
use lazypock.Base.{
  ℕ, ◌+◌, ◌-◌, ◌≤◌, ◌<◌, ◌≡◌, ◌≢◌, ap, ◌∙◌, true, false, ◌⊎◌, inl, inr, Option, none, some, Result,
  ok, err, ltb, leb, if◌then◌else◌, arith, Bool-cases,
}
use lazypock.Base.Text.{Text, text_eq, text_eq_iff, text_eq_refl}
use lazypock.Base.Dict.{lookup, insert-Distinct}
use lazypock.RateLimit.{Count, Limiter, Refused, sweep, current, increment, put, check}
use lazypock.RateLimit.Window.{entry, spent, IsValid, entry-sweep, sweep-Distinct, entry-put}

abbrev used : Count → ℕ
used c = c.used

-- What `check` writes back.
abbrev pub charged : Limiter → Count → Count
charged l c = if leb l.limit c.used then c else increment c

abbrev pub refusal : Limiter → ℕ → Count → Refused
refusal l now c = record { retry_after = l.window - (now - c.started) }

pub check_lem :
    (l : Limiter) (now : ℕ) (key : Text)
    → IsValid l
    → let c = entry l.window now key l.state in
      check l now key ≡ (
        record l { state = put key (charged l c) (sweep now l.window l.state) },
        (if leb l.limit c.used then err (refusal l now c) else ok tt),
      )
unfolding check
check_lem l now key v =
    let e = entry-sweep now now l.window key l.state v.distinct (omega arith) in
    let on : ltb 0 l.limit ≡ true = ground (arith, v.enabled) in
    rw (on, e)
      (elim (Bool-cases (leb l.limit (entry l.window now key l.state).used)) [
        | inl full ↦ rw full
        | inr room ↦ rw room
      ])

check-state :
    (l : Limiter) (now : ℕ) (key : Text)
    → IsValid l
    → (check l now key).0 ≡ record l {
      state = put key (charged l (entry l.window now key l.state)) (sweep now l.window l.state);
    }
check-state l now key v = ap (λ r. r.0) (check_lem l now key v)

-- The entry that a call at `t` sees under any key, after a check.
pub check-entry :
    (l : Limiter) (now t : ℕ) (key j : Text)
    → IsValid l
    → now ≤ t
    → entry (check l now key).0.window t j (check l now key).0.state ≡ (
        if text_eq key j
        then current t l.window (some (charged l (entry l.window now key l.state)))
        else entry l.window t j l.state)
check-entry l now t key j v k =
    let c = charged l (entry l.window now key l.state) in
    rw (check-state l now key v) (
      entry-put l.window t key j c (sweep now l.window l.state)
      ∙ rw (entry-sweep now t l.window j l.state v.distinct k))

pub check-IsValid : (l : Limiter) (now : ℕ) (key : Text) → IsValid l → IsValid (check l now key).0
check-IsValid l now key v = rw (check_lem l now key v) (record {
  distinct =
      insert-Distinct key _ (sweep now l.window l.state).counts
        (sweep-Distinct now l.window l.state v.distinct);
  enabled = v.enabled;
  word = v.word;
  lasts = v.lasts;
})

charged-current :
    (l : Limiter) (now : ℕ) (o : Option Count)
    → 0 < l.window
    → current now l.window (some (charged l (current now l.window o)))
      ≡ charged l (current now l.window o)
unfolding current increment
charged-current l now none h = ground arith
charged-current l now (some c) h = ground arith

check-entry_self :
    (l : Limiter) (now : ℕ) (key : Text)
    → IsValid l
    → entry (check l now key).0.window now key (check l now key).0.state
      ≡ charged l (entry l.window now key l.state)
check-entry_self l now key v =
    check-entry l now now key key v (omega arith)
    ∙ rw (text_eq_refl key) (charged-current l now (lookup key l.state.counts) v.lasts)

check-entry_other :
    (l : Limiter) (now t : ℕ) (key j : Text)
    → IsValid l
    → now ≤ t
    → text_eq key j ≡ false
    → entry (check l now key).0.window t j (check l now key).0.state ≡ entry l.window t j l.state
check-entry_other l now t key j v k apart = check-entry l now t key j v k ∙ rw apart

check-spent :
    (l : Limiter) (now : ℕ) (key : Text)
    → IsValid l
    → spent (check l now key).0 now key ≡ (charged l (entry l.window now key l.state)).used
check-spent l now key v = ap used (check-entry_self l now key v)

-- What one request of a key does and is told, by what the key has spent in its window.
abbrev pub Decides : Limiter → ℕ → Text → Limiter × Result Refused (Unit {0}) → Type 0
Decides l now key r =
    ((spent l now key < l.limit) × (r.1 ≡ ok tt) × (spent r.0 now key ≡ spent l now key + 1))
    ⊎ ((l.limit ≤ spent l now key)
        × (r.1 ≡ err (refusal l now (entry l.window now key l.state)))
        × (spent r.0 now key ≡ spent l now key))

-- While a key has spent less than the limit in its window, a request of it is admitted and counts
-- one; from then on it is refused, counts nothing, and is told to come back when the window is
-- over. The limiter is enabled, with a window and distinct keys.
pub check-Decides :
    (l : Limiter) (now : ℕ) (key : Text) → IsValid l → Decides l now key (check l now key)
unfolding increment
check-Decides l now key v = elim (Bool-cases (leb l.limit (spent l now key))) [
  | inl full ↦ inr (
    ground arith,
    ap (λ r. r.1) (check_lem l now key v) ∙ rw full,
    check-spent l now key v ∙ rw full,
  )
  | inr room ↦ inl (
    ground arith,
    ap (λ r. r.1) (check_lem l now key v) ∙ rw room,
    check-spent l now key v ∙ rw room (ground (arith, v.word)),
  )
]

-- A request of one key leaves what every other key has spent, now and at any later time.
pub check-other :
    (l : Limiter) (now t : ℕ) (key j : Text)
    → IsValid l
    → now ≤ t
    → key ≢ j
    → spent (check l now key).0 t j ≡ spent l t j
check-other l now t key j v k n = elim (Bool-cases (text_eq key j)) [
  | inl same ↦ absurd (n ((text_eq_iff key j).0 same))
  | inr apart ↦ ap used (check-entry_other l now t key j v k apart)
]
