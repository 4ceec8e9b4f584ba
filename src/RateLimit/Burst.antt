-- ===== src/RateLimit/Burst.antt =====
-- How many requests of one key are admitted in any stretch of time no longer than the window.
use lazypock.Base.{
  ℕ, ◌+◌, ◌-◌, ◌*◌, ◌≤◌, ◌<◌, ◌≡◌, refl, subst, Bool, true, false, ◌&&◌, ◌⊎◌, inl, inr, List, [],
  ◌∷◌, Option, none, some, Result, ok, err, ltb, leb, if◌then◌else◌, arith, Bool-cases, All,
}
use lazypock.Base.Text.{Text, text_eq, text_eq_iff, text_eq_refl}
use lazypock.Base.Dict.{lookup, Distinct, kept, lookup-insert, lookup-retain_values}
use lazypock.RateLimit.{Count, Buckets, Limiter, Refused, sweep, current, increment, check}
use lazypock.RateLimit.Window.{entry, IsValid}
use lazypock.RateLimit.Verdict.{charged, check_lem, check-IsValid}

abbrev pub is_ok : Result Refused (Unit {0}) → Bool
is_ok (ok u) = true
is_ok (err e) = false

-- How many requests of `key` are admitted when a list of timed requests is checked in turn.
unfoldable pub admitted : Text → Limiter → List (ℕ × Text) → ℕ
unfolding check
admitted key l [] = 0
admitted key l ((now, k) ∷ rest) =
    (if text_eq k key && is_ok (check l now k).1 then 1 else 0)
    + admitted key (check l now k).0 rest

-- What the entry of a key still allows from the instant `a` on, if no window ends twice.
abbrev budget : ℕ → ℕ → Option Count → ℕ
budget limit a none = limit
budget limit a (some c) = if leb a c.started then limit - c.used else limit - c.used + limit

lookup-sweep :
    (now w : ℕ) (key : Text) (b : Buckets)
    → Distinct b.counts
    → (lookup key (sweep now w b).counts ≡ lookup key b.counts)
      ⊎ (lookup key (sweep now w b).counts
          ≡ kept (λ c. ltb (now - c.started) w) (lookup key b.counts))
unfolding sweep
lookup-sweep now w key b d =
    ground (arith, lookup-retain_values (λ (c : Count). ltb (now - c.started) w) key b.counts d)

module _ (limit w a now : ℕ) (h : a ≤ now) (k : now < a + w) where
  -- A sweep allows no more than before.
  budget-kept :
      (o : Option Count) → budget limit a (kept (λ c. ltb (now - c.started) w) o) ≤ budget limit a o
  budget-kept none = omega arith
  budget-kept (some c) = ground arith

-- An admitted request uses up one of what its key is allowed; a refused one uses up nothing.
budget-charged :
    (l : Limiter) (a now : ℕ) (o : Option Count)
    → IsValid l
    → a ≤ now
    → now < a + l.window
    → (if leb l.limit (current now l.window o).used then 0 else 1)
        + budget l.limit a (some (charged l (current now l.window o)))
      ≤ budget l.limit a o
unfolding current increment
budget-charged l a now none v h k = ground (arith, v.enabled, v.word, v.lasts)
budget-charged l a now (some c) v h k = ground (arith, v.enabled, v.word, v.lasts)

-- Whether a request of `key` is admitted, as a number.
abbrev counted : Text → Limiter → ℕ → Text → ℕ
counted key l now k = if text_eq k key && is_ok (check l now k).1 then 1 else 0

counted_self :
    (l : Limiter) (now : ℕ) (k : Text)
    → IsValid l
    → counted k l now k ≡ (if leb l.limit (entry l.window now k l.state).used then 0 else 1)
counted_self l now k v =
    rw (text_eq_refl k, check_lem l now k v)
      (elim (Bool-cases (leb l.limit (entry l.window now k l.state).used)) [
        | inl full ↦ rw full
        | inr room ↦ rw room
      ])

lookup-check :
    (l : Limiter) (now : ℕ) (k key : Text)
    → IsValid l
    → lookup key (check l now k).0.state.counts ≡ (
        if text_eq k key
        then some (charged l (entry l.window now k l.state))
        else lookup key (sweep now l.window l.state).counts)
lookup-check l now k key v =
    rw (check_lem l now k v) (lookup-insert k key _ (sweep now l.window l.state).counts)

budget-check :
    (l : Limiter) (a now : ℕ) (k key : Text)
    → IsValid l
    → a ≤ now
    → now < a + l.window
    → counted key l now k + budget l.limit a (lookup key (check l now k).0.state.counts)
      ≤ budget l.limit a (lookup key l.state.counts)
budget-check l a now k key v h b = elim (Bool-cases (text_eq k key)) [
  | inl same ↦
      let e = (text_eq_iff k key).0 same in
      subst
        (λ j.
          counted j l now k + budget l.limit a (lookup j (check l now k).0.state.counts)
          ≤ budget l.limit a (lookup j l.state.counts))
        e
        (rw (counted_self l now k v, lookup-check l now k k v, text_eq_refl k)
          (budget-charged l a now (lookup k l.state.counts) v h b))
  | inr apart ↦
      rw (apart, lookup-check l now k key v, apart)
        (elim (lookup-sweep now l.window key l.state v.distinct) [
          | inl e ↦ rw e (omega arith)
          | inr e ↦
              rw e
                (omega (arith, budget-kept l.limit l.window a now h b (lookup key l.state.counts)))
        ])
]

check-limit :
    (l : Limiter) (now : ℕ) (key : Text)
    → IsValid l
    → ((check l now key).0.limit ≡ l.limit) × ((check l now key).0.window ≡ l.window)
check-limit l now key v = rw (check_lem l now key v) (refl, refl)

abbrev pub Within : ℕ → ℕ → ℕ × Text → Type 0
Within a w r = (a ≤ r.0) × (r.0 < a + w)

admitted-budget :
    (es : List (ℕ × Text)) (l : Limiter) (a : ℕ) (key : Text)
    → IsValid l
    → All (Within a l.window) es
    → admitted key l es ≤ budget l.limit a (lookup key l.state.counts)
unfolding admitted
admitted-budget [] l a key v h = omega arith
admitted-budget ((now, k) ∷ es) l a key v h =
    let same = check-limit l now k v in
    let rest =
      admitted-budget es (check l now k).0 a key (check-IsValid l now k v) (rw same.1 h.1) in
    let now_on = rw same.0 at rest in
    omega (arith, now_on, budget-check l a now k key v h.0.0 h.0.1)

-- In any stretch of time no longer than the window, however many requests of however many keys
-- are checked, at most twice the limit of one key's are admitted.
pub admitted-le-double :
    (es : List (ℕ × Text)) (l : Limiter) (a : ℕ) (key : Text)
    → IsValid l
    → All (Within a l.window) es
    → admitted key l es ≤ 2 * l.limit
admitted-le-double es l a key v h =
    omega (arith, admitted-budget es l a key v h, bound (lookup key l.state.counts))
  where
    bound : (o : Option Count) → budget l.limit a o ≤ 2 * l.limit
    bound none = omega arith
    bound (some c) = ground arith
