-- ===== src/RateLimit/Lockout.antt =====
-- The account lockout: counted are failures alone, and they are forgotten by a success or with time.
use lazypock.Base.{
  ℕ, suc, ◌+◌, ◌-◌, ◌^◌, ◌≤◌, ◌<◌, ◌≡◌, ◌≢◌, refl, ap, sym, ◌∙◌, true, false, inl, inr, List, [],
  ◌∷◌, Option, none, some, ok, err, ltb, leb, if◌then◌else◌, arith, Bool-cases, All, length,
}
use lazypock.Base.Text.{Text, text_eq, text_eq_iff, text_eq_refl}
use lazypock.Base.Dict.{
  lookup, remove, lookup-insert, lookup-remove, insert-Distinct, remove-Distinct,
}
use lazypock.RateLimit.{
  Count, Limiter, sweep, current, increment, put, lock_verdict, is_locked, record_failure, clear,
}
use lazypock.RateLimit.Window.{entry, spent, IsValid, entry-sweep, entry-put, sweep-Distinct}
use lazypock.RateLimit.Verdict.{refusal}

lock_verdict-current :
    (limit w now : ℕ) (o : Option Count)
    → 0 < limit
    → lock_verdict limit w now o ≡ (
        if leb limit (current now w o).used
        then err (record { retry_after = w - (now - (current now w o).started) })
        else ok tt)
unfolding current lock_verdict
lock_verdict-current limit w now none h = ground arith
lock_verdict-current limit w now (some c) h = ground arith

abbrev used : Count → ℕ
used c = c.used

-- A key is locked exactly while its failures in the current window have reached the limit, and is
-- told to come back when that window is over. Asking changes what no key has spent, now or later.
pub is_locked-spent :
    (l : Limiter) (now t : ℕ) (key j : Text)
    → IsValid l
    → now ≤ t
    → ((is_locked l now key).1 ≡ (
        if leb l.limit (spent l now key)
        then err (refusal l now (entry l.window now key l.state))
        else ok tt))
      × (spent (is_locked l now key).0 t j ≡ spent l t j)
unfolding is_locked
is_locked-spent l now t key j v h =
    let on : ltb 0 l.limit ≡ true = ground (arith, v.enabled) in
    (
      rw on (
          lock_verdict-current l.limit l.window now _ v.enabled
          ∙ rw (entry-sweep now now l.window key l.state v.distinct (omega arith))),
      rw on (ap used (entry-sweep now t l.window j l.state v.distinct h)),
    )

record_failure_lem :
    (l : Limiter) (now : ℕ) (key : Text)
    → IsValid l
    → record_failure l now key ≡ record l {
      state = put key (increment (entry l.window now key l.state)) (sweep now l.window l.state);
    }
unfolding record_failure
record_failure_lem l now key v =
    let on : ltb 0 l.limit ≡ true = ground (arith, v.enabled) in
    rw (on, entry-sweep now now l.window key l.state v.distinct (omega arith))

pub record_failure-IsValid :
    (l : Limiter) (now : ℕ) (key : Text) → IsValid l → IsValid (record_failure l now key)
record_failure-IsValid l now key v = rw (record_failure_lem l now key v) (record {
  distinct =
      insert-Distinct key _ (sweep now l.window l.state).counts
        (sweep-Distinct now l.window l.state v.distinct);
  enabled = v.enabled;
  word = v.word;
  lasts = v.lasts;
})

clear_lem :
    (l : Limiter) (key : Text)
    → IsValid l
    → clear l key
      ≡ record l { state = record { counts = remove key l.state.counts; swept = l.state.swept } }
unfolding clear
clear_lem l key v = let on : ltb 0 l.limit ≡ true = ground (arith, v.enabled) in rw on

clear-IsValid : (l : Limiter) (key : Text) → IsValid l → IsValid (clear l key)
clear-IsValid l key v = rw (clear_lem l key v) (record {
  distinct = remove-Distinct key l.state.counts v.distinct;
  enabled = v.enabled;
  word = v.word;
  lasts = v.lasts;
})

record_failure-entry :
    (l : Limiter) (now t : ℕ) (key j : Text)
    → IsValid l
    → now ≤ t
    → text_eq key j ≡ false
    → entry (record_failure l now key).window t j (record_failure l now key).state
      ≡ entry l.window t j l.state
record_failure-entry l now t key j v h apart = rw (record_failure_lem l now key v) (
    entry-put l.window t key j _ (sweep now l.window l.state)
    ∙ rw (apart, entry-sweep now t l.window j l.state v.distinct h))

clear-entry :
    (l : Limiter) (t : ℕ) (key j : Text)
    → IsValid l
    → text_eq key j ≡ false
    → entry (clear l key).window t j (clear l key).state ≡ entry l.window t j l.state
clear-entry l t key j v apart =
    rw (clear_lem l key v) (rw (lookup-remove key j l.state.counts, apart))

-- A failure of one key leaves what any other key has spent, now and later, and so does clearing
-- it.
pub record_failure-other :
    (l : Limiter) (now t : ℕ) (key j : Text)
    → IsValid l
    → now ≤ t
    → key ≢ j
    → (spent (record_failure l now key) t j ≡ spent l t j) × (spent (clear l key) t j ≡ spent l t j)
record_failure-other l now t key j v h n = elim (Bool-cases (text_eq key j)) [
  | inl same ↦ absurd (n ((text_eq_iff key j).0 same))
  | inr apart ↦ (
    ap used (record_failure-entry l now t key j v h apart),
    ap used (clear-entry l t key j v apart),
  )
]

-- What a key's entry is after some failures, in a lockout that is otherwise the same.
abbrev Holds : Limiter → Limiter → Text → Count → Type 0
Holds l' l key c =
    (lookup key l'.state.counts ≡ some c)
    × (l'.limit ≡ l.limit)
    × (l'.window ≡ l.window)
    × IsValid l'

record_failure-Holds :
    (l : Limiter) (t : ℕ) (key : Text)
    → IsValid l
    → Holds (record_failure l t key) l key (increment (entry l.window t key l.state))
record_failure-Holds l t key v = (
  rw (record_failure_lem l t key v)
      (lookup-insert key key _ (sweep t l.window l.state).counts ∙ rw (text_eq_refl key)),
  rw (record_failure_lem l t key v),
  rw (record_failure_lem l t key v),
  record_failure-IsValid l t key v,
)

-- A number of failures of one key, each at its own time.
unfoldable pub record_failures : Limiter → Text → List ℕ → Limiter
unfolding record_failure
record_failures l key [] = l
record_failures l key (t ∷ ts) = record_failures (record_failure l t key) key ts

abbrev pub During : ℕ → ℕ → ℕ → Type 0
During s w t = (s ≤ t) × (t < s + w)

abbrev after : ℕ → Count → Count
after n c = record { used = c.used + n; started = c.started }

-- A failure in the window of its key's entry counts one more.
increment-current :
    (t w : ℕ) (o : Option Count) (c : Count)
    → o ≡ some c
    → c.used + 1 < 2 ^ 32
    → During c.started w t
    → increment (current t w o) ≡ after 1 c
unfolding increment current
increment-current t w o c e u d = rw e (ground arith)

record_failures-Holds :
    (ts : List ℕ) (l : Limiter) (key : Text) (c : Count)
    → IsValid l
    → lookup key l.state.counts ≡ some c
    → c.used + length ts < 2 ^ 32
    → All (During c.started l.window) ts
    → Holds (record_failures l key ts) l key (after (length ts) c)
unfolding record_failures
record_failures-Holds [] l key c v h u k = (h ∙ ground arith, refl, refl, v)
record_failures-Holds (t ∷ ts) l key c v h u k =
    let (found, limit, window, valid) = record_failure-Holds l t key v in
    let one = increment-current t l.window (lookup key l.state.counts) c h (omega arith) k.0 in
    let (f, m, w, i) =
      record_failures-Holds ts (record_failure l t key) key (after 1 c) valid
        (found ∙ ap (λ x. some x) one) (omega arith) (rw window k.1) in
    (f ∙ ground arith, m ∙ limit, w ∙ window, i)

-- The verdict reads the entry as it stood before the sweep.
is_locked-lookup :
    (l : Limiter) (now : ℕ) (key : Text)
    → IsValid l
    → (is_locked l now key).1 ≡ lock_verdict l.limit l.window now (lookup key l.state.counts)
is_locked-lookup l now key v =
    (is_locked-spent l now now key key v (omega arith)).0
    ∙ sym (lock_verdict-current l.limit l.window now (lookup key l.state.counts) v.enabled)

-- Of a key that has no failures, some failures in one window lock it exactly if there are as many
-- as the limit, and until that window is over; the wait that is told is the rest of the window.
-- Fewer than 2 ^ 32 failures are counted.
pub is_locked-record_failures :
    (l : Limiter) (key : Text) (t now : ℕ) (ts : List ℕ)
    → IsValid l
    → lookup key l.state.counts ≡ none
    → suc (length ts) < 2 ^ 32
    → All (During t l.window) ts
    → During t l.window now
    → (is_locked (record_failures l key (t ∷ ts)) now key).1 ≡ (
        if leb l.limit (suc (length ts))
        then err (record { retry_after = l.window - (now - t) })
        else ok tt)
unfolding record_failures lock_verdict increment current
is_locked-record_failures l key t now ts v h u k d =
    let (found, limit, window, valid) = record_failure-Holds l t key v in
    let first : increment (current t l.window (lookup key l.state.counts))
        ≡ record { used = 1; started = t } =
      rw h in
    let (f, m, w, i) =
      record_failures-Holds ts (record_failure l t key) key (record { used = 1; started = t }) valid
        (found ∙ ap (λ x. some x) first) (omega arith) (rw window k) in
    is_locked-lookup (record_failures (record_failure l t key) key ts) now key i
    ∙ rw (f, m, w, limit, window) (ground arith)

-- After a success no failure of the key counts any more.
pub is_locked-clear :
    (l : Limiter) (now : ℕ) (key : Text) → IsValid l → (is_locked (clear l key) now key).1 ≡ ok tt
is_locked-clear l now key v =
    is_locked-lookup (clear l key) now key (clear-IsValid l key v)
    ∙ rw (clear_lem l key v)
        (rw (lookup-remove key key l.state.counts, text_eq_refl key) (unfold lock_verdict in refl))
