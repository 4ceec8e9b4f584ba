-- ===== src/RateLimit.antt =====
-- crates/api/src/rate_limit.rs: the per-node limiter and the account lockout. The instant of a call is
-- an argument, in any unit; a call is taken to happen at one instant. A counter is a u32.
mod Window
pub mod Verdict
pub mod Burst
pub mod Lockout
mod Tests
use lazypock.Base.{
  ℕ, ◌+◌, ◌-◌, ◌%◌, ◌^◌, Bool, true, false, not, ◌&&◌, ◌||◌, List, [], ◌∷◌, Option, none, some,
  Result, ok, err, ltb, leb, ◌==◌, if◌then◌else◌, length,
}
use lazypock.Base.Text.{Text}
use lazypock.Base.Dict.{Dict, lookup, insert, remove, retain_values}

-- `SWEEP_AT`.
abbrev pub sweep_at : ℕ
sweep_at = 10_000

pub record Count : Type 0 where
  pub used : ℕ
  pub started : ℕ

pub record Buckets : Type 0 where
  pub counts : Dict Count
  pub swept : ℕ

pub record Refused : Type 0 where
  pub retry_after : ℕ

pub record Limiter : Type 0 where
  pub limit : ℕ
  pub window : ℕ
  pub state : Buckets

abbrev pub is_enabled : ℕ → Bool
is_enabled limit = ltb 0 limit

-- `Limiter::new` and `Lockout::new` at an instant.
unfoldable pub new : ℕ → ℕ → ℕ → Limiter
new limit window now = record {
  limit = limit;
  window = window;
  state = record { counts = []; swept = now };
}

-- `Buckets::sweep`.
unfoldable pub sweep : ℕ → ℕ → Buckets → Buckets
unfolding retain_values
sweep now window b =
    if ltb (length b.counts) sweep_at || ltb (now - b.swept) window
    then b
    else record { counts = retain_values (λ c. ltb (now - c.started) window) b.counts; swept = now }

-- The entry of a key, inserted if it is missing and reset if its window is over.
unfoldable pub current : ℕ → ℕ → Option Count → Count
current now window none = record { used = 0; started = now }
current now window (some c) =
    if leb window (now - c.started) then record { used = 0; started = now } else c

-- `+= 1` on a u32, which wraps in a release build.
unfoldable pub increment : Count → Count
increment c = record c { used = (c.used + 1) % 2 ^ 32 }

abbrev pub put : Text → Count → Buckets → Buckets
put key c b = record b { counts = insert key c b.counts }

-- `Limiter::check`.
unfoldable pub check : Limiter → ℕ → Text → Limiter × Result Refused (Unit {0})
unfolding sweep current increment lookup insert
check l now key =
    if not (is_enabled l.limit)
    then (l, ok tt)
    else let s = sweep now l.window l.state in
      let c = current now l.window (lookup key s.counts) in
      if leb l.limit c.used
      then (
        record l { state = put key c s },
        err (record { retry_after = l.window - (now - c.started) }),
      )
      else (record l { state = put key (increment c) s }, ok tt)

-- The match in `Lockout::is_locked`: `err` if the key has exhausted its failures.
unfoldable pub lock_verdict : ℕ → ℕ → ℕ → Option Count → Result Refused (Unit {0})
lock_verdict limit window now none = ok tt
lock_verdict limit window now (some c) =
    if leb limit c.used && ltb (now - c.started) window
    then err (record { retry_after = window - (now - c.started) })
    else ok tt

-- `Lockout::is_locked`; a `Lockout` has the fields of a `Limiter`.
unfoldable pub is_locked : Limiter → ℕ → Text → Limiter × Result Refused (Unit {0})
unfolding sweep lookup lock_verdict
is_locked l now key =
    if not (is_enabled l.limit)
    then (l, ok tt)
    else let s = sweep now l.window l.state in
      (record l { state = s }, lock_verdict l.limit l.window now (lookup key s.counts))

-- `Lockout::record_failure`.
unfoldable pub record_failure : Limiter → ℕ → Text → Limiter
unfolding sweep current increment lookup insert
record_failure l now key =
    if not (is_enabled l.limit)
    then l
    else let s = sweep now l.window l.state in
      record l { state = put key (increment (current now l.window (lookup key s.counts))) s }

-- `Lockout::clear`.
unfoldable pub clear : Limiter → Text → Limiter
unfolding remove
clear l key =
    if not (is_enabled l.limit)
    then l
    else record l { state = record { counts = remove key l.state.counts; swept = l.state.swept } }
