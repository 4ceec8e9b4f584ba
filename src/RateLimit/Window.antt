-- ===== src/RateLimit/Window.antt =====
-- What a key has spent in its current window: the view in which the sweep and the expired entries
-- of the map do not show.
use lazypock.Base.{ℕ, ◌-◌, ◌^◌, ◌≤◌, ◌<◌, ◌≡◌, refl, Option, none, some, ltb, if◌then◌else◌, arith}
use lazypock.Base.Text.{Text, text_eq}
use lazypock.Base.Dict.{
  lookup, Distinct, kept, lookup-insert, lookup-retain_values, retain_values-Distinct,
}
use lazypock.RateLimit.{Count, Buckets, Limiter, sweep, current, put}

-- The entry of a key as a call at `t` sees it.
abbrev pub entry : ℕ → ℕ → Text → Buckets → Count
entry window t key b = current t window (lookup key b.counts)

abbrev pub spent : Limiter → ℕ → Text → ℕ
spent l t key = (entry l.window t key l.state).used

-- An enabled limiter with a window, whose map has distinct keys.
pub record IsValid (l : Limiter) : Type 0 where
  pub distinct : Distinct l.state.counts
  pub enabled : 0 < l.limit
  pub word : l.limit < 2 ^ 32
  pub lasts : 0 < l.window

kept-current :
    (now t w : ℕ) (o : Option Count)
    → now ≤ t
    → current t w (kept (λ c. ltb (now - c.started) w) o) ≡ current t w o
unfolding current
kept-current now t w none h = refl
kept-current now t w (some c) h = ground arith

pub entry-sweep :
    (now t w : ℕ) (key : Text) (b : Buckets)
    → Distinct b.counts
    → now ≤ t
    → entry w t key (sweep now w b) ≡ entry w t key b
unfolding sweep
entry-sweep now t w key b d h = ground (
  arith,
  lookup-retain_values (λ (c : Count). ltb (now - c.started) w) key b.counts d,
  kept-current now t w (lookup key b.counts) h,
)

pub sweep-Distinct : (now w : ℕ) (b : Buckets) → Distinct b.counts → Distinct (sweep now w b).counts
unfolding sweep
sweep-Distinct now w b d =
    ground (arith, retain_values-Distinct (λ (c : Count). ltb (now - c.started) w) b.counts d)

-- A write under one key is what a later call sees under that key, and nothing to any other.
pub entry-put :
    (w t : ℕ) (k j : Text) (c : Count) (b : Buckets)
    → entry w t j (put k c b) ≡ (if text_eq k j then current t w (some c) else entry w t j b)
unfolding current
entry-put w t k j c b = rw (lookup-insert k j c b.counts) (ground arith)

-- The entry that a call creates or resets is already the current one.
pub current-current :
    (now w : ℕ) (o : Option Count) → current now w (some (current now w o)) ≡ current now w o
unfolding current
current-current now w none = ground arith
current-current now w (some c) = ground arith
