-- ===== src/RateLimit/Tests.antt =====
-- The limiter and the lockout at concrete inputs.
use lazypock.Base.{◌*◌, ◌≤◌, ◌≡◌, ◌≢◌, refl, arith, [], ◌∷◌, ok, err, leb, if◌then◌else◌}
use lazypock.Base.Text.{Text, codes, text_eq}
use lazypock.Base.Dict.{lookup}
use lazypock.RateLimit.{Limiter, new, check, is_locked}
use lazypock.RateLimit.Window.{IsValid, spent, entry}
use lazypock.RateLimit.Verdict.{Decides, refusal, check-Decides, check-other}
use lazypock.RateLimit.Burst.{admitted, admitted-le-double}
use lazypock.RateLimit.Lockout.{record_failures, is_locked-spent, is_locked-record_failures}

-- Two requests a minute; the client has made one, at second 5.
abbrev client : Text
client = codes "10.0.0.7"

abbrev other : Text
other = codes "10.0.0.8"

client-ne-other : client ≢ other
client-ne-other = ground arith

abbrev limiter : Limiter
limiter = record {
  limit = 2;
  window = 60;
  state = record { counts = (client, record { used = 1; started = 5 }) ∷ []; swept = 0 };
}

limiter-IsValid : IsValid limiter
unfolding lookup
limiter-IsValid = record {
  distinct = (refl, tt);
  enabled = omega arith;
  word = omega arith;
  lasts = omega arith;
}

abbrev fresh : Limiter
fresh = record { limit = 2; window = 60; state = record { counts = []; swept = 0 } }

fresh-IsValid : IsValid fresh
fresh-IsValid = record {
  distinct = tt;
  enabled = omega arith;
  word = omega arith;
  lasts = omega arith;
}

new-fresh : new 2 60 0 ≡ fresh
unfolding new
new-fresh = refl

-- Both the last two requests of a window and the first two of the next are admitted.
burst : admitted client limiter ((64, client) ∷ (65, client) ∷ (66, client) ∷ (67, client) ∷ []) ≡ 3
unfolding admitted text_eq
burst = refl

check-Decides_example : Decides limiter 20 client (check limiter 20 client)
check-Decides_example = check-Decides limiter 20 client limiter-IsValid

check-other_example : spent (check limiter 20 client).0 30 other ≡ spent limiter 30 other
check-other_example =
    check-other limiter 20 30 client other limiter-IsValid (omega arith) client-ne-other

admitted-le-double_example :
    admitted client limiter ((64, client) ∷ (65, client) ∷ (66, client) ∷ (67, client) ∷ []) ≤ 2 * 2
admitted-le-double_example =
    admitted-le-double ((64, client) ∷ (65, client) ∷ (66, client) ∷ (67, client) ∷ []) limiter 60
      client limiter-IsValid (omega arith)

is_locked-spent_example :
    ((is_locked limiter 20 client).1 ≡ (
      if leb 2 (spent limiter 20 client)
      then err (refusal limiter 20 (entry 60 20 client limiter.state))
      else ok tt))
    × (spent (is_locked limiter 20 client).0 30 other ≡ spent limiter 30 other)
is_locked-spent_example = is_locked-spent limiter 20 30 client other limiter-IsValid (omega arith)

is_locked-record_failures_example :
    (is_locked (record_failures fresh client (10 ∷ 20 ∷ 30 ∷ [])) 40 client).1
    ≡ err (record { retry_after = 30 })
is_locked-record_failures_example =
    is_locked-record_failures fresh client 10 40 (20 ∷ 30 ∷ []) fresh-IsValid
      (unfold lookup in refl) (omega arith) (omega arith) (omega arith)
