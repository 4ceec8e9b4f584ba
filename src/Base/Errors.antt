-- ===== src/Base/Errors.antt =====
-- crates/core/src/error.rs: the kinds of error, and the decimal spelling of a number.
use Prim.Native.Nat.{ℕ, zero, suc, ◌+◌, ◌/◌, ◌%◌}
use mathlib.Core.List.{[], ◌∷◌}
use lazypock.Base.Tests.{ltb, if◌then◌else◌}
use lazypock.Base.Text.{Text}

-- An error stands by its kind, without its message.
pub data Fault : Type 0 where
  config unsupported invalid not_found conflict unauthorized forbidden internal : Fault

-- The digits of a number, before those that are written already.
unfoldable pub write_decimal : ℕ → ℕ → Text → Text
write_decimal zero n rest = rest
write_decimal (suc fuel) n rest =
    let more = write_decimal fuel (n / 10) ((b'0' + n % 10) ∷ rest) in
    if ltb n 10 then (b'0' + n) ∷ rest else more

-- `{}` of a number, which has fewer digits than one more than itself.
unfoldable pub decimal : ℕ → Text
unfolding write_decimal
decimal n = write_decimal (suc n) n []
