-- ===== src/Model/Clock.antt =====
-- TicksToNs, ConvTs and the filter for process teardown (src/launcher/Model.cpp).
use dx12track.Prelude.{ℕ, ◌*◌, ◌/◌, ◌≤◌, ◌<◌, ◌≡◌, arith, u64_mod, u64_max}
use Prim.Native.Nat.{min}
use native.Mathlib.Nat.{div-add-mod}
use dx12track.Model.State.{ticks_to_ns}

div-lt_of_lt_mul : (a b c : ℕ) → 0 < b → a < b * c → a / b < c
div-lt_of_lt_mul a b c h k = grind arith

le-div_of_mul_le : (a b c : ℕ) → 0 < b → b * c ≤ a → c ≤ a / b
le-div_of_mul_le a b c h k = grind arith

-- The 128-bit conversion is the exact quotient of the product, cut off at the largest uint64_t,
-- for every frequency but 0.
pub ticks_to_ns-eq-min :
    (ticks freq : ℕ)
    → 0 < freq
    → ticks_to_ns ticks freq ≡ min (ticks * 1_000_000_000 / freq) u64_max
unfolding ticks_to_ns
ticks_to_ns-eq-min ticks freq h =
    let p : ℕ = ticks * 1_000_000_000 in
    ground (
      arith,
      le-div_of_mul_le p freq u64_mod h,
      div-lt_of_lt_mul p freq u64_mod h,
      div-add-mod p u64_mod,
    )
