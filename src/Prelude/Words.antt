-- ===== src/Prelude/Words.antt =====
-- uint64_t arithmetic: addition wraps, and the subtractions that the program guards.
use Prim.Native.Nat.{ℕ, ◌+◌, ◌-◌, ◌%◌, ◌≤◌, ◌<◌}
use mathlib.Core.Path.{◌≡◌}
use native.Mathlib.Omega.{arith}
use dx12track.Prelude.Tests.{leb, if◌then◌else◌}

abbrev pub u64_mod : ℕ
u64_mod = 18_446_744_073_709_551_616

abbrev pub u64_max : ℕ
u64_max = 18_446_744_073_709_551_615

-- a + b on uint64_t.
unfoldable pub add64 : ℕ → ℕ → ℕ
add64 a b = (a + b) % u64_mod

-- a - b on uint64_t.
unfoldable pub sub64 : ℕ → ℕ → ℕ
sub64 a b = (a + u64_mod - b) % u64_mod

-- v >= d ? v - d : 0
unfoldable pub sub_clamped : ℕ → ℕ → ℕ
sub_clamped v d = if leb d v then v - d else 0

-- if (v >= d) v -= d;
unfoldable pub sub_guarded : ℕ → ℕ → ℕ
sub_guarded v d = if leb d v then v - d else v

pub add64_exact : (a b : ℕ) → a + b < u64_mod → add64 a b ≡ a + b
unfolding add64
add64_exact a b h = omega arith

pub sub_clamped_exact : (v d : ℕ) → d ≤ v → sub_clamped v d ≡ v - d
unfolding sub_clamped
sub_clamped_exact v d h = ground arith

pub sub_guarded_exact : (v d : ℕ) → d ≤ v → sub_guarded v d ≡ v - d
unfolding sub_guarded
sub_guarded_exact v d h = ground arith
