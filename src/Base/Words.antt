-- ===== src/Base/Words.antt =====
-- Rust's `u64` arithmetic where the program saturates, checks or parses a number.
use Prim.Native.Nat.{ℕ, ◌+◌, ◌≤◌}
use mathlib.Core.Option.{Option, none, some}
use native.Mathlib.Omega.{arith}
use ffmpeg_docker_playground.Base.Tests.{ltb, if◌then◌else◌}

-- `u64::MAX`
abbrev pub u64_max : ℕ
u64_max = 18_446_744_073_709_551_615

-- `u64::saturating_add`
unfoldable pub saturating_add : ℕ → ℕ → ℕ
saturating_add a b = if ltb u64_max (a + b) then u64_max else a + b

-- `u64::checked_add`
unfoldable pub checked_add : ℕ → ℕ → Option ℕ
checked_add a b = if ltb u64_max (a + b) then none else some (a + b)

pub saturating_add-le : (a b : ℕ) → saturating_add a b ≤ a + b
unfolding saturating_add
saturating_add-le a b = ground arith

pub le-saturating_add : (a b c : ℕ) → c ≤ u64_max → c ≤ a + b → c ≤ saturating_add a b
unfolding saturating_add
le-saturating_add a b c h k = ground arith
