-- ===== src/Base/Words.antt =====
-- Go's fixed-width unsigned counters: an increment wraps.
use Prim.Native.Nat.{ℕ, ◌+◌, ◌%◌, ◌^◌, ◌<◌}
use mathlib.Core.Path.{◌≡◌}
use native.Mathlib.Omega.{arith}

abbrev pub inc64 : ℕ → ℕ
inc64 n = (n + 1) % 2 ^ 64

abbrev pub inc32 : ℕ → ℕ
inc32 n = (n + 1) % 2 ^ 32

pub inc64_exact : (n : ℕ) → n + 1 < 2 ^ 64 → inc64 n ≡ n + 1
inc64_exact n h = omega arith

pub inc32_exact : (n : ℕ) → n + 1 < 2 ^ 32 → inc32 n ≡ n + 1
inc32_exact n h = omega arith
