-- ===== src/Prelude/Words.antt =====
-- Go's `int64` as its 64 bits: a negative number is the one that is 2^64 larger.
use Prim.Native.Nat.{ℕ, ◌+◌, ◌%◌, ◌^◌}
use mathlib.Core.Bool.{Bool}
use benzene_go.Prelude.Tests.{ltb}

-- A sum or difference wraps around.
abbrev pub int64 : ℕ → ℕ
int64 n = n % 2 ^ 64

-- `a < b` on the signed numbers
abbrev pub int64_ltb : ℕ → ℕ → Bool
int64_ltb a b = ltb (int64 (a + 2 ^ 63)) (int64 (b + 2 ^ 63))
