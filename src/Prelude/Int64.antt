-- ===== src/Prelude/Int64.antt =====
-- Go's `int`, `int64` and `time.Duration`: the bit pattern of a 64-bit word, a number below 2 ^ 64,
-- and `time.Time`: nanoseconds since Go's zero time.
use Prim.Native.Nat.{ℕ, ◌+◌, ◌-◌, ◌*◌, ◌%◌}
use mathlib.Core.Bool.{Bool}
use password_manager.Prelude.Tests.{ltb, if◌then◌else◌}

abbrev pub modulus : ℕ
modulus = 18446744073709551616

abbrev pub half : ℕ
half = 9223372036854775808

-- a < b on signed words.
unfoldable pub int_lt : ℕ → ℕ → Bool
int_lt a b = ltb ((a + half) % modulus) ((b + half) % modulus)

-- a + 1
unfoldable pub int_suc : ℕ → ℕ
int_suc a = (a + 1) % modulus

abbrev pub second : ℕ
second = 1000000000

-- time.Duration(s) * time.Second
unfoldable pub seconds : ℕ → ℕ
seconds s = (s * second) % modulus

-- t.Add(d). An instant before the zero time is read as the zero time.
unfoldable pub time_add : ℕ → ℕ → ℕ
time_add t d = if ltb d half then t + d else t - (modulus - d)
