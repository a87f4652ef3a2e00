-- ===== src/Prelude/Word.antt =====
-- Numbers of 64 bits, which wrap around.
use schedcore.Prelude.{ℕ, ◌+◌, ◌-◌, ◌%◌, ◌^◌}

abbrev pub wrap : ℕ → ℕ
wrap n = n % 2 ^ 64

-- `a - b` of two u64
abbrev pub sub64 : ℕ → ℕ → ℕ
sub64 a b = (a + 2 ^ 64 - b) % 2 ^ 64
