-- ===== src/Base/Words.antt =====
-- Rust's machine words: a value of a w-bit type is a number below 2 ^ w.
use Prim.Native.Nat.{ℕ, ◌+◌, ◌-◌, ◌*◌, ◌/◌, ◌%◌, ◌^◌}

-- `wrapping_add` and `wrapping_sub` at u16, u32 and u64.
abbrev pub wrapping_add16 : ℕ → ℕ → ℕ
wrapping_add16 a b = (a + b) % 2 ^ 16

abbrev pub wrapping_add32 : ℕ → ℕ → ℕ
wrapping_add32 a b = (a + b) % 2 ^ 32

abbrev pub wrapping_add64 : ℕ → ℕ → ℕ
wrapping_add64 a b = (a + b) % 2 ^ 64

abbrev pub wrapping_sub16 : ℕ → ℕ → ℕ
wrapping_sub16 a b = (a + 2 ^ 16 - b) % 2 ^ 16

abbrev pub wrapping_sub32 : ℕ → ℕ → ℕ
wrapping_sub32 a b = (a + 2 ^ 32 - b) % 2 ^ 32

-- Instants and durations are nanoseconds on the monotonic clock, and `elapsed` stops at 0.
abbrev pub millis : ℕ → ℕ
millis n = n * 1000000

abbrev pub as_millis : ℕ → ℕ
as_millis n = n / 1000000
