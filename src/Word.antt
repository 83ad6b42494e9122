-- ===== src/Word.antt =====
-- The fixed-width integers of the C code: wrap-around, the casts to `int32_t`, and flag words.
-- A value is a plain number; what the C type cuts off is written out.
use aodv_uu.Prelude.{ℕ, ◌+◌, ◌-◌, ◌/◌, ◌%◌, Bool, ltb, ◌==◌, ℤ, pos, negsuc, if◌then◌else◌}

-- `u_int8_t` and `u_int32_t`, with 2 ^ 8 and 2 ^ 32 values.
abbrev pub u8 : (value : ℕ) → ℕ
u8 value = value % 256

abbrev pub u32 : (value : ℕ) → ℕ
u32 value = value % 4294967296

-- `x++` and `x--` on a 32-bit word; an `int` is its bit pattern.
abbrev pub inc32 : ℕ → ℕ
inc32 n = u32 (n + 1)

abbrev pub dec32 : ℕ → ℕ
dec32 n = u32 (n + 4294967295)

-- `(int32_t) a < (int32_t) b`: the cast orders the words from 0x80000000 up, round to 0x7fffffff.
abbrev pub lt_i32 : ℕ → ℕ → Bool
lt_i32 a b = ltb (u32 (a + 2147483648)) (u32 (b + 2147483648))

-- `f & m`, `f | m` and `f & ~m` for a mask `m` with one bit.
abbrev pub has_flag : ℕ → ℕ → Bool
has_flag f m = f / m % 2 == 1

abbrev pub set_flag : ℕ → ℕ → ℕ
set_flag f m = if has_flag f m then f else f + m

abbrev pub clear_flag : ℕ → ℕ → ℕ
clear_flag f m = if has_flag f m then f - m else f

-- `--x` of an `int` that becomes a byte: 255 follows on 0.
abbrev pub dec8 : (value : ℕ) → ℕ
dec8 value = u8 (value + 255)

-- `x - y` on 32-bit words.
abbrev pub sub32 : ℕ → ℕ → ℕ
sub32 a b = u32 (u32 a + (4294967296 - u32 b))

-- A `long` that is stored in 32 bits.
abbrev pub u32_ℤ : ℤ → ℕ
u32_ℤ (pos n) = u32 n
u32_ℤ (negsuc n) = 4294967295 - u32 n

abbrev pub u16 : (value : ℕ) → ℕ
u16 value = value % 65536
