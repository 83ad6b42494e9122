-- ===== src/Seqno/Order.antt =====
-- What the comparison makes of an increment.
use aodv_uu.Prelude.{ℕ, ◌<◌, ◌≡◌, ◌≢◌, ◌↔◌, true, arith}
use aodv_uu.Word.{lt_i32}
use aodv_uu.Seqno.{seqno_incr}

-- A known sequence number of 32 bits, one that is not 0, is still known after an increment, and has
-- 32 bits.
pub seqno_incr-bounds :
    (s : ℕ) → s < 4294967296 → s ≢ 0 → (seqno_incr s ≢ 0) × (seqno_incr s < 4294967296)
unfolding seqno_incr
seqno_incr-bounds s h p = ground arith

-- The comparison by `(int32_t)` that the handlers use calls a 32-bit number older than its increment
-- exactly if it is neither 0, the unknown number, nor 0x7fffffff, whose increment is negative.
pub seqno_incr-newer :
    (s : ℕ) → s < 4294967296 → (lt_i32 s (seqno_incr s) ≡ true) ↔ ((s ≢ 0) × (s ≢ 0x7fffffff))
unfolding seqno_incr
seqno_incr-newer s h = ground arith
