-- ===== src/Seqno.antt =====
-- Sequence numbers: `seqno_incr` of code/aodv-uu-0.96/routing_table.h, and the comparison of
-- sequence numbers that the handlers write out.
use aodv_uu.Prelude.{ℕ, ◌==◌, ◌+◌, if◌then◌else◌}
pub mod Order

-- The value of `s` after the macro. A number 0, which stands for "unknown", stays.
unfoldable pub seqno_incr : ℕ → ℕ
seqno_incr s = if s == 0 then 0 else if s == 0xffffffff then 1 else s + 1
