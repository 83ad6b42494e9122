-- ===== src/Rreq/Lifetime.antt =====
-- The lifetime of the reverse route that a RREQ makes.
use aodv_uu.Prelude.{ℕ, ◌+◌, ◌*◌, ◌≤◌, ◌<◌, ◌≡◌, arith}
use aodv_uu.Rreq.Common.{reverse_life}

-- For the hop count of a received RREQ, a byte, the lifetime of the reverse route is what is left of the
-- 2450 ms of a path discovery after 70 ms for each hop and one more, as long as the hop count is 34 at
-- most. From 35 on the difference wraps around: the route lives for 2 ^ 32 ms but 15470 at least, more
-- than 49 days.
pub reverse_life-bounds :
    (hcnt : ℕ)
    → hcnt < 256
    → (hcnt ≤ 34 → reverse_life hcnt + 70 * (hcnt + 1) ≡ 2450)
      × (35 ≤ hcnt → 4294967296 ≤ reverse_life hcnt + 15470)
      × (35 ≤ hcnt → 49 * 24 * 3600000 ≤ reverse_life hcnt)
unfolding reverse_life
reverse_life-bounds hcnt l = (λ h. omega arith, λ h. omega arith, λ h. omega arith)
