-- ===== src/Fresh.antt =====
-- What the handlers of RREQs and RREPs have in common: the comparison of a route with the one that a
-- message offers, the cost that a message carries, and the node's own sequence number and address.
pub mod Raise
pub mod Reads
use aodv_uu.Prelude.{ℕ, ◌+◌, Bool, not, ◌&&◌, ◌||◌, ◌==◌, if◌then◌else◌}
use aodv_uu.Word.{lt_i32}
use aodv_uu.State.{Buffer, RtTable}
use aodv_uu.Machine.{M, ◌>>=◌, ret, get, update, when, Env}
use aodv_uu.Device.{dev_ifindex, dev_nr}
use aodv_uu.Rreq.{incr_host_seqno}
use aodv_uu.Ext.{each_ext, ext_rounds, get_cost}
use aodv_uu.Params.{rreq_cost_ext, max_num}
use aodv_uu.Hello.Cost.{modify_host}

-- Whether a message with the number `seqno` replaces a route; `better` decides between equal numbers.
unfoldable pub fresher : RtTable → (seqno : ℕ) → (better : Bool) → Bool
fresher rt seqno better =
    rt.dest_seqno == 0 || lt_i32 rt.dest_seqno seqno || (seqno == rt.dest_seqno && better)

-- The number of a destination that is asked for: it becomes the larger one, or goes up if the two are
-- equal.
unfoldable pub raise_seqno : ℕ → M (Unit {0})
raise_seqno dest_seqno = when (not (dest_seqno == 0)) (do
  n ← get
  if lt_i32 n.this_host.seqno dest_seqno
      then modify_host (λ h. record h { seqno = dest_seqno })
      else when (n.this_host.seqno == dest_seqno) incr_host_seqno)

-- `DEV_IFINDEX(ifindex).ipaddr`.
unfoldable pub own_ipaddr : ℕ → M ℕ
own_ipaddr ifindex = do dev ← dev_ifindex ifindex; n ← get; ret (dev_nr dev n).ipaddr

-- A message with its cost so far.
pub record Costly : Type 0 where
  pub message : Buffer
  pub cost : ℕ

module _ (env : Env) where
  -- The extension with the cost: the cost of the link is added, here and in the message. The types of
  -- the extensions of RREQs and RREPs have the same numbers.
  unfoldable pub cost_ext : (ip_src : ℕ) → (ext : ℕ) → Costly → M Costly
  cost_ext ip_src ext c =
      if c.message ext == rreq_cost_ext
      then (do
        link ← get_cost env ip_src (c.message 0)
        let cost = env.add_double (c.message (ext + 2)) link
        ret (record { message = update c.message (ext + 2) cost; cost = cost }))
      else ret c

  -- The loop over the extensions, from the cost log(MAX_NUM) on.
  unfoldable pub read_cost : Buffer → (ip_src size len : ℕ) → M Costly
  read_cost message ip_src size len =
      each_ext Costly.message (cost_ext ip_src) size len ext_rounds 0
        (record { message = message; cost = env.log_double max_num })
