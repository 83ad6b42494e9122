-- ===== src/Rreq/Common.antt =====
-- What the two handlers of RREQs in code/aodv-uu-0.96/aodv_rreq.c have in common: the requests that
-- they ignore, the lifetime of the reverse route, and the forwarding.
use aodv_uu.Prelude.{
  ℕ, ◌+◌, ◌*◌, ◌-◌, Bool, not, ◌&&◌, ◌||◌, Option, none, some, ltb, ◌==◌, if◌then◌else◌,
}
use aodv_uu.Word.{lt_i32, sub32, u32_ℤ, has_flag, set_flag}
use aodv_uu.Params.{
  rreq_local_repair, rreq_dest_only, channel_count, path_discovery_time, node_traversal_time,
  rt_inet_dest,
}
use aodv_uu.State.{Buffer, RtTable, is_valid}
use aodv_uu.Machine.{M, ◌>>=◌, ret, get, get_rt, update, when, Env}
use aodv_uu.Records.{rreq_blacklist_find}
use aodv_uu.Rreq.{rreq_size, each_channel, rreq_forward_with_channel}

-- RREQ_LOCAL_REPAIR | RREQ_DEST_ONLY.
abbrev pub repair_flags : ℕ
repair_flags = set_flag rreq_local_repair rreq_dest_only

-- `this_host` is the originator, the message is too short, or the previous hop is blacklisted.
unfoldable pub ignored : Buffer → (rreqlen ip_src own : ℕ) → M Bool
ignored rreq rreqlen ip_src own =
    if rreq 20 == own || ltb rreqlen rreq_size then ret Bool.true else (do
      n ← get
      elim (rreq_blacklist_find ip_src n) [ some _ ↦ ret Bool.true | none ↦ ret Bool.false ])

-- The minimal life time of the reverse route, an unsigned word.
unfoldable pub reverse_life : (hcnt : ℕ) → ℕ
reverse_life hcnt = sub32 path_discovery_time (2 * (hcnt + 1) * node_traversal_time)

-- An intermediate node answers with a route to the destination that is valid, unless the bit d forbids
-- it.
unfoldable pub may_answer : Buffer → RtTable → Bool
may_answer rreq fwd = is_valid fwd.state && not (has_flag (rreq 2) 16)

-- The route's own number is not older than the one in the request.
unfoldable pub fresh_enough : (rreq_dest_seqno : ℕ) → RtTable → Bool
fresh_enough rreq_dest_seqno fwd =
    not (fwd.dest_seqno == 0) && not (lt_i32 fwd.dest_seqno rreq_dest_seqno)

-- The remaining lifetime of a route in milliseconds.
unfoldable pub remaining : Env → RtTable → M ℕ
remaining env fwd = do n ← get; ret (u32_ℤ (env.timeval_diff fwd.rt_timer.timeout n.now))

-- The request with the number of the node's own route, if that is the larger one.
unfoldable pub with_known_seqno : Buffer → (rreq_dest_seqno : ℕ) → Option RtTable → Buffer
with_known_seqno rreq rreq_dest_seqno none = rreq
with_known_seqno rreq rreq_dest_seqno (some fwd) =
    if not (has_flag fwd.flags rt_inet_dest) && lt_i32 rreq_dest_seqno fwd.dest_seqno
    then update rreq 16 fwd.dest_seqno
    else rreq

unfoldable pub entry_of : Option ℕ → M (Option RtTable)
entry_of none = ret none
entry_of (some p) = do rt ← get_rt p; ret (some rt)

-- The label `forward`: the request goes out on each channel.
unfoldable pub forward_rreq :
    Env → Buffer → (rreq_dest_seqno : ℕ) → Option ℕ → (size ip_ttl : ℕ) → M (Unit {0})
forward_rreq env rreq rreq_dest_seqno fwd_rt size ip_ttl = when (ltb 1 ip_ttl) (do
  fwd ← entry_of fwd_rt
  each_channel
      (rreq_forward_with_channel env (with_known_seqno rreq rreq_dest_seqno fwd) size (ip_ttl - 1))
      channel_count 0)
