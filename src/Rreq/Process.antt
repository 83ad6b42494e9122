-- ===== src/Rreq/Process.antt =====
-- `rreq_process` of code/aodv-uu-0.96/aodv_rreq.c, and `rreq_copy_with_cost`.
use aodv_uu.Prelude.{
  ℕ, ◌+◌, ◌*◌, not, ◌&&◌, ◌||◌, Option, none, some, ℤ, pos, negsuc, eqb_ℤ, ◌==◌, if◌then◌else◌,
}
use aodv_uu.Word.{u32_ℤ, has_flag}
use aodv_uu.Params.{aodv_rreq_lr}
use aodv_uu.State.{Buffer, is_valid, valid}
use aodv_uu.Machine.{M, ◌>>=◌, ◌>>◌, ret, skip, get, modify, update, get_rt, deref, when, Env}
use aodv_uu.Records.{rreq_record_find_less_cost, rreq_record_insert_with_cost}
use aodv_uu.Table.{rt_table_find}
use aodv_uu.Route.{rt_table_insert_with_channel}
use aodv_uu.Route.Change.{rt_table_update_with_channel, rt_table_delete}
use aodv_uu.Rreq.{rreq_size, rreq_cost_size, rreq_create_with_cost}
use aodv_uu.Rreq.Common.{ignored, reverse_life, may_answer, fresh_enough, remaining, forward_rreq}
use aodv_uu.Rreq.LocalRepair.{rreq_process_lr}
use aodv_uu.Rrep.{rrep_size, rrep_cost_size, rrep_create_with_cost}
use aodv_uu.Rrep.Send.{rrep_send_with_channel}
use aodv_uu.Fresh.{fresher, raise_seqno, own_ipaddr, Costly, read_cost}

-- A request of this node with the destination, the originator and the four bits of another one.
unfoldable pub rreq_copy_with_cost : Buffer → M (Unit {0})
rreq_copy_with_cost source = do
  rreq_create_with_cost 0 0 (source 16) 0 (source (rreq_size + 2))
  modify λ n. record n {
    send_buf = update (update (update n.send_buf 12 (source 12)) 20 (source 20)) 2 (
        (if has_flag (source 2) 128 then 128 else 0)
        + (if has_flag (source 2) 64 then 64 else 0)
        + (if has_flag (source 2) 32 then 32 else 0)
        + (if has_flag (source 2) 16 then 16 else 0));
  }

module _ (env : Env) where
  -- The reverse route is inserted or updated; `none` if the request is dropped. The pointer may be
  -- NULL.
  unfoldable pub reverse_route : Costly → (ip_src ifindex : ℕ) → M (Option (Option ℕ))
  reverse_route c ip_src ifindex = do
    let rreq = c.message
    rev_rt ← rt_table_find (rreq 20)
    elim rev_rt [
      | none ↦ do
        new ←
            rt_table_insert_with_channel env (rreq 20) ip_src (rreq 4 + 1) (rreq 24)
              (reverse_life (rreq 4)) valid 0 ifindex (pos (rreq 0)) c.cost
        ret (some new)
      | some p ↦ do
        rt ← get_rt p
        if fresher rt (rreq 24) (not (is_valid rt.state) || env.lt_double c.cost rt.cost)
            then (do
              q ←
                  rt_table_update_with_channel env p ip_src (rreq 4 + 1) (rreq 24)
                    (reverse_life (rreq 4)) valid rt.flags (pos (rreq 0)) c.cost
              ret (some (some q)))
            else ret none
    ]

  -- The node is the destination.
  unfoldable pub answer_as_destination : Buffer → Option ℕ → M (Unit {0})
  answer_as_destination rreq rev_rt = do
    raise_seqno (rreq 16)
    p ← deref rev_rt
    rev ← get_rt p
    own ← own_ipaddr rev.ifindex
    (λ n.
        rrep_create_with_cost 0 0 0 own n.this_host.seqno rev.dest_addr
          (2 * env.active_route_timeout) 0 n)
    rrep_send_with_channel env (some p) none rrep_cost_size (rreq 0)

  -- The route to the destination; a route with no channel is deleted.
  unfoldable pub usable_route : (rreq_dest : ℕ) → M (Option ℕ × ℤ)
  usable_route rreq_dest = do
    fwd_rt ← rt_table_find rreq_dest
    elim fwd_rt [
      | none ↦ ret (none, negsuc 0)
      | some p ↦ do
        rt ← get_rt p
        if eqb_ℤ rt.channel (negsuc 0)
            then (do rt_table_delete env (some p); ret (none, rt.channel))
            else ret (some p, rt.channel)
    ]

  -- The RREP of an intermediate node, and the gratuitous one to the destination.
  unfoldable pub answer_from_route : Buffer → Option ℕ → (p : ℕ) → ℤ → M (Unit {0})
  answer_from_route rreq rev_rt p next_channel = do
    fwd ← get_rt p
    lifetime ← remaining env fwd
    q ← deref rev_rt
    rev ← get_rt q
    rrep_create_with_cost 0 0 fwd.hcnt fwd.dest_addr fwd.dest_seqno rev.dest_addr lifetime fwd.cost
    rrep_send_with_channel env (some q) (some p) rrep_cost_size (u32_ℤ next_channel)
    when (has_flag (rreq 2) 32) (do
      rev' ← get_rt q
      fwd' ← get_rt p
      rrep_create_with_cost 0 0 rev'.hcnt rev'.dest_addr rev'.dest_seqno fwd'.dest_addr lifetime
          fwd'.cost
      rrep_send_with_channel env (some p) (some q) rrep_size (u32_ℤ next_channel))

  -- The node is an intermediate one.
  unfoldable pub relay_rreq : Buffer → Option ℕ → (ip_ttl : ℕ) → M (Unit {0})
  relay_rreq rreq rev_rt ip_ttl = do
    (fwd_rt, next_channel) ← usable_route (rreq 12)
    elim fwd_rt [
      | none ↦ forward_rreq env rreq (rreq 16) none rreq_cost_size ip_ttl
      | some p ↦ do
        fwd ← get_rt p
        if may_answer rreq fwd && fresh_enough (rreq 16) fwd
            then answer_from_route rreq rev_rt p next_channel
            else forward_rreq env rreq (rreq 16) (some p) rreq_cost_size ip_ttl
    ]

  -- What follows on the search in the records.
  unfoldable pub finish_rreq : Costly → (ip_src ip_ttl ifindex own : ℕ) → M (Unit {0})
  finish_rreq c ip_src ip_ttl ifindex own = do
    _ ← rreq_record_insert_with_cost env (c.message 20) (c.message 8) c.cost
    accepted ← reverse_route c ip_src ifindex
    elim accepted [
      | none ↦ skip
      | some rev_rt ↦
          if c.message 12 == own
          then answer_as_destination c.message rev_rt
          else relay_rreq c.message rev_rt ip_ttl
    ]

  unfoldable pub rreq_process_plain : Buffer → (rreqlen ip_src ip_ttl ifindex : ℕ) → M (Unit {0})
  rreq_process_plain rreq rreqlen ip_src ip_ttl ifindex = do
    own ← own_ipaddr ifindex
    ignore ← ignored rreq rreqlen ip_src own
    if ignore then skip else (do
      c ← read_cost env rreq ip_src rreq_size rreqlen
      n ← get
      elim (rreq_record_find_less_cost env (rreq 20) (rreq 8) c.cost n) [
        | some _ ↦ skip
        | none ↦ finish_rreq c ip_src ip_ttl ifindex own
      ])

  unfoldable pub rreq_process : Buffer → (rreqlen ip_src ip_ttl ifindex : ℕ) → M (Unit {0})
  rreq_process rreq rreqlen ip_src ip_ttl ifindex =
      if rreq 1 == aodv_rreq_lr
      then rreq_process_lr env rreq rreqlen ip_src ip_ttl ifindex
      else rreq_process_plain rreq rreqlen ip_src ip_ttl ifindex
