-- ===== src/Rreq/LocalRepair.antt =====
-- `rreq_process_lr` of code/aodv-uu-0.96/aodv_rreq.c: a RREQ of type AODV_RREQ_LR, which asks for the
-- repair of a route, and `rreq_local_repair`, which sends one.
use aodv_uu.Prelude.{
  ℕ, zero, suc, ◌+◌, ◌*◌, not, ◌&&◌, ◌||◌, List, [], ◌∷◌, Option, none, some, ltb, ◌==◌,
  if◌then◌else◌,
}
use aodv_uu.Word.{has_flag, set_flag}
use aodv_uu.Params.{
  rreq_udest_ext, rrep_local_repair, rt_repair, rt_tablesize, local_add_ttl, max_nr_interfaces,
  aodv_broadcast, node_traversal_time, net_traversal_time,
}
use aodv_uu.State.{Buffer, Handler, is_valid, valid}
use aodv_uu.Machine.{
  M, ◌>>=◌, ◌>>◌, ret, skip, get, modify, update, get_rt, modify_rt, deref, fault, when, Env,
}
use aodv_uu.Device.{dev_nr}
use aodv_uu.Records.{rreq_record_find, rreq_record_insert}
use aodv_uu.Table.{rt_table_find}
use aodv_uu.Route.{rt_table_insert}
use aodv_uu.Route.Change.{rt_table_update}
use aodv_uu.Socket.{aodv_socket_send}
use aodv_uu.Ext.{each_ext, ext_rounds}
use aodv_uu.Rreq.{
  rreq_size, store, rreq_create, rreq_add_udest, rreq_ext_offset, keep_waiting, set_seek_timer,
}
use aodv_uu.Rreq.Common.{
  repair_flags, ignored, reverse_life, may_answer, fresh_enough, remaining, forward_rreq,
}
use aodv_uu.Rrep.{rrep_size, rrep_create, rrep_add_udest, rrep_ext_offset}
use aodv_uu.Rrep.Send.{rrep_send}
use aodv_uu.Fresh.{fresher, raise_seqno, own_ipaddr}

module _ (env : Env) where
  -- The reverse route; it stays as it is where the request is not fresher. The pointer may be NULL.
  unfoldable pub reverse_route_lr : Buffer → (ip_src ifindex : ℕ) → M (Option ℕ)
  reverse_route_lr rreq ip_src ifindex = do
    rev_rt ← rt_table_find (rreq 20)
    elim rev_rt [
      | none ↦
          rt_table_insert env (rreq 20) ip_src (rreq 4 + 1) (rreq 24) (reverse_life (rreq 4)) valid
            0 ifindex
      | some p ↦ do
        rt ← get_rt p
        if fresher rt (rreq 24) (not (is_valid rt.state) || ltb (rreq 4 + 1) rt.hcnt)
            then (do
              q ←
                  rt_table_update env p ip_src (rreq 4 + 1) (rreq 24) (reverse_life (rreq 4)) valid
                    rt.flags
              ret (some q))
            else ret (some p)
    ]

  -- `rrep_create` of a reply to a repair, with the node's own number.
  unfoldable pub create_repair_rrep : (p : ℕ) → M (Unit {0})
  create_repair_rrep p = do
    rev ← get_rt p
    own ← own_ipaddr rev.ifindex
    (λ n.
        rrep_create rrep_local_repair 0 0 own n.this_host.seqno rev.dest_addr
          (2 * env.active_route_timeout) n)

  -- The message in the send buffer, without a forward route.
  unfoldable pub send_repair_rrep : (p : ℕ) → M (Unit {0})
  send_repair_rrep p n = rrep_send env (some p) none (rrep_ext_offset (n.send_buf 24)) n

  -- An unreachable destination that is this node: it is answered, and no longer valid in the message.
  unfoldable pub udest_ext : (own : ℕ) → Option ℕ → (ext : ℕ) → Buffer → M Buffer
  udest_ext own rev_rt ext rreq =
      if rreq ext == rreq_udest_ext && not (rreq (ext + 10) == 0) && rreq (ext + 2) == own
      then (do
        raise_seqno (rreq (ext + 6))
        p ← deref rev_rt
        create_repair_rrep p
        (λ n. rrep_add_udest (rreq (ext + 2)) n.this_host.seqno n)
        send_repair_rrep p
        ret (update rreq (ext + 10) 0))
      else ret rreq

  -- An unreachable destination is copied into the reply.
  unfoldable pub copy_udest : Buffer → (ext : ℕ) → Unit {0} → M (Unit {0})
  copy_udest rreq ext u =
      if rreq ext == rreq_udest_ext then rrep_add_udest (rreq (ext + 2)) (rreq (ext + 6)) else skip

  unfoldable pub answer_repair : Buffer → (rreqlen : ℕ) → Option ℕ → M (Unit {0})
  answer_repair rreq rreqlen rev_rt = do
    raise_seqno (rreq 16)
    p ← deref rev_rt
    create_repair_rrep p
    each_ext (λ u. rreq) (copy_udest rreq) rreq_size rreqlen ext_rounds 0 tt
    send_repair_rrep p

  -- The RREP of an intermediate node, and the gratuitous one.
  unfoldable pub answer_from_route_lr : Buffer → Option ℕ → (p : ℕ) → M (Unit {0})
  answer_from_route_lr rreq rev_rt p = do
    fwd ← get_rt p
    lifetime ← remaining env fwd
    q ← deref rev_rt
    rev ← get_rt q
    rrep_create 0 0 fwd.hcnt fwd.dest_addr fwd.dest_seqno rev.dest_addr lifetime
    rrep_send env (some q) (some p) rrep_size
    when (has_flag (rreq 2) 32) (do
      rev' ← get_rt q
      fwd' ← get_rt p
      rrep_create 0 0 rev'.hcnt rev'.dest_addr rev'.dest_seqno fwd'.dest_addr lifetime
      rrep_send env (some p) (some q) rrep_size)

  unfoldable pub relay_rreq_lr : Buffer → (rreqlen : ℕ) → Option ℕ → (ip_ttl : ℕ) → M (Unit {0})
  relay_rreq_lr rreq rreqlen rev_rt ip_ttl = do
    fwd_rt ← rt_table_find (rreq 12)
    elim fwd_rt [
      | none ↦ forward_rreq env rreq (rreq 16) none rreqlen ip_ttl
      | some p ↦ do
        fwd ← get_rt p
        if may_answer rreq fwd && fresh_enough (rreq 16) fwd
            then answer_from_route_lr rreq rev_rt p
            else forward_rreq env rreq (rreq 16) (some p) rreqlen ip_ttl
    ]

  unfoldable pub rreq_process_lr : Buffer → (rreqlen ip_src ip_ttl ifindex : ℕ) → M (Unit {0})
  rreq_process_lr rreq rreqlen ip_src ip_ttl ifindex = do
    own ← own_ipaddr ifindex
    ignore ← ignored rreq rreqlen ip_src own
    n ← get
    if ignore then skip else elim (rreq_record_find (rreq 20) (rreq 8) n) [
      | some _ ↦ skip
      | none ↦ do
        _ ← rreq_record_insert env (rreq 20) (rreq 8)
        rev_rt ← reverse_route_lr rreq ip_src ifindex
        rreq' ← each_ext (λ m. m) (udest_ext own rev_rt) rreq_size rreqlen ext_rounds 0 rreq
        if rreq' 12 == own
            then answer_repair rreq' rreqlen rev_rt
            else relay_rreq_lr rreq' rreqlen rev_rt ip_ttl
    ]

-- The first enabled interface; a read behind the array is a fault.
unfoldable pub first_enabled : (rounds i : ℕ) → M ℕ
first_enabled zero i = fault
first_enabled (suc rounds) i =
    let rest = first_enabled rounds (i + 1) in
    (λ n. (if (dev_nr i n).enabled then ret i else rest) n)

module _ (env : Env) where
  -- An entry is marked as in repair and kept.
  unfoldable pub start_repair : (p : ℕ) → M (Unit {0})
  start_repair p = do
    modify_rt p λ r. record r {
      flags = set_flag r.flags rt_repair;
      rt_timer = record (r.rt_timer) { handler = Handler.route_expire };
    }
    keep_waiting env (some p)

  -- Another route over the same next hop joins the repair. The result is the longest hop count.
  unfoldable pub join_repair : (p q max_ttl : ℕ) → M ℕ
  join_repair p q max_ttl = do
    rt ← get_rt p
    rt_u ← get_rt q
    if rt_u.next_hop == rt.next_hop && not (rt_u.dest_addr == rt.dest_addr)
        then (do
          start_repair q
          if rt_u.dest_addr == rt.next_hop
              then store 16 rt_u.dest_seqno
              else rreq_add_udest rt_u.dest_addr rt_u.dest_seqno
          ret (if ltb max_ttl rt_u.hcnt then rt_u.hcnt else max_ttl))
        else ret max_ttl

  unfoldable pub join_bucket : (p : ℕ) → List ℕ → (max_ttl : ℕ) → M ℕ
  join_bucket p [] max_ttl = ret max_ttl
  join_bucket p (q ∷ qs) max_ttl = do max' ← join_repair p q max_ttl; join_bucket p qs max'

  unfoldable pub join_from : (p rounds i max_ttl : ℕ) → M ℕ
  join_from p zero i max_ttl = ret max_ttl
  join_from p (suc rounds) i max_ttl = do
    n ← get
    max' ← join_bucket p (n.tbl i) max_ttl
    join_from p rounds (i + 1) max'

  -- The next hop is sought. `ttl` is not initialised.
  unfoldable pub seek_next_hop : (next_hop max_ttl : ℕ) → M (Unit {0})
  seek_next_hop next_hop max_ttl = do
    m ← get
    let (s, seeks') =
        env.seek_list_insert next_hop (m.send_buf 16) (max_ttl + local_add_ttl) repair_flags m.seeks
    modify λ k. record k { seeks = seeks' }
    set_seek_timer env s (
        if env.expanding_ring_search
        then 2 * env.uninitialized * node_traversal_time
        else net_traversal_time)

  unfoldable pub repair_route : (p src_addr : ℕ) → M (Unit {0})
  repair_route p src_addr = do
    rt ← get_rt p
    when (has_flag rt.flags rt_repair) (do
      _ ← rt_table_find src_addr
      tosend_i ← first_enabled max_nr_interfaces 0
      (λ n. rreq_create repair_flags rt.next_hop 0 (dev_nr tosend_i n).ipaddr n)
      when (not (rt.next_hop == rt.dest_addr)) (rreq_add_udest rt.dest_addr rt.dest_seqno)
      start_repair p
      max_ttl ← join_from p rt_tablesize 0 rt.hcnt
      (λ n.
          aodv_socket_send env n.send_buf aodv_broadcast (rreq_ext_offset (n.send_buf 28))
            (max_ttl + 1) tosend_i n)
      seek_next_hop rt.next_hop max_ttl)

  unfoldable pub rreq_local_repair : Option ℕ → (src_addr : ℕ) → M (Unit {0})
  rreq_local_repair none src_addr = skip
  rreq_local_repair (some p) src_addr = repair_route p src_addr
