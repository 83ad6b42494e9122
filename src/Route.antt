-- ===== src/Route.antt =====
-- The routing table of code/aodv-uu-0.96/routing_table.c, without the lines of CONFIG_GATEWAY and
-- those of the kernel port. Arguments that the C signature narrows are narrowed where they are used.
pub mod Change
pub mod Chain
pub mod Invariant
pub mod Release
pub mod Linked
pub mod Insert
pub mod Modify
pub mod Invalidate
pub mod Delete
pub mod Keep
pub mod Update
pub mod UpdateChannel
pub mod Updated
pub mod Channel
pub mod Destroy
pub mod History
use aodv_uu.Prelude.{
  ℕ, zero, suc, ◌+◌, ◌%◌, Bool, false, not, ◌&&◌, ◌||◌, List, [], ◌∷◌, Option, none, some, ℤ, pos,
  negsuc, ltb, ltb_ℤ, eqb_ℤ, ◌==◌, if◌then◌else◌,
}
use aodv_uu.Word.{u8, inc32, has_flag}
use aodv_uu.Params.{rt_repair, rt_inet_dest, rt_gateway, rt_tablesize}
use aodv_uu.State.{
  Timer, Handler, RtTable, RtState, invalid, valid, is_valid, Node, pq_send, pq_enc_send,
}
use aodv_uu.Machine.{M, ◌>>=◌, ◌>>◌, ret, get, modify, update, get_rt, malloc, when, skip, Env}
use aodv_uu.Device.{dev_ifindex, dev_nr}
use aodv_uu.Table.{hashing, find_entry}
use aodv_uu.Queue.Verdict.{packet_queue_set_verdict}

-- `rt_table_init`; the loop empties the buckets below RT_TABLESIZE.
unfoldable pub rt_table_init : M (Unit {0})
rt_table_init = modify λ n. record n {
  num_entries = 0;
  num_active = 0;
  tbl = λ i. if ltb i rt_tablesize then [] else n.tbl i;
}

-- The test of the loop in `rt_table_find_gateway`, and the loop over a bucket.
unfoldable pub better_gateway : Option ℕ → RtTable → M Bool
better_gateway none rt = ret (has_flag rt.flags rt_gateway && is_valid rt.state)
better_gateway (some gw) rt =
    if has_flag rt.flags rt_gateway && is_valid rt.state
    then (do best ← get_rt gw; ret (ltb rt.hcnt best.hcnt))
    else ret false

unfoldable pub gateway_in : List ℕ → Option ℕ → M (Option ℕ)
gateway_in [] gw = ret gw
gateway_in (p ∷ ps) gw = do
  rt ← get_rt p
  better ← better_gateway gw rt
  gateway_in ps (if better then some p else gw)

unfoldable pub gateway_from : (rounds i : ℕ) → Option ℕ → M (Option ℕ)
gateway_from zero i gw = ret gw
gateway_from (suc rounds) i gw = do
  n ← get
  gw' ← gateway_in (n.tbl i) gw
  gateway_from rounds (i + 1) gw'

unfoldable pub rt_table_find_gateway : M (Option ℕ)
rt_table_find_gateway = gateway_from rt_tablesize 0 none

-- A timer after `memset`.
abbrev pub no_timer : Timer
no_timer = record { used = false; timeout = 0; handler = Handler.null }

module _ (env : Env) where
  -- The fields of a new entry, and its timers.
  unfoldable pub new_rt :
      (dest_addr next hops seqno : ℕ) → RtState → (flags ifindex : ℕ) → ℤ → ℕ → RtTable
  new_rt dest_addr next hops seqno state flags ifindex channel cost = record {
    dest_addr = dest_addr;
    dest_seqno = seqno;
    ifindex = ifindex;
    next_hop = next;
    hcnt = u8 hops;
    flags = flags;
    state = state;
    rt_timer = env.timer_init Handler.route_expire no_timer;
    ack_timer = env.timer_init Handler.rrep_ack no_timer;
    hello_timer = env.timer_init Handler.hello no_timer;
    last_hello_time = 0;
    hello_cnt = 0;
    hash = dest_addr;
    nprec = 0;
    precursors = [];
    channel = channel;
    cost = cost;
  }

  -- The handler and the lifetime of a new entry.
  unfoldable pub insert_handler : RtState → ℕ → Handler
  insert_handler valid flags = Handler.route_expire
  insert_handler invalid flags =
      if has_flag flags rt_repair then Handler.local_repair else Handler.route_delete

  unfoldable pub insert_life : RtState → ℕ → ℕ → ℕ
  insert_life valid flags life = life
  insert_life invalid flags life =
      if has_flag flags rt_repair then env.active_route_timeout else env.delete_period

  -- Packets that wait for the destination of a valid route are sent on it, if it was sought.
  unfoldable pub released : RtTable → M (Unit {0})
  released rt n =
      let (removed, seeks') =
        env.seek_list_remove (env.seek_list_find rt.dest_addr n.seeks) n.seeks in
      (do
        modify λ m. record m { seeks = seeks' }
        when removed (
            packet_queue_set_verdict env rt.dest_addr
              (if has_flag rt.flags rt_inet_dest then pq_enc_send else pq_send)
            >>= λ _. skip))
        n

  unfoldable pub release_packets : ℕ → M (Unit {0})
  release_packets p = do rt ← get_rt p; when (is_valid rt.state) (released rt)

  -- The entry that is stored: its timer has its handler, and runs unless the lifetime is 0.
  unfoldable pub started_rt : ℕ → RtTable → ℕ → RtTable
  started_rt now rt life =
      let life' = insert_life rt.state rt.flags life in
      let timer = record (rt.rt_timer) { handler = insert_handler rt.state rt.flags } in
      record rt { rt_timer = if life' == 0 then timer else env.timer_set_timeout now life' timer }

  -- From `list_add` on: the entry at `p` is linked in and counted, and its timer is started.
  unfoldable pub linked_node : ℕ → RtTable → ℕ → Node → Node
  linked_node p rt life n =
      let i = hashing rt.dest_addr in
      record n {
        heap = update n.heap p (some (started_rt n.now rt life));
        num_entries = inc32 n.num_entries;
        num_active = if is_valid rt.state then inc32 n.num_active else n.num_active;
        tbl = update n.tbl i (env.pointers.list_add (n.tbl i) p);
      }

  -- The last lines of both insertions, from `list_add` to the return.
  unfoldable pub insert_entry : ℕ → RtTable → ℕ → M (Option ℕ)
  insert_entry p rt life = do modify (linked_node p rt life); release_packets p; ret (some p)

  unfoldable pub rt_table_insert :
      (dest_addr next hops seqno life : ℕ) → RtState → (flags ifindex : ℕ) → M (Option ℕ)
  rt_table_insert dest_addr next hops seqno life state flags ifindex = do
    n ← get
    old ← find_entry (λ rt. rt.dest_addr == dest_addr) (n.tbl (hashing dest_addr))
    elim old [
      | some _ ↦ ret none
      | none ↦ do
        p ← malloc
        insert_entry p
            (new_rt dest_addr next hops seqno state flags ifindex (negsuc 0) 0x40f86a0000000000)
            life
    ]

  unfoldable pub rt_table_insert_with_channel :
      (dest_addr next hops seqno life : ℕ) → RtState → (flags ifindex : ℕ) → ℤ → ℕ → M (Option ℕ)
  rt_table_insert_with_channel dest_addr next hops seqno life state flags ifindex channel cost = do
    n ← get
    old ←
        find_entry (λ rt. rt.dest_addr == dest_addr && eqb_ℤ rt.channel channel)
          (n.tbl (hashing dest_addr))
    elim old [
      | some _ ↦ ret none
      | none ↦ do
        p ← malloc
        i ← dev_ifindex ifindex
        if dest_addr == (dev_nr i n).ipaddr
            then ret none
            else insert_entry p (new_rt dest_addr next hops seqno state flags ifindex channel cost)
                life
    ]
