-- ===== src/Rreq.antt =====
-- Route requests that the node sends: code/aodv-uu-0.96/aodv_rreq.c, from `rreq_create` to
-- `rreq_forward_with_channel`, and `rreq_route_discovery`.
--
-- The fields of a RREQ by the byte at which they start: 0 channel, 1 type, 2 the bit fields (`res1` in
-- the bits 0 to 2, then lr, d, g, r and j), 3 res2, 4 hcnt, 8 rreq_id, 12 dest_addr, 16 dest_seqno,
-- 20 orig_addr, 24 orig_seqno and 28 dest_count; the structure has 32 bytes.
pub mod Fields
pub mod Common
pub mod LocalRepair
pub mod Process
pub mod Ignore
pub mod Lifetime
pub mod Answer
pub mod Enter
pub mod Destination
pub mod Forward
pub mod Relay
use aodv_uu.Prelude.{
  ℕ, zero, suc, ◌+◌, ◌*◌, Bool, not, List, [], ◌∷◌, Option, none, some, pos, ltb, ltb_ℤ, ◌==◌,
  if◌then◌else◌, bit_and,
}
use aodv_uu.Word.{u8, inc32, dec32, set_flag}
use aodv_uu.Seqno.{seqno_incr}
use aodv_uu.Params.{
  aodv_broadcast, aodv_rreq, aodv_rreq_lr, rreq_join, rreq_repair, rreq_gratuitous, rreq_dest_only,
  rreq_local_repair, rreq_cost_ext, rreq_udest_ext, channel_count, net_traversal_time,
  max_nr_interfaces, ring_traversal_time,
}
use aodv_uu.State.{Buffer, SeekEntry}
use aodv_uu.Machine.{M, ◌>>=◌, ◌>>◌, ret, skip, get, modify, when, update, get_rt, Env}
use aodv_uu.Device.{dev_nr}
use aodv_uu.Table.{rt_table_find, rt_table_update_timeout}
use aodv_uu.Socket.{
  aodv_socket_new_msg, aodv_socket_queue_msg, aodv_socket_send, each_interface, send_on_all,
}

abbrev pub rreq_size : ℕ
rreq_size = 32

-- The structure, a cost extension's header, and a `double`.
abbrev pub rreq_cost_size : ℕ
rreq_cost_size = rreq_size + 2 + 8

abbrev pub rreq_udest_size : ℕ
rreq_udest_size = 12

-- A store to the message in the send buffer.
abbrev pub store : ℕ → ℕ → M (Unit {0})
store offset v = modify λ n. record n { send_buf = update n.send_buf offset v }

-- `flags & mask`, for any mask.
abbrev pub any_flag : ℕ → ℕ → Bool
any_flag flags mask = not (bit_and flags mask == 0)

-- `rreq->j = 1` and the like: `mask` is the bit of the field in the byte 2.
abbrev pub set_bit : ℕ → M (Unit {0})
set_bit mask =
    modify λ n. record n { send_buf = update n.send_buf 2 (set_flag (n.send_buf 2) mask) }

-- The four flags that both kinds of request set.
unfoldable pub set_rreq_flags : ℕ → M (Unit {0})
set_rreq_flags flags = do
  when (any_flag flags rreq_join) (set_bit 128)
  when (any_flag flags rreq_repair) (set_bit 64)
  when (any_flag flags rreq_gratuitous) (set_bit 32)
  when (any_flag flags rreq_dest_only) (set_bit 16)

-- The fields up to `orig_addr`; the id is the node's, which goes up.
unfoldable pub start_rreq : (dest_addr dest_seqno orig_addr : ℕ) → M (Unit {0})
start_rreq dest_addr dest_seqno orig_addr = do
  aodv_socket_new_msg
  store 1 aodv_rreq
  store 4 0
  (λ n. store 8 n.this_host.rreq_id n)
  modify λ n. record n { this_host = record (n.this_host) { rreq_id = inc32 n.this_host.rreq_id } }
  store 12 dest_addr
  store 16 dest_seqno
  store 20 orig_addr

-- `seqno_incr(this_host.seqno)`.
abbrev pub incr_host_seqno : M (Unit {0})
incr_host_seqno =
    modify
      λ n. record n { this_host = record (n.this_host) { seqno = seqno_incr n.this_host.seqno } }

unfoldable pub rreq_create : (flags dest_addr dest_seqno orig_addr : ℕ) → M (Unit {0})
rreq_create flags dest_addr dest_seqno orig_addr = do
  start_rreq dest_addr dest_seqno orig_addr
  store 28 1
  incr_host_seqno
  (λ n. store 24 n.this_host.seqno n)
  set_rreq_flags flags
  when (any_flag flags rreq_local_repair) (do store 1 aodv_rreq_lr; set_bit 8)

-- The header of an extension, and the fields of its contents by their offsets.
unfoldable pub store_all : ℕ → List (ℕ × ℕ) → M (Unit {0})
store_all base [] = skip
store_all base ((offset, v) ∷ fields) = do store (base + offset) v; store_all base fields

unfoldable pub rreq_add_ext : (type offset len : ℕ) → List (ℕ × ℕ) → M (Unit {0})
rreq_add_ext type offset len fields =
    if ltb offset rreq_size
    then skip
    else (do store offset type; store (offset + 1) (u8 len); store_all (offset + 2) fields)

-- `RREQ_EXT_OFFSET` of the message in the send buffer.
unfoldable pub rreq_ext_offset : ℕ → ℕ
rreq_ext_offset dest_count = 2 * dec32 dest_count + (rreq_size + dec32 dest_count * rreq_udest_size)

unfoldable pub rreq_add_udest : (udest udest_seqno : ℕ) → M (Unit {0})
rreq_add_udest udest udest_seqno = do
  (λ n.
      rreq_add_ext rreq_udest_ext (rreq_ext_offset (n.send_buf 28)) rreq_udest_size
        ((0, udest) ∷ (4, udest_seqno) ∷ (8, 1) ∷ []) n)
  modify λ n. record n { send_buf = update n.send_buf 28 (inc32 (n.send_buf 28)) }

unfoldable pub rreq_create_with_cost :
    (flags dest_addr dest_seqno orig_addr cost : ℕ) → M (Unit {0})
rreq_create_with_cost flags dest_addr dest_seqno orig_addr cost = do
  start_rreq dest_addr dest_seqno orig_addr
  (λ n. store 24 (inc32 n.this_host.seqno) n)
  set_rreq_flags flags
  rreq_add_ext rreq_cost_ext rreq_size 8 ((0, cost) ∷ [])

-- `for (i = 0; i < Channel_Count; ++ i)`, from the channel `i` on.
unfoldable pub each_channel : (ℕ → M (Unit {0})) → (rounds i : ℕ) → M (Unit {0})
each_channel act zero i = skip
each_channel act (suc rounds) i = do act i; each_channel act rounds (i + 1)

module _ (env : Env) where
  -- The `-g` option forces the gratuitous flag.
  abbrev forced : ℕ → ℕ
  forced flags = if env.rreq_gratuitous then set_flag flags rreq_gratuitous else flags

  -- The body of the two sending loops: a request of its own for each interface.
  unfoldable pub send_rreq : (dest_addr dest_seqno ttl flags size : ℕ) → (i : ℕ) → M (Unit {0})
  send_rreq dest_addr dest_seqno ttl flags size i = do
    (λ n. rreq_create_with_cost flags dest_addr dest_seqno (dev_nr i n).ipaddr 0 n)
    (λ n. aodv_socket_send env n.send_buf aodv_broadcast size ttl i n)

  unfoldable pub rreq_send_with_channel :
      (dest_addr dest_seqno ttl flags channel : ℕ) → M (Unit {0})
  rreq_send_with_channel dest_addr dest_seqno ttl flags channel = do
    modify λ n. record n { channel_num = channel }
    each_interface (send_rreq dest_addr dest_seqno ttl (forced flags) rreq_cost_size)
        max_nr_interfaces 0

  unfoldable pub rreq_send : (dest_addr dest_seqno ttl flags : ℕ) → M (Unit {0})
  rreq_send dest_addr dest_seqno ttl flags =
      each_interface (send_rreq dest_addr dest_seqno ttl (forced flags) rreq_size) max_nr_interfaces
        0

  -- The copy of a request in the send buffer, one hop further.
  unfoldable pub queue_rreq : Buffer → ℕ → M (Unit {0})
  queue_rreq rreq size = do
    aodv_socket_queue_msg rreq size
    modify λ n. record n { send_buf = update n.send_buf 4 (u8 (n.send_buf 4 + 1)) }

  unfoldable pub rreq_forward : Buffer → (size ttl : ℕ) → M (Unit {0})
  rreq_forward rreq size ttl = do queue_rreq rreq size; send_on_all env size ttl

  unfoldable pub rreq_forward_with_cost : Buffer → (size ttl : ℕ) → M (Unit {0})
  rreq_forward_with_cost rreq size ttl = do queue_rreq rreq size; send_on_all env size ttl

  unfoldable pub rreq_forward_with_channel : Buffer → (size ttl channel : ℕ) → M (Unit {0})
  rreq_forward_with_channel rreq size ttl channel = do
    queue_rreq rreq size
    modify λ n. record n { channel_num = channel }
    send_on_all env size ttl

  -- An entry that waits for a RREP is kept for twice the traversal time.
  unfoldable pub keep_waiting : Option ℕ → M (Unit {0})
  keep_waiting none = skip
  keep_waiting (some p) = do
    rt ← get_rt p
    (λ n.
        when (ltb_ℤ (env.timeval_diff rt.rt_timer.timeout n.now) (pos (2 * net_traversal_time)))
          (rt_table_update_timeout env (some p) (2 * net_traversal_time) >>= λ _. skip) n)

  -- The sequence number that a request for a route asks for.
  unfoldable pub known_seqno : Option ℕ → M ℕ
  known_seqno none = ret 0
  known_seqno (some p) = do rt ← get_rt p; ret rt.dest_seqno

  -- The timer of a sought destination is set.
  unfoldable pub set_seek_timer : (p msec : ℕ) → M (Unit {0})
  set_seek_timer p msec n = elim (n.seeks.entry p) [
    | none ↦ none
    | some e ↦
        let e' : SeekEntry = record e {
          seek_timer = env.timer_set_timeout n.now msec e.seek_timer;
        } in
        some
          (tt, record n { seeks = record (n.seeks) { entry = update n.seeks.entry p (some e') } })
  ]

  -- The ttl that is computed from the route is overwritten by 32 before it is used.
  unfoldable pub discovery_ttl : ℕ
  discovery_ttl = 32

  unfoldable pub rreq_route_discovery : (dest_addr flags : ℕ) → M (Unit {0})
  rreq_route_discovery dest_addr flags = do
    n ← get
    elim (env.seek_list_find dest_addr n.seeks) [
      | some _ ↦ skip
      | none ↦ do
        rt ← rt_table_find dest_addr
        dest_seqno ← known_seqno rt
        keep_waiting rt
        each_channel (rreq_send_with_channel dest_addr dest_seqno discovery_ttl flags) channel_count
            0
        incr_host_seqno
        m ← get
        let (p, seeks') = env.seek_list_insert dest_addr dest_seqno discovery_ttl flags m.seeks
        modify λ k. record k { seeks = seeks' }
        set_seek_timer p (
            if env.expanding_ring_search
            then ring_traversal_time discovery_ttl
            else net_traversal_time)
    ]
