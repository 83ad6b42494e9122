-- ===== src/Rerr.antt =====
-- Route errors: `rerr_create`, `rerr_add_udest` and `rerr_process` of code/aodv-uu-0.96/aodv_rerr.c.
--
-- The fields of a RERR by the byte at which they start: 0 channel, 1 type, 2 the bit fields (`res1` in
-- the bits 0 to 5, then lr and n), 3 res2, 4 dest_count, 8 dest_addr, 12 dest_seqno, 16 rerr_id and
-- 20 rerr_origin_addr; the structure has 24 bytes.
pub mod Process
pub mod Layout
use aodv_uu.Prelude.{
  ℕ, zero, suc, ◌+◌, ◌-◌, ◌*◌, Bool, true, false, not, ◌&&◌, List, [], ◌∷◌, none, some, ltb, ◌==◌,
  if◌then◌else◌,
}
use aodv_uu.Word.{u8, has_flag, set_flag}
use aodv_uu.Params.{aodv_rerr, aodv_rerr_lr, rerr_nodelete, rerr_local_repair, rt_repair}
use aodv_uu.State.{Buffer, is_valid, ifq_drop_by_dest}
use aodv_uu.Link.{interface_queue}
use aodv_uu.Machine.{
  M, ◌>>=◌, ◌>>◌, ret, skip, get, modify, modify_rt, when, update, get_rt, emit, Env,
}
use aodv_uu.Device.{dev_ifindex}
use aodv_uu.Precursor.{precursor_list_destroy}
use aodv_uu.Records.{rerr_record_find, rerr_record_insert}
use aodv_uu.Table.{rt_table_find}
use aodv_uu.Route.Change.{rt_table_invalidate}
use aodv_uu.Socket.{aodv_socket_new_msg, aodv_socket_send, send_on_all}
use aodv_uu.Rreq.{store, set_bit, rreq_route_discovery}

abbrev pub rerr_size : ℕ
rerr_size = 24

abbrev pub rerr_udest_size : ℕ
rerr_udest_size = 8

-- `RERR_CALC_SIZE`, of a message with `dest_count` destinations: RERR_SIZE + (dest_count - 1) * 8.
abbrev pub rerr_calc_size : ℕ → ℕ
rerr_calc_size dest_count = rerr_size + dest_count * rerr_udest_size - rerr_udest_size

-- `RERR_UDEST_FIRST` and `RERR_UDEST_NEXT`: where the destination `k` of a message is read.
abbrev pub rerr_udest_at : ℕ → ℕ
rerr_udest_at k = 8 + k * rerr_udest_size

unfoldable pub rerr_create : (flags dest_addr dest_seqno : ℕ) → M (Unit {0})
rerr_create flags dest_addr dest_seqno = do
  aodv_socket_new_msg
  store 1 aodv_rerr
  when (has_flag flags rerr_nodelete) (set_bit 128)
  when (has_flag flags rerr_local_repair) (do set_bit 64; store 1 aodv_rerr_lr)
  store 3 0
  store 8 dest_addr
  store 12 dest_seqno
  store 4 1

unfoldable pub rerr_add_udest : (udest udest_seqno : ℕ) → M (Unit {0})
rerr_add_udest udest udest_seqno = do
  n ← get
  let offset = rerr_calc_size (n.send_buf 4)
  store offset udest
  store (offset + 4) udest_seqno
  modify λ m. record m { send_buf = update m.send_buf 4 (u8 (m.send_buf 4 + 1)) }

-- `FIRST_PREC(rt->precursors)->neighbor`; an empty list has no element to read.
unfoldable pub first_prec : List ℕ → M ℕ
first_prec [] n = none
first_prec (x ∷ xs) n = some (x, n)

-- The loop that looks for a precursor other than the one found so far.
unfoldable pub same_precursors : ℕ → List ℕ → Bool
same_precursors addr [] = true
same_precursors addr (x ∷ xs) = if x == addr then same_precursors addr xs else false

-- The locals `new_rerr`, as whether there is a message in the send buffer, and `rerr_unicast_dest`.
pub record Pending : Type 0 where
  pub new_rerr : Bool
  pub unicast_dest : ℕ

-- The bits `n` and `lr` of a message.
abbrev pub has_n : Buffer → Bool
has_n rerr = has_flag (rerr 2) 128

abbrev pub has_lr : Buffer → Bool
has_lr rerr = has_flag (rerr 2) 64

-- The flags of the message that is passed on.
abbrev pub forward_flags : Buffer → ℕ
forward_flags rerr =
    let flags : ℕ = if has_n rerr then rerr_nodelete else 0 in
    if has_lr rerr then set_flag flags rerr_local_repair else flags

-- The destination of the entry at `p` goes into the message that is passed on.
unfoldable pub report_udest : Buffer → ℕ → Pending → M Pending
report_udest rerr p pending = do
  rt ← get_rt p
  if pending.new_rerr
      then (do
        rerr_add_udest rt.dest_addr rt.dest_seqno
        ret (record pending {
          unicast_dest =
              if not (pending.unicast_dest == 0)
                && not (same_precursors pending.unicast_dest rt.precursors)
              then 0
              else pending.unicast_dest;
        }))
      else (do
        rerr_create (forward_flags rerr) rt.dest_addr rt.dest_seqno
        store 16 (rerr 16)
        store 20 (rerr 20)
        unicast ← (if rt.nprec == 1 then first_prec rt.precursors else ret pending.unicast_dest)
        ret (record { new_rerr = true; unicast_dest = unicast }))

module _ (env : Env) where
  -- A route over the sender to an unreachable destination.
  unfoldable pub break_route : Buffer → (udest_seqno p : ℕ) → Pending → M Pending
  break_route rerr udest_seqno p pending = do
    when (not (has_n rerr)) (rt_table_invalidate env (some p) >>= λ _. skip)
    rt ← get_rt p
    when (has_lr rerr) (rreq_route_discovery env rt.dest_addr 0)
    modify_rt p λ r. record r { dest_seqno = udest_seqno }
    rt' ← get_rt p
    pending' ←
        (if not (rt'.nprec == 0) && not (has_flag rt'.flags rt_repair)
          then report_udest rerr p pending
          else ret pending)
    rt'' ← get_rt p
    when (not (is_valid rt''.state)) (precursor_list_destroy (some p))
    ret pending'

  -- One round of the loop, for the destination `k` of the message.
  unfoldable pub process_udest : Buffer → (ip_src k : ℕ) → Pending → M Pending
  process_udest rerr ip_src k pending = do
    let udest_addr = rerr (rerr_udest_at k)
    found ← rt_table_find udest_addr
    elim found [
      | none ↦ ret pending
      | some p ↦ do
        rt ← get_rt p
        if is_valid rt.state && rt.next_hop == ip_src
            then (do
              interface_queue env udest_addr ifq_drop_by_dest
              break_route rerr (rerr (rerr_udest_at k + 4)) p pending)
            else ret pending
    ]

  -- `while (rerr->dest_count)`: `rounds` is what is left of the count.
  unfoldable pub process_udests : Buffer → (ip_src rounds k : ℕ) → Pending → M Pending
  process_udests rerr ip_src zero k pending = ret pending
  process_udests rerr ip_src (suc rounds) k pending = do
    pending' ← process_udest rerr ip_src k pending
    process_udests rerr ip_src rounds (k + 1) pending'

  -- The message in the send buffer is sent to the one precursor, or broadcast.
  unfoldable pub send_rerr : ℕ → M (Unit {0})
  send_rerr unicast_dest = do
    found ← rt_table_find unicast_dest
    n ← get
    let dest_count = n.send_buf 4
    let broadcast = when (ltb 0 dest_count) (send_on_all env (rerr_calc_size dest_count) 1)
    elim found [
      | none ↦ broadcast
      | some p ↦
          if dest_count == 1 && not (unicast_dest == 0)
          then (do
            rt ← get_rt p
            dev ← dev_ifindex rt.ifindex
            aodv_socket_send env n.send_buf unicast_dest (rerr_calc_size dest_count) 1 dev)
          else broadcast
    ]

  unfoldable pub rerr_process : Buffer → (rerrlen ip_src : ℕ) → M (Unit {0})
  rerr_process rerr rerrlen ip_src = do
    n ← get
    elim (rerr_record_find (rerr 20) (rerr 16) ip_src n) [
      | some _ ↦ skip
      | none ↦ do
        _ ← rerr_record_insert env (rerr 20) (rerr 16) ip_src
        if ltb rerrlen (rerr_calc_size (rerr 4)) then skip else (do
          pending ←
              process_udests rerr ip_src (rerr 4) 0 (record { new_rerr = false; unicast_dest = 0 })
          when pending.new_rerr (send_rerr pending.unicast_dest))
    ]
