-- ===== src/Queue/Verdict.antt =====
-- `packet_queue_set_verdict` of code/aodv-uu-0.96/ns-2/packet_queue.cc. Without CONFIG_GATEWAY the
-- `switch` has no case for PQ_ENC_SEND.
use aodv_uu.Prelude.{
  ℕ, ◌+◌, Bool, true, false, not, ◌&&◌, List, [], ◌∷◌, Option, none, some, ℤ, pos, negsuc, ◌==◌,
  if◌then◌else◌,
}
use aodv_uu.Params.{arp_delay}
use aodv_uu.Packet.{QPkt, drop_rtr_no_route}
use aodv_uu.State.{Verdict, pq_drop, pq_send, pq_enc_send, RtTable, is_valid, drop}
use aodv_uu.Machine.{M, ◌>>=◌, ◌>>◌, ret, skip, get, get_rt, emit, when, Env}
use aodv_uu.Device.{dev_ifindex, dev_nr}
use aodv_uu.Table.{rt_table_find, rt_table_update_timeout}
use aodv_uu.Link.{send_packet}
use aodv_uu.Queue.{modify_pq, count_out}

-- What the loop leaves: whether it returned, the packets in the list, and the count.
pub record Walk : Type 0 where
  pub stopped : Bool
  pub kept : List QPkt
  pub count : ℕ

abbrev pub is_drop : Verdict → Bool
is_drop pq_drop = true
is_drop pq_send = false
is_drop pq_enc_send = false

module _ (env : Env) where
  -- The loop from a place in the list on. A packet that is detached when the loop returns is lost, and
  -- stays counted.
  unfoldable pub walk_queue :
      (dest_addr : ℕ) → Verdict → Option ℕ → List QPkt → (delay : ℕ) → M Walk
  walk_queue dest_addr verdict rt [] delay = ret (record { stopped = false; kept = []; count = 0 })
  walk_queue dest_addr verdict rt (q ∷ qs) delay =
      let rest = walk_queue dest_addr verdict rt qs in
      if q.dest_addr == dest_addr
      then elim verdict [
        | pq_drop ↦ do
          emit (drop q.p drop_rtr_no_route)
          count_out
          w ← rest delay
          ret (record w { count = w.count + 1 })
        | pq_send ↦ elim rt [
          | none ↦ ret (record { stopped = true; kept = qs; count = 0 })
          | some r ↦ do
            entry ← get_rt r
            send_packet env q.p entry.next_hop delay
            count_out
            w ← rest (env.add_double delay arp_delay)
            ret (record w { count = w.count + 1 })
        ]
        | pq_enc_send ↦ do count_out; w ← rest delay; ret (record w { count = w.count + 1 })
      ]
      else (do w ← rest delay; ret (record w { kept = q ∷ w.kept }))

  -- The neighbour of the route, if it is another node and valid.
  unfoldable pub touch_next_hop : RtTable → M (Unit {0})
  touch_next_hop rt = do
    found ← rt_table_find rt.next_hop
    elim found [
      | none ↦ skip
      | some q ↦ do
        next_hop_rt ← get_rt q
        when (is_valid next_hop_rt.state && not (next_hop_rt.dest_addr == rt.dest_addr))
            (rt_table_update_timeout env (some q) env.active_route_timeout >>= λ _. skip)
    ]

  -- "Update rt timeouts".
  unfoldable pub touch_routes : (dest_addr : ℕ) → Verdict → (inet_rt rt : Option ℕ) → M (Unit {0})
  touch_routes dest_addr verdict inet_rt none = skip
  touch_routes dest_addr verdict inet_rt (some p) = do
    rt ← get_rt p
    when (is_valid rt.state && not (is_drop verdict)) (do
      i ← dev_ifindex rt.ifindex
      n ← get
      when (not (dest_addr == (dev_nr i n).ipaddr)) (do
        _ ← rt_table_update_timeout env inet_rt env.active_route_timeout
        _ ← rt_table_update_timeout env (some p) env.active_route_timeout
        touch_next_hop rt))

  -- From the loop on; the result is the count, or -1.
  unfoldable pub apply_verdict : (dest_addr : ℕ) → Verdict → (inet_rt rt : Option ℕ) → M ℤ
  apply_verdict dest_addr verdict inet_rt rt = do
    n ← get
    w ← walk_queue dest_addr verdict rt n.pq.head 0
    modify_pq λ q. record q { head = w.kept }
    if w.stopped
        then ret (negsuc 0)
        else (do touch_routes dest_addr verdict inet_rt rt; ret (pos w.count))

  unfoldable pub packet_queue_set_verdict : (dest_addr : ℕ) → Verdict → M ℤ
  packet_queue_set_verdict dest_addr pq_enc_send = do
    inet_rt ← rt_table_find dest_addr
    elim inet_rt [
      | none ↦ ret (negsuc 0)
      | some p ↦ do
        inet ← get_rt p
        rt ← rt_table_find inet.next_hop
        apply_verdict dest_addr pq_enc_send (some p) rt
    ]
  packet_queue_set_verdict dest_addr pq_send = do
    rt ← rt_table_find dest_addr
    apply_verdict dest_addr pq_send none rt
  packet_queue_set_verdict dest_addr pq_drop = do
    rt ← rt_table_find dest_addr
    apply_verdict dest_addr pq_drop none rt
