-- ===== src/Queue.antt =====
-- The queue of packets that wait for a route, code/aodv-uu-0.96/ns-2/packet_queue.cc.
pub mod Verdict
pub mod Fifo
pub mod Collect
pub mod Ready
pub mod Refresh
pub mod Waiting
pub mod Walk
pub mod Release
pub mod Serve
use aodv_uu.Prelude.{ℕ, ◌+◌, not, ◌&&◌, List, [], ◌∷◌, pos, leb, ltb_ℤ, ◌==◌, if◌then◌else◌}
use aodv_uu.Word.{inc32, dec32}
use aodv_uu.Params.{max_queue_length, max_queue_time, garbage_collect_time}
use aodv_uu.Packet.{Packet, QPkt, drop_end_of_simulation, drop_rtr_qtimeout, drop_rtr_qfull}
use aodv_uu.State.{Handler, PacketQueue, Node, drop}
use aodv_uu.Machine.{M, ◌>>=◌, ◌>>◌, ret, skip, get, modify, emit, fault, Env}

abbrev pub modify_pq : (PacketQueue → PacketQueue) → M (Unit {0})
modify_pq f = modify λ n. record n { pq = f n.pq }

-- `PQ.len--`.
abbrev pub count_out : M (Unit {0})
count_out = modify_pq λ q. record q { len = dec32 q.len }

module _ (env : Env) where
  unfoldable pub packet_queue_init : M (Unit {0})
  packet_queue_init = modify λ n. record n {
    pq = record {
      head = [];
      len = 0;
      garbage_collect_timer =
          env.timer_set_timeout n.now garbage_collect_time
            (env.timer_init Handler.packet_queue n.pq.garbage_collect_timer);
    };
  }

  -- The loop detaches and drops every packet.
  unfoldable pub destroy_packets : List QPkt → M (Unit {0})
  destroy_packets [] = skip
  destroy_packets (q ∷ qs) = do
    emit (drop q.p drop_end_of_simulation)
    count_out
    destroy_packets qs

  unfoldable pub packet_queue_destroy : M (Unit {0})
  packet_queue_destroy = do
    n ← get
    destroy_packets n.pq.head
    modify_pq λ q. record q { head = [] }

  -- The loop; its result are the packets that stay and the number of those that do not.
  unfoldable pub collect_old : List QPkt → M (List QPkt × ℕ)
  collect_old [] = ret ([], 0)
  collect_old (q ∷ qs) =
      let rest = collect_old qs in
      (do
        n ← get
        if ltb_ℤ (pos max_queue_time) (env.timeval_diff n.now q.q_time)
            then (do
              emit (drop q.p drop_rtr_qtimeout)
              count_out
              (kept, count) ← rest
              ret (kept, count + 1))
            else (do (kept, count) ← rest; ret (q ∷ kept, count)))

  unfoldable pub packet_queue_garbage_collect : M ℕ
  packet_queue_garbage_collect = do
    n ← get
    (kept, count) ← collect_old n.pq.head
    modify_pq λ q. record q { head = kept }
    ret count

  -- A full queue loses its first packet.
  unfoldable pub make_room : M (Unit {0})
  make_room = do
    n ← get
    if leb max_queue_length n.pq.len
        then (elim n.pq.head [
          | [] ↦ skip
          | q ∷ qs ↦ do
            emit (drop q.p drop_rtr_qfull)
            modify_pq λ r. record r { head = qs; len = dec32 r.len }
        ])
        else skip

  -- The assertion that the packet goes to `dest_addr` is a fault where it fails.
  unfoldable pub packet_queue_add : Packet → (dest_addr : ℕ) → M (Unit {0})
  packet_queue_add p dest_addr = if not (p.daddr == dest_addr) then fault else (do
    make_room
    modify λ n. record n {
      pq = record (n.pq) {
        head =
            env.pq_list.list_add_tail n.pq.head
              (record { dest_addr = dest_addr; q_time = n.now; p = p });
        len = inc32 n.pq.len;
      };
    })

  -- `packet_queue_timeout` of aodv_timeout.c.
  unfoldable pub packet_queue_timeout : M (Unit {0})
  packet_queue_timeout = do
    _ ← packet_queue_garbage_collect
    modify λ n. record n {
      pq = record (n.pq) {
        garbage_collect_timer =
            env.timer_set_timeout n.now garbage_collect_time n.pq.garbage_collect_timer;
      };
    }
