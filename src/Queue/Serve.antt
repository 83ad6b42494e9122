-- ===== src/Queue/Serve.antt =====
-- What `packet_queue_set_verdict` of code/aodv-uu-0.96/ns-2/packet_queue.cc does to the queue.
use aodv_uu.Prelude.{
  ℕ, ◌+◌, ◌∷◌, List, none, some, ◌≡◌, refl, ap, ◌∙◌, ◌⊎◌, ◌==◌, true, length, pos, negsuc, ==_refl,
}
use aodv_uu.Packet.{QPkt}
use aodv_uu.State.{Node, Verdict, pq_drop, pq_send}
use aodv_uu.Machine.{◌>>=◌, ◌>>◌, Env}
use aodv_uu.Link.Leaves.{Only}
use aodv_uu.Queue.Verdict.{walk_queue, apply_verdict, packet_queue_set_verdict}
use aodv_uu.Queue.Fifo.{IsQueue}
use aodv_uu.Queue.Ready.{Ready}
use aodv_uu.Queue.Refresh.{Refreshed}
use aodv_uu.Queue.Waiting.{Waiting, others}
use aodv_uu.Queue.Release.{packet_queue_set_verdict-Refreshed}
use aodv_uu.Route.Invariant.{Inv, view, rt_table_find-view}

-- The table is well-formed, the interfaces of its routes and of the agent are known, the queue counts
-- its packets and has at most 512, and the verdict is PQ_DROP or there is a route to the
-- destination. Then `packet_queue_set_verdict` returns the number of packets that waited for the
-- destination: they are gone from the queue, the others stay in their order, and the queue counts them.
-- In the table only timeouts move, and all that leaves the node are packets that waited for the
-- destination, each to a link layer or dropped.
pub packet_queue_set_verdict-others :
    (env : Env) (n : Node) (d : ℕ) (verdict : Verdict)
    → Inv n
    → Ready n
    → IsQueue n.pq
    → (verdict ≡ pq_drop) ⊎ ((p : ℕ) × (view n d ≡ some p))
    → (count : ℕ) × (m : Node) × (packet_queue_set_verdict env d verdict n ≡ some (pos count, m))
      × (m.pq.head ≡ others d n.pq.head)
      × (count + length m.pq.head ≡ length n.pq.head)
      × IsQueue m.pq
      × Refreshed env n m
      × Only (Waiting d n.pq.head) n m
packet_queue_set_verdict-others env n d verdict inv ready queue h =
    let (z, m, run, r, o, f) = packet_queue_set_verdict-Refreshed env d verdict n inv ready in
    let s = f h in
    (s.count, m, run ∙ ap (λ x. some (x, m)) s.result, s.head, s.counted, s.queue queue, r, o)

stopped_walk :
    (env : Env) (n : Node) (d : ℕ) (q : QPkt) (qs : List QPkt)
    → q.dest_addr ≡ d
    → walk_queue env d pq_send none (q ∷ qs) 0 n
      ≡ some (record { stopped = true; kept = qs; count = 0 }, n)
unfolding walk_queue
stopped_walk env n d q qs to =
    let hit : (q.dest_addr == d) ≡ true = rw to (==_refl d) in rw hit refl

-- The table is well-formed and has no route to a destination, for which the first packet of the queue
-- waits. The verdict PQ_SEND returns -1, and that packet is lost: it is no longer in the queue, no packet
-- is sent or dropped, and the counter of the queue still counts it.
pub packet_queue_set_verdict-loses :
    (env : Env) (n : Node) (d : ℕ) (q : QPkt) (qs : List QPkt)
    → Inv n
    → view n d ≡ none
    → n.pq.head ≡ q ∷ qs
    → q.dest_addr ≡ d
    → packet_queue_set_verdict env d pq_send n
      ≡ some (negsuc 0, record n { pq = record (n.pq) { head = qs } })
unfolding packet_queue_set_verdict apply_verdict
packet_queue_set_verdict-loses env n d q qs inv v head to =
    let walk = ap (λ l. walk_queue env d pq_send none l 0 n) head ∙ stopped_walk env n d q qs to in
    rw (◌>>=◌, ◌>>◌, rt_table_find-view n d inv, v, walk) refl
