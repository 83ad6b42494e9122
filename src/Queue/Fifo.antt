-- ===== src/Queue/Fifo.antt =====
-- The queue of code/aodv-uu-0.96/ns-2/packet_queue.cc as a bounded first-in-first-out list.
use aodv_uu.Prelude.{
  ℕ, ◌≤◌, List, [], ◌∷◌, ◌++◌, map, some, ◌≡◌, refl, sym, ap, ◌∙◌, arith, length, length-append,
  leb, ◌==◌, if◌then◌else◌, inl, inr, Bool-cases, true, false, ==_refl,
}
use aodv_uu.Word.{inc32, dec32}
use aodv_uu.Packet.{Packet, QPkt, drop_rtr_qfull}
use aodv_uu.State.{Node, PacketQueue, Event, drop}
use aodv_uu.Machine.{◌>>=◌, ◌>>◌, Env}
use aodv_uu.Queue.{packet_queue_add, make_room}

-- The counter counts the packets, of which there are at most MAX_QUEUE_LENGTH.
pub record IsQueue (q : PacketQueue) : Type 0 where
  pub counted : q.len ≡ length q.head
  pub bounded : q.len ≤ 512

-- A packet joins a queue of at most 512: what is in the queue then, and what was lost.
abbrev pub bounded_add : List QPkt → QPkt → List QPkt × List QPkt
bounded_add [] x = (x ∷ [], [])
bounded_add (q ∷ qs) x =
    if length (q ∷ qs) == 512 then (qs ++ (x ∷ []), q ∷ []) else ((q ∷ qs) ++ (x ∷ []), [])

-- The events that say that the packets were lost because the queue is full.
abbrev pub overflowed : List QPkt → List Event
overflowed qs = map (λ q. drop q.p drop_rtr_qfull) qs

-- What an addition makes of a node.
pub record IsAdded (n m : Node) (x : QPkt) : Type 0 where
  pub frame : m ≡ record n { events = m.events; pq = m.pq }
  pub queue : IsQueue m.pq
  pub head : m.pq.head ≡ (bounded_add n.pq.head x).0
  pub events : m.events ≡ overflowed (bounded_add n.pq.head x).1 ++ n.events

module _ (env : Env) where
  -- The packet is put at the end of what the queue has after room was made.
  abbrev tailed : Node → List QPkt → ℕ → List Event → QPkt → Node
  tailed n qs len events x = record n {
    events = events;
    pq = record (n.pq) { head = env.pq_list.list_add_tail qs x; len = inc32 len };
  }

  added :
      (n : Node) (p : Packet) (qs : List QPkt)
      → n.pq.head ≡ qs
      → IsQueue n.pq
      → (m : Node) × (packet_queue_add env p p.daddr n ≡ some (tt, m))
        × IsAdded n m (record { dest_addr = p.daddr; q_time = n.now; p = p })
  unfolding packet_queue_add make_room
  added n p [] e is =
      let x : QPkt = record { dest_addr = p.daddr; q_time = n.now; p = p } in
      let empty : n.pq.len ≡ 0 = is.counted ∙ ap length e in
      let few : leb 512 n.pq.len ≡ false = ground (arith, empty) in
      let tail = env.pq_list.list_add_tail-last n.pq.head x ∙ ap (λ l. l ++ (x ∷ [])) e in
      (
        tailed n n.pq.head n.pq.len n.events x,
        rw (==_refl p.daddr, ◌>>=◌, ◌>>◌, few) refl,
        record {
          frame = refl;
          queue = record {
            counted = ground (arith, empty, ap length tail);
            bounded = ground (arith, empty);
          };
          head = tail ∙ ap (λ l. (bounded_add l x).0) (sym e);
          events = ap (λ l. overflowed (bounded_add l x).1 ++ n.events) (sym e);
        },
      )
  added n p (q ∷ qs) e is =
      let x : QPkt = record { dest_addr = p.daddr; q_time = n.now; p = p } in
      let size : n.pq.len ≡ length (q ∷ qs) = is.counted ∙ ap length e in
      let bound = is.bounded in
      elim (Bool-cases (leb 512 n.pq.len)) [
        | inl t ↦
            let full : (length (q ∷ qs) == 512) ≡ true = ground (arith, t, size, bound) in
            let tail = env.pq_list.list_add_tail-last qs x in
            (
              tailed n qs (dec32 n.pq.len) (drop q.p drop_rtr_qfull ∷ n.events) x,
              rw (==_refl p.daddr, ◌>>=◌, ◌>>◌, t, e) refl,
              record {
                frame = refl;
                queue = record {
                  counted = omega (arith, size, bound, ap length tail, length-append qs (x ∷ []));
                  bounded = omega (arith, size, bound);
                };
                head = tail ∙ rw (e, full) refl;
                events = rw (e, full) refl;
              },
            )
        | inr t ↦
            let free : (length (q ∷ qs) == 512) ≡ false = ground (arith, t, size) in
            let tail = env.pq_list.list_add_tail-last n.pq.head x ∙ ap (λ l. l ++ (x ∷ [])) e in
            (
              tailed n n.pq.head n.pq.len n.events x,
              rw (==_refl p.daddr, ◌>>=◌, ◌>>◌, t) refl,
              record {
                frame = refl;
                queue = record {
                  counted =
                      omega (arith, size, bound, ap length tail, length-append (q ∷ qs) (x ∷ []));
                  bounded = ground (arith, t);
                };
                head = tail ∙ rw (e, free) refl;
                events = rw (e, free) refl;
              },
            )
      ]

  -- The queue counts its packets and has at most 512. A packet that is added under its own
  -- destination stands at its end, with the time at which it came; if there were 512 the first one
  -- is dropped, and nothing is lost otherwise. The queue then counts its packets again, and nothing but
  -- it and what left the node changes.
  pub packet_queue_add-bounded_add :
      (n : Node) (p : Packet)
      → IsQueue n.pq
      → (m : Node) × (packet_queue_add env p p.daddr n ≡ some (tt, m))
        × IsAdded n m (record { dest_addr = p.daddr; q_time = n.now; p = p })
  packet_queue_add-bounded_add n p is = added n p n.pq.head refl is
