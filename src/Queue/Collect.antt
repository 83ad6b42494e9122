-- ===== src/Queue/Collect.antt =====
-- `packet_queue_garbage_collect` of code/aodv-uu-0.96/ns-2/packet_queue.cc as a filter.
use aodv_uu.Prelude.{
  Bool, ℕ, ◌+◌, ◌≤◌, List, [], ◌∷◌, some, ◌≡◌, refl, ap, ◌∙◌, arith, length, ltb, not,
  if◌then◌else◌, inl, inr, Bool-cases, pos, negsuc, ℤ, ltb_ℤ,
}
use aodv_uu.Word.{dec32}
use aodv_uu.Packet.{QPkt, drop_rtr_qtimeout}
use aodv_uu.State.{Node, Event, drop}
use aodv_uu.Machine.{◌>>=◌, ◌>>◌, Env, TimerLaws}
use aodv_uu.Queue.{collect_old, packet_queue_garbage_collect}
use aodv_uu.Queue.Fifo.{IsQueue}

-- A packet has waited for more than MAX_QUEUE_TIME.
abbrev pub expired : (now : ℕ) → QPkt → Bool
expired now q = ltb (q.q_time + 10000) now

abbrev pub unexpired : (now : ℕ) → List QPkt → List QPkt
unexpired now [] = []
unexpired now (q ∷ qs) = if expired now q then unexpired now qs else q ∷ unexpired now qs

-- The packets that have waited too long are dropped one after the other.
abbrev pub timed_out : (now : ℕ) → List QPkt → List Event → List Event
timed_out now [] es = es
timed_out now (q ∷ qs) es =
    if expired now q
    then timed_out now qs (drop q.p drop_rtr_qtimeout ∷ es)
    else timed_out now qs es

-- What the collection makes of a node.
pub record IsCollected (n m : Node) (count : ℕ) : Type 0 where
  pub head : m.pq.head ≡ unexpired n.now n.pq.head
  pub counted : count + length m.pq.head ≡ length n.pq.head
  pub queue : IsQueue m.pq
  pub events : m.events ≡ timed_out n.now n.pq.head n.events
  pub frame : m ≡ record n { events = m.events; pq = m.pq }

pos_lt : (k : ℕ) (z : ℤ) → ltb_ℤ (pos k) z ≡ not (ltb_ℤ z (pos (k + 1)))
pos_lt k (pos n) = ground arith
pos_lt k (negsuc n) = ground arith

module _ (env : Env) (laws : TimerLaws env) where
  expired_test :
      (now : ℕ) (q : QPkt) → ltb_ℤ (pos 10000) (env.timeval_diff now q.q_time) ≡ expired now q
  expired_test now q =
      pos_lt 10000 (env.timeval_diff now q.q_time)
      ∙ ap not (laws.diff_lt now q.q_time 10001)
      ∙ ground arith

  record Collects (qs : List QPkt) (n m : Node) (count : ℕ) : Type 0 where
    counted : count + length (unexpired n.now qs) ≡ length qs
    len : length qs ≤ n.pq.len → n.pq.len ≤ 512 → m.pq.len + count ≡ n.pq.len
    frame :
        m ≡ record n { events = timed_out n.now qs n.events; pq = record (n.pq) { len = m.pq.len } }

  collect_old-Collects :
      (qs : List QPkt) (n : Node)
      → (count : ℕ) × (m : Node) × (collect_old env qs n ≡ some ((unexpired n.now qs, count), m))
        × Collects qs n m count
  unfolding collect_old
  collect_old-Collects [] n =
      (0, n, refl, record { counted = refl; len = λ a b. omega arith; frame = refl })
  collect_old-Collects (q ∷ qs) n = elim (Bool-cases (expired n.now q)) [
    | inl t ↦
        let n₁ : Node = record n {
          events = drop q.p drop_rtr_qtimeout ∷ n.events;
          pq = record (n.pq) { len = dec32 n.pq.len };
        } in
        let (count, m, run, c) = collect_old-Collects qs n₁ in
        let k = c.counted in
        (
          count + 1,
          m,
          rw (◌>>=◌, ◌>>◌, expired_test n.now q, t, run) refl,
          record {
            counted = rw t (omega arith);
            len = λ a b.
                let l = c.len (omega (arith, a, b)) (omega (arith, a, b)) in omega (arith, a, b);
            frame = rw t c.frame;
          },
        )
    | inr t ↦
        let (count, m, run, c) = collect_old-Collects qs n in
        let k = c.counted in
        (
          count,
          m,
          rw (◌>>=◌, ◌>>◌, expired_test n.now q, t, run) refl,
          record {
            counted = rw t (omega arith);
            len = λ a b. c.len (omega (arith, a)) b;
            frame = rw t c.frame;
          },
        )
  ]

  -- The timers behave as documented, and the queue counts its packets and has at most 512. The
  -- collection leaves, in their order, the packets that have waited for at most MAX_QUEUE_TIME, drops
  -- the others in their order, and returns their number; the queue then counts its packets again, and
  -- nothing but it and what left the node changes.
  pub packet_queue_garbage_collect-unexpired :
      (n : Node)
      → IsQueue n.pq
      → (count : ℕ) × (m : Node) × (packet_queue_garbage_collect env n ≡ some (count, m))
        × IsCollected n m count
  unfolding packet_queue_garbage_collect
  packet_queue_garbage_collect-unexpired n is =
      let (count, n₁, run, c) = collect_old-Collects n.pq.head n in
      let m : Node = record n₁ { pq = record (n₁.pq) { head = unexpired n.now n.pq.head } } in
      let size = is.counted in
      let bound = is.bounded in
      let counted = c.counted in
      let len = c.len (omega arith) bound in
      (
        count,
        m,
        rw (◌>>=◌, ◌>>◌, run) refl,
        record {
          head = refl;
          counted = counted;
          queue = record { counted = omega arith; bounded = omega arith };
          events = ap Node.events c.frame;
          frame = λ i. record (c.frame i) { events = n₁.events; pq = m.pq };
        },
      )
