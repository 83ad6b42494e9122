-- ===== src/Queue/Waiting.antt =====
-- What a walk of code/aodv-uu-0.96/ns-2/packet_queue.cc over the packets that wait leaves of them, and which
-- packets leave the node.
use aodv_uu.Prelude.{
  ℕ, ◌+◌, ◌≤◌, length, if◌then◌else◌, false, true, List, [], ◌∷◌, Option, none, ◌≡◌, refl, ap, ◌∙◌,
  ◌==◌, inl, inr, arith,
}
use aodv_uu.Word.{dec32}
use aodv_uu.Packet.{QPkt}
use aodv_uu.State.{Node, Verdict, pq_send, Event}
use aodv_uu.Device.{Known, ifindex2devindex}
use aodv_uu.Link.{ns_ifindex}
use aodv_uu.Link.Leaves.{Among, Only, Only-self, Only-trans, About, Leaves}
use aodv_uu.Queue.Verdict.{Walk}

-- An event about one of the packets in the list that wait for `d`.
pub record Waiting (d : ℕ) (qs : List QPkt) (e : Event) : Type 0 where
  pub waiting : QPkt
  pub member : Among waiting qs
  pub to : waiting.dest_addr ≡ d
  pub about : About waiting.p e

-- The packets in the list that do not wait for `d`.
abbrev pub others : ℕ → List QPkt → List QPkt
others d [] = []
others d (q ∷ qs) = if q.dest_addr == d then others d qs else q ∷ others d qs

-- What a walk that does not stop does to the list and the counter; it stops only where a packet is to be
-- sent and there is no route.
pub record Served (d : ℕ) (verdict : Verdict) (rt : Option ℕ) (qs : List QPkt) (n m : Node)
    (w : Walk) : Type 0 where
  pub stops : w.stopped ≡ true → (verdict ≡ pq_send) × (rt ≡ none)
  pub kept : w.stopped ≡ false → w.kept ≡ others d qs
  pub counted : w.stopped ≡ false → w.count + length w.kept ≡ length qs
  pub len :
      length qs ≤ n.pq.len → n.pq.len ≤ 512 → w.stopped ≡ false → m.pq.len + w.count ≡ n.pq.len

-- The first packet is counted out.
pub Served-hit :
    {d : ℕ} {verdict : Verdict} {rt : Option ℕ} {q : QPkt} {qs : List QPkt} {n n₁ m : Node}
    {w : Walk}
    → (q.dest_addr == d) ≡ true
    → n₁.pq.len ≡ dec32 n.pq.len
    → Served d verdict rt qs n₁ m w
    → Served d verdict rt (q ∷ qs) n m (record w { count = w.count + 1 })
Served-hit t e s = record {
  stops = s.stops;
  kept = λ f. s.kept f ∙ rw t refl;
  counted = λ f. let k = s.counted f in omega arith;
  len = λ a b f.
      let k = s.len (omega (arith, a, b, e)) (omega (arith, a, b, e)) f in omega (arith, a, b, e);
}

-- The first packet stays.
pub Served-miss :
    {d : ℕ} {verdict : Verdict} {rt : Option ℕ} {q : QPkt} {qs : List QPkt} {n m : Node} {w : Walk}
    → (q.dest_addr == d) ≡ false
    → Served d verdict rt qs n m w
    → Served d verdict rt (q ∷ qs) n m (record w { kept = q ∷ w.kept })
Served-miss {q = q} t s = record {
  stops = s.stops;
  kept = λ f. ap (λ l. q ∷ l) (s.kept f) ∙ rw t refl;
  counted = λ f. let k = s.counted f in omega arith;
  len = λ a b f. s.len (omega (arith, a)) b f;
}

-- Only the queue changes, and what leaves the node.
pub record Walked (d : ℕ) (qs : List QPkt) (n m : Node) : Type 0 where
  pub frame : m ≡ record n { events = m.events; pq = m.pq }
  pub only : Only (Waiting d qs) n m

pub Walked-self : {d : ℕ} {qs : List QPkt} (n : Node) → Walked d qs n n
Walked-self n = record { frame = refl; only = Only-self n }

-- A walk over the rest of a list.
pub Walked-later :
    {d : ℕ} {q : QPkt} {qs : List QPkt} {n m : Node} → Walked d qs n m → Walked d (q ∷ qs) n m
Walked-later w = record {
  frame = w.frame;
  only = record {
    source = λ e i. elim (w.only.source e i) [
      | inl j ↦ inl j
      | inr a ↦
          inr (record { waiting = a.waiting; member = inr a.member; to = a.to; about = a.about })
    ];
  };
}

pub Walked-trans :
    {d : ℕ} {qs : List QPkt} {a b c : Node} → Walked d qs a b → Walked d qs b c → Walked d qs a c
Walked-trans {c = c} f g = record {
  frame = g.frame ∙ (λ i. record (f.frame i) { events = c.events; pq = c.pq });
  only = Only-trans f.only g.only;
}

-- The packet is sent or dropped, and counted out.
pub counted-Walked :
    {d : ℕ} {q : QPkt} {qs : List QPkt} {n m : Node}
    → q.dest_addr ≡ d
    → Leaves (About q.p) n m
    → Walked d (q ∷ qs) n (record m { pq = record (m.pq) { len = dec32 m.pq.len } })
counted-Walked {q = q} {m = m} to l = record {
  frame =
      λ i. record (l.frame i) { events = m.events; pq = record (m.pq) { len = dec32 m.pq.len } };
  only = record {
    source = λ e i. elim (l.only.source e i) [
      | inl j ↦ inl j
      | inr a ↦ inr (record { waiting = q; member = inl refl; to = to; about = a })
    ];
  };
}

pub Walked-Known :
    {d : ℕ} {qs : List QPkt} {n m : Node}
    → Walked d qs n m
    → Known ns_ifindex n
    → Known ns_ifindex m
unfolding ifindex2devindex
Walked-Known w (i, e) = (i, ap (λ (k : Node). ifindex2devindex ns_ifindex k) w.frame ∙ e)

pub Walked-heap : {d : ℕ} {qs : List QPkt} {n m : Node} → Walked d qs n m → m.heap ≡ n.heap
Walked-heap w = ap Node.heap w.frame
