-- ===== src/Queue/Walk.antt =====
-- The loop of `packet_queue_set_verdict` of code/aodv-uu-0.96/ns-2/packet_queue.cc and the packets in the list.
use aodv_uu.Prelude.{
  ℕ, ◌+◌, true, List, [], ◌∷◌, Option, none, some, ◌≡◌, refl, ap, ◌∙◌, ◌==◌, inl, inr, Bool-cases,
  arith,
}
use aodv_uu.Word.{dec32}
use aodv_uu.Params.{arp_delay}
use aodv_uu.Packet.{QPkt, drop_rtr_no_route}
use aodv_uu.State.{Node, RtTable, Verdict, pq_drop, pq_send, pq_enc_send, drop}
use aodv_uu.Machine.{◌>>=◌, ◌>>◌, get_rt, Env}
use aodv_uu.Device.{Known}
use aodv_uu.Link.{ns_ifindex}
use aodv_uu.Link.Leaves.{Leaves-self, emit-Leaves, send_packet-Leaves}
use aodv_uu.Route.Invariant.{Inv, SameTable, SameTable-Inv, SameTable-view, SameTable-Linked}
use aodv_uu.Table.Timed.{Later}
use aodv_uu.Queue.Verdict.{Walk, walk_queue}
use aodv_uu.Queue.Refresh.{Refreshed}
use aodv_uu.Queue.Waiting.{
  Served, Walked, Served-hit, Served-miss, Walked-self, Walked-later, Walked-trans, counted-Walked,
  Walked-Known, Walked-heap,
}

module _ (env : Env) (d : ℕ) where
  -- What a walk needs, and what it leaves.
  abbrev Able : Option ℕ → Node → Type 0
  Able rt n = Known ns_ifindex n × ((p : ℕ) → rt ≡ some p → (r : RtTable) × (n.heap p ≡ some r))

  abbrev Walks : Verdict → Option ℕ → List QPkt → (delay : ℕ) → Node → Type 0
  Walks verdict rt qs delay n =
      (w : Walk) × (m : Node) × (walk_queue env d verdict rt qs delay n ≡ some (w, m))
      × Walked d qs n m
      × Served d verdict rt qs n m w

  Walked-Able :
      {rt : Option ℕ} {qs : List QPkt} {n m : Node} → Walked d qs n m → Able rt n → Able rt m
  Walked-Able w (k, h) =
      (Walked-Known w k, λ p e. let (r, st) = h p e in (r, ap (λ g. g p) (Walked-heap w) ∙ st))

  -- The first packet of the list goes to `d`.
  walk_hit :
      (verdict : Verdict) (rt : Option ℕ) (q : QPkt) (qs : List QPkt) (delay : ℕ) (n : Node)
      → (q.dest_addr == d) ≡ true
      → Able rt n
      → ((delay' : ℕ) (m : Node) → Able rt m → Walks verdict rt qs delay' m)
      → Walks verdict rt (q ∷ qs) delay n
  unfolding walk_queue
  walk_hit pq_drop rt q qs delay n t able rest =
      let to : q.dest_addr ≡ d = ground (arith, t) in
      let e = drop q.p drop_rtr_no_route in
      let n₁ : Node = record n {
        events = e ∷ n.events;
        pq = record (n.pq) { len = dec32 n.pq.len };
      } in
      let first : Walked d (q ∷ qs) n n₁ = counted-Walked to (
        emit-Leaves n e (record {
          packet = q.p;
          contents = refl;
          daddr = refl;
          saddr = refl;
          size = refl;
          ttl = λ x. refl;
          event = inr (drop_rtr_no_route, refl);
        })) in
      let (w, m, run, is, s) = rest delay n₁ (Walked-Able first able) in
      (
        record w { count = w.count + 1 },
        m,
        rw (t, ◌>>=◌, ◌>>◌, run) refl,
        Walked-trans first (Walked-later is),
        Served-hit t refl s,
      )
  walk_hit pq_enc_send rt q qs delay n t able rest =
      let to : q.dest_addr ≡ d = ground (arith, t) in
      let n₁ : Node = record n { pq = record (n.pq) { len = dec32 n.pq.len } } in
      let first : Walked d (q ∷ qs) n n₁ = counted-Walked to (Leaves-self n) in
      let (w, m, run, is, s) = rest delay n₁ (Walked-Able first able) in
      (
        record w { count = w.count + 1 },
        m,
        rw (t, ◌>>=◌, ◌>>◌, run) refl,
        Walked-trans first (Walked-later is),
        Served-hit t refl s,
      )
  walk_hit pq_send none q qs delay n t able rest = (
    record { stopped = true; kept = qs; count = 0 },
    n,
    rw t refl,
    Walked-self n,
    record {
      stops = λ f. (refl, refl);
      kept = λ f. absurd (ground (arith, f));
      counted = λ f. absurd (ground (arith, f));
      len = λ a b f. absurd (ground (arith, f));
    },
  )
  walk_hit pq_send (some p) q qs delay n t able rest =
      let to : q.dest_addr ≡ d = ground (arith, t) in
      let (entry, st) = able.1 p refl in
      let (n₀, run₀, l) = send_packet-Leaves env q.p entry.next_hop delay n able.0 in
      let n₁ : Node = record n₀ { pq = record (n₀.pq) { len = dec32 n₀.pq.len } } in
      let first : Walked d (q ∷ qs) n n₁ = counted-Walked to l in
      let (w, m, run, is, s) = rest (env.add_double delay arp_delay) n₁ (Walked-Able first able) in
      (
        record w { count = w.count + 1 },
        m,
        rw (t, ◌>>=◌, ◌>>◌, get_rt, st, run₀, run) refl,
        Walked-trans first (Walked-later is),
        Served-hit t (ap (λ (k : Node). dec32 k.pq.len) l.frame) s,
      )

  pub walk_queue-Walked :
      (verdict : Verdict) (rt : Option ℕ) (qs : List QPkt) (delay : ℕ) (n : Node)
      → Able rt n
      → Walks verdict rt qs delay n
  unfolding walk_queue
  walk_queue-Walked verdict rt [] delay n able = (
    _,
    n,
    refl,
    Walked-self n,
    record {
      stops = λ f. absurd (ground (arith, f));
      kept = λ f. refl;
      counted = λ f. refl;
      len = λ a b f. omega arith;
    },
  )
  walk_queue-Walked verdict rt (q ∷ qs) delay n able = elim (Bool-cases (q.dest_addr == d)) [
    | inl t ↦
        walk_hit verdict rt q qs delay n t able
          (λ delay' m a. walk_queue-Walked verdict rt qs delay' m a)
    | inr t ↦
        let (w, m, run, is, s) = walk_queue-Walked verdict rt qs delay n able in
        (
          record w { kept = q ∷ w.kept },
          m,
          rw (t, ◌>>=◌, run) refl,
          Walked-later is,
          Served-miss t s,
        )
  ]

-- A walk leaves the table.
pub Walked-Refreshed :
    (env : Env) {d : ℕ} {qs : List QPkt} {n m : Node} → Walked d qs n m → Inv n → Refreshed env n m
Walked-Refreshed env {n = n} {m = m} w inv =
    let same : SameTable n m = record {
      heap = ap Node.heap w.frame;
      next_address = omega (arith, ap Node.next_address w.frame);
      num_entries = ap Node.num_entries w.frame;
      num_active = ap Node.num_active w.frame;
      tbl = ap Node.tbl w.frame;
    } in
    record {
      inv = SameTable-Inv same inv;
      lookup = SameTable-view same;
      linked = λ q rt l. (rt, SameTable-Linked same l, Later.same);
      host = record {
        this_host = ap Node.this_host w.frame;
        dev_indices = ap Node.dev_indices w.frame;
        wait_on_reboot = ap Node.wait_on_reboot w.frame;
      };
      now = ap Node.now w.frame;
      next_address = ap Node.next_address w.frame;
      num_entries = same.num_entries;
      num_active = same.num_active;
    }
