-- ===== src/Queue/Release.antt =====
-- `packet_queue_set_verdict` of code/aodv-uu-0.96/ns-2/packet_queue.cc on a well-formed table.
use aodv_uu.Prelude.{
  ℕ, ◌+◌, length, ◌⊎◌, List, Option, none, some, ℤ, ◌≡◌, refl, sym, ap, ◌∙◌, subst, inl, inr,
  Bool-cases, Option-cases, arith, pos, negsuc,
}
use aodv_uu.State.{Node, RtTable, Verdict, pq_drop, pq_send, pq_enc_send, Event, PacketQueue}
use aodv_uu.Machine.{◌>>=◌, ◌>>◌, get_rt, Env}
use aodv_uu.Device.{ifindex2devindex}
use aodv_uu.Link.Leaves.{Among, Only, Only-self}
use aodv_uu.Route.Invariant.{Inv, Linked, view, view-Linked, rt_table_find-view}
use aodv_uu.Queue.Verdict.{apply_verdict, packet_queue_set_verdict}
use aodv_uu.Queue.Ready.{Ready}
use aodv_uu.Queue.Refresh.{Refreshed, Refreshed-self, Refreshed-trans, touch_routes-Refreshed}
use aodv_uu.Queue.Fifo.{IsQueue}
use aodv_uu.Queue.Waiting.{Waiting, Walked, others}
use aodv_uu.Queue.Walk.{Walked-Refreshed, walk_queue-Walked}

pub frame-Ready :
    (n : Node) (events : List Event) (pq : PacketQueue)
    → Ready n
    → Ready (record n { events = events; pq = pq })
unfolding ifindex2devindex
frame-Ready n events pq ready = record {
  own = ready.own;
  routes = λ q rt l. ready.routes q rt (record { stored = l.stored; member = l.member });
}

abbrev Found : Node → Option ℕ → Type 0
Found n o = (q : ℕ) → o ≡ some q → (r : RtTable) × Linked n q r

Found-view : (n : Node) (d : ℕ) → Inv n → Found n (view n d)
Found-view n d inv q e = let (r, l, _) = view-Linked n d inv e in (r, l)

module _ (env : Env) (d : ℕ) where
  -- All packets that waited for `d` left the queue, the others stay in their order.
  pub record Serves (z : ℤ) (n m : Node) : Type 0 where
    pub count : ℕ
    pub result : z ≡ pos count
    pub head : m.pq.head ≡ others d n.pq.head
    pub counted : count + length m.pq.head ≡ length n.pq.head
    pub queue : IsQueue n.pq → IsQueue m.pq

  -- There is a route, if packets are to be sent.
  record Able (verdict : Verdict) (rt : Option ℕ) : Type 0 where
    able : verdict ≡ pq_send → rt ≡ none → ⊥

  abbrev pub Handles : Verdict → ℤ → Node → Node → Type 0
  Handles verdict z n m = (verdict ≡ pq_drop) ⊎ ((p : ℕ) × (view n d ≡ some p)) → Serves z n m

  -- The call returns, it moves timeouts at most, and what leaves the node are packets that waited for `d`.
  abbrev pub Releases : Verdict → Node → Type 0
  Releases verdict n =
      (z : ℤ) × (m : Node) × (packet_queue_set_verdict env d verdict n ≡ some (z, m))
      × Refreshed env n m
      × Only (Waiting d n.pq.head) n m
      × Handles verdict z n m

  apply_verdict-Refreshed :
      (verdict : Verdict) (inet rt : Option ℕ) (n : Node)
      → Inv n
      → Ready n
      → Found n inet
      → Found n rt
      → (z : ℤ) × (m : Node) × (apply_verdict env d verdict inet rt n ≡ some (z, m))
        × Refreshed env n m
        × Only (Waiting d n.pq.head) n m
        × (Able verdict rt → Serves z n m)
  unfolding apply_verdict
  apply_verdict-Refreshed verdict inet rt n inv ready hi hr =
      let (w, n₁, run, is, s) =
        walk_queue-Walked env d verdict rt n.pq.head 0 n
          (ready.own, λ p e. let (r, l) = hr p e in (r, l.stored)) in
      let n₂ : Node = record n₁ { pq = record (n₁.pq) { head = w.kept } } in
      let is₂ : Walked d n.pq.head n n₂ = record {
        frame =
            λ i. record (is.frame i) { events = n₁.events; pq = record (n₁.pq) { head = w.kept } };
        only = record { source = is.only.source };
      } in
      let ref = Walked-Refreshed env is₂ inv in
      elim (Bool-cases w.stopped) [
        | inl t ↦ (
          negsuc 0,
          n₂,
          rw (◌>>=◌, ◌>>◌, run, t) refl,
          ref,
          is₂.only,
          λ a. absurd (a.able (s.stops t).0 (s.stops t).1),
        )
        | inr t ↦
            let ready₂ : Ready n₂ =
              subst Ready (sym is₂.frame) (frame-Ready n n₂.events n₂.pq ready) in
            let move : (o : Option ℕ) → Found n o → Found n₂ o =
              λ o h q e. let (r, l) = h q e in let (r', l', _) = ref.linked q r l in (r', l') in
            let (m, run₂, r₂, still) =
              touch_routes-Refreshed env n₂ d verdict inet rt ref.inv ready₂ (move inet hi)
                (move rt hr) in
            let e₂ = ap Node.events still in
            let q₂ = ap Node.pq still in
            (
              pos w.count,
              m,
              rw (◌>>=◌, ◌>>◌, run, t, run₂) refl,
              Refreshed-trans env ref r₂,
              record { source = λ e i. is₂.only.source e (subst (Among e) e₂ i) },
              λ a. record {
                count = w.count;
                result = refl;
                head = ap PacketQueue.head q₂ ∙ s.kept t;
                counted = ap (λ (x : PacketQueue). w.count + length x.head) q₂ ∙ s.counted t;
                queue = λ is₀.
                    let size = is₀.counted in
                    let bound = is₀.bounded in
                    let l = s.len (omega arith) bound t in
                    let c = s.counted t in
                    let len = ap PacketQueue.len q₂ in
                    let here = ap (λ (x : PacketQueue). length x.head) q₂ in
                    record { counted = omega arith; bounded = omega arith };
              },
            )
      ]

  -- Unless packets are to be sent without a route.
  Handles-Able :
      (verdict : Verdict) (n : Node)
      → (verdict ≡ pq_drop) ⊎ ((p : ℕ) × (view n d ≡ some p))
      → Able verdict (view n d)
  Handles-Able verdict n h = record {
    able = λ v e. elim h [ inl w ↦ ground (arith, v, w) | inr (p, s) ↦ ground (arith, s, e) ];
  }

  -- The call returns, whatever the verdict.
  pub packet_queue_set_verdict-Refreshed :
      (verdict : Verdict) (n : Node) → Inv n → Ready n → Releases verdict n
  unfolding packet_queue_set_verdict
  packet_queue_set_verdict-Refreshed pq_drop n inv ready =
      let (z, m, run, r, o, s) =
        apply_verdict-Refreshed pq_drop none (view n d) n inv ready
          (λ q e. absurd (ground (arith, e))) (Found-view n d inv) in
      (z, m, rw (◌>>=◌, rt_table_find-view n d inv) run, r, o, λ h. s (Handles-Able pq_drop n h))
  packet_queue_set_verdict-Refreshed pq_send n inv ready =
      let (z, m, run, r, o, s) =
        apply_verdict-Refreshed pq_send none (view n d) n inv ready
          (λ q e. absurd (ground (arith, e))) (Found-view n d inv) in
      (z, m, rw (◌>>=◌, rt_table_find-view n d inv) run, r, o, λ h. s (Handles-Able pq_send n h))
  packet_queue_set_verdict-Refreshed pq_enc_send n inv ready = elim (Option-cases (view n d)) [
    | inl e ↦ (
      negsuc 0,
      n,
      rw (◌>>=◌, rt_table_find-view n d inv, e) refl,
      Refreshed-self env n inv,
      Only-self n,
      λ h. absurd (elim h [ inl w ↦ ground (arith, w) | inr (p, s) ↦ ground (arith, s, e) ]),
    )
    | inr (p, e) ↦
        let (inet, l, _) = view-Linked n d inv e in
        let (z, m, run, r, o, s) =
          apply_verdict-Refreshed pq_enc_send (some p) (view n inet.next_hop) n inv ready
            (λ q s. Found-view n d inv q (e ∙ s)) (Found-view n inet.next_hop inv) in
        (
          z,
          m,
          rw
              (
                ◌>>=◌,
                rt_table_find-view n d inv,
                e,
                get_rt,
                l.stored,
                rt_table_find-view n inet.next_hop inv,
              )
              run,
          r,
          o,
          λ h. s (record { able = λ v w. ground (arith, v) }),
        )
  ]
