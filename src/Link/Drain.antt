-- ===== src/Link/Drain.antt =====
-- `interfaceQueue` of code/aodv-uu-0.96/ns-2/aodv-uu.cc: its loops end.
use aodv_uu.Prelude.{
  ℕ, zero, suc, ◌<◌, ◌∷◌, List, Option, none, some, ◌≡◌, refl, ap, ◌∙◌, arith, length, inl, inr,
  ◌⊎◌, Option-cases,
}
use aodv_uu.Packet.{Packet, drop_rtr_no_route}
use aodv_uu.State.{Node, IfqAction, ifq_drop, ifq_buffer, ifq_drop_by_dest, drop}
use aodv_uu.Machine.{◌>>◌, M, Env, emit, then_run}
use aodv_uu.Link.{drain, interface_queue}
use aodv_uu.Queue.{packet_queue_add}
use aodv_uu.Queue.Fifo.{IsQueue, packet_queue_add-bounded_add}

-- The queue of packets in memory is counted, and the interface queue holds `q`.
record Holds (n : Node) (q : List Packet) : Type 0 where
  counted : IsQueue n.pq
  queue : n.ifqueue ≡ some q

module _ (env : Env)
    (shrinks : (addr : ℕ) (q rest : List Packet) (p : Packet)
      → env.ifq_filter addr q ≡ some (p, rest)
      → length rest < length q) where
  -- What the loop does with a packet leaves the interface queue alone.
  abbrev Acts : (Packet → M (Unit {0})) → Type 0
  Acts act =
      (p : Packet) (n : Node) (q : List Packet)
      → Holds n q
      → (m : Node) × (act p n ≡ some (tt, m)) × Holds m q

  -- One round: the queue is empty of packets for the hop, or hands one out.
  handed :
      (Packet → M (Unit {0}))
      → (rounds addr : ℕ) → Node
      → Option (Packet × List Packet)
      → Option (Unit {0} × Node)
  handed act rounds addr n none = some (tt, n)
  handed act rounds addr n (some (p, rest)) =
      (act p >> drain env act rounds addr) (record n { ifqueue = some rest })

  drain_round :
      (act : Packet → M (Unit {0})) (rounds addr : ℕ) (n : Node) (q : List Packet)
      → n.ifqueue ≡ some q
      → (o : Option (Packet × List Packet)) → env.ifq_filter addr q ≡ o
      → drain env act (suc rounds) addr n ≡ handed act rounds addr n o
  unfolding drain handed
  drain_round act rounds addr n q e none f = ground (arith, e, f)
  drain_round act rounds addr n q e (some (p, rest)) f = ground (arith, e, f)

  drain-ends :
      (act : Packet → M (Unit {0}))
      → Acts act
      → (rounds addr : ℕ) (n : Node) (q : List Packet) → Holds n q
      → length q < rounds
      → (m : Node) × (rest : List Packet) × (drain env act rounds addr n ≡ some (tt, m))
        × Holds m rest
        × (env.ifq_filter addr rest ≡ none)
  unfolding handed
  drain-ends act acts zero addr n q h l = absurd (omega arith)
  drain-ends act acts (suc rounds) addr n q h l = elim (Option-cases (env.ifq_filter addr q)) [
    | inl e ↦ (n, q, drain_round act rounds addr n q h.queue none e, h, e)
    | inr ((p, rest), e) ↦
        let n₁ : Node = record n { ifqueue = some rest } in
        let (n₂, run, h₂) = acts p n₁ rest (record { counted = h.counted; queue = refl }) in
        let less = shrinks addr q rest p e in
        let (m, rest', runs, h₃, done) = drain-ends act acts rounds addr n₂ rest h₂ (omega arith) in
        (
          m,
          rest',
          drain_round act rounds addr n q h.queue (some (p, rest)) e
              ∙ then_run (act p) (drain env act rounds addr) n₁ n₂ run
              ∙ runs,
          h₃,
          done,
        )
  ]

  dropping : Acts (λ p. emit (drop p drop_rtr_no_route))
  dropping p n q h = (
    record n { events = drop p drop_rtr_no_route ∷ n.events },
    refl,
    record { counted = h.counted; queue = h.queue },
  )

  buffering : Acts (λ p. packet_queue_add env p p.daddr)
  buffering p n q h =
      let (m, run, is) = packet_queue_add-bounded_add env n p h.counted in
      (m, run, record { counted = is.queue; queue = ap Node.ifqueue is.frame ∙ h.queue })

  started :
      (action : IfqAction) (act : Packet → M (Unit {0})) (n : Node) (q : List Packet) (addr : ℕ)
      → interface_queue env addr action n ≡ drain env act (suc (length q)) addr n
      → Acts act
      → Holds n q
      → (m : Node) × (rest : List Packet) × (interface_queue env addr action n ≡ some (tt, m))
        × (m.ifqueue ≡ some rest)
        × (env.ifq_filter addr rest ≡ none)
        × IsQueue m.pq
  started action act n q addr same acts h =
      let (m, rest, run, h', done) =
        drain-ends act acts (suc (length q)) addr n q h (omega arith) in
      (m, rest, same ∙ run, h'.queue, done, h'.counted)

  -- Each packet that the interface queue hands out is gone from it, and the queue in memory counts its
  -- packets and has at most 512. To drop or to buffer the packets for a next hop then returns: the loop
  -- ends within the rounds that it is given, when the interface queue has no packet for that hop left, and
  -- the queue in memory still counts its packets.
  pub interface_queue-ends :
      (n : Node) (q : List Packet) (addr : ℕ) (action : IfqAction)
      → n.ifqueue ≡ some q
      → IsQueue n.pq
      → (action ≡ ifq_drop) ⊎ (action ≡ ifq_buffer)
      → (m : Node) × (rest : List Packet) × (interface_queue env addr action n ≡ some (tt, m))
        × (m.ifqueue ≡ some rest)
        × (env.ifq_filter addr rest ≡ none)
        × IsQueue m.pq
  unfolding interface_queue
  interface_queue-ends n q addr ifq_drop e is a =
      started ifq_drop (λ p. emit (drop p drop_rtr_no_route)) n q addr (ground (arith, e)) dropping
        (record { counted = is; queue = e })
  interface_queue-ends n q addr ifq_buffer e is a =
      started ifq_buffer (λ p. packet_queue_add env p p.daddr) n q addr (ground (arith, e))
        buffering (record { counted = is; queue = e })
  interface_queue-ends n q addr ifq_drop_by_dest e is a =
      absurd (elim a [ inl x ↦ ground (arith, x) | inr x ↦ ground (arith, x) ])
