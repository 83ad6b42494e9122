-- ===== src/Link/Leaves.antt =====
-- What `sendPacket` of code/aodv-uu-0.96/ns-2/aodv-uu.cc changes: nothing but what leaves the node.
use aodv_uu.Prelude.{
  ℕ, zero, suc, ◌+◌, ◌∷◌, [], List, some, ◌≡◌, ◌≢◌, refl, sym, subst, ◌∙◌, true, ◌==◌, ◌⊎◌, inl,
  inr, Bool-cases, arith, ==_refl, ==_ne,
}
use aodv_uu.Word.{dec32, lt_i32}
use aodv_uu.Params.{aodv_broadcast}
use aodv_uu.Packet.{Packet, DropReason, Direction, down, up, undirected, drop_rtr_ttl, unspecified}
use aodv_uu.State.{Node, Event, schedule, drop}
use aodv_uu.Machine.{◌>>=◌, Env, emit}
use aodv_uu.Device.{Known, dev_ifindex, ifindex2devindex, dev_nr}
use aodv_uu.Link.{
  ns_ifindex, send_packet, check_direction, pass_down, on_each, broadcast_headers, unicast_headers,
  jitter,
}

abbrev pub Among : {A : Type 0} → A → List A → Type 0
Among e [] = ⊥
Among e (x ∷ xs) = (x ≡ e) ⊎ Among e xs

-- What leaves the node is what left it before, or satisfies `P`.
pub record Only (P : Event → Type 0) (n m : Node) : Type 0 where
  pub source : (e : Event) → Among e m.events → (Among e n.events) ⊎ P e

pub Only-self : {P : Event → Type 0} (n : Node) → Only P n n
Only-self n = record { source = λ e i. inl i }

pub Only-trans : {P : Event → Type 0} {a b c : Node} → Only P a b → Only P b c → Only P a c
Only-trans f g = record {
  source = λ e i. elim (g.source e i) [ inl j ↦ f.source e j | inr p ↦ inr p ];
}

-- The packet `p`, or one that differs in its headers only, goes to a link layer or is dropped.
pub record About (p : Packet) (e : Event) : Type 0 where
  pub packet : Packet
  pub contents : packet.contents ≡ p.contents
  pub daddr : packet.daddr ≡ p.daddr
  pub saddr : packet.saddr ≡ p.saddr
  pub size : packet.size ≡ p.size
  pub ttl : p.direction ≡ down → packet.ttl ≡ p.ttl
  pub event :
      ((interface : ℕ) × (delay : ℕ) × (e ≡ schedule packet interface delay))
      ⊎ ((reason : DropReason) × (e ≡ drop packet reason))

-- Nothing but what leaves the node changed, and that satisfies `P`.
pub record Leaves (P : Event → Type 0) (n m : Node) : Type 0 where
  pub frame : m ≡ record n { events = m.events }
  pub only : Only P n m

pub Leaves-self : {P : Event → Type 0} (n : Node) → Leaves P n n
Leaves-self n = record { frame = refl; only = Only-self n }

pub emit-Leaves :
    {P : Event → Type 0} (n : Node) (e : Event)
    → P e
    → Leaves P n (record n { events = e ∷ n.events })
emit-Leaves {P} n e h = record {
  frame = refl;
  only = record { source = λ x i. elim i [ inl s ↦ inr (subst P s h) | inr j ↦ inl j ] };
}

pub Leaves-trans : {P : Event → Type 0} {a b c : Node} → Leaves P a b → Leaves P b c → Leaves P a c
Leaves-trans {a = a} {c = c} f g = record {
  frame = g.frame ∙ (λ i. record (f.frame i) { events = c.events });
  only = Only-trans f.only g.only;
}

on_each-Leaves :
    (p : Packet) (rounds i delay : ℕ) (n : Node)
    → (m : Node) × (on_each p rounds i delay n ≡ some (tt, m)) × Leaves (About p) n m
unfolding on_each
on_each-Leaves p zero i delay n = (n, refl, Leaves-self n)
on_each-Leaves p (suc rounds) i delay n =
    let q : Packet = record p { channel = i } in
    let e = schedule q i delay in
    let n₁ : Node = record n { events = e ∷ n.events } in
    let first : Leaves (About p) n n₁ = emit-Leaves n e (record {
      packet = q;
      contents = refl;
      daddr = refl;
      saddr = refl;
      size = refl;
      ttl = λ d. refl;
      event = inl (i, delay, refl);
    }) in
    let (m, run, l) = on_each-Leaves p rounds (i + 1) delay n₁ in (m, run, Leaves-trans first l)

module _ (env : Env) where
  pass_down-Leaves :
      (p q : Packet) (next_hop delay : ℕ) (n : Node)
      → q.direction ≡ down
      → q.contents ≡ p.contents
      → q.daddr ≡ p.daddr
      → q.saddr ≡ p.saddr
      → q.size ≡ p.size
      → (p.direction ≡ down → q.ttl ≡ p.ttl)
      → (m : Node) × (pass_down env q next_hop delay n ≡ some (tt, m)) × Leaves (About p) n m
  unfolding pass_down
  pass_down-Leaves p q next_hop delay n o c d s z t' =
      elim (Bool-cases (q.daddr == aodv_broadcast)) [
        | inl t ↦
            let (m, run, l) =
              on_each-Leaves (broadcast_headers env q n) n.n_ifaces 0 (jitter env) n in
            (
              m,
              rw t run,
              record {
                frame = l.frame;
                only = record {
                  source = λ e i. elim (l.only.source e i) [
                    | inl j ↦ inl j
                    | inr a ↦ inr (record {
                      packet = a.packet;
                      contents = a.contents ∙ c;
                      daddr = a.daddr ∙ d;
                      saddr = a.saddr ∙ s;
                      size = a.size ∙ z;
                      ttl = λ x. a.ttl o ∙ t' x;
                      event = a.event;
                    })
                  ];
                };
              },
            )
        | inr t ↦
            let u = unicast_headers env q next_hop n in
            (
              record n { events = schedule u n.channel_num delay ∷ n.events },
              rw t refl,
              emit-Leaves n (schedule u n.channel_num delay) (record {
                packet = u;
                contents = c;
                daddr = d;
                saddr = s;
                size = z;
                ttl = t';
                event = inl (n.channel_num, delay, refl);
              }),
            )
      ]

  dropped-Leaves :
      (p q : Packet) (reason : DropReason) (n : Node)
      → q.contents ≡ p.contents
      → q.daddr ≡ p.daddr
      → q.saddr ≡ p.saddr
      → q.size ≡ p.size
      → (p.direction ≡ down → q.ttl ≡ p.ttl)
      → (m : Node) × (emit (drop q reason) n ≡ some (tt, m)) × Leaves (About p) n m
  dropped-Leaves p q reason n c d s z t' = (
    record n { events = drop q reason ∷ n.events },
    refl,
    emit-Leaves n (drop q reason) (record {
      packet = q;
      contents = c;
      daddr = d;
      saddr = s;
      size = z;
      ttl = t';
      event = inr (reason, refl);
    }),
  )

  check_direction-Leaves :
      (d : Direction) (p : Packet) (next_hop delay : ℕ) (n : Node)
      → p.direction ≡ d
      → Known ns_ifindex n
      → (m : Node) × (check_direction env d p next_hop delay n ≡ some (tt, m))
        × Leaves (About p) n m
  unfolding check_direction dev_ifindex
  check_direction-Leaves up p next_hop delay n o (k, e) =
      elim (Bool-cases (p.saddr == (dev_nr k n).ipaddr)) [
        | inl t ↦
            rw (◌>>=◌, e, t) (dropped-Leaves p p unspecified n refl refl refl refl (λ x. refl))
        | inr t ↦
            let q : Packet = record p { ttl = dec32 p.ttl } in
            let never : p.direction ≡ down → q.ttl ≡ p.ttl = λ x. ground (arith, o, x) in
            elim (Bool-cases (lt_i32 q.ttl 1)) [
              | inl l ↦
                  rw (◌>>=◌, e, t, l) (dropped-Leaves p q drop_rtr_ttl n refl refl refl refl never)
              | inr l ↦
                  rw (◌>>=◌, e, t, l)
                    (pass_down-Leaves p (record q { direction = down }) next_hop delay n refl refl
                      refl refl refl never)
            ]
      ]
  check_direction-Leaves down p next_hop delay n o (k, e) =
      elim (Bool-cases (p.saddr == (dev_nr k n).ipaddr)) [
        | inl t ↦
            rw (◌>>=◌, e, t)
              (pass_down-Leaves p p next_hop delay n o refl refl refl refl (λ x. refl))
        | inr t ↦
            rw (◌>>=◌, e, t) (dropped-Leaves p p unspecified n refl refl refl refl (λ x. refl))
      ]
  check_direction-Leaves undirected p next_hop delay n o e =
      dropped-Leaves p p unspecified n refl refl refl refl (λ x. refl)

  -- The agent's device is known. Then `sendPacket` returns, and only the packet leaves the node.
  pub send_packet-Leaves :
      (p : Packet) (next_hop delay : ℕ) (n : Node)
      → Known ns_ifindex n
      → (m : Node) × (send_packet env p next_hop delay n ≡ some (tt, m)) × Leaves (About p) n m
  unfolding send_packet
  send_packet-Leaves p next_hop delay n e =
      check_direction-Leaves p.direction p next_hop delay n refl e

  -- An own packet to one node goes to the link layer of the channel that is set.
  pub send_packet_own :
      (p : Packet) (next_hop delay k : ℕ) (n : Node)
      → ifindex2devindex ns_ifindex n ≡ some k
      → p.direction ≡ down
      → p.saddr ≡ (dev_nr k n).ipaddr
      → p.daddr ≢ aodv_broadcast
      → send_packet env p next_hop delay n
        ≡ some (
          tt,
          record n {
            events = schedule (unicast_headers env p next_hop n) n.channel_num delay ∷ n.events;
          },
        )
  unfolding send_packet check_direction dev_ifindex pass_down
  send_packet_own p next_hop delay k n e d own uni =
      let ours : (p.saddr == (dev_nr k n).ipaddr) ≡ true = rw own (==_refl (dev_nr k n).ipaddr) in
      subst
        (λ x.
          check_direction env x p next_hop delay n
          ≡ some (
            tt,
            record n {
              events = schedule (unicast_headers env p next_hop n) n.channel_num delay ∷ n.events;
            },
          ))
        (sym d) (rw (◌>>=◌, e, ours, ==_ne p.daddr aodv_broadcast uni) refl)
