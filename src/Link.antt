-- ===== src/Link.antt =====
-- The way down: `sendPacket` and `interfaceQueue` of code/aodv-uu-0.96/ns-2/aodv-uu.cc.
pub mod Leaves
pub mod Forward
pub mod Drain
use aodv_uu.Prelude.{
  ℕ, zero, suc, ◌+◌, not, ◌&&◌, Bool, List, [], ◌∷◌, Option, none, some, ltb, ◌==◌, if◌then◌else◌,
  length,
}
use aodv_uu.Word.{dec32, lt_i32}
use aodv_uu.Params.{aodv_broadcast}
use aodv_uu.Packet.{
  Packet, Direction, down, up, undirected, ns_af_none, ns_af_inet, drop_rtr_ttl, drop_rtr_no_route,
  unspecified,
}
use aodv_uu.State.{IfqAction, ifq_buffer, ifq_drop, ifq_drop_by_dest, drop, schedule, Node}
use aodv_uu.Machine.{M, ◌>>=◌, ◌>>◌, skip, get, modify, emit, fault, Env}
use aodv_uu.Device.{dev_ifindex, dev_nr}
use aodv_uu.Queue.{packet_queue_add}

-- `NS_IFINDEX`, the `ifindex` of the agent, and `NS_DEV_NR`.
abbrev pub ns_ifindex : ℕ
ns_ifindex = 0

abbrev pub ns_dev_nr : ℕ
ns_dev_nr = 0

-- `DEV_IFINDEX(ifindex).ipaddr`.
abbrev pub agent_address : M ℕ
agent_address = do i ← dev_ifindex ns_ifindex; (λ n. some ((dev_nr i n).ipaddr, n))

-- A copy on each interface from `i` on.
unfoldable pub on_each : Packet → (rounds i delay : ℕ) → M (Unit {0})
on_each p zero i delay = skip
on_each p (suc rounds) i delay = do
  emit (schedule (record p { channel = i }) i delay)
  on_each p rounds (i + 1) delay

module _ (env : Env) where
  -- 0.02 times a random number.
  unfoldable pub jitter : ℕ
  jitter = env.mul_double 0x3f947ae147ae147b env.random_uniform

  -- The headers of a broadcast and of a packet to one node.
  abbrev pub broadcast_headers : Packet → Node → Packet
  broadcast_headers p n = record p {
    next_hop = 0;
    prev_hop = (dev_nr ns_dev_nr n).ipaddr;
    addr_type = ns_af_none;
  }

  abbrev pub unicast_headers : Packet → (next_hop : ℕ) → Node → Packet
  unicast_headers p next_hop n = record p {
    next_hop = next_hop;
    prev_hop = (dev_nr ns_dev_nr n).ipaddr;
    addr_type = ns_af_inet;
    xmit_failure = if env.llfeedback then Bool.true else p.xmit_failure;
    channel = n.channel_num;
  }

  -- From the `if` on the destination on. The place `channelNum` of the array of link layers is not
  -- looked up: the event has it.
  unfoldable pub pass_down : Packet → (next_hop delay : ℕ) → M (Unit {0})
  pass_down p next_hop delay n =
      (if p.daddr == aodv_broadcast
          then on_each (broadcast_headers p n) n.n_ifaces 0 jitter
          else emit (schedule (unicast_headers p next_hop n) n.channel_num delay))
        n

  -- The check for forwarding.
  unfoldable pub check_direction : Direction → Packet → (next_hop delay : ℕ) → M (Unit {0})
  check_direction up p next_hop delay = do
    own ← agent_address
    if p.saddr == own
        then emit (drop p unspecified)
        else (let q : Packet = record p { ttl = dec32 p.ttl } in
            if lt_i32 q.ttl 1
            then emit (drop q drop_rtr_ttl)
            else pass_down (record q { direction = down }) next_hop delay)
  check_direction down p next_hop delay = do
    own ← agent_address
    if p.saddr == own then pass_down p next_hop delay else emit (drop p unspecified)
  check_direction undirected p next_hop delay = emit (drop p unspecified)

  unfoldable pub send_packet : Packet → (next_hop delay : ℕ) → M (Unit {0})
  send_packet p next_hop delay = check_direction p.direction p next_hop delay

  -- The loops `while ((q_pkt = ifqueue->filter(addr)))`, with one round more than the queue has packets.
  unfoldable pub drain : (Packet → M (Unit {0})) → (rounds addr : ℕ) → M (Unit {0})
  drain act zero addr n = none
  drain act (suc rounds) addr n = elim n.ifqueue [
    | none ↦ none
    | some q ↦ elim (env.ifq_filter addr q) [
      | none ↦ some (tt, n)
      | some (p, rest) ↦
          (do modify λ m. record m { ifqueue = some rest }; act p; drain act rounds addr) n
    ]
  ]

  unfoldable pub ifqueue_filter_on_dest : ℕ → Packet → Bool
  ifqueue_filter_on_dest addr p = p.daddr == addr

  unfoldable pub interface_queue : (addr : ℕ) → IfqAction → M (Unit {0})
  interface_queue addr action = do
    n ← get
    elim n.ifqueue [
      | none ↦ skip
      | some q ↦ elim action [
        | ifq_drop ↦ drain (λ p. emit (drop p drop_rtr_no_route)) (suc (length q)) addr
        | ifq_drop_by_dest ↦
            modify
              λ m. record m { ifqueue = some (env.ifq_filter_by (ifqueue_filter_on_dest addr) q) }
        | ifq_buffer ↦ drain (λ p. packet_queue_add env p p.daddr) (suc (length q)) addr
      ]
    ]
