-- ===== src/Input/Forward.antt =====
-- A data packet of another node in `processPacket` of code/aodv-uu-0.96/ns-2/packet_input.cc, where there is a
-- route.
use aodv_uu.Prelude.{
  ℕ, ◌<◌, ◌∷◌, not, ◌&&◌, ◌||◌, Option, some, ◌≡◌, ◌≢◌, refl, sym, ap, ◌∙◌, subst, arith, ltb, ◌==◌,
  false, if◌then◌else◌, ==_ne,
}
use aodv_uu.Word.{dec32, has_flag}
use aodv_uu.Params.{aodv_broadcast, rt_unidir, pt_tcp, rreq_gratuitous}
use aodv_uu.Table.{hashing, rt_table_find}
use aodv_uu.Route.Chain.{In}
use aodv_uu.Route.Change.{rt_table_update_route_timeouts}
use aodv_uu.Packet.{Packet, down, up, drop_rtr_ttl}
use aodv_uu.State.{Node, RtTable, valid, is_valid, Event, HostInfo, drop, schedule}
use aodv_uu.Machine.{◌>>=◌, ◌>>◌, Env, get_rt}
use aodv_uu.Device.{dev_ifindex, ifindex2devindex, dev_nr}
use aodv_uu.Device.Index.{SameHost-device}
use aodv_uu.Link.{ns_ifindex, unicast_headers}
use aodv_uu.Link.Forward.{send_packet_forwards}
use aodv_uu.Table.Timed.{Later-rest}
use aodv_uu.Route.Invariant.{
  Inv, Linked, view, view-Linked, rt_table_find-view, SameTable, SameTable-Inv, SameTable-view,
}
use aodv_uu.Route.Keep.{rt_table_update_route_timeouts-Refreshed}
use aodv_uu.Rreq.Common.{entry_of}
use aodv_uu.Hello.Send.{keep_hellos}
use aodv_uu.Input.{
  process_packet, process_directed, direct_packet, to_broadcast, route_packet, unusable,
  forward_packet,
}

-- A packet that another node sent to a third one comes up, its time to live is not negative as an `int`, and the
-- node has a valid route at `q` that does not lead over a one-way link.
pub record IsTransit (n : Node) (p : Packet) (k q : ℕ) (rt : RtTable) : Type 0 where
  pub inv : Inv n
  pub agent : ifindex2devindex ns_ifindex n ≡ some k
  pub direction : p.direction ≡ up
  pub small : p.ttl < 0x80000000
  pub foreign : p.saddr ≢ (dev_nr k n).ipaddr
  pub elsewhere : p.daddr ≢ (dev_nr k n).ipaddr
  pub single : p.daddr ≢ aodv_broadcast
  pub one_node : p.daddr ≢ (dev_nr k n).broadcast
  pub found : view n p.daddr ≡ some q
  pub stored : n.heap q ≡ some rt
  pub state : rt.state ≡ valid
  pub both_ways : (rt.hcnt == 1 && has_flag rt.flags rt_unidir) ≡ false

-- What becomes of the packet.
abbrev pub onward : Env → Node → Packet → (next_hop : ℕ) → Event
onward env n p next_hop =
    if ltb p.ttl 2
    then drop (record p { ttl = dec32 p.ttl }) drop_rtr_ttl
    else schedule
        (unicast_headers env (record p { ttl = dec32 p.ttl; direction = down }) next_hop n)
        n.channel_num 0

-- The route is there, and still usable after timeouts moved.
forward_packet_run :
    (env : Env) (n : Node) (p : Packet) (k : ℕ) (rt : RtTable)
    → ifindex2devindex ns_ifindex n ≡ some k
    → p.direction ≡ up
    → p.saddr ≢ (dev_nr k n).ipaddr
    → p.daddr ≢ aodv_broadcast
    → p.ttl < 0x80000000
    → (not env.llfeedback && env.optimized_hellos) ≡ false
    → forward_packet env p rt n
      ≡ some (
        tt,
        record n {
          events = onward env n p rt.next_hop ∷ n.events;
          this_host = record (n.this_host) { fwd_time = n.now };
        },
      )
unfolding forward_packet keep_hellos
forward_packet_run env n p k rt e d foreign single small hellos =
    rw (◌>>=◌, ◌>>◌, send_packet_forwards env p rt.next_hop 0 k n e d foreign single small, hellos)
      refl

to_broadcast_run :
    (n : Node) (dest_addr k : ℕ)
    → ifindex2devindex ns_ifindex n ≡ some k
    → dest_addr ≢ aodv_broadcast
    → dest_addr ≢ (dev_nr k n).broadcast
    → to_broadcast dest_addr n ≡ some (false, n)
unfolding to_broadcast dev_ifindex
to_broadcast_run n dest_addr k e single one =
    rw (==_ne dest_addr aodv_broadcast single, ◌>>=◌, e, ==_ne dest_addr (dev_nr k n).broadcast one)
      refl

route_packet_run :
    (env : Env) (n : Node) (p : Packet) (k q : ℕ) (rev_rt : Option ℕ) (flags : ℕ) (rt : RtTable)
    → ifindex2devindex ns_ifindex n ≡ some k
    → p.daddr ≢ (dev_nr k n).ipaddr
    → n.heap q ≡ some rt
    → rt.state ≡ valid
    → (rt.hcnt == 1 && has_flag rt.flags rt_unidir) ≡ false
    → route_packet env p (some q) rev_rt flags n ≡ forward_packet env p rt n
unfolding route_packet dev_ifindex entry_of unusable
route_packet_run env n p k q rev_rt flags rt e elsewhere stored st both =
    let usable : (not (is_valid rt.state) || (rt.hcnt == 1 && has_flag rt.flags rt_unidir))
        ≡ false =
      ground (arith, st, both) in
    rw (◌>>=◌, e, ==_ne p.daddr (dev_nr k n).ipaddr elsewhere, get_rt, stored, usable) refl

process_packet_up :
    (env : Env) (n : Node) (p : Packet)
    → p.direction ≡ up
    → process_packet env p n ≡ direct_packet env p n
unfolding process_packet process_directed
process_packet_up env n p d =
    subst (λ x. process_directed env x p n ≡ direct_packet env p n) (sym d) refl

direct_packet_run :
    (env : Env) (n n₁ : Node) (p : Packet) (q : ℕ) (rev_rt : Option ℕ)
    → to_broadcast p.daddr n ≡ some (false, n)
    → rt_table_find p.saddr n ≡ some (rev_rt, n)
    → rt_table_find p.daddr n ≡ some (some q, n)
    → rt_table_update_route_timeouts env (some q) rev_rt n ≡ some (tt, n₁)
    → direct_packet env p n
      ≡ route_packet env p (some q) rev_rt (if p.ptype == pt_tcp then rreq_gratuitous else 0) n₁
unfolding direct_packet
direct_packet_run env n n₁ p q rev_rt b f g u = rw (◌>>=◌, ◌>>◌, b, f, g, u) refl

-- A packet of another node for a third one comes up, with a time to live that is not negative as an `int`. The
-- table is well-formed and has a valid route to the destination that does not lead over a one-way
-- link; HELLOs on demand are not set. Then `processPacket` returns: the packet goes to the link layer
-- of the channel that is set, to the next hop of the route, with a time to live one lower; or it is dropped,
-- if that was 1 or 0. Nothing else leaves the node. The time of forwarding is noted, the table stays
-- well-formed, and every destination is looked up as before.
pub process_packet-onward :
    (env : Env) (n : Node) (p : Packet) (k q : ℕ) (rt : RtTable)
    → IsTransit n p k q rt
    → (not env.llfeedback && env.optimized_hellos) ≡ false
    → (m : Node) × (process_packet env p n ≡ some (tt, m))
      × (m.events ≡ onward env n p rt.next_hop ∷ n.events)
      × (m.this_host.fwd_time ≡ n.now)
      × Inv m
      × ((d : ℕ) → view m d ≡ view n d)
process_packet-onward env n p k q rt a hellos =
    let (entry, linked, _) = view-Linked n p.daddr a.inv a.found in
    let same : entry ≡ rt = ground (arith, linked.stored, a.stored) in
    let l : Linked n q rt = record {
      stored = a.stored;
      member = subst (λ (x : RtTable). In q (n.tbl (hashing x.dest_addr))) same linked.member;
    } in
    let (n₁, run₁, r, s) =
      rt_table_update_route_timeouts-Refreshed env (some q) (view n p.saddr) n a.inv
        (λ x e. (rt, subst (λ y. Linked n y rt) (ground (arith, e)) l))
        (λ x e. let (t, l, _) = view-Linked n p.saddr a.inv e in (t, l)) in
    let (rt₁, l₁, later) = r.linked q rt l in
    let rest = Later-rest env later in
    let own : (dev_nr k n₁).ipaddr ≡ (dev_nr k n).ipaddr =
      ap (λ h. (HostInfo.devs h k).ipaddr) r.host.this_host in
    let device = SameHost-device ns_ifindex r.host ∙ a.agent in
    let m : Node = record n₁ {
      events = onward env n₁ p rt₁.next_hop ∷ n₁.events;
      this_host = record (n₁.this_host) { fwd_time = n₁.now };
    } in
    let table : SameTable n₁ m = record {
      heap = refl;
      next_address = omega arith;
      num_entries = refl;
      num_active = refl;
      tbl = refl;
    } in
    let sent : forward_packet env p rt₁ n₁ ≡ some (tt, m) =
      forward_packet_run env n₁ p k rt₁ device a.direction (λ e. a.foreign (e ∙ own)) a.single
        a.small hellos in
    let go : route_packet env p (some q) (view n p.saddr)
          (if p.ptype == pt_tcp then rreq_gratuitous else 0) n₁
        ≡ some (tt, m) =
      route_packet_run env n₁ p k q (view n p.saddr) _ rt₁ device (λ e. a.elsewhere (e ∙ own))
        l₁.stored (ap RtTable.state rest ∙ a.state)
        (ap (λ (x : RtTable). x.hcnt == 1 && has_flag x.flags rt_unidir) rest ∙ a.both_ways)
      ∙ sent in
    (
      m,
      process_packet_up env n p a.direction
          ∙ direct_packet_run env n n₁ p q (view n p.saddr)
              (to_broadcast_run n p.daddr k a.agent a.single a.one_node)
              (rt_table_find-view n p.saddr a.inv)
              (rt_table_find-view n p.daddr a.inv ∙ ap (λ o. some (o, n)) a.found) run₁
          ∙ go,
      (λ i. onward env n₁ p (ap RtTable.next_hop rest i) ∷ n₁.events)
          ∙ (λ i. onward env (s i) p rt.next_hop ∷ (s i).events),
      r.now,
      SameTable-Inv table r.inv,
      λ d. SameTable-view table d ∙ r.lookup d,
    )
