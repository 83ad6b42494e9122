-- ===== src/Link/Forward.antt =====
-- `sendPacket` of code/aodv-uu-0.96/ns-2/aodv-uu.cc for packets of other nodes.
use aodv_uu.Prelude.{
  ℕ, ◌<◌, ◌∷◌, some, ◌≡◌, ◌≢◌, refl, arith, ltb, if◌then◌else◌, ==_ne, Bool-cases, inl, inr,
}
use aodv_uu.Word.{dec32, lt_i32}
use aodv_uu.Params.{aodv_broadcast}
use aodv_uu.Packet.{Packet, down, up, drop_rtr_ttl}
use aodv_uu.State.{Node, drop, schedule}
use aodv_uu.Machine.{◌>>=◌, Env}
use aodv_uu.Device.{dev_ifindex, ifindex2devindex, dev_nr}
use aodv_uu.Link.{ns_ifindex, send_packet, check_direction, pass_down, unicast_headers}

-- What becomes of a packet with the time to live `ttl`: it is dropped, or goes down with one less.
dec32_lt : (ttl : ℕ) → ttl < 0x80000000 → lt_i32 (dec32 ttl) 1 ≡ ltb ttl 2
dec32_lt ttl small = ground arith

-- The agent's device is known, and a packet that comes up is from another node and for one node; its time to
-- live is not negative as an `int`. `sendPacket` drops it if its time to live is 1 or 0. Otherwise it is
-- passed to the link layer of the channel that is set, after the delay given, to the next hop given,
-- with a time to live that is one lower. Nothing else happens.
pub send_packet_forwards :
    (env : Env) (p : Packet) (next_hop delay k : ℕ) (n : Node)
    → ifindex2devindex ns_ifindex n ≡ some k
    → p.direction ≡ up
    → p.saddr ≢ (dev_nr k n).ipaddr
    → p.daddr ≢ aodv_broadcast
    → p.ttl < 0x80000000
    → send_packet env p next_hop delay n
      ≡ some (
        tt,
        record n {
          events =
              (if ltb p.ttl 2
                then drop (record p { ttl = dec32 p.ttl }) drop_rtr_ttl
                else schedule
                    (unicast_headers env
                      (record p { ttl = dec32 p.ttl; direction = down })
                      next_hop
                      n)
                    n.channel_num
                    delay)
              ∷ n.events;
        },
      )
unfolding send_packet check_direction dev_ifindex pass_down
send_packet_forwards env p next_hop delay k n e d other uni small =
    let theirs = ==_ne p.saddr (dev_nr k n).ipaddr other in
    let test = dec32_lt p.ttl small in
    rw d (elim (Bool-cases (ltb p.ttl 2)) [
      | inl t ↦ rw (◌>>=◌, e, theirs, test, t) refl
      | inr t ↦ rw (◌>>=◌, e, theirs, test, t, ==_ne p.daddr aodv_broadcast uni) refl
    ])
