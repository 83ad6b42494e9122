-- ===== src/Tests/Packets.antt =====
-- The theorems at concrete inputs: packets, their queue, and the agent.
use aodv_uu.Prelude.{
  ℕ, ◌+◌, true, some, none, ◌≡◌, refl, ◌∷◌, [], List, pos, negsuc, arith, length, inr,
}
use aodv_uu.Word.{dec32}
use aodv_uu.Packet.{Packet, QPkt, up, down}
use aodv_uu.State.{Node, Handler, schedule, pq_send, ifq_buffer}
use aodv_uu.Device.{ifindex2devindex, devindex_from}
use aodv_uu.Link.{interface_queue, send_packet, unicast_headers}
use aodv_uu.Link.Leaves.{Only}
use aodv_uu.Link.Drain.{interface_queue-ends}
use aodv_uu.Link.Forward.{send_packet_forwards}
use aodv_uu.Queue.{packet_queue_add, packet_queue_garbage_collect}
use aodv_uu.Queue.Verdict.{packet_queue_set_verdict}
use aodv_uu.Queue.Fifo.{IsQueue, IsAdded, packet_queue_add-bounded_add}
use aodv_uu.Queue.Collect.{IsCollected, packet_queue_garbage_collect-unexpired}
use aodv_uu.Queue.Ready.{SameTable-Ready}
use aodv_uu.Queue.Refresh.{Refreshed}
use aodv_uu.Queue.Waiting.{Waiting}
use aodv_uu.Queue.Serve.{packet_queue_set_verdict-others, packet_queue_set_verdict-loses}
use aodv_uu.Route.Chain.{lookup_in}
use aodv_uu.Route.Invariant.{Inv, view, SameTable, SameTable-Inv}
use aodv_uu.Input.{process_packet}
use aodv_uu.Input.Forward.{onward, process_packet-onward}
use aodv_uu.Agent.{new_agent}
use aodv_uu.Agent.Start.{IsNew, new_agent-IsNew}
use aodv_uu.Tests.Env.{env, env-TimerLaws, fresh, first_to-shrinks}
use aodv_uu.Tests.Table.{entry, routed, routed-Inv, routed-Ready}

-- A packet from 50 to 65.
abbrev sample : Packet
sample = record (env.allocpkt) { direction = up; saddr = 50; daddr = 65; ttl = 9 }

process_packet-onward_example :
    (m : Node) × (process_packet env sample routed ≡ some (tt, m))
    × (m.events ≡ onward env routed sample 7 ∷ [])
    × (m.this_host.fwd_time ≡ 5000)
    × Inv m
    × ((d : ℕ) → view m d ≡ view routed d)
unfolding ifindex2devindex devindex_from lookup_in
process_packet-onward_example =
    process_packet-onward env routed sample 0 1 entry
      (record {
        inv = routed-Inv;
        agent = refl;
        direction = refl;
        small = omega arith;
        foreign = omega arith;
        elsewhere = omega arith;
        single = omega arith;
        one_node = omega arith;
        found = refl;
        stored = refl;
        state = refl;
        both_ways = refl;
      })
      refl

send_packet_forwards_example :
    send_packet env sample 7 3 fresh
    ≡ some (
      tt,
      record fresh {
        events =
            schedule
              (unicast_headers env (record sample { ttl = dec32 9; direction = down }) 7 fresh)
              0
              3
            ∷ [];
      },
    )
unfolding ifindex2devindex devindex_from
send_packet_forwards_example =
    send_packet_forwards env sample 7 3 0 fresh refl refl (omega arith) (omega arith) (omega arith)

-- Two packets wait, the first one for 66, to which there is no route.
abbrev lost : QPkt
lost = record { dest_addr = 66; q_time = 100; p = record sample { daddr = 66 } }

abbrev waiting : QPkt
waiting = record { dest_addr = 65; q_time = 4000; p = sample }

abbrev queued : Node
queued = record routed {
  pq = record {
    head = lost ∷ waiting ∷ [];
    len = 2;
    garbage_collect_timer = record { used = true; timeout = 6000; handler = Handler.packet_queue };
  };
}

queued-SameTable : SameTable routed queued
queued-SameTable = record {
  heap = refl;
  next_address = omega arith;
  num_entries = refl;
  num_active = refl;
  tbl = refl;
}

queued-IsQueue : IsQueue queued.pq
queued-IsQueue = record { counted = refl; bounded = omega arith }

packet_queue_set_verdict-others_example :
    (count : ℕ) × (m : Node) × (packet_queue_set_verdict env 65 pq_send queued
      ≡ some (pos count, m))
    × (m.pq.head ≡ lost ∷ [])
    × (count + length m.pq.head ≡ 2)
    × IsQueue m.pq
    × Refreshed env queued m
    × Only (Waiting 65 queued.pq.head) queued m
unfolding lookup_in
packet_queue_set_verdict-others_example =
    packet_queue_set_verdict-others env queued 65 pq_send
      (SameTable-Inv queued-SameTable routed-Inv)
      (SameTable-Ready queued-SameTable
        (record { this_host = refl; dev_indices = refl; wait_on_reboot = refl }) routed-Ready)
      queued-IsQueue (inr (1, refl))

packet_queue_set_verdict-loses_example :
    packet_queue_set_verdict env 66 pq_send queued
    ≡ some (negsuc 0, record queued { pq = record (queued.pq) { head = waiting ∷ [] } })
unfolding lookup_in
packet_queue_set_verdict-loses_example =
    packet_queue_set_verdict-loses env queued 66 lost (waiting ∷ [])
      (SameTable-Inv queued-SameTable routed-Inv) refl refl refl

packet_queue_add-bounded_add_example :
    (m : Node) × (packet_queue_add env sample 65 queued ≡ some (tt, m))
    × IsAdded queued m (record { dest_addr = 65; q_time = 5000; p = sample })
packet_queue_add-bounded_add_example = packet_queue_add-bounded_add env queued sample queued-IsQueue

-- Later, when the first packet has waited too long.
abbrev later : Node
later = record queued { now = 12000 }

packet_queue_garbage_collect-unexpired_example :
    (count : ℕ) × (m : Node) × (packet_queue_garbage_collect env later ≡ some (count, m))
    × IsCollected later m count
packet_queue_garbage_collect-unexpired_example =
    packet_queue_garbage_collect-unexpired env env-TimerLaws later queued-IsQueue

new_agent-IsNew_example : (m : Node) × (new_agent env fresh ≡ some (tt, m)) × IsNew m
new_agent-IsNew_example = new_agent-IsNew env fresh (λ p. refl)

-- One packet for the next hop 0 waits for the link.
abbrev linked : Node
linked = record queued { ifqueue = some (sample ∷ []) }

interface_queue-ends_example :
    (m : Node) × (rest : List Packet) × (interface_queue env 0 ifq_buffer linked ≡ some (tt, m))
    × (m.ifqueue ≡ some rest)
    × (env.ifq_filter 0 rest ≡ none)
    × IsQueue m.pq
interface_queue-ends_example =
    interface_queue-ends env first_to-shrinks linked (sample ∷ []) 0 ifq_buffer refl queued-IsQueue
      (inr refl)
