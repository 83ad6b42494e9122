-- ===== src/Lib.antt =====
-- AODV-UU with channels: a model of the routing agent in code/aodv-uu-0.96, as it is built for the
-- simulator ns-2 (NS_PORT is defined, CONFIG_GATEWAY is not).
--
-- The agent keeps a routing table with timers and precursor lists, remembers the route requests
-- (RREQ) and route errors (RERR) that it has seen, and a blacklist of neighbours. A route that is
-- needed is sought by RREQs, whose timer asks again or gives up; the destination, or a node with a
-- route to it, answers with a route reply (RREP) along the reverse route that the RREQ made; a
-- route that expires or that a RERR names is invalidated, repaired or later deleted, and reported
-- to the precursors. HELLO messages tell the neighbours and measure the channels to them, and a
-- RREQ or RREP carries the cost of its path in an extension. All messages leave by one function,
-- which limits the rate of RREQs and RERRs, and arrive at one, which hands them to their handlers.
-- A data packet goes along its route; without one it waits in a queue until a route is found or
-- given up, or is dropped with a RERR. Packets whose delivery failed come back, and the route is
-- repaired or invalidated.
--
-- Word, Params, Packet and State hold the integers, the constants of params.h, defs.h and the
-- message headers, and the structures of routing_table.h, defs.h, aodv_rreq.h, aodv_rerr.h,
-- ns-2/packet_queue.h and ns-2/aodv-uu.h, and of common/packet.h. A pointer to a routing entry is
-- a number, the heap is a function from such numbers to entries, and the buckets are lists of
-- pointers; so the handlers share the entries as the C code does. Machine has the methods' type, a
-- function from the state of the agent to an optional result with the state after it; there is no
-- result where the C code reads or writes through a pointer to nothing.
--
-- The functions of the program have their names:
--   Seqno       seqno_incr of routing_table.h
--   Device      DEV_IFINDEX and DEV_NR of defs.h, ifindex2devindex of ns-2/aodv-uu.h
--   Precursor   the precursor lists of routing_table.c
--   Table       routing_table.c: the hash, lookup, and the update of a timeout
--   Queue       ns-2/packet_queue.cc: the packets that wait; Queue.Verdict: packet_queue_set_verdict
--   Link        ns-2/aodv-uu.cc: sendPacket and interfaceQueue
--   Route       routing_table.c: insertion and the release of packets; Route.Change: updates, invalidation
--               and deletion
--   Socket      aodv_socket.c: sending, with the rate limits
--   Records     the lists of seen RREQs and RERRs and the blacklist, of aodv_rreq.c and aodv_rerr.c
--   Rreq        aodv_rreq.c: creation, sending and forwarding of RREQs, rreq_route_discovery;
--               Rreq.Common, Rreq.Process and Rreq.LocalRepair: rreq_process, rreq_process_lr and
--               rreq_local_repair
--   Rrep        aodv_rrep.c: creation of RREPs; Rrep.Send: sending, forwarding and acknowledgements;
--               Rrep.Process and Rrep.Repair: rrep_process and rrep_process_lr
--   Hello       aodv_hello.c: Hello.Send and Hello.Process: HELLOs; Hello.Cost: the costs of the
--               channels; Hello.Neighbors: update_sta_info and update_neighbor_info
--   Ext         the extensions behind a message (defs.h), and getCost of ns-2/aodv-uu.h
--   Fresh       what the handlers of RREQs and RREPs have in common
--   Receive     aodv_socket.c: recvAODVUUPacket and aodv_socket_process_packet
--   Input       ns-2/packet_input.cc: processPacket
--   Agent       ns-2/aodv-uu.cc: the agent as the simulator calls it
--   Rerr        aodv_rerr.c: creation and processing of RERRs
--   Timeout     the handlers of aodv_timeout.c
-- The modules below them hold the theorems. Route.Chain and Route.Invariant say what a well-formed
-- table is: each entry hangs once, in the bucket of its address, the counters count the entries
-- and the valid ones, and what malloc hands out next is free. Prelude has the shared helpers, and
-- Tests the runs and the theorems at concrete inputs.
--
-- What the repository does not hold is the record Env, a parameter: timers and instants
-- (timer_queue.c), lists (list.h), the list of sought destinations (seek_list.c), neighbor_add and
-- neighbor_link_break (aodv_neighbor.c), the interface queue (PriQueue), allocpkt, the MAC
-- objects, the random numbers and the operations on doubles, which stand as bit patterns. What the
-- code relies on is in ListOps and TimerLaws. A list of timers is not kept: a timer is a field
-- that runs or not. Every call reads the same time. Message buffers hold at a byte offset the
-- value of the field that starts there.
--
-- Loops are recursions on a list or on a number of rounds that the C code fixes as well: the 64
-- buckets, the interfaces, the channels, the neighbours, and the count of destinations in a
-- message. The loops over the extensions of a message have one round more than the receive buffer
-- has bytes; a loop that has not ended by then has read behind the buffer, which is a fault. The
-- loops that empty the interface queue have one round more than the queue has packets, and a fault
-- afterwards. A loop over a bucket goes over the list as it was when the loop began.
--
-- Not modelled: logging and printing, the lines of CONFIG_GATEWAY, the netlink messages of the
-- kernel port, the order of the bytes in the fields, the encapsulation of packets and the classes
-- for Tcl of ns-2/aodv-uu.cc, and the simulator's own sources. What leaves the agent is a list of
-- events: a packet for the link layer of an interface after a delay, one for the node itself, one
-- that is dropped, and the timer of the timer queue. The place of a link layer in its array is
-- part of the event and not checked. The records of RERRs are kept for each agent, though
-- aodv_rerr.c has one list for all. A field is read and written as a whole at its first byte, so
-- an extension that overlaps another one's fields is not followed. locality and the code of the
-- kernel port are not compiled for ns-2.
pub mod Prelude
pub mod Word
pub mod Seqno
pub mod Params
pub mod Packet
pub mod State
pub mod Machine
pub mod Device
pub mod Precursor
pub mod Table
pub mod Queue
pub mod Link
pub mod Route
pub mod Socket
pub mod Records
pub mod Rreq
pub mod Rerr
pub mod Timeout
pub mod Ext
pub mod Rrep
pub mod Hello
pub mod Fresh
pub mod Receive
pub mod Input
pub mod Agent
mod Tests
