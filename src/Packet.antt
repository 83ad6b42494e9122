-- ===== src/Packet.antt =====
-- The packets of the simulator ns-2 as the agent sees them: the header fields of code/common/packet.h
-- and of the IP header that it reads or writes, and the structures of
-- code/aodv-uu-0.96/ns-2/packet_queue.h. A packet is passed on as a value: nobody else holds the
-- pointer that the agent passes on.
use aodv_uu.Prelude.{ℕ, Bool}

-- `hdr_cmn::DOWN`, `NONE` and `UP`.
pub data Direction : Type 0 where
  down undirected up : Direction

abbrev pub is_up : Direction → Bool
is_up up = Bool.true
is_up down = Bool.false
is_up undirected = Bool.false

-- `NS_AF_NONE` and `NS_AF_INET`.
pub data AddrType : Type 0 where
  ns_af_none ns_af_inet : AddrType

-- The fields of `hdr_cmn` and `hdr_ip`, the channel of the packet, and the message in its AODVUU header.
-- `xmit_failure` tells whether the link layer calls back when the delivery fails.
pub record Packet : Type 0 where
  pub ptype : ℕ
  pub size : ℕ
  pub direction : Direction
  pub num_forwards : ℕ
  pub prev_hop : ℕ
  pub next_hop : ℕ
  pub addr_type : AddrType
  pub xmit_failure : Bool
  pub saddr : ℕ
  pub daddr : ℕ
  pub ttl : ℕ
  pub channel : ℕ
  pub contents : ℕ → ℕ

-- Why a packet is dropped: the `DROP_` names that the code passes, and `unspecified` where it passes none.
pub data DropReason : Type 0 where
  drop_end_of_simulation drop_rtr_qtimeout drop_rtr_qfull drop_rtr_no_route : DropReason
  drop_rtr_ttl drop_rtr_mac_callback drop_rtr_route_loop unspecified : DropReason

-- `struct q_pkt`.
pub record QPkt : Type 0 where
  pub dest_addr : ℕ
  pub q_time : ℕ
  pub p : Packet
