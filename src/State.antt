-- ===== src/State.antt =====
-- The state of the routing agent: the structures of code/aodv-uu-0.96/routing_table.h, defs.h,
-- aodv_rreq.h and aodv_rerr.h, and the members of the class `AODVUU` (ns-2/aodv-uu.h) that the
-- modelled functions read or write.
--
-- A pointer to a heap object is the number of its address. A `double` is its 64-bit pattern, a
-- `struct timeval` is an instant, and the message buffers hold at each byte offset the value of the
-- field that starts there.
use aodv_uu.Prelude.{ℕ, Bool, List, Option, ℤ}
use aodv_uu.Packet.{Packet, QPkt, DropReason}

-- The functions that are installed as handlers of a timer; `null` is the zeroed pointer.
pub data Handler : Type 0 where
  null route_expire route_delete local_repair rrep_ack hello rreq_record rreq_blacklist : Handler
  rerr_record hello_send packet_queue wait_on_reboot : Handler

-- The fields of `struct timer` that the code reads or writes.
pub record Timer : Type 0 where
  pub used : Bool
  pub timeout : ℕ
  pub handler : Handler

pub data RtState : Type 0 where
  invalid valid : RtState

abbrev pub is_valid : RtState → Bool
is_valid valid = Bool.true
is_valid invalid = Bool.false

-- `struct rt_table`. The precursors are the addresses in the list, its first element first; `nprec`
-- is the bit pattern of an `int`.
pub record RtTable : Type 0 where
  pub dest_addr : ℕ
  pub dest_seqno : ℕ
  pub ifindex : ℕ
  pub next_hop : ℕ
  pub hcnt : ℕ
  pub flags : ℕ
  pub state : RtState
  pub rt_timer : Timer
  pub ack_timer : Timer
  pub hello_timer : Timer
  pub last_hello_time : ℕ
  pub hello_cnt : ℕ
  pub hash : ℕ
  pub nprec : ℕ
  pub precursors : List ℕ
  pub channel : ℤ
  pub cost : ℕ

-- `struct rreq_record`, `struct blacklist` and `struct rerr_record`, with the address they stand at.
pub record RreqRecord : Type 0 where
  pub address : ℕ
  pub orig_addr : ℕ
  pub rreq_id : ℕ
  pub rec_timer : Timer
  pub cost : ℕ

pub record Blacklist : Type 0 where
  pub address : ℕ
  pub dest_addr : ℕ
  pub bl_timer : Timer

pub record RerrRecord : Type 0 where
  pub address : ℕ
  pub orig_addr : ℕ
  pub rerr_id : ℕ
  pub last_addr : ℕ
  pub rec_timer : Timer

-- The fields of `seek_list_t` that the code reads or writes.
pub record SeekEntry : Type 0 where
  pub dest_addr : ℕ
  pub dest_seqno : ℕ
  pub flags : ℕ
  pub reqs : ℕ
  pub ttl : ℕ
  pub seek_timer : Timer

-- The list of destinations that are being sought: the objects and the order of their addresses.
pub record SeekList : Type 0 where
  pub entry : ℕ → Option SeekEntry
  pub seekhead : List ℕ

-- `struct dev_info` and, below, `struct host_info`, as far as the modelled functions use them.
pub record DevInfo : Type 0 where
  pub enabled : Bool
  pub ipaddr : ℕ
  pub broadcast : ℕ
  pub ifindex : ℕ

-- `struct neighbor_info` and `struct sta_info`. An `int` is its bit pattern, and an array is a function
-- of its index.
pub record NeighborInfo : Type 0 where
  pub ipaddr : ℕ
  pub neighbor_sta : ℕ
  pub valid_sta : Bool
  pub channel_hello_self_received : ℕ → ℕ
  pub channel_hello_remote_sent : ℕ
  pub channel_hello_remote_received : ℕ → ℕ
  pub channel_hello_sequence : ℕ → ℕ → ℕ
  pub host_stability_sequence : ℕ → ℕ
  pub channel_cost : ℕ → ℕ

pub record StaInfo : Type 0 where
  pub neighbor_num : ℕ
  pub neighbor_change : ℕ
  pub ava_channel_num : ℕ
  pub best_channel_snr : ℕ
  pub is_stable : ℕ

pub record HostInfo : Type 0 where
  pub seqno : ℕ
  pub bcast_time : ℕ
  pub fwd_time : ℕ
  pub rreq_id : ℕ
  pub rerr_id : ℕ
  pub nif : ℕ
  pub devs : ℕ → DevInfo
  pub neighbors : ℕ → NeighborInfo
  pub neighbor_num : ℕ
  pub stability : StaInfo
  pub hello_head : ℕ
  pub hello_tail : ℕ
  pub stability_sequence : ℕ → ℕ

-- The value of the field that starts at a byte offset.
abbrev pub Buffer : Type 0
Buffer = ℕ → ℕ

pub data Verdict : Type 0 where
  pq_drop pq_send pq_enc_send : Verdict

pub data IfqAction : Type 0 where
  ifq_buffer ifq_drop ifq_drop_by_dest : IfqAction

-- What leaves the agent: a packet for a link layer after a delay, one for the node itself, one that is dropped, and the timer of the timer queue.
pub data Event : Type 0 where
  schedule : Packet → (interface delay : ℕ) → Event
  deliver : Packet → Event
  drop : Packet → DropReason → Event
  resched : (timeout : ℕ) → Event

-- `struct packet_queue`: the packets in the list, the first one first, and the counter, an
-- `unsigned int`.
pub record PacketQueue : Type 0 where
  pub head : List QPkt
  pub len : ℕ
  pub garbage_collect_timer : Timer

-- A window of send times: the first `count` places of the array are in use.
pub record RateLimit : Type 0 where
  pub times : ℕ → ℕ
  pub count : ℕ

-- The agent. `heap` holds the routing entries, `tbl` the buckets of the table, `next_address` the
-- address that `malloc` hands out next, `now` what `gettimeofday` reads, and `events` what has left
-- the agent, the latest first. `channel_num` is the bit pattern of an `int`. `ifqueue` holds the packets
-- of the interface queue, where the pointer to it is not NULL.
pub record Node : Type 0 where
  pub heap : ℕ → Option RtTable
  pub next_address : ℕ
  pub num_entries : ℕ
  pub num_active : ℕ
  pub tbl : ℕ → List ℕ
  pub this_host : HostInfo
  pub dev_indices : ℕ → ℕ
  pub channel_num : ℕ
  pub rreq_records : List RreqRecord
  pub rreq_blacklist : List Blacklist
  pub rerr_records : List RerrRecord
  pub seeks : SeekList
  pub send_buf : Buffer
  pub rreq_ratel : RateLimit
  pub rerr_ratel : RateLimit
  pub wait_on_reboot : Bool
  pub worb_timer : Timer
  pub hello_timer : Timer
  pub pq : PacketQueue
  pub ifqueue : Option (List Packet)
  pub n_ifaces : ℕ
  pub initialized : Bool
  pub now : ℕ
  pub events : List Event
