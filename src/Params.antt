-- ===== src/Params.antt =====
-- The constants of code/aodv-uu-0.96/params.h, and those of defs.h, routing_table.h, aodv_rreq.h,
-- aodv_rerr.h and aodv_rrep.h that the modelled functions use. Times are in milliseconds.
use aodv_uu.Prelude.{ℕ, ◌+◌, ◌*◌, ◌/◌, Bool, ◌||◌, ◌==◌, ltb, if◌then◌else◌}

abbrev pub hello_interval : ℕ
hello_interval = 300

abbrev pub allowed_hello_loss : ℕ
allowed_hello_loss = 2

abbrev pub net_diameter : ℕ
net_diameter = 35

abbrev pub node_traversal_time : ℕ
node_traversal_time = 35

abbrev pub net_traversal_time : ℕ
net_traversal_time = node_traversal_time * net_diameter

abbrev pub path_discovery_time : ℕ
path_discovery_time = 2 * net_traversal_time

abbrev pub rerr_time : ℕ
rerr_time = 1 * net_traversal_time

abbrev pub max_repair_ttl : ℕ
max_repair_ttl = 3 * net_diameter / 10

abbrev pub rreq_retries : ℕ
rreq_retries = 2

abbrev pub rreq_ratelimit : ℕ
rreq_ratelimit = 10

abbrev pub rerr_ratelimit : ℕ
rerr_ratelimit = 10

abbrev pub timeout_buffer : ℕ
timeout_buffer = 2

abbrev pub ttl_increment : ℕ
ttl_increment = 2

abbrev pub ttl_threshold : ℕ
ttl_threshold = 7

-- `RING_TRAVERSAL_TIME`, with `TTL_VALUE` as the argument.
abbrev pub ring_traversal_time : ℕ → ℕ
ring_traversal_time ttl_value = node_traversal_time * (ttl_value + timeout_buffer)

-- defs.h
abbrev pub max_nr_interfaces : ℕ
max_nr_interfaces = 10

abbrev pub aodv_broadcast : ℕ
aodv_broadcast = 0xffffffff

abbrev pub aodv_rreq : ℕ
aodv_rreq = 1

abbrev pub aodv_rrep : ℕ
aodv_rrep = 2

abbrev pub aodv_rerr : ℕ
aodv_rerr = 3

abbrev pub aodv_rreq_lr : ℕ
aodv_rreq_lr = 5

abbrev pub aodv_rerr_lr : ℕ
aodv_rerr_lr = 7

-- aodv_rreq.h
abbrev pub rreq_join : ℕ
rreq_join = 0x1

abbrev pub rreq_repair : ℕ
rreq_repair = 0x2

abbrev pub rreq_gratuitous : ℕ
rreq_gratuitous = 0x4

abbrev pub rreq_dest_only : ℕ
rreq_dest_only = 0x8

abbrev pub rreq_local_repair : ℕ
rreq_local_repair = 0x16

-- aodv_rerr.h
abbrev pub rerr_nodelete : ℕ
rerr_nodelete = 0x1

abbrev pub rerr_local_repair : ℕ
rerr_local_repair = 0x2

-- The types of extensions in defs.h, and the number of channels in ns-2/aodv-uu.h.
abbrev pub rreq_cost_ext : ℕ
rreq_cost_ext = 1

abbrev pub rreq_udest_ext : ℕ
rreq_udest_ext = 5

abbrev pub channel_count : ℕ
channel_count = 3

-- routing_table.h
abbrev pub rt_unidir : ℕ
rt_unidir = 0x1

abbrev pub rt_repair : ℕ
rt_repair = 0x2

abbrev pub rt_inet_dest : ℕ
rt_inet_dest = 0x8

abbrev pub rt_gateway : ℕ
rt_gateway = 0x10

abbrev pub rt_tablesize : ℕ
rt_tablesize = 64

-- params.h and aodv_hello.h
abbrev pub next_hop_wait : ℕ
next_hop_wait = node_traversal_time + 10

abbrev pub local_add_ttl : ℕ
local_add_ttl = 2

abbrev pub route_timeout_slack : ℕ
route_timeout_slack = 100

abbrev pub hello_delay : ℕ
hello_delay = 50

-- aodv_rrep.h and defs.h
abbrev pub rrep_ack_flag : ℕ
rrep_ack_flag = 0x1

abbrev pub rrep_repair : ℕ
rrep_repair = 0x2

abbrev pub rrep_local_repair : ℕ
rrep_local_repair = 0x4

abbrev pub aodv_rrep_ack : ℕ
aodv_rrep_ack = 4

abbrev pub aodv_rrep_lr : ℕ
aodv_rrep_lr = 6

abbrev pub rrep_cost_ext : ℕ
rrep_cost_ext = 1

abbrev pub rrep_hello_interval_ext : ℕ
rrep_hello_interval_ext = 2

abbrev pub rrep_hello_neighbor_set_ext : ℕ
rrep_hello_neighbor_set_ext = 3

abbrev pub rrep_udest_ext : ℕ
rrep_udest_ext = 6

abbrev pub max_sequence_len : ℕ
max_sequence_len = 10

abbrev pub max_channel_num : ℕ
max_channel_num = 3

-- The bit patterns of 1e18, 1e5 and 1e-6.
abbrev pub max_num : ℕ
max_num = 0x43abc16d674ec800

abbrev pub most_cost : ℕ
most_cost = 0x40f86a0000000000

abbrev pub least_rate : ℕ
least_rate = 0x3eb0c6f7a0b5ed8d

-- ns-2/packet_queue.h and ns-2/packet_queue.cc; the delay is 0.005 as a `double`.
abbrev pub max_queue_length : ℕ
max_queue_length = 512

abbrev pub max_queue_time : ℕ
max_queue_time = 10000

abbrev pub garbage_collect_time : ℕ
garbage_collect_time = 1000

abbrev pub arp_delay : ℕ
arp_delay = 0x3f747ae147ae147b

-- IP_HDR_LEN of the system headers, and ns-2/aodv-uu.h
abbrev pub ip_hdr_len : ℕ
ip_hdr_len = 20

abbrev pub max_if : ℕ
max_if = 11

-- The types of packets in code/common/packet.h, and `DATA_PACKET`.
abbrev pub pt_tcp : ℕ
pt_tcp = 0

abbrev pub pt_encapsulated : ℕ
pt_encapsulated = 32

abbrev pub pt_ping : ℕ
pt_ping = 44

abbrev pub pt_aodvuu : ℕ
pt_aodvuu = 73

-- TCP, TELNET, CBR, AUDIO, VIDEO, ACK, SCTP and SCTP_APP1.
abbrev pub data_packet : ℕ → Bool
data_packet type =
    type == pt_tcp
    || type == 26
    || type == 2
    || type == 3
    || type == 4
    || type == 5
    || type == 55
    || type == 56

-- params.h: the settings that depend on link layer feedback. `DELETE_PERIOD_HELLO` is K = 5 times the
-- larger one of two periods.
abbrev pub active_route_timeout_llf : ℕ
active_route_timeout_llf = 10000

abbrev pub active_route_timeout_hello : ℕ
active_route_timeout_hello = 3000

abbrev pub delete_period_hello : ℕ
delete_period_hello =
    5
    * (if ltb (allowed_hello_loss * hello_interval) active_route_timeout_hello
        then active_route_timeout_hello
        else allowed_hello_loss * hello_interval)
