-- ===== src/Agent.antt =====
-- The agent as the simulator calls it: code/aodv-uu-0.96/ns-2/aodv-uu.cc. `sendPacket` and
-- `interfaceQueue` are in Link; the encapsulation serves CONFIG_GATEWAY only.
pub mod Start
use aodv_uu.Prelude.{
  ℕ, ◌+◌, Bool, true, false, not, ◌&&◌, ◌||◌, List, [], Option, none, some, leb, ltb, ◌==◌,
  if◌then◌else◌,
}
use aodv_uu.Word.{set_flag, inc32}
use aodv_uu.Params.{
  rt_repair, max_repair_ttl, aodv_broadcast, ip_hdr_len, pt_ping, pt_encapsulated, pt_aodvuu,
  data_packet, max_if, max_sequence_len, max_channel_num, active_route_timeout_llf,
  active_route_timeout_hello, delete_period_hello,
}
use aodv_uu.Packet.{Packet, down, up, drop_rtr_mac_callback, drop_rtr_route_loop}
use aodv_uu.State.{Handler, HostInfo, NeighborInfo, is_valid, ifq_buffer, ifq_drop, drop, resched}
use aodv_uu.Machine.{
  M, ◌>>=◌, ◌>>◌, ret, skip, get, get_rt, modify, modify_rt, emit, fault, when, Env,
}
use aodv_uu.Table.{rt_table_find}
use aodv_uu.Route.{rt_table_init}
use aodv_uu.Route.Change.{rt_table_destroy}
use aodv_uu.Rreq.LocalRepair.{rreq_local_repair}
use aodv_uu.Hello.Cost.{modify_host}
use aodv_uu.Hello.Send.{hello_start}
use aodv_uu.Receive.{recv_aodvuu_packet}
use aodv_uu.Link.{ns_ifindex, ns_dev_nr, agent_address, interface_queue}
use aodv_uu.Queue.{packet_queue_init, packet_queue_add}
use aodv_uu.Input.{process_packet}

-- After `memset`.
abbrev no_neighbor_info : NeighborInfo
no_neighbor_info = record {
  ipaddr = 0;
  neighbor_sta = 0;
  valid_sta = false;
  channel_hello_self_received = λ k. 0;
  channel_hello_remote_sent = 0;
  channel_hello_remote_received = λ k. 0;
  channel_hello_sequence = λ k j. 0;
  host_stability_sequence = λ j. 0;
  channel_cost = λ k. 0;
}

-- `this_host` as the constructor leaves it: zeroed, with one device, and the cost 0.5 in the places below
-- MAX_SEQUENCE_LEN.
unfoldable pub new_host : HostInfo
new_host = record {
  seqno = 1;
  bcast_time = 0;
  fwd_time = 0;
  rreq_id = 0;
  rerr_id = 0;
  nif = 1;
  devs = λ i. record {
    enabled = i == ns_dev_nr;
    ipaddr = 0;
    broadcast = if i == ns_dev_nr then aodv_broadcast else 0;
    ifindex = if i == ns_dev_nr then ns_ifindex else 0;
  };
  neighbors = λ i. record no_neighbor_info {
    channel_cost =
        λ k. if ltb i max_sequence_len && ltb k max_channel_num then 0x3fe0000000000000 else 0;
  };
  neighbor_num = 0;
  stability = record {
    neighbor_num = 0;
    neighbor_change = 0;
    ava_channel_num = 0;
    best_channel_snr = 0;
    is_stable = 0;
  };
  hello_head = 0;
  hello_tail = 0;
  stability_sequence = λ i. 0;
}

pub data Command : Type 0 where
  start tracetarget : Command
  addr : (ipaddr : ℕ) → Command
  node : (found : Bool) → Command
  if_queue : Option (List Packet) → Command
  add_ll add_mac : (interface : ℕ) (found : Bool) → Command

-- The settings that the start of the agent writes.
unfoldable pub configured : Env → Env
configured env = record env {
  active_route_timeout =
      if env.llfeedback then active_route_timeout_llf else active_route_timeout_hello;
  ttl_start = if env.llfeedback then 1 else 2;
  delete_period = if env.llfeedback then active_route_timeout_llf else delete_period_hello;
}

module _ (env : Env) where
  -- The constructor. The options that it binds are those of the environment.
  unfoldable pub new_agent : M (Unit {0})
  new_agent = do
    modify λ n. record n {
      this_host = new_host;
      dev_indices = λ i. if i == ns_dev_nr then ns_ifindex else 0;
      rreq_records = [];
      rreq_blacklist = [];
      seeks = record (n.seeks) { seekhead = [] };
      worb_timer = record (n.worb_timer) { used = false };
      hello_timer = record (n.hello_timer) { used = false };
      rreq_ratel = record (n.rreq_ratel) { count = 0 };
      rerr_ratel = record (n.rerr_ratel) { count = 0 };
      ifqueue = none;
      initialized = false;
    }
    rt_table_init
    packet_queue_init env
    modify λ n. record n { n_ifaces = 0; channel_num = 0 }

  -- The destructor.
  unfoldable pub delete_agent : M (Unit {0})
  delete_agent = rt_table_destroy env

  -- The timer goes off at the time of the earliest timer of the queue. `TimerQueueTimer::expire` does the
  -- same.
  unfoldable pub schedule_next_event : M (Unit {0})
  schedule_next_event = do
    timeout ← env.timer_age_queue
    elim timeout [ none ↦ skip | some t ↦ emit (resched t) ]

  -- The label `drop`.
  unfoldable pub drop_failed : Packet → M (Unit {0})
  drop_failed p = do emit (drop p drop_rtr_mac_callback); interface_queue env p.next_hop ifq_drop

  -- The link to the next hop broke: the route is repaired, or the packets are dropped.
  unfoldable pub lose_link : Packet → (rt_next_hop rt : ℕ) → M (Unit {0})
  lose_link p rt_next_hop rt = do
    entry ← get_rt rt
    if env.local_repair && leb entry.hcnt max_repair_ttl
        then (do
          packet_queue_add env p p.daddr
          interface_queue env p.next_hop ifq_buffer
          modify_rt rt_next_hop λ r. record r { flags = set_flag r.flags rt_repair }
          env.neighbor_link_break rt_next_hop
          rreq_local_repair env (some rt) p.saddr)
        else (do env.neighbor_link_break rt_next_hop; drop_failed p)

  -- The routes to the next hop and to the destination of a packet whose delivery failed.
  unfoldable pub route_failed : Packet → (rt_next_hop rt : Option ℕ) → M (Unit {0})
  route_failed p none rt = drop_failed p
  route_failed p (some a) rt = do
    neighbor ← get_rt a
    if not (is_valid neighbor.state) then drop_failed p else (elim rt [
      | none ↦ drop_failed p
      | some b ↦ do
        entry ← get_rt b
        if not (is_valid entry.state)
            then drop_failed p
            else if not (entry.next_hop == p.next_hop)
            then emit (drop p drop_rtr_mac_callback)
            else lose_link p a b
    ])

  -- A packet that is neither data nor goes to one node is dropped; one whose destination is sought waits.
  unfoldable pub packet_failed : Packet → M (Unit {0})
  packet_failed p = do
    n ← get
    if not (data_packet p.ptype || p.ptype == pt_ping || p.ptype == pt_encapsulated)
          || p.daddr == aodv_broadcast
        then emit (drop p drop_rtr_mac_callback)
        else (elim (env.seek_list_find p.daddr n.seeks) [
          | some _ ↦ packet_queue_add env p p.daddr
          | none ↦ do
            rt_next_hop ← rt_table_find p.next_hop
            rt ← rt_table_find p.daddr
            route_failed p rt_next_hop rt
        ])
    schedule_next_event

  -- The `switch` on the type.
  unfoldable pub handle : Packet → M (Unit {0})
  handle p = if p.ptype == pt_aodvuu then recv_aodvuu_packet env p else process_packet env p

  -- The assertion that the agent was started is a fault where it fails.
  unfoldable pub recv : Packet → M (Unit {0})
  recv p n =
      (if not n.initialized then fault else (do
        own ← agent_address
        if p.saddr == own
            then if p.num_forwards == 0
              then handle (record p { direction = down; size = p.size + ip_hdr_len })
              else emit (drop p drop_rtr_route_loop)
            else handle (record p { direction = up })
        schedule_next_event))
        n

  -- The result is whether it is TCL_OK. `delete_period` is read before it is written.
  unfoldable pub start_aodvuu_agent : M Bool
  start_aodvuu_agent = do
    n ← get
    if n.initialized then ret false else (do
      when n.wait_on_reboot (
          modify λ m. record m {
            worb_timer =
                env.timer_set_timeout m.now env.uninitialized
                  (env.timer_init Handler.wait_on_reboot m.worb_timer);
          })
      hello_start env
      modify λ m. record m { initialized = true }
      schedule_next_event
      ret true)

  -- The commands from Tcl, with the number of arguments that each needs; the objects that they name are
  -- looked up by the simulator, which finds the object or does not.
  unfoldable pub command : Command → M Bool
  command start = start_aodvuu_agent
  command tracetarget = ret true
  command (addr ipaddr) = do
    modify_host λ h. record h {
      devs = λ i. if i == ns_dev_nr then record (h.devs i) { ipaddr = ipaddr } else h.devs i;
    }
    ret true
  command (node found) = ret found
  command (if_queue none) = ret false
  command (if_queue (some queue)) = do modify λ n. record n { ifqueue = some queue }; ret true
  command (add_ll interface found) = do
    modify λ n. record n {
      n_ifaces = if interface == n.n_ifaces then inc32 n.n_ifaces else n.n_ifaces;
    }
    if ltb interface max_if then ret found else fault
  command (add_mac interface found) = if ltb interface max_if then ret found else fault
