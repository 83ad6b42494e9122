-- ===== src/Input.antt =====
-- The data path: `processPacket` of code/aodv-uu-0.96/ns-2/packet_input.cc, without the lines of
-- CONFIG_GATEWAY.
pub mod Forward
use aodv_uu.Prelude.{ℕ, Bool, true, false, not, ◌&&◌, ◌||◌, Option, none, some, ◌==◌, if◌then◌else◌}
use aodv_uu.Word.{sub32, has_flag}
use aodv_uu.Params.{rt_unidir, rt_repair, aodv_broadcast, ip_hdr_len, rreq_gratuitous, pt_tcp}
use aodv_uu.Packet.{Packet, Direction, down, up, undirected, is_up, drop_rtr_no_route, unspecified}
use aodv_uu.State.{RtTable, is_valid, drop, deliver}
use aodv_uu.Machine.{M, ◌>>=◌, ◌>>◌, ret, skip, get, get_rt, modify, emit, when, Env}
use aodv_uu.Device.{dev_ifindex, dev_nr}
use aodv_uu.Table.{rt_table_find, rt_table_update_timeout}
use aodv_uu.Route.Change.{rt_table_update_route_timeouts}
use aodv_uu.Socket.{aodv_socket_send}
use aodv_uu.Rreq.{rreq_route_discovery}
use aodv_uu.Rreq.Common.{entry_of}
use aodv_uu.Rreq.LocalRepair.{rreq_local_repair}
use aodv_uu.Rerr.{rerr_create, rerr_calc_size}
use aodv_uu.Hello.Cost.{modify_host}
use aodv_uu.Hello.Send.{keep_hellos}
use aodv_uu.Link.{ns_ifindex, agent_address, send_packet}
use aodv_uu.Queue.{packet_queue_add}

-- Whether the destination is a broadcast address; the second test is made only if the first fails.
unfoldable pub to_broadcast : (dest_addr : ℕ) → M Bool
to_broadcast dest_addr =
    if dest_addr == aodv_broadcast
    then ret true
    else (do i ← dev_ifindex ns_ifindex; n ← get; ret (dest_addr == (dev_nr i n).broadcast))

-- No route, an invalid one, or one over a link in one direction.
unfoldable pub unusable : Option RtTable → Bool
unusable none = true
unusable (some rt) = not (is_valid rt.state) || (rt.hcnt == 1 && has_flag rt.flags rt_unidir)

abbrev pub in_repair : Option RtTable → Bool
in_repair none = false
in_repair (some rt) = has_flag rt.flags rt_repair

-- Where the RERR goes: to the next hop of a valid reverse route, or to all.
unfoldable pub rerr_dest_of : Option RtTable → ℕ
rerr_dest_of none = aodv_broadcast
rerr_dest_of (some rev) = if is_valid rev.state then rev.next_hop else aodv_broadcast

module _ (env : Env) where
  -- A packet of another node that cannot be forwarded: a RERR goes back, and the packet is dropped.
  unfoldable pub refuse : Packet → (fwd_rt rev_rt : Option ℕ) → M (Unit {0})
  refuse p fwd_rt rev_rt = do
    elim fwd_rt [
      | none ↦ rerr_create 0 p.daddr 0
      | some q ↦ do
        fwd ← get_rt q
        rerr_create 0 fwd.dest_addr fwd.dest_seqno
        _ ← rt_table_update_timeout env (some q) env.delete_period
        skip
    ]
    rev ← entry_of rev_rt
    dev ← dev_ifindex ns_ifindex
    (λ n.
        aodv_socket_send env n.send_buf (rerr_dest_of rev) (rerr_calc_size (n.send_buf 4)) 1 dev n)
    n ← get
    when n.wait_on_reboot (
        modify
          λ m. record m { worb_timer = env.timer_set_timeout m.now env.delete_period m.worb_timer })
    emit (drop p drop_rtr_no_route)

  -- The label `route_discovery`.
  unfoldable pub discover : Packet → Option ℕ → (rreq_flags : ℕ) → M (Unit {0})
  discover p fwd_rt rreq_flags = do
    packet_queue_add env p p.daddr
    fwd ← entry_of fwd_rt
    if in_repair fwd
        then rreq_local_repair env fwd_rt p.saddr
        else rreq_route_discovery env p.daddr rreq_flags

  -- A packet goes along a valid route.
  unfoldable pub forward_packet : Packet → RtTable → M (Unit {0})
  forward_packet p fwd = do
    send_packet env p fwd.next_hop 0
    n ← get
    modify_host λ h. record h { fwd_time = n.now }
    keep_hellos env

  -- What is decided once the timeouts are updated.
  unfoldable pub route_packet :
      Packet → (fwd_rt rev_rt : Option ℕ) → (rreq_flags : ℕ) → M (Unit {0})
  route_packet p fwd_rt rev_rt rreq_flags = do
    own ← agent_address
    if p.daddr == own then emit (deliver (record p { size = sub32 p.size ip_hdr_len })) else (do
      fwd ← entry_of fwd_rt
      if unusable fwd
          then if not (in_repair fwd) && is_up p.direction
            then refuse p fwd_rt rev_rt
            else discover p fwd_rt rreq_flags
          else (elim fwd [ none ↦ skip | some rt ↦ forward_packet p rt ]))

  -- From the check for a broadcast on.
  unfoldable pub direct_packet : Packet → M (Unit {0})
  direct_packet p = do
    broadcast ← to_broadcast p.daddr
    if broadcast
        then if is_up p.direction then emit (deliver p) else send_packet env p p.daddr 0
        else (do
          rev_rt ← rt_table_find p.saddr
          fwd_rt ← rt_table_find p.daddr
          rt_table_update_route_timeouts env fwd_rt rev_rt
          route_packet p fwd_rt rev_rt (if p.ptype == pt_tcp then rreq_gratuitous else 0))

  -- The check of the direction.
  unfoldable pub process_directed : Direction → Packet → M (Unit {0})
  process_directed undirected p = emit (drop p unspecified)
  process_directed down p = direct_packet p
  process_directed up p = direct_packet p

  unfoldable pub process_packet : Packet → M (Unit {0})
  process_packet p = process_directed p.direction p
