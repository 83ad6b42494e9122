-- ===== src/Timeout.antt =====
-- What the agent does when its timers expire: code/aodv-uu-0.96/aodv_timeout.c.
pub mod Expire
pub mod Repair
use aodv_uu.Prelude.{
  ℕ, ◌+◌, ◌*◌, false, not, ◌&&◌, Option, none, some, ltb, leb, ◌==◌, if◌then◌else◌,
}
use aodv_uu.Word.{has_flag, set_flag, clear_flag}
use aodv_uu.Params.{
  rt_repair, rt_unidir, rreq_retries, ttl_threshold, ttl_increment, net_diameter,
  net_traversal_time, max_repair_ttl, ring_traversal_time, channel_count,
}
use aodv_uu.State.{Handler, RtTable, SeekEntry, is_valid, pq_drop, ifq_buffer}
use aodv_uu.Machine.{M, ◌>>=◌, ◌>>◌, skip, modify, modify_rt, when, update, get_rt, emit, Env}
use aodv_uu.Device.{dev_ifindex}
use aodv_uu.Link.{interface_queue}
use aodv_uu.Queue.Verdict.{packet_queue_set_verdict}
use aodv_uu.Precursor.{precursor_list_destroy}
use aodv_uu.Records.{rreq_blacklist_insert}
use aodv_uu.Table.{rt_table_find}
use aodv_uu.Route.Change.{rt_table_invalidate, rt_table_delete}
use aodv_uu.Socket.{aodv_socket_send, send_on_all}
use aodv_uu.Rreq.{each_channel, rreq_send_with_channel, keep_waiting, set_seek_timer}
use aodv_uu.Rerr.{rerr_create, rerr_calc_size, first_prec}

-- Reads and writes of a sought destination through its pointer.
abbrev pub get_seek : ℕ → M SeekEntry
get_seek p n = elim (n.seeks.entry p) [ none ↦ none | some e ↦ some (e, n) ]

abbrev pub modify_seek : ℕ → (SeekEntry → SeekEntry) → M (Unit {0})
modify_seek p f n = elim (n.seeks.entry p) [
  | none ↦ none
  | some e ↦
      some
        (tt, record n { seeks = record (n.seeks) { entry = update n.seeks.entry p (some (f e)) } })
]

-- The entry with a wider ring, or with one request more.
unfoldable pub widened : SeekEntry → SeekEntry
widened e =
    if ltb e.ttl ttl_threshold
    then record e { ttl = e.ttl + ttl_increment }
    else record e { ttl = net_diameter; reqs = e.reqs + 1 }

module _ (env : Env) where
  -- The RERR to the precursors of a route whose repair failed.
  unfoldable pub report_failure : RtTable → M (Unit {0})
  report_failure rt = do
    rerr_create 0 rt.dest_addr rt.dest_seqno
    if rt.nprec == 1
        then (do
          rerr_dest ← first_prec rt.precursors
          dev ← dev_ifindex rt.ifindex
          (λ n. aodv_socket_send env n.send_buf rerr_dest (rerr_calc_size (n.send_buf 4)) 1 dev n))
        else (λ n. send_on_all env (rerr_calc_size (n.send_buf 4)) 1 n)

  unfoldable pub local_repair_timeout : Option ℕ → M (Unit {0})
  local_repair_timeout none = skip
  local_repair_timeout (some p) = do
    modify_rt p λ r. record r { flags = clear_flag r.flags rt_repair }
    rt ← get_rt p
    when (not (rt.nprec == 0)) (report_failure rt)
    precursor_list_destroy (some p)
    (λ n.
        modify_rt p
          (λ r. record r {
            rt_timer =
                env.timer_set_timeout n.now env.delete_period
                  (record (r.rt_timer) { handler = Handler.route_delete });
          })
          n)

  -- A sought destination has not answered: ask again, further out, or give up.
  unfoldable pub seek_again : ℕ → SeekEntry → M (Unit {0})
  seek_again p e = do
    if env.expanding_ring_search
        then (do
          modify_seek p widened
          e' ← get_seek p
          set_seek_timer env p (ring_traversal_time e'.ttl))
        else (do
          modify_seek p λ e. record e { reqs = e.reqs + 1 }
          e' ← get_seek p
          set_seek_timer env p (e'.reqs * 2 * net_traversal_time))
    rt ← rt_table_find e.dest_addr
    keep_waiting env rt
    e' ← get_seek p
    each_channel (rreq_send_with_channel env e'.dest_addr e'.dest_seqno e'.ttl e'.flags)
        channel_count 0

  unfoldable pub give_up : ℕ → SeekEntry → M (Unit {0})
  give_up p e = do
    _ ← packet_queue_set_verdict env e.dest_addr pq_drop
    repair_rt ← rt_table_find e.dest_addr
    modify λ n. record n { seeks = (env.seek_list_remove (some p) n.seeks).1 }
    elim repair_rt [
      | none ↦ skip
      | some q ↦ do
        rt ← get_rt q
        when (has_flag rt.flags rt_repair) (local_repair_timeout (some q))
    ]

  unfoldable pub route_discovery_timeout : Option ℕ → M (Unit {0})
  route_discovery_timeout none = skip
  route_discovery_timeout (some p) = do
    e ← get_seek p
    if ltb e.reqs rreq_retries then seek_again p e else give_up p e

  unfoldable pub route_expire_timeout : Option ℕ → M (Unit {0})
  route_expire_timeout none = skip
  route_expire_timeout (some p) = do
    rt ← get_rt p
    if rt.hcnt == 1
        then env.neighbor_link_break p
        else (do _ ← rt_table_invalidate env (some p); precursor_list_destroy (some p))

  unfoldable pub route_delete_timeout : Option ℕ → M (Unit {0})
  route_delete_timeout none = skip
  route_delete_timeout (some p) = rt_table_delete env (some p)

  unfoldable pub hello_timeout : Option ℕ → M (Unit {0})
  hello_timeout none = skip
  hello_timeout (some p) = do
    rt ← get_rt p
    when (is_valid rt.state && not (has_flag rt.flags rt_unidir)) (do
      when (env.local_repair && leb rt.hcnt max_repair_ttl) (do
        modify_rt p λ r. record r { flags = set_flag r.flags rt_repair }
        interface_queue env rt.dest_addr ifq_buffer)
      env.neighbor_link_break p)

  unfoldable pub rrep_ack_timeout : Option ℕ → M (Unit {0})
  rrep_ack_timeout none = skip
  rrep_ack_timeout (some p) = do rt ← get_rt p; _ ← rreq_blacklist_insert env rt.dest_addr; skip

-- The argument is the address of `wait_on_reboot`.
unfoldable pub wait_on_reboot_timeout : M (Unit {0})
wait_on_reboot_timeout = modify λ n. record n { wait_on_reboot = false }
