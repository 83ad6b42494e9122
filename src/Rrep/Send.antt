-- ===== src/Rrep/Send.antt =====
-- Sending of route replies: `rrep_send_with_channel`, `rrep_send` and `rrep_forward` of
-- code/aodv-uu-0.96/aodv_rrep.c, and what arrives as an acknowledgement, `rrep_ack_process`.
use aodv_uu.Prelude.{ℕ, ◌%◌, not, ◌&&◌, ◌||◌, Option, none, some, ltb, leb, ◌==◌, if◌then◌else◌}
use aodv_uu.Word.{has_flag, set_flag}
use aodv_uu.Params.{rt_unidir, next_hop_wait, max_sequence_len, max_channel_num}
use aodv_uu.State.{Buffer, is_valid}
use aodv_uu.Machine.{
  M, ◌>>=◌, ◌>>◌, skip, ret, get, modify, modify_rt, update, get_rt, fault, when, Env,
}
use aodv_uu.Device.{dev_ifindex}
use aodv_uu.Precursor.{precursor_add}
use aodv_uu.Table.{rt_table_find, rt_table_update_timeout}
use aodv_uu.Socket.{aodv_socket_queue_msg, aodv_socket_send}
use aodv_uu.Rreq.{store}
use aodv_uu.Hello.Cost.{modify_neighbor}
use aodv_uu.Hello.Neighbors.{known_neighbor}
use aodv_uu.Hello.Send.{keep_hellos}

-- `this_host.neighbors[neib_index]` of the sender; the place behind the last one if it is unknown.
unfoldable pub neighbor_place : ℕ → M ℕ
neighbor_place ip_src = do
  found ← known_neighbor (λ nb. nb.ipaddr == ip_src)
  elim found [ some j ↦ ret j | none ↦ (λ n. ret n.this_host.neighbor_num n) ]

-- An acknowledgement of a HELLO.
unfoldable pub hello_ack_process : Buffer → (ip_src : ℕ) → M (Unit {0})
hello_ack_process rrep_ack ip_src = do
  neib_index ← neighbor_place ip_src
  n ← get
  if ltb (rrep_ack 0) max_channel_num then skip else fault
  when (leb n.this_host.hello_head (rrep_ack 3)) (
      modify_neighbor neib_index λ nb. record nb {
        host_stability_sequence =
            update nb.host_stability_sequence (rrep_ack 3 % max_sequence_len) (rrep_ack 5);
        channel_hello_sequence =
            update nb.channel_hello_sequence (rrep_ack 0)
              (update (nb.channel_hello_sequence (rrep_ack 0)) (rrep_ack 3 % max_sequence_len) 1);
      })
  modify_neighbor neib_index λ nb. record nb {
    channel_hello_remote_received =
        update nb.channel_hello_remote_received (rrep_ack 0) (rrep_ack 4);
  }

module _ (env : Env) where
  unfoldable pub rrep_ack_process : Buffer → (rrep_acklen ip_src : ℕ) → M (Unit {0})
  rrep_ack_process rrep_ack rrep_acklen ip_src = do
    rt ← rt_table_find ip_src
    if not (rrep_ack 2 == 0) then hello_ack_process rrep_ack ip_src else elim rt [
      | none ↦ skip
      | some p ↦ modify_rt p (λ r. record r { ack_timer = env.timer_remove r.ack_timer })
    ]

  -- The neighbour on the way back is taken for one that does not hear us.
  unfoldable pub suspect : ℕ → M (Unit {0})
  suspect q = do
    neighbor ← get_rt q
    when (is_valid neighbor.state && not neighbor.ack_timer.used) (do
      modify_rt q λ r. record r {
        flags = set_flag r.flags rt_unidir;
        hello_timer = env.timer_remove r.hello_timer;
      }
      env.neighbor_link_break q
      (λ n.
          modify_rt q
            (λ r. record r { ack_timer = env.timer_set_timeout n.now next_hop_wait r.ack_timer })
            n))

  -- The check whether a RREP-ACK should be requested.
  unfoldable pub check_unidir : ℕ → M (Unit {0})
  check_unidir rev_rt = do
    rt ← get_rt rev_rt
    when ((is_valid rt.state && has_flag rt.flags rt_unidir) || (rt.hcnt == 1 && env.unidir_hack))
        (do found ← rt_table_find rt.next_hop; elim found [ none ↦ skip | some q ↦ suspect q ])

  -- The message in the send buffer goes to the next hop of the route.
  unfoldable pub send_to_next_hop : (rev_rt size ttl : ℕ) → M (Unit {0})
  send_to_next_hop rev_rt size ttl = do
    rt ← get_rt rev_rt
    dev ← dev_ifindex rt.ifindex
    (λ n. aodv_socket_send env n.send_buf rt.next_hop size ttl dev n)

  -- The next hop of each of the two routes becomes a precursor of the other.
  unfoldable pub join_precursors : (fwd_rt rev_rt : ℕ) → M (Unit {0})
  join_precursors fwd_rt rev_rt = do
    rev ← get_rt rev_rt
    precursor_add env (some fwd_rt) rev.next_hop
    fwd ← get_rt fwd_rt
    precursor_add env (some rev_rt) fwd.next_hop

  unfoldable pub finish_send : (rev_rt : ℕ) → Option ℕ → (size : ℕ) → M (Unit {0})
  finish_send rev_rt fwd_rt size = do
    send_to_next_hop rev_rt size env.maxttl
    elim fwd_rt [ none ↦ skip | some p ↦ join_precursors p rev_rt ]
    keep_hellos env

  -- `channel` is the bit pattern of an `int`.
  unfoldable pub rrep_send_with_channel : Option ℕ → Option ℕ → (size channel : ℕ) → M (Unit {0})
  rrep_send_with_channel none fwd_rt size channel = skip
  rrep_send_with_channel (some rev_rt) fwd_rt size channel = do
    check_unidir rev_rt
    modify λ n. record n { channel_num = channel }
    finish_send rev_rt fwd_rt size

  unfoldable pub rrep_send : Option ℕ → Option ℕ → (size : ℕ) → M (Unit {0})
  rrep_send none fwd_rt size = skip
  rrep_send (some rev_rt) fwd_rt size = do check_unidir rev_rt; finish_send rev_rt fwd_rt size

  unfoldable pub rrep_forward : Buffer → (size : ℕ) → Option ℕ → Option ℕ → (ttl : ℕ) → M (Unit {0})
  rrep_forward rrep size none fwd_rt ttl = skip
  rrep_forward rrep size (some rev_rt) none ttl = skip
  rrep_forward rrep size (some rev_rt) (some fwd_rt) ttl = do
    aodv_socket_queue_msg rrep size
    fwd ← get_rt fwd_rt
    store 4 fwd.hcnt
    send_to_next_hop rev_rt size ttl
    join_precursors fwd_rt rev_rt
    rt_table_update_timeout env (some rev_rt) env.active_route_timeout >>= λ _. skip
