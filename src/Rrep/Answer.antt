-- ===== src/Rrep/Answer.antt =====
-- A RREP that is created without flags and sent along a route of which the node knows no fault.
use aodv_uu.Prelude.{ℕ, false, not, ◌&&◌, ◌||◌, none, some, ◌≡◌, ◌≢◌, refl, arith, ◌==◌}
use aodv_uu.Word.{u8, u32, has_flag}
use aodv_uu.Params.{aodv_broadcast, aodv_rrep, rt_unidir, rrep_cost_ext}
use aodv_uu.State.{Buffer, Node, RtTable, is_valid}
use aodv_uu.Machine.{◌>>=◌, ◌>>◌, Env, update, get_rt}
use aodv_uu.Device.{ifindex2devindex, dev_ifindex}
use aodv_uu.Socket.{aodv_socket_new_msg}
use aodv_uu.Socket.Unicast.{sent, send_rrep_run}
use aodv_uu.Link.{ns_ifindex}
use aodv_uu.Rreq.{store_all}
use aodv_uu.Rrep.{rrep_create_with_cost, start_rrep, rrep_add_ext}
use aodv_uu.Rrep.Send.{check_unidir, rrep_send_with_channel, finish_send, send_to_next_hop}
use aodv_uu.Hello.Send.{keep_hellos}

-- The message that `rrep_create_with_cost` makes without flags.
abbrev pub plain_rrep : (hcnt dest_addr dest_seqno orig_addr life cost : ℕ) → Buffer
plain_rrep hcnt dest_addr dest_seqno orig_addr life cost =
    let b : Buffer =
      update
        (update
          (update
            (update (update (update (update (λ i. 0) 1 aodv_rrep) 2 0) 4 (u8 hcnt)) 8 dest_addr) 12
            dest_seqno)
          16 orig_addr)
        20 (u32 life) in
    update (update (update b 32 rrep_cost_ext) 33 8) 34 cost

pub rrep_create_with_cost_plain :
    (hcnt dest_addr dest_seqno orig_addr life cost : ℕ) (n : Node)
    → rrep_create_with_cost 0 0 hcnt dest_addr dest_seqno orig_addr life cost n
      ≡ some (tt, record n { send_buf = plain_rrep hcnt dest_addr dest_seqno orig_addr life cost })
unfolding rrep_create_with_cost start_rrep aodv_socket_new_msg rrep_add_ext store_all
rrep_create_with_cost_plain hcnt dest_addr dest_seqno orig_addr life cost n = refl

-- Nothing makes the node ask for an acknowledgement, and HELLOs are not on demand.
pub record IsPlain (env : Env) (rt : RtTable) : Type 0 where
  pub hack : env.unidir_hack ≡ false
  pub flag : has_flag rt.flags rt_unidir ≡ false
  pub hellos : (not env.llfeedback && env.optimized_hellos) ≡ false

send_to_next_hop_run :
    (env : Env) (n : Node) (p size ttl dev : ℕ) (rt : RtTable)
    → n.heap p ≡ some rt
    → ifindex2devindex rt.ifindex n ≡ some dev
    → ifindex2devindex ns_ifindex n ≡ some dev
    → rt.next_hop ≢ aodv_broadcast
    → n.wait_on_reboot ≡ false
    → n.send_buf 1 ≡ aodv_rrep
    → send_to_next_hop env p size ttl n ≡ some (tt, sent env n.send_buf rt.next_hop size ttl dev n)
unfolding send_to_next_hop dev_ifindex
send_to_next_hop_run env n p size ttl dev rt st d own uni w t =
    rw (◌>>=◌, get_rt, st, d) (send_rrep_run env n.send_buf rt.next_hop size ttl dev n own uni w t)

finish_send_run :
    (env : Env) (n : Node) (p size dev : ℕ) (rt : RtTable)
    → IsPlain env rt
    → n.heap p ≡ some rt
    → ifindex2devindex rt.ifindex n ≡ some dev
    → ifindex2devindex ns_ifindex n ≡ some dev
    → rt.next_hop ≢ aodv_broadcast
    → n.wait_on_reboot ≡ false
    → n.send_buf 1 ≡ aodv_rrep
    → finish_send env p none size n
      ≡ some (tt, sent env n.send_buf rt.next_hop size env.maxttl dev n)
unfolding finish_send keep_hellos
finish_send_run env n p size dev rt plain st d own uni w t =
    rw (◌>>◌, send_to_next_hop_run env n p size env.maxttl dev rt st d own uni w t, plain.hellos)
      refl

pub rrep_send_with_channel_plain :
    (env : Env) (n : Node) (p size channel dev : ℕ) (rt : RtTable)
    → IsPlain env rt
    → n.heap p ≡ some rt
    → ifindex2devindex rt.ifindex n ≡ some dev
    → ifindex2devindex ns_ifindex n ≡ some dev
    → rt.next_hop ≢ aodv_broadcast
    → n.wait_on_reboot ≡ false
    → n.send_buf 1 ≡ aodv_rrep
    → rrep_send_with_channel env (some p) none size channel n
      ≡ some (
        tt,
        sent env n.send_buf rt.next_hop size env.maxttl dev (record n { channel_num = channel }),
      )
unfolding rrep_send_with_channel check_unidir
rrep_send_with_channel_plain env n p size channel dev rt plain st d own uni w t =
    let n' : Node = record n { channel_num = channel } in
    let d' : ifindex2devindex rt.ifindex n' ≡ some dev = unfold ifindex2devindex in d in
    let own' : ifindex2devindex ns_ifindex n' ≡ some dev = unfold ifindex2devindex in own in
    let quiet : ((is_valid rt.state && has_flag rt.flags rt_unidir)
          || (rt.hcnt == 1 && env.unidir_hack))
        ≡ false =
      ground (arith, plain.hack, plain.flag) in
    rw (◌>>◌, ◌>>=◌, get_rt, st, quiet)
      (finish_send_run env n' p size dev rt plain st d' own' uni w t)
