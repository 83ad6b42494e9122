-- ===== src/Rreq/Destination.antt =====
-- `rreq_process` of code/aodv-uu-0.96/aodv_rreq.c as a whole, at the destination of a request.
use aodv_uu.Prelude.{
  ℕ, ◌<◌, true, false, some, ◌≡◌, ◌≢◌, refl, sym, ap, ◌∙◌, arith, ◌==◌, ◌∷◌, List, ◌⊎◌, ==_ne, not,
  ◌&&◌,
}
use aodv_uu.Word.{has_flag}
use aodv_uu.Params.{aodv_rreq_lr, rt_unidir}
use aodv_uu.Packet.{Packet}
use aodv_uu.State.{HostInfo, Buffer, Node, RtTable, Event, schedule}
use aodv_uu.Machine.{◌>>=◌, Env}
use aodv_uu.Device.{ifindex2devindex, dev_nr}
use aodv_uu.Device.Index.{SameHost-device}
use aodv_uu.Link.{ns_ifindex}
use aodv_uu.Link.Leaves.{Among}
use aodv_uu.Queue.Waiting.{Waiting}
use aodv_uu.Socket.{message_packet}
use aodv_uu.Socket.Unicast.{unicast_packet}
use aodv_uu.Fresh.{Costly}
use aodv_uu.Fresh.Raise.{raised}
use aodv_uu.Fresh.Reads.{read_cost_keeps}
use aodv_uu.Route.Invariant.{Inv, SameTable-Inv, SameTable-view, view}
use aodv_uu.Rreq.{rreq_size}
use aodv_uu.Rreq.Ignore.{own_ipaddr_run, not_ignored}
use aodv_uu.Rreq.Process.{finish_rreq, rreq_process_plain, rreq_process}
use aodv_uu.Rreq.Answer.{
  reply, answered, raised_node, answer_as_destination_run, answered-SameTable, IsAsked, IsReverse,
  IsReply, dev_ifindex_run,
}
use aodv_uu.Rreq.Enter.{IsEntered, enter_run}
use aodv_uu.Rrep.{rrep_cost_size}
use aodv_uu.Rrep.Answer.{IsPlain}

-- What the request leaves: the reverse route, and the reply as the last event.
abbrev pub Answered : Env → (n m : Node) → Buffer → (ip_src ifindex dev cost : ℕ) → Type 0
Answered env n m rreq ip_src ifindex dev cost =
    (p : ℕ) × (rt : RtTable) × (packet : Packet) × (rest : List Event) × Inv m
    × (view m (rreq 20) ≡ some p)
    × (m.heap p ≡ some rt)
    × IsReverse rreq ip_src ifindex cost rt
    × IsReply env n m rreq (dev_nr dev n).ipaddr ip_src packet
    × (m.events ≡ schedule packet (rreq 0) 0 ∷ rest)
    × ((e : Event) → Among e rest → (Among e n.events) ⊎ Waiting (rreq 20) n.pq.head e)
    × ((d : ℕ) → d ≢ rreq 20 → view m d ≡ view n d)

-- The reply is sent where the request was entered.
answered-Answered :
    (env : Env) (n m : Node) (rreq q : Buffer) (ip_src ifindex dev cost p : ℕ) (rt : RtTable)
    → ((i : ℕ) → i < 34 → q i ≡ rreq i)
    → IsEntered env n m rreq ip_src ifindex cost p rt
    → Answered env n (answered env m q dev rt) rreq ip_src ifindex dev cost
unfolding message_packet
answered-Answered env n m rreq q ip_src ifindex dev cost p rt same is =
    let own : (dev_nr dev m).ipaddr ≡ (dev_nr dev n).ipaddr =
      ap (λ h. (HostInfo.devs h dev).ipaddr) is.host.this_host in
    let table = answered-SameTable env m q dev rt in
    let chan = same 0 (omega arith) in
    let before : Node = record (raised_node m (q 16)) {
      send_buf = reply env m q (dev_nr dev m).ipaddr rt;
      channel_num = q 0;
    } in
    let packet =
      unicast_packet env (reply env m q (dev_nr dev m).ipaddr rt) rt.next_hop rrep_cost_size
        env.maxttl dev before in
    (
      p,
      rt,
      packet,
      m.events,
      SameTable-Inv table is.inv,
      SameTable-view table (rreq 20) ∙ is.here,
      is.stored,
      is.reverse,
      record {
        saddr = own;
        daddr = is.reverse.next_hop;
        next_hop = is.reverse.next_hop;
        ttl = refl;
        channel = chan;
        type = refl;
        hcnt = refl;
        dest_addr = own;
        dest_seqno = refl;
        orig_addr = is.reverse.dest_addr;
        own_seqno =
            ap (λ x. raised x m.this_host.seqno) (same 16 (omega arith))
            ∙ ap (λ h. raised (rreq 16) (HostInfo.seqno h)) is.host.this_host;
      },
      (λ i. schedule packet (chan i) 0 ∷ m.events),
      is.only.source,
      λ d e. SameTable-view table d ∙ is.elsewhere d e,
    )

finish_rreq_answers :
    (env : Env) (n : Node) (rreq : Buffer) (rreqlen ip_src ip_ttl ifindex dev : ℕ) (c : Costly)
    → IsAsked env n rreq rreqlen ip_src ifindex dev c
    → env.unidir_hack ≡ false
    → (not env.llfeedback && env.optimized_hellos) ≡ false
    → (m : Node) × (finish_rreq env c ip_src ip_ttl ifindex (dev_nr dev n).ipaddr n ≡ some (tt, m))
      × Answered env n m rreq ip_src ifindex dev c.cost
unfolding finish_rreq
finish_rreq_answers env n rreq rreqlen ip_src ip_ttl ifindex dev c a hack hellos =
    let q = c.message in
    let same = (read_cost_keeps env rreq ip_src rreq_size rreqlen c n n a.costly).1 in
    let (rec, n₁, m, p, rt, run₁, run₂, is) =
      enter_run env n rreq c ip_src ifindex dev a.inv a.ready same a.device a.foreign a.unrouted
        a.room in
    let device : ifindex2devindex rt.ifindex m ≡ some dev =
      ap (λ i. ifindex2devindex i m) is.reverse.interface
      ∙ SameHost-device ifindex is.host
      ∙ a.device in
    let plain : IsPlain env rt = record {
      hack = hack;
      flag = ap (λ f. has_flag f rt_unidir) is.flags;
      hellos = hellos;
    } in
    let ours : (q 12 == (dev_nr dev n).ipaddr) ≡ true =
      ground (arith, same 12 (omega arith), a.ours) in
    let run₃ =
      answer_as_destination_run env m q p dev rt plain is.stored device
        (SameHost-device ns_ifindex is.host ∙ a.agent)
        (λ e. a.neighbor (sym is.reverse.next_hop ∙ e)) (is.host.wait_on_reboot ∙ a.awake) in
    (
      answered env m q dev rt,
      rw (◌>>=◌, run₁, run₂, ours) run₃,
      answered-Answered env n m rreq q ip_src ifindex dev c.cost p rt same is,
    )

-- A RREQ that does not ask for a repair arrives for this node over a known interface. It is
-- complete, comes from another node, over a neighbour that is not in the blacklist, and its
-- extensions are read without a fault. Its cost is then that of its last extension with a cost
-- with that of the link added, or log(MAX_NUM) if it has no such extension. It is not recorded
-- with a cost lower than that, and its originator has no route in the well-formed table, which has
-- room for one more and whose interfaces are known. It arrives over the agent's device from a
-- neighbour, whose address is not that of a broadcast, and the node is not waiting after a reboot;
-- neither the option for unidirectional links nor HELLOs on demand are set. Then the handler
-- returns, and the request is answered: the table is well-formed and has a valid route to the
-- originator over the neighbour, with the hop count of the request raised by one (as a byte), the
-- originator's number from the request, and that cost; other destinations are looked up as before,
-- and the last thing that leaves the node goes to the link layer of the channel of the request: a
-- packet to that neighbour, with a RREP from the node's address to the originator, with the node's
-- number, which was raised to the requested one. Before it only packets leave that waited for the
-- originator.
pub rreq_process_answers :
    (env : Env) (n : Node) (rreq : Buffer) (rreqlen ip_src ip_ttl ifindex dev : ℕ) (c : Costly)
    → IsAsked env n rreq rreqlen ip_src ifindex dev c
    → env.unidir_hack ≡ false
    → (not env.llfeedback && env.optimized_hellos) ≡ false
    → (m : Node) × (rreq_process env rreq rreqlen ip_src ip_ttl ifindex n ≡ some (tt, m))
      × Answered env n m rreq ip_src ifindex dev c.cost
unfolding rreq_process rreq_process_plain
rreq_process_answers env n rreq rreqlen ip_src ip_ttl ifindex dev c a hack hellos =
    let own = (dev_nr dev n).ipaddr in
    let (m, run, is) =
      finish_rreq_answers env n rreq rreqlen ip_src ip_ttl ifindex dev c a hack hellos in
    (
      m,
      rw
          (
            ==_ne (rreq 1) aodv_rreq_lr a.plain,
            ◌>>=◌,
            own_ipaddr_run ifindex dev n (dev_ifindex_run ifindex dev n a.device),
            not_ignored rreq rreqlen ip_src own n a.foreign a.complete a.listed,
            a.costly,
            a.unseen,
          )
          run,
      is,
    )
