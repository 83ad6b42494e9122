-- ===== src/Rreq/Answer.antt =====
-- The answer of the destination of a RREQ, in `rreq_process` of code/aodv-uu-0.96/aodv_rreq.c.
use aodv_uu.Prelude.{ℕ, ◌+◌, ◌*◌, ◌≤◌, ◌<◌, false, none, some, ◌≡◌, ◌≢◌, refl, ap, arith, pos}
use aodv_uu.Word.{u8}
use aodv_uu.Params.{aodv_broadcast, aodv_rrep, aodv_rreq_lr}
use aodv_uu.State.{Buffer, Node, RtTable, RreqRecord, valid}
use aodv_uu.Machine.{◌>>=◌, ◌>>◌, Env, get_rt, deref}
use aodv_uu.Device.{ifindex2devindex, dev_ifindex, dev_nr}
use aodv_uu.Link.{ns_ifindex}
use aodv_uu.Socket.Unicast.{sent}
use aodv_uu.Queue.Ready.{Ready}
use aodv_uu.Table.Timed.{Later-rest}
use aodv_uu.Packet.{Packet}
use aodv_uu.Route.{started_rt, new_rt}
use aodv_uu.Route.Insert.{Inserted}
use aodv_uu.Fresh.{Costly, read_cost}
use aodv_uu.Fresh.Raise.{raised, raise_seqno_run}
use aodv_uu.Rreq.{rreq_size}
use aodv_uu.Rreq.Common.{reverse_life}
use aodv_uu.Rreq.Process.{answer_as_destination, reverse_route}
use aodv_uu.Records.{rreq_blacklist_find, rreq_record_find_less_cost, rreq_record_insert_with_cost}
use aodv_uu.Records.Seen.{rreq_record_insert_with_cost-find}
use aodv_uu.Table.{hashing}
use aodv_uu.Route.Invariant.{Inv, SameTable, view, rt_table_find-view, hashing-lt}
use aodv_uu.Device.Index.{SameHost}
use aodv_uu.Route.Channel.{rt_table_insert_with_channel_run, lookup_none-NoneOn}
use aodv_uu.Rrep.{rrep_cost_size}
use aodv_uu.Rrep.Answer.{
  plain_rrep, rrep_create_with_cost_plain, IsPlain, rrep_send_with_channel_plain,
}
use aodv_uu.Rreq.Ignore.{own_ipaddr_run}

pub dev_ifindex_run :
    (ifindex dev : ℕ) (n : Node)
    → ifindex2devindex ifindex n ≡ some dev
    → dev_ifindex ifindex n ≡ some (dev, n)
unfolding dev_ifindex
dev_ifindex_run ifindex dev n e = rw (dev_ifindex, e) refl

-- The state after the node's own number was raised.
abbrev pub raised_node : Node → (dest_seqno : ℕ) → Node
raised_node n d = record n {
  this_host = record (n.this_host) { seqno = raised d n.this_host.seqno };
}

-- The reply to the originator.
abbrev pub reply : Env → Node → Buffer → (own : ℕ) → RtTable → Buffer
reply env n rreq own rt =
    plain_rrep 0 own (raised (rreq 16) n.this_host.seqno) rt.dest_addr
      (2 * env.active_route_timeout) 0

-- The state after the reply was sent.
abbrev pub answered : Env → Node → Buffer → (dev : ℕ) → RtTable → Node
answered env n rreq dev rt =
    let own = (dev_nr dev n).ipaddr in
    sent env (reply env n rreq own rt) rt.next_hop rrep_cost_size env.maxttl dev
      (record (raised_node n (rreq 16)) {
        send_buf = reply env n rreq own rt;
        channel_num = rreq 0;
      })

pub answer_as_destination_run :
    (env : Env) (n : Node) (rreq : Buffer) (p dev : ℕ) (rt : RtTable)
    → IsPlain env rt
    → n.heap p ≡ some rt
    → ifindex2devindex rt.ifindex n ≡ some dev
    → ifindex2devindex ns_ifindex n ≡ some dev
    → rt.next_hop ≢ aodv_broadcast
    → n.wait_on_reboot ≡ false
    → answer_as_destination env rreq (some p) n ≡ some (tt, answered env n rreq dev rt)
unfolding answer_as_destination
answer_as_destination_run env n rreq p dev rt plain st d o uni w =
    let own = (dev_nr dev n).ipaddr in
    let n₁ = raised_node n (rreq 16) in
    let d₁ : ifindex2devindex rt.ifindex n₁ ≡ some dev = unfold ifindex2devindex in d in
    let n₂ : Node = record n₁ { send_buf = reply env n rreq own rt } in
    let d₂ : ifindex2devindex rt.ifindex n₂ ≡ some dev = unfold ifindex2devindex in d in
    let o₂ : ifindex2devindex ns_ifindex n₂ ≡ some dev = unfold ifindex2devindex in o in
    rw
      (
        ◌>>◌,
        ◌>>=◌,
        raise_seqno_run (rreq 16) n,
        deref,
        get_rt,
        st,
        own_ipaddr_run rt.ifindex dev n₁ (dev_ifindex_run rt.ifindex dev n₁ d₁),
        rrep_create_with_cost_plain 0 own (raised (rreq 16) n.this_host.seqno) rt.dest_addr
            (2 * env.active_route_timeout) 0 n₁,
      )
      (rrep_send_with_channel_plain env n₂ p rrep_cost_size (rreq 0) dev rt plain st d₂ o₂ uni w
        refl)

-- The table is the same after the answer.
pub answered-SameTable :
    (env : Env) (n : Node) (rreq : Buffer) (dev : ℕ) (rt : RtTable)
    → SameTable n (answered env n rreq dev rt)
answered-SameTable env n rreq dev rt = record {
  heap = refl;
  next_address = omega arith;
  num_entries = refl;
  num_active = refl;
  tbl = refl;
}

-- A RREQ for this node that is new to it, from an originator to which it has no route, in a
-- well-formed table with room for the route; `c` is the message with its cost.
pub record IsAsked (env : Env) (n : Node) (rreq : Buffer) (rreqlen ip_src ifindex dev : ℕ)
    (c : Costly) : Type 0 where
  pub inv : Inv n
  pub plain : rreq 1 ≢ aodv_rreq_lr
  pub device : ifindex2devindex ifindex n ≡ some dev
  pub ours : rreq 12 ≡ (dev_nr dev n).ipaddr
  pub foreign : rreq 20 ≢ (dev_nr dev n).ipaddr
  pub complete : rreq_size ≤ rreqlen
  pub listed : rreq_blacklist_find ip_src n ≡ none
  pub costly : read_cost env rreq ip_src rreq_size rreqlen n ≡ some (c, n)
  pub unseen : rreq_record_find_less_cost env (rreq 20) (rreq 8) c.cost n ≡ none
  pub unrouted : view n (rreq 20) ≡ none
  pub room : n.num_entries < 4294967295
  pub awake : n.wait_on_reboot ≡ false
  pub ready : Ready n
  pub agent : ifindex2devindex ns_ifindex n ≡ some dev
  pub neighbor : ip_src ≢ aodv_broadcast

-- The reverse route.
pub record IsReverse (rreq : Buffer) (ip_src ifindex cost : ℕ) (rt : RtTable) : Type 0 where
  pub dest_addr : rt.dest_addr ≡ rreq 20
  pub next_hop : rt.next_hop ≡ ip_src
  pub state : rt.state ≡ valid
  pub hcnt : rt.hcnt ≡ u8 (rreq 4 + 1)
  pub dest_seqno : rt.dest_seqno ≡ rreq 24
  pub rt_cost : rt.cost ≡ cost
  pub interface : rt.ifindex ≡ ifindex

-- The packet with the reply, from the node to the neighbour that passed the request on.
pub record IsReply (env : Env) (n m : Node) (rreq : Buffer) (own ip_src : ℕ) (p : Packet)
    : Type 0 where
  pub saddr : p.saddr ≡ own
  pub daddr : p.daddr ≡ ip_src
  pub next_hop : p.next_hop ≡ ip_src
  pub ttl : p.ttl ≡ u8 env.maxttl
  pub channel : p.channel ≡ rreq 0
  pub type : p.contents 1 ≡ aodv_rrep
  pub hcnt : p.contents 4 ≡ 0
  pub dest_addr : p.contents 8 ≡ own
  pub dest_seqno : p.contents 12 ≡ m.this_host.seqno
  pub orig_addr : p.contents 16 ≡ rreq 20
  pub own_seqno : m.this_host.seqno ≡ raised (rreq 16) n.this_host.seqno

-- The reverse route is inserted.
pub record IsRouted (env : Env) (n m : Node) (c : Costly) (ip_src ifindex : ℕ) (rt : RtTable)
    : Type 0 where
  pub inserted : Inserted env n m (c.message 20) n.next_address
  pub stored : m.heap n.next_address ≡ some rt
  pub reverse : IsReverse c.message ip_src ifindex c.cost rt
  pub flags : rt.flags ≡ 0

pub reverse_route_run :
    (env : Env) (n : Node) (c : Costly) (ip_src ifindex dev : ℕ)
    → Inv n
    → Ready n
    → view n (c.message 20) ≡ none
    → n.num_entries < 4294967295
    → ifindex2devindex ifindex n ≡ some dev
    → c.message 20 ≢ (dev_nr dev n).ipaddr
    → (m : Node) × (rt : RtTable) × (reverse_route env c ip_src ifindex n
        ≡ some (some (some n.next_address), m))
      × IsRouted env n m c ip_src ifindex rt
unfolding reverse_route started_rt new_rt
reverse_route_run env n c ip_src ifindex dev inv ready v room d own =
    let i = hashing (c.message 20) in
    let free =
      lookup_none-NoneOn n i (c.message 20) (pos (c.message 0)) (n.tbl i)
        (inv.chains i (hashing-lt (c.message 20))) v in
    let (m, run, is, s) =
      rt_table_insert_with_channel_run env n (c.message 20) ip_src (c.message 4 + 1) (c.message 24)
        (reverse_life (c.message 4)) valid 0 ifindex (pos (c.message 0)) c.cost dev inv ready free
        room d own in
    let (rt, stored, later) = s in
    let rest = Later-rest env later in
    (
      m,
      rt,
      rw (◌>>=◌, rt_table_find-view n (c.message 20) inv, v, run) refl,
      record {
        inserted = is;
        stored = stored;
        reverse = record {
          dest_addr = ap RtTable.dest_addr rest;
          next_hop = ap RtTable.next_hop rest;
          state = ap RtTable.state rest;
          hcnt = ap RtTable.hcnt rest;
          dest_seqno = ap RtTable.dest_seqno rest;
          rt_cost = ap RtTable.cost rest;
          interface = ap RtTable.ifindex rest;
        };
        flags = ap RtTable.flags rest;
      },
    )

-- The search in the records entered the request, and did nothing else.
pub record IsNoted (n m : Node) : Type 0 where
  pub table : SameTable n m
  pub host : SameHost n m
  pub events : m.events ≡ n.events
  pub pq : m.pq ≡ n.pq

pub record_request_run :
    (env : Env) (n : Node) (orig_addr rreq_id cost : ℕ)
    → (rec : RreqRecord) × (m : Node) × (rreq_record_insert_with_cost env orig_addr rreq_id cost n
        ≡ some (rec, m))
      × IsNoted n m
record_request_run env n orig_addr rreq_id cost =
    let (rec, m, run, frame, later, _, _, _, _) =
      rreq_record_insert_with_cost-find env n orig_addr rreq_id cost in
    (
      rec,
      m,
      run,
      record {
        table = record {
          heap = ap Node.heap frame;
          next_address = later;
          num_entries = ap Node.num_entries frame;
          num_active = ap Node.num_active frame;
          tbl = ap Node.tbl frame;
        };
        host = record {
          this_host = ap Node.this_host frame;
          dev_indices = ap Node.dev_indices frame;
          wait_on_reboot = ap Node.wait_on_reboot frame;
        };
        events = ap Node.events frame;
        pq = ap Node.pq frame;
      },
    )
