-- ===== src/Rreq/Relay.antt =====
-- `rreq_process` of code/aodv-uu-0.96/aodv_rreq.c at a node on the way, which knows no route.
use aodv_uu.Prelude.{
  ℕ, ◌<◌, ◌≤◌, Option, none, some, ◌≡◌, ◌≢◌, ◌⊎◌, inl, inr, sym, ap, ◌∙◌, arith, ==_ne,
}
use aodv_uu.Params.{aodv_rreq_lr}
use aodv_uu.State.{Buffer, Node, RtTable, Event}
use aodv_uu.Machine.{◌>>=◌, Env}
use aodv_uu.Device.{ifindex2devindex, dev_nr, Known}
use aodv_uu.Link.{ns_ifindex}
use aodv_uu.Queue.Ready.{Ready}
use aodv_uu.Queue.Waiting.{Waiting}
use aodv_uu.Rreq.Enter.{enter_run}
use aodv_uu.Socket.Quiet.{Quiet}
use aodv_uu.Link.Leaves.{Only}
use aodv_uu.Fresh.{Costly, read_cost}
use aodv_uu.Fresh.Reads.{read_cost_keeps}
use aodv_uu.Records.{rreq_blacklist_find, rreq_record_find_less_cost}
use aodv_uu.Route.Invariant.{
  Inv, SameTable, SameTable-Inv, SameTable-view, view, rt_table_find-view,
}
use aodv_uu.Device.Index.{SameHost-Known}
use aodv_uu.Rreq.{rreq_size}
use aodv_uu.Rreq.Forward.{IsForwarded, Forwards, forward_rreq-Forwards}
use aodv_uu.Rreq.Ignore.{own_ipaddr_run, not_ignored}
use aodv_uu.Rreq.Process.{relay_rreq, usable_route, finish_rreq, rreq_process_plain, rreq_process}
use aodv_uu.Rreq.Answer.{IsReverse, dev_ifindex_run}

module _ (env : Env) (rreq : Buffer) (ip_ttl : ℕ) where
  relay_rreq-Forwards :
      (n : Node) (rev_rt : Option ℕ)
      → Inv n
      → view n (rreq 12) ≡ none
      → Known ns_ifindex n
      → (m : Node) × (relay_rreq env rreq rev_rt ip_ttl n ≡ some (tt, m))
        × Forwards env rreq ip_ttl n m
  unfolding relay_rreq usable_route
  relay_rreq-Forwards n rev_rt inv v known =
      rw (◌>>=◌, rt_table_find-view n (rreq 12) inv, v)
        (forward_rreq-Forwards env rreq ip_ttl (rreq 16) n known)

-- A RREQ for another node that is new to this one, which has a route neither to its originator nor to
-- its destination, in a well-formed table with room for the reverse route; `c` is the message with its cost.
pub record IsPassing (env : Env) (n : Node) (rreq : Buffer) (rreqlen ip_src ifindex dev : ℕ)
    (c : Costly) : Type 0 where
  pub inv : Inv n
  pub plain : rreq 1 ≢ aodv_rreq_lr
  pub device : ifindex2devindex ifindex n ≡ some dev
  pub foreign : rreq 20 ≢ (dev_nr dev n).ipaddr
  pub elsewhere : rreq 12 ≢ (dev_nr dev n).ipaddr
  pub ends : rreq 12 ≢ rreq 20
  pub complete : rreq_size ≤ rreqlen
  pub listed : rreq_blacklist_find ip_src n ≡ none
  pub costly : read_cost env rreq ip_src rreq_size rreqlen n ≡ some (c, n)
  pub unseen : rreq_record_find_less_cost env (rreq 20) (rreq 8) c.cost n ≡ none
  pub unrouted : view n (rreq 20) ≡ none
  pub unreachable : view n (rreq 12) ≡ none
  pub room : n.num_entries < 4294967295
  pub ready : Ready n

-- What leaves the node: packets that waited for a route to the originator, and copies.
abbrev pub Passes : Env → Node → Buffer → (rreq : Buffer) → (ip_ttl : ℕ) → Event → Type 0
Passes env n q rreq ip_ttl e = Waiting (rreq 20) n.pq.head e ⊎ IsForwarded env q ip_ttl e

-- What the request leaves.
abbrev pub Passed : Env → (n m : Node) → Buffer → (ip_src ip_ttl ifindex : ℕ) → Costly → Type 0
Passed env n m rreq ip_src ip_ttl ifindex c =
    (p : ℕ) × (rt : RtTable) × Inv m
    × (view m (rreq 20) ≡ some p)
    × (m.heap p ≡ some rt)
    × IsReverse rreq ip_src ifindex c.cost rt
    × ((d : ℕ) → d ≢ rreq 20 → view m d ≡ view n d)
    × Only (Passes env n c.message rreq ip_ttl) n m

Quiet-SameTable : {n m : Node} → Quiet n m → SameTable n m
Quiet-SameTable q = record {
  heap = q.heap;
  next_address = omega (arith, q.next_address);
  num_entries = q.num_entries;
  num_active = q.num_active;
  tbl = q.tbl;
}

-- The record is entered and the reverse route inserted, then the copies go out.
finish_rreq_passes :
    (env : Env) (n : Node) (rreq : Buffer) (rreqlen ip_src ip_ttl ifindex dev : ℕ) (c : Costly)
    → IsPassing env n rreq rreqlen ip_src ifindex dev c
    → (m : Node) × (finish_rreq env c ip_src ip_ttl ifindex (dev_nr dev n).ipaddr n ≡ some (tt, m))
      × Passed env n m rreq ip_src ip_ttl ifindex c
unfolding finish_rreq
finish_rreq_passes env n rreq rreqlen ip_src ip_ttl ifindex dev c a =
    let q = c.message in
    let same = (read_cost_keeps env rreq ip_src rreq_size rreqlen c n n a.costly).1 in
    let dest = same 12 (omega arith) in
    let (rec, n₁, n₂, p, rt, run₁, run₂, is) =
      enter_run env n rreq c ip_src ifindex dev a.inv a.ready same a.device a.foreign a.unrouted
        a.room in
    let nowhere : view n₂ (q 12) ≡ none =
      ap (view n₂) dest ∙ is.elsewhere (rreq 12) a.ends ∙ a.unreachable in
    let (m, run₃, f) =
      relay_rreq-Forwards env q ip_ttl n₂ (some p) is.inv nowhere
        (SameHost-Known ns_ifindex is.host a.ready.own) in
    let quiet = Quiet-SameTable f.quiet in
    (
      m,
      rw (◌>>=◌, run₁, run₂, ==_ne (q 12) (dev_nr dev n).ipaddr (λ e. a.elsewhere (sym dest ∙ e)))
          run₃,
      (
        p,
        rt,
        SameTable-Inv quiet is.inv,
        SameTable-view quiet (rreq 20) ∙ is.here,
        ap (λ h. h p) f.quiet.heap ∙ is.stored,
        is.reverse,
        λ d e. SameTable-view quiet d ∙ is.elsewhere d e,
        record {
          source = λ e i. elim (f.only.source e i) [
            | inl j ↦ elim (is.only.source e j) [ inl k ↦ inl k | inr w ↦ inr (inl w) ]
            | inr w ↦ inr (inr w)
          ];
        },
      ),
    )

-- A RREQ that does not ask for a repair arrives over a known interface at a node that is neither
-- its originator nor its destination. It is complete, comes over a neighbour that is not in the
-- blacklist, and its extensions are read without a fault. Its cost is then that of its last
-- extension with a cost with that of the link added, or log(MAX_NUM) if it has no such extension.
-- It is not recorded with a cost lower than that, and neither its originator nor its destination,
-- which differ, has a route in the well-formed table, which has room for one more and whose
-- interfaces are known, as is the agent's own. Then the handler returns, and whichever packets the
-- limit of the rate lets through, the table is well-formed and has a valid route to the originator
-- over the neighbour, with the hop count of the request raised by one (as a byte), the
-- originator's number from the request, and that cost; and other destinations are looked up as
-- before. All that leaves the node are packets that waited for the originator, and broadcast
-- copies of the request with its hop count one higher, its time to live one lower and its cost
-- with that of the link: none if the time to live was 1 or 0.
pub rreq_process_passes :
    (env : Env) (n : Node) (rreq : Buffer) (rreqlen ip_src ip_ttl ifindex dev : ℕ) (c : Costly)
    → IsPassing env n rreq rreqlen ip_src ifindex dev c
    → (m : Node) × (rreq_process env rreq rreqlen ip_src ip_ttl ifindex n ≡ some (tt, m))
      × Passed env n m rreq ip_src ip_ttl ifindex c
unfolding rreq_process rreq_process_plain
rreq_process_passes env n rreq rreqlen ip_src ip_ttl ifindex dev c a =
    let own = (dev_nr dev n).ipaddr in
    let (m, run, is) = finish_rreq_passes env n rreq rreqlen ip_src ip_ttl ifindex dev c a in
    (
      m,
      rw
          (
            ==_ne (rreq 1) aodv_rreq_lr a.plain,
            ◌>>=◌,
            own_ipaddr_run ifindex dev n (dev_ifindex_run ifindex dev n a.device),
            not_ignored rreq rreqlen ip_src own n a.foreign a.complete a.listed,
            a.costly,
            a.unseen,
          )
          run,
      is,
    )
