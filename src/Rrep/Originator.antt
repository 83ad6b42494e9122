-- ===== src/Rrep/Originator.antt =====
-- `rrep_process` of code/aodv-uu-0.96/aodv_rrep.c at the node that asked for a route.
use aodv_uu.Prelude.{ℕ, ◌+◌, ◌≤◌, ◌<◌, false, none, some, ◌≡◌, ◌≢◌, ◌⊎◌}
use aodv_uu.Word.{u8, has_flag}
use aodv_uu.State.{Buffer, Node, RtTable, valid}
use aodv_uu.Machine.{Env}
use aodv_uu.Device.{ifindex2devindex, dev_nr}
use aodv_uu.Fresh.{Costly, read_cost}
use aodv_uu.Route.Invariant.{Inv, view}
use aodv_uu.Route.Insert.{Inserted}
use aodv_uu.Queue.Ready.{Ready}
use aodv_uu.Queue.Waiting.{Waiting}
use aodv_uu.Rrep.{rrep_size}

-- A RREP that goes no further, about a destination to which the node has no route: it answers a
-- request of this node, or the route back is unknown.
pub record IsReplied (env : Env) (n : Node) (rrep : Buffer) (rreplen ip_src ifindex dev : ℕ)
    (c : Costly) : Type 0 where
  pub inv : Inv n
  pub plain : has_flag (rrep 2) 32 ≡ false
  pub quiet : has_flag (rrep 2) 64 ≡ false
  pub device : ifindex2devindex ifindex n ≡ some dev
  pub last : (rrep 16 ≡ (dev_nr dev n).ipaddr) ⊎ (view n (rrep 16) ≡ none)
  pub foreign : rrep 8 ≢ (dev_nr dev n).ipaddr
  pub complete : rrep_size ≤ rreplen
  pub costly : read_cost env rrep ip_src rrep_size rreplen n ≡ some (c, n)
  pub unrouted : view n (rrep 8) ≡ none
  pub room : n.num_entries < 4294967295
  pub ready : Ready n

-- The route to the destination.
pub record IsForward (rrep : Buffer) (ip_src ifindex cost : ℕ) (rt : RtTable) : Type 0 where
  pub dest_addr : rt.dest_addr ≡ rrep 8
  pub next_hop : rt.next_hop ≡ ip_src
  pub state : rt.state ≡ valid
  pub hcnt : rt.hcnt ≡ u8 (rrep 4 + 1)
  pub dest_seqno : rt.dest_seqno ≡ rrep 12
  pub rt_cost : rt.cost ≡ cost
  pub interface : rt.ifindex ≡ ifindex

-- The route is inserted.
record IsRouted (env : Env) (n m : Node) (c : Costly) (ip_src ifindex : ℕ) (rt : RtTable)
    : Type 0 where
  inserted : Inserted env n m (c.message 8) n.next_address
  stored : m.heap n.next_address ≡ some rt
  forward : IsForward c.message ip_src ifindex c.cost rt
