-- ===== src/Queue/Ready.antt =====
-- The interfaces of code/aodv-uu-0.96/ns-2/aodv-uu.h that the routes of a table name are known.
use aodv_uu.Prelude.{ℕ, some, ◌≡◌, sym, ap, ◌∙◌, subst, ℕ_discrete, arith}
use aodv_uu.State.{Node, RtTable}
use aodv_uu.Machine.{update_self, update_ne}
use aodv_uu.Device.{Known, ifindex2devindex, devindex_from}
use aodv_uu.Device.Index.{SameHost, SameHost-Known}
use aodv_uu.Link.{ns_ifindex}
use aodv_uu.Table.{hashing}
use aodv_uu.Route.Chain.{In}
use aodv_uu.Route.Invariant.{Linked, SameTable}
use aodv_uu.Route.Modify.{with_entry}

-- The agent's device is known, and so are the interfaces of all routes.
pub record Ready (n : Node) : Type 0 where
  pub own : Known ns_ifindex n
  pub routes : (q : ℕ) (rt : RtTable) → Linked n q rt → Known rt.ifindex n

-- The same table and devices.
pub SameTable-Ready : {n m : Node} → SameTable n m → SameHost n m → Ready n → Ready m
SameTable-Ready t h ready = record {
  own = SameHost-Known ns_ifindex h ready.own;
  routes = λ q rt l. SameHost-Known rt.ifindex h (
      ready.routes q rt (record {
        stored = ap (λ f. f q) (sym t.heap) ∙ l.stored;
        member = subst (In q) (ap (λ f. f (hashing rt.dest_addr)) t.tbl) l.member;
      }));
}

-- An entry is written that keeps its destination and its interface.
pub with_entry-Ready :
    (n : Node) (p : ℕ) (old : RtTable)
    → Linked n p old
    → (new : RtTable) (active : ℕ) → new.dest_addr ≡ old.dest_addr
    → new.ifindex ≡ old.ifindex
    → Ready n
    → Ready (with_entry p new active n)
unfolding ifindex2devindex
with_entry-Ready n p old l new active to at ready = record {
  own = ready.own;
  routes = λ q r k. elim (ℕ_discrete q p) [
    | yes e ↦
        let same : r ≡ new = ground (
          arith,
          k.stored,
          ap (λ x. (with_entry p new active n).heap x) e,
          update_self n.heap p (some new),
        ) in
        let (i, f) = ready.routes p old l in
        (
          i,
          ap (λ x. devindex_from n.this_host.nif 0 x.ifindex n.dev_indices) same
              ∙ ap (λ x. devindex_from n.this_host.nif 0 x n.dev_indices) at
              ∙ f,
        )
    | no e ↦
        ready.routes q r (record {
          stored = sym (update_ne n.heap q p (some new) e) ∙ k.stored;
          member = k.member;
        })
  ];
}
