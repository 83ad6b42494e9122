-- ===== src/Route/Modify.antt =====
-- A change of one entry of a well-formed table, in place.
use aodv_uu.Prelude.{
  ℕ, ◌+◌, ◌≤◌, ◌<◌, Option, none, some, ◌≡◌, ◌≢◌, refl, sym, ap, ◌∙◌, arith, total, total_change,
}
use aodv_uu.State.{RtTable, Node}
use aodv_uu.Machine.{update, update_self, update_ne}
use aodv_uu.Table.{hashing}
use aodv_uu.Route.Chain.{
  NotIn, valid_entry, active_in, NotIn-other, Chain-update_same, active_in-update_other,
  active_in-update_self, lookup_in-update_same,
}
use aodv_uu.Route.Invariant.{Inv, Linked, view, active_at, active_at-le, hashing-lt}

abbrev pub with_entry : ℕ → RtTable → ℕ → Node → Node
with_entry p new active n = record n { heap = update n.heap p (some new); num_active = active }

-- An entry that does not hang in bucket `j` is not in it.
pub Linked-NotIn :
    (n : Node) (p : ℕ) (rt : RtTable)
    → Inv n
    → Linked n p rt
    → (j : ℕ) → j < 64
    → j ≢ hashing rt.dest_addr
    → NotIn p (n.tbl j)
Linked-NotIn n p rt inv l j lt e =
    NotIn-other n.heap j p (n.tbl j) rt l.stored (λ s. e (sym s)) (inv.chains j lt)

pub Linked-old : (n : Node) (p : ℕ) (rt : RtTable) → Inv n → Linked n p rt → p < n.next_address
Linked-old n p rt inv l = grind (arith, inv.fresh p, l.stored)

module _ (n : Node) (p : ℕ) (old : RtTable) (inv : Inv n) (l : Linked n p old) where
  -- The counts of all buckets together change by the one entry.
  pub active-change :
      (v : Option RtTable) (m : Node)
      → m.tbl ≡ n.tbl
      → m.heap ≡ update n.heap p v
      → total (active_at m) 64 + valid_entry (some old) ≡ total (active_at n) 64 + valid_entry v
  active-change v m same h =
      let i = hashing old.dest_addr in
      let there =
        λ (j : ℕ). ap (λ t. active_in m.heap (t j)) same ∙ ap (λ g. active_in g (n.tbl j)) h in
      let here =
        active_in-update_self n.heap i p old old l.stored (n.tbl i) v l.member
          (inv.chains i (hashing-lt old.dest_addr)) in
      omega (
        arith,
        there i,
        here,
        total_change (active_at n) (active_at m) 64 i (hashing-lt old.dest_addr) (λ j lt e. sym (
            there j
            ∙ active_in-update_other n.heap j p (n.tbl j) v (Linked-NotIn n p old inv l j lt e))),
      )

  -- The entry is one of the active ones, if it is valid.
  pub active-le : valid_entry (some old) ≤ n.num_active
  active-le =
      omega
        (arith, inv.active, active-change none (record n { heap = update n.heap p none }) refl refl)

  -- An invalid entry is not one of the active ones.
  pub active-lt :
      (new : RtTable)
      → valid_entry (some new) ≡ valid_entry (some old) + 1
      → n.num_active < n.num_entries
  active-lt new v =
      let m : Node = record n { heap = update n.heap p (some new) } in
      omega
        (arith, v, inv.active, inv.entries, active_at-le m, active-change (some new) m refl refl)

  module _ (new : RtTable) (active : ℕ) (to : new.dest_addr ≡ old.dest_addr)
      (hash : new.hash ≡ old.hash) where
    pub with_entry-Inv :
        active + valid_entry (some old) ≡ n.num_active + valid_entry (some new)
        → Inv (with_entry p new active n)
    with_entry-Inv count = record {
      fresh = λ q le.
          rw (update_ne n.heap q p (some new) (omega (arith, Linked-old n p old inv l)))
            (inv.fresh q le);
      chains =
          λ i lt. Chain-update_same n.heap i p old new l.stored (n.tbl i) to hash (inv.chains i lt);
      entries = inv.entries;
      active = omega (
        arith,
        count,
        inv.active,
        active-change (some new) (with_entry p new active n) refl refl,
      );
      bounded = inv.bounded;
    }

    pub with_entry-view : (d : ℕ) → view (with_entry p new active n) d ≡ view n d
    with_entry-view d =
        lookup_in-update_same n.heap (hashing d) p old new l.stored (n.tbl (hashing d)) d to

    pub with_entry-Linked : Linked (with_entry p new active n) p new
    with_entry-Linked = record { stored = update_self n.heap p (some new); member = rw to l.member }
