-- ===== src/Route/History.antt =====
-- Histories of the routing table: the calls that change it, one after the other.
use aodv_uu.Prelude.{
  subst, ℕ, ◌<◌, ◌&&◌, ltb, false, true, Option, none, some, ◌≡◌, refl, ℤ, ◌==◌, ◌≢◌, arith, total,
}
use aodv_uu.Params.{rt_tablesize}
use aodv_uu.Word.{u8}
use aodv_uu.State.{RtTable, RtState, Node, valid}
use aodv_uu.Machine.{Env}
use aodv_uu.Device.{ifindex2devindex, dev_nr, Known}
use aodv_uu.Link.{ns_ifindex}
use aodv_uu.Queue.Ready.{Ready}
use aodv_uu.Route.{rt_table_init, rt_table_insert, rt_table_insert_with_channel}
use aodv_uu.Route.Change.{
  rt_table_update, rt_table_update_with_channel, rt_table_invalidate, rt_table_delete,
  rt_table_destroy,
}
use aodv_uu.Route.Chain.{active_in}
use aodv_uu.Route.Invariant.{Inv, Linked, SameTable, view}
use aodv_uu.Route.Modify.{with_entry}
use aodv_uu.Precursor.Laws.{IsCounted}
use aodv_uu.Timeout.{route_expire_timeout, local_repair_timeout}

-- One call that changes the table, on an entry that is in the table, or something else that leaves the
-- table alone. The conditions are those under which the code makes the call.
pub data TableStep (env : Env) : Node → Node → Type 0 where
  insert :
      (n m : Node) (dest_addr next hops seqno life : ℕ) (state : RtState) (flags ifindex : ℕ)
      (result : Option ℕ)
      → Ready n
      → Known ifindex n
      → n.num_entries < 4294967295
      → rt_table_insert env dest_addr next hops seqno life state flags ifindex n ≡ some (result, m)
      → TableStep env n m
  insert_with_channel :
      (n m : Node) (dest_addr next hops seqno life : ℕ) (state : RtState) (flags ifindex : ℕ)
      (channel : ℤ) (cost dev : ℕ) (result : Option ℕ)
      → Ready n
      → n.num_entries < 4294967295
      → view n dest_addr ≡ none
      → ifindex2devindex ifindex n ≡ some dev
      → dest_addr ≢ (dev_nr dev n).ipaddr
      → rt_table_insert_with_channel env dest_addr next hops seqno life state flags ifindex channel
          cost n
        ≡ some (result, m)
      → TableStep env n m
  update :
      (n m : Node) (p next hops seqno lifetime flags : ℕ) (rt : RtTable) (result : ℕ)
      → Ready n
      → Linked n p rt
      → (ltb 1 (u8 hops) && rt.hcnt == 1) ≡ false
      → rt_table_update env p next hops seqno lifetime valid flags n ≡ some (result, m)
      → TableStep env n m
  update_with_channel :
      (n m : Node) (p next hops seqno lifetime flags : ℕ) (channel : ℤ) (cost : ℕ) (rt : RtTable)
      (result : ℕ)
      → Ready n
      → Linked n p rt
      → (ltb 1 (u8 hops) && rt.hcnt == 1) ≡ false
      → rt_table_update_with_channel env p next hops seqno lifetime valid flags channel cost n
        ≡ some (result, m)
      → TableStep env n m
  invalidate :
      (n m : Node) (p : ℕ) (rt : RtTable) (result : ℤ)
      → Linked n p rt
      → rt.state ≡ valid
      → rt_table_invalidate env (some p) n ≡ some (result, m)
      → TableStep env n m
  expire :
      (n m : Node) (p : ℕ) (rt : RtTable)
      → Linked n p rt
      → rt.state ≡ valid
      → rt.hcnt ≢ 1
      → route_expire_timeout env (some p) n ≡ some (tt, m)
      → TableStep env n m
  delete :
      (n m : Node) (p : ℕ) (rt : RtTable)
      → Linked n p rt
      → rt_table_delete env (some p) n ≡ some (tt, m)
      → TableStep env n m
  destroy : (n m : Node) → rt_table_destroy env n ≡ some (tt, m) → TableStep env n m
  local_repair :
      (n m : Node) (p dev : ℕ) (rt : RtTable)
      → Linked n p rt
      → IsCounted rt
      → ifindex2devindex rt.ifindex n ≡ some dev
      → Known ns_ifindex n
      → local_repair_timeout env (some p) n ≡ some (tt, m)
      → TableStep env n m
  write :
      (n : Node) (p : ℕ) (rt new : RtTable)
      → Linked n p rt
      → new.dest_addr ≡ rt.dest_addr
      → new.hash ≡ rt.hash
      → new.state ≡ rt.state
      → TableStep env n (with_entry p new n.num_active n)
  aside : (n m : Node) → SameTable n m → TableStep env n m

pub data History (env : Env) (n : Node) : Node → Type 0 where
  start : History env n n
  next : {m k : Node} → History env n m → TableStep env m k → History env n k

-- A call returns one state only.
same_run :
    {A : Type 0} {o : Option (A × Node)} {a b : A} {m k : Node}
    → o ≡ some (a, m)
    → o ≡ some (b, k)
    → m ≡ k
same_run e f = ground (arith, e, f)

-- `rt_table_init` makes a well-formed table, where nothing was allocated yet.
pub rt_table_init-Inv :
    (n m : Node) → ((p : ℕ) → n.heap p ≡ none) → rt_table_init n ≡ some (tt, m) → Inv m
unfolding rt_table_init total active_in
rt_table_init-Inv n m free e = subst Inv (same_run refl e) (record {
  fresh = λ p l. free p;
  chains = λ i l. let low : ltb i rt_tablesize ≡ true = ground (arith, l) in rw low tt;
  entries = refl;
  active = refl;
  bounded = omega arith;
})
