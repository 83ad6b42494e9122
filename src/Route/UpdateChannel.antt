-- ===== src/Route/UpdateChannel.antt =====
-- `rt_table_update_with_channel` of code/aodv-uu-0.96/routing_table.c, as an update without a channel.
use aodv_uu.Prelude.{ℕ, ◌&&◌, false, some, ◌≡◌, refl, sym, ap, ◌∙◌, ℤ, ltb, ◌==◌}
use aodv_uu.Word.{u8}
use aodv_uu.State.{RtTable, RtState, Node, valid}
use aodv_uu.Machine.{
  update, update_self, get_rt_run, modify_rt_run, then_run, Env, TimerLaws, ◌>>◌, ret,
}
use aodv_uu.Queue.Ready.{Ready, with_entry-Ready}
use aodv_uu.Route.Change.{
  rt_table_update, rt_table_update_with_channel, before_update, revived_flags,
}
use aodv_uu.Route.Updated.{
  finished, updated, settled-settled, finished_run, recounted, before_run, updated_run,
}
use aodv_uu.Route.Update.{rt_table_update-Inv}
use aodv_uu.Route.Invariant.{Inv, Linked}
use aodv_uu.Route.Modify.{with_entry, with_entry-Inv, with_entry-Linked}

-- The entry on another channel, with another cost.
abbrev pub on_channel : ℤ → ℕ → RtTable → RtTable
on_channel channel cost rt = record rt { channel = channel; cost = cost }

-- The entry stays a neighbour, if it is one. Then an update with a channel and a cost is the same as
-- writing these two into the entry and updating it without them, from the result to the whole
-- state and the packets that leave the node.
pub rt_table_update_with_channel-update :
    (env : Env) (n : Node) (p next hops seqno lifetime : ℕ) (state : RtState) (flags : ℕ)
    (channel : ℤ) (cost : ℕ) (rt : RtTable)
    → n.heap p ≡ some rt
    → (ltb 1 (u8 hops) && rt.hcnt == 1) ≡ false
    → rt_table_update_with_channel env p next hops seqno lifetime state flags channel cost n
      ≡ rt_table_update env p next hops seqno lifetime state flags
          (record n { heap = update n.heap p (some (on_channel channel cost rt)) })
unfolding rt_table_update_with_channel updated recounted revived_flags
rt_table_update_with_channel-update env n p next hops seqno lifetime state flags channel cost rt e
      k =
    let n₁ : Node = record n { num_active = recounted env rt state n.num_active } in
    let r₀ = on_channel channel cost rt in
    let n₀ : Node = record n { heap = update n.heap p (some r₀) } in
    let r : RtTable = record r₀ {
      flags = revived_flags rt state flags;
      dest_seqno = seqno;
      next_hop = next;
      hcnt = u8 hops;
    } in
    let n₂ : Node = record n₁ { heap = update n.heap p (some r) } in
    rw
      (
        get_rt_run p _ n rt e,
        then_run (before_update env p hops state) _ n n₁ (before_run env n p hops state rt e k),
        modify_rt_run p _ _ n₁ rt e,
      )
      (ap (λ o. ((λ _. o) >> ret p) n)
          (finished_run env n₂ p lifetime state r (update_self n.heap p (some r))
            ∙ settled-settled env n₁ p r (finished env n.now lifetime state r)
            ∙ sym (settled-settled env n₁ p r₀ (finished env n.now lifetime state r)))
        ∙ sym (
            updated_run env n₀ p next hops seqno lifetime state flags r₀
              (update_self n.heap p (some r₀)) k))

-- The pointer names an entry of a well-formed table whose interfaces are known, and the entry does
-- not stop being a neighbour. An update to a valid route with a channel leaves a well-formed table.
pub rt_table_update_with_channel-Inv :
    (env : Env) (n : Node) (p next hops seqno lifetime flags : ℕ) (channel : ℤ) (cost : ℕ)
    (rt : RtTable)
    → TimerLaws env
    → Inv n
    → Ready n
    → Linked n p rt
    → (ltb 1 (u8 hops) && rt.hcnt == 1) ≡ false
    → (m : Node) × (rt_table_update_with_channel env p next hops seqno lifetime valid flags channel
          cost n
        ≡ some (p, m))
      × Inv m
rt_table_update_with_channel-Inv env n p next hops seqno lifetime flags channel cost rt laws inv
      ready l k =
    let r₀ = on_channel channel cost rt in
    let inv₀ = with_entry-Inv n p rt inv l r₀ n.num_active refl refl refl in
    let (m, new, run, inv', _, _, _, _, _, _, _) =
      rt_table_update-Inv env laws (with_entry p r₀ n.num_active n) p next hops seqno lifetime flags
        r₀ inv₀ (with_entry-Ready n p rt l r₀ n.num_active refl refl ready)
        (with_entry-Linked n p rt inv l r₀ n.num_active refl refl) k in
    (
      m,
      rt_table_update_with_channel-update env n p next hops seqno lifetime valid flags channel cost
            rt l.stored k
          ∙ run,
      inv',
    )
