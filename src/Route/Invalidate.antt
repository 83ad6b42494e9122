-- ===== src/Route/Invalidate.antt =====
-- `rt_table_invalidate` on a well-formed table.
use aodv_uu.Prelude.{ℕ, ◌+◌, ◌≤◌, true, false, some, ◌≡◌, refl, ap, ◌∙◌, arith, pos, negsuc}
use aodv_uu.Word.{dec32, has_flag}
use aodv_uu.Params.{rt_repair}
use aodv_uu.Seqno.{seqno_incr}
use aodv_uu.State.{Handler, RtTable, Node, is_valid, valid, invalid}
use aodv_uu.Machine.{◌>>=◌, ◌>>◌, get_rt, modify_rt, Env, TimerLaws}
use aodv_uu.Route.Change.{rt_table_invalidate, invalidated}
use aodv_uu.Route.Invariant.{Inv, Linked, view, Inv-active-le}
use aodv_uu.Route.Modify.{active-le, with_entry, with_entry-Inv, with_entry-view, with_entry-Linked}

module _ (env : Env) (n : Node) (p : ℕ) (rt : RtTable) where
  invalidated_run :
      n.heap p ≡ some rt
      → rt.state ≡ valid
      → rt_table_invalidate env (some p) n
        ≡ some (pos 0, with_entry p (invalidated env n.now rt) (dec32 n.num_active) n)
  unfolding rt_table_invalidate
  invalidated_run e v = rw (◌>>=◌, ◌>>◌, get_rt, e, ap is_valid v, modify_rt, e)

  -- The pointer names a valid entry of a well-formed table. The call returns 0; the table stays
  -- well-formed, has one active entry less, and reads as before under every destination; and the entry
  -- is the invalidated one.
  pub rt_table_invalidate-Inv :
      Inv n
      → Linked n p rt
      → rt.state ≡ valid
      → (m : Node) × (rt_table_invalidate env (some p) n ≡ some (pos 0, m))
        × Inv m
        × (m.num_active + 1 ≡ n.num_active)
        × Linked m p (invalidated env n.now rt)
        × ((d : ℕ) → view m d ≡ view n d)
  rt_table_invalidate-Inv inv l v =
      let new = invalidated env n.now rt in
      let active = dec32 n.num_active in
      let one : 1 ≤ n.num_active = ground (arith, active-le n p rt inv l, v) in
      let less : active + 1 ≡ n.num_active = omega (arith, one, Inv-active-le n inv, inv.bounded) in
      let to : new.dest_addr ≡ rt.dest_addr = unfold invalidated in refl in
      let hash : new.hash ≡ rt.hash = unfold invalidated in refl in
      (
        with_entry p new active n,
        invalidated_run l.stored v,
        with_entry-Inv n p rt inv l new active to hash
            (unfold invalidated in ground (arith, less, v)),
        less,
        with_entry-Linked n p rt inv l new active to hash,
        with_entry-view n p rt inv l new active to hash,
      )

  -- An entry that is invalid already is left alone, and the result is -1.
  pub rt_table_invalidate_again :
      n.heap p ≡ some rt
      → rt.state ≡ invalid
      → rt_table_invalidate env (some p) n ≡ some (negsuc 0, n)
  unfolding rt_table_invalidate
  rt_table_invalidate_again e v = rw (◌>>=◌, get_rt, e, ap is_valid v)

-- The entry after an invalidation, by its fields.
pub record IsInvalidated (env : Env) (now : ℕ) (old new : RtTable) : Type 0 where
  pub state : new.state ≡ invalid
  pub dest_seqno : new.dest_seqno ≡ seqno_incr old.dest_seqno
  pub hello : new.hello_timer.used ≡ false
  pub ack : new.ack_timer.used ≡ false
  pub running : new.rt_timer.used ≡ true
  pub repair :
      has_flag old.flags rt_repair ≡ true
      → (new.rt_timer.handler ≡ Handler.local_repair)
        × (new.rt_timer.timeout ≡ now + env.active_route_timeout)
  pub delete :
      has_flag old.flags rt_repair ≡ false
      → (new.rt_timer.handler ≡ Handler.route_delete)
        × (new.rt_timer.timeout ≡ now + env.delete_period)

-- The timers behave as documented. Then an invalidated entry is invalid, its sequence number was
-- incremented, no timer runs but its own, and that one runs for ACTIVE_ROUTE_TIMEOUT to the end of the
-- repair if the route is in repair, and otherwise for DELETE_PERIOD to its deletion.
pub invalidated-IsInvalidated :
    (env : Env) (now : ℕ) (rt : RtTable)
    → TimerLaws env
    → IsInvalidated env now rt (invalidated env now rt)
unfolding invalidated
invalidated-IsInvalidated env now rt laws = record {
  state = refl;
  dest_seqno = refl;
  hello = laws.remove_used rt.hello_timer;
  ack = laws.remove_used rt.ack_timer;
  running = laws.set_used now _ _;
  repair = λ e. rw e (laws.set_handler now _ _, laws.set_timeout now _ _ ∙ laws.add_msec now _);
  delete = λ e. rw e (laws.set_handler now _ _, laws.set_timeout now _ _ ∙ laws.add_msec now _);
}
