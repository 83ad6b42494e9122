-- ===== src/Route/Update.antt =====
-- `rt_table_update_timeout` and `rt_table_update` on a well-formed table.
use aodv_uu.Prelude.{
  ℕ, suc, ◌+◌, ◌≤◌, ◌⊎◌, subst, false, ◌&&◌, some, ◌≡◌, refl, sym, ap, ◌∙◌, arith, ltb, ◌==◌,
  if◌then◌else◌, Bool-cases, inl, inr,
}
use aodv_uu.Word.{u8, has_flag}
use aodv_uu.Params.{rt_inet_dest}
use aodv_uu.State.{RtTable, Node, Handler, is_valid, valid, invalid}
use aodv_uu.Machine.{update, ◌>>◌, Env, TimerLaws}
use aodv_uu.Table.{rt_table_update_timeout}
use aodv_uu.Route.Chain.{valid_entry}
use aodv_uu.Route.Change.{rt_table_update, revived_flags}
use aodv_uu.Device.Index.{SameHost}
use aodv_uu.Link.Leaves.{Among, Only}
use aodv_uu.Queue.Ready.{Ready, with_entry-Ready}
use aodv_uu.Queue.Waiting.{Waiting}
use aodv_uu.Route.Release.{sought, release-IsReleased}
use aodv_uu.Table.Timed.{timed, timed_run, Later, Later-rest, Later-timer}
use aodv_uu.Route.Invariant.{Inv, Linked, view, Inv-active-le}
use aodv_uu.Route.Modify.{with_entry, with_entry-Inv, with_entry-view, with_entry-Linked, active-lt}
use aodv_uu.Route.Updated.{finished, updated, settled, recounted, updated_run}

-- What an update to a valid route makes of an entry. The old state decides what becomes of the repair
-- flag and of the timeout: that of a valid route is never moved forward.
pub record IsUpdated (env : Env) (now next hops seqno lifetime new_flags : ℕ) (old new : RtTable)
    : Type 0 where
  pub next_hop : new.next_hop ≡ next
  pub hcnt : new.hcnt ≡ u8 hops
  pub dest_seqno : new.dest_seqno ≡ seqno
  pub state : new.state ≡ valid
  pub flags : new.flags ≡ revived_flags old valid new_flags
  pub handler : new.rt_timer.handler ≡ Handler.route_expire
  pub precursors : new.precursors ≡ old.precursors
  pub dest_addr : new.dest_addr ≡ old.dest_addr
  pub hash : new.hash ≡ old.hash
  pub ifindex : new.ifindex ≡ old.ifindex
  pub kept : old.state ≡ valid → old.rt_timer.timeout ≤ new.rt_timer.timeout
  pub later :
      has_flag new.flags rt_inet_dest ≡ false
      → old.state ≡ valid
      → now + lifetime ≤ new.rt_timer.timeout
  pub restarted :
      has_flag new.flags rt_inet_dest ≡ false
      → old.state ≡ invalid
      → now + lifetime ≤ new.rt_timer.timeout

module _ (env : Env) (laws : TimerLaws env) where
  -- The timers behave as documented. The entry that a pointer names gets a timeout at the given
  -- lifetime from now on; the one that a valid entry has stays, if it is not earlier. Nothing else
  -- of the entry but its timer changes, and no other entry does.
  pub rt_table_update_timeout-later :
      (n : Node) (p lifetime : ℕ) (rt : RtTable)
      → n.heap p ≡ some rt
      → (new : RtTable) × (rt_table_update_timeout env (some p) lifetime n
          ≡ some (some p, record n { heap = update n.heap p (some new) }))
        × (new ≡ record rt { rt_timer = new.rt_timer })
        × (new.rt_timer.handler ≡ rt.rt_timer.handler)
        × (new.rt_timer.timeout ≡ (
            if is_valid rt.state && ltb (n.now + lifetime) (suc rt.rt_timer.timeout)
            then rt.rt_timer.timeout
            else n.now + lifetime))
  unfolding timed
  rt_table_update_timeout-later n p lifetime rt e = (
    timed env n.now lifetime rt,
    timed_run env n p lifetime rt e,
    ground arith,
    ground (arith, laws.set_handler n.now lifetime rt.rt_timer),
    ground (
      arith,
      laws.set_timeout n.now lifetime rt.rt_timer,
      laws.add_msec n.now lifetime,
      laws.diff_lt rt.rt_timer.timeout (n.now + lifetime) 0,
    ),
  )

  -- A timer that `timed` has been asked to set to the given lifetime.
  timed_later :
      (now lifetime : ℕ) (rt : RtTable)
      → (rt.state ≡ valid
          → (rt.rt_timer.timeout ≤ (timed env now lifetime rt).rt_timer.timeout)
            × (now + lifetime ≤ (timed env now lifetime rt).rt_timer.timeout))
        × (rt.state ≡ invalid → (timed env now lifetime rt).rt_timer.timeout ≡ now + lifetime)
        × ((timed env now lifetime rt).rt_timer.handler ≡ rt.rt_timer.handler)
        × (timed env now lifetime rt
            ≡ record rt { rt_timer = (timed env now lifetime rt).rt_timer })
  unfolding timed
  timed_later now lifetime rt =
      let t = laws.set_timeout now lifetime rt.rt_timer in
      let a = laws.add_msec now lifetime in
      let d = laws.diff_lt rt.rt_timer.timeout (now + lifetime) 0 in
      let h = laws.set_handler now lifetime rt.rt_timer in
      (
        λ v. ground (arith, t, a, d, v),
        λ v. ground (arith, t, a, d, v),
        ground (arith, h),
        ground arith,
      )

  updated-IsUpdated :
      (now next hops seqno lifetime flags : ℕ) (rt : RtTable)
      → IsUpdated env now next hops seqno lifetime flags rt
          (updated env now next hops seqno lifetime valid flags rt)
  unfolding updated finished
  updated-IsUpdated now next hops seqno lifetime flags rt =
      let r : RtTable = record rt {
        flags = revived_flags rt valid flags;
        dest_seqno = seqno;
        next_hop = next;
        hcnt = u8 hops;
        rt_timer = record (rt.rt_timer) { handler = Handler.route_expire };
      } in
      let (later, restarted, handler, same) = timed_later now lifetime r in
      elim (Bool-cases (has_flag r.flags rt_inet_dest)) [
        | inl t ↦ rw t (record {
          next_hop = refl;
          hcnt = refl;
          dest_seqno = refl;
          state = refl;
          flags = refl;
          handler = refl;
          precursors = refl;
          dest_addr = refl;
          hash = refl;
          ifindex = refl;
          kept = λ v. omega arith;
          later = λ f. ground (arith, t, f);
          restarted = λ f. ground (arith, t, f);
        })
        | inr t ↦ rw t (record {
          next_hop = ap RtTable.next_hop same;
          hcnt = ap RtTable.hcnt same;
          dest_seqno = ap RtTable.dest_seqno same;
          state = refl;
          flags = ap RtTable.flags same;
          handler = handler;
          precursors = ap RtTable.precursors same;
          dest_addr = ap RtTable.dest_addr same;
          hash = ap RtTable.hash same;
          ifindex = ap RtTable.ifindex same;
          kept = λ v. (later v).0;
          later = λ f v. (later v).1;
          restarted = λ f v. let e = restarted v in omega arith;
        })
      ]

  -- Later timeouts of the updated entry leave it updated.
  IsUpdated-Later :
      {now next hops seqno lifetime flags again : ℕ} {old new after : RtTable}
      → IsUpdated env now next hops seqno lifetime flags old new
      → Later env now again new after
      → IsUpdated env now next hops seqno lifetime flags old after
  IsUpdated-Later is later =
      let rest = Later-rest env later in
      let (handler, to) = Later-timer env laws later in
      let l = to is.state in
      record {
        next_hop = ap RtTable.next_hop rest ∙ is.next_hop;
        hcnt = ap RtTable.hcnt rest ∙ is.hcnt;
        dest_seqno = ap RtTable.dest_seqno rest ∙ is.dest_seqno;
        state = ap RtTable.state rest ∙ is.state;
        flags = ap RtTable.flags rest ∙ is.flags;
        handler = handler ∙ is.handler;
        precursors = ap RtTable.precursors rest ∙ is.precursors;
        dest_addr = ap RtTable.dest_addr rest ∙ is.dest_addr;
        hash = ap RtTable.hash rest ∙ is.hash;
        ifindex = ap RtTable.ifindex rest ∙ is.ifindex;
        kept = λ v. let a = is.kept v in omega arith;
        later = λ f v.
            let a = is.later (sym (ap (λ r. has_flag r.flags rt_inet_dest) rest) ∙ f) v in
            omega arith;
        restarted = λ f v.
            let a = is.restarted (sym (ap (λ r. has_flag r.flags rt_inet_dest) rest) ∙ f) v in
            omega arith;
      }

  counted :
      (n : Node) (p : ℕ) (rt new : RtTable)
      → Inv n
      → Linked n p rt
      → new.state ≡ valid
      → recounted env rt valid n.num_active + valid_entry (some rt) ≡ n.num_active + 1
  unfolding recounted
  counted n p rt new inv l v =
      ground (arith, v, inv.bounded, Inv-active-le n inv, active-lt n p rt inv l new)

  -- The timers behave as documented, the pointer names an entry of a well-formed table whose
  -- interfaces are known, the state given is valid, and the entry does not stop being a neighbour
  -- (from one hop to more). The call returns the pointer; the entry is the updated one. If the route was
  -- valid, its timeout is not earlier than before; if the new flags do not have RT_INET_DEST, it is
  -- not earlier than the lifetime from now on, whatever the old state. The table stays well-formed, counts the entry as
  -- active exactly once, and every destination is looked up as before. All that leaves the node are
  -- packets that waited for the destination, and none does if it was not sought.
  pub rt_table_update-Inv :
      (n : Node) (p next hops seqno lifetime flags : ℕ) (rt : RtTable)
      → Inv n
      → Ready n
      → Linked n p rt
      → (ltb 1 (u8 hops) && rt.hcnt == 1) ≡ false
      → (m : Node) × (new : RtTable) × (rt_table_update env p next hops seqno lifetime valid flags n
          ≡ some (p, m))
        × Inv m
        × Linked m p new
        × IsUpdated env n.now next hops seqno lifetime flags rt new
        × (m.num_active + valid_entry (some rt) ≡ n.num_active + 1)
        × ((d : ℕ) → view m d ≡ view n d)
        × SameHost n m
        × Only (Waiting rt.dest_addr n.pq.head) n m
        × (sought env n rt.dest_addr ≡ false → m.events ≡ n.events)
  unfolding settled
  rt_table_update-Inv n p next hops seqno lifetime flags rt inv ready l k =
      let new = updated env n.now next hops seqno lifetime valid flags rt in
      let is = updated-IsUpdated n.now next hops seqno lifetime flags rt in
      let active = recounted env rt valid n.num_active in
      let count : active + valid_entry (some rt) ≡ n.num_active + 1 =
        counted n p rt new inv l is.state in
      let m₀ : Node = with_entry p new active n in
      let inv₀ =
        with_entry-Inv n p rt inv l new active is.dest_addr is.hash
          (count ∙ ap (λ v. n.num_active + (if is_valid v then 1 else 0)) (sym is.state)) in
      let ready₀ = with_entry-Ready n p rt l new active is.dest_addr is.ifindex ready in
      let l₀ = with_entry-Linked n p rt inv l new active is.dest_addr is.hash in
      let (m, run, r) = release-IsReleased env new m₀ inv₀ ready₀ in
      let (after, l', later) = r.refreshed.linked p new l₀ in
      (
        m,
        after,
        updated_run env n p next hops seqno lifetime valid flags rt l.stored k
            ∙ rw (◌>>◌, run) refl,
        r.refreshed.inv,
        l',
        IsUpdated-Later is later,
        ap (λ a. a + valid_entry (some rt)) r.refreshed.num_active ∙ count,
        λ d. r.refreshed.lookup d ∙ with_entry-view n p rt inv l new active is.dest_addr is.hash d,
        record {
          this_host = r.refreshed.host.this_host;
          dev_indices = r.refreshed.host.dev_indices;
          wait_on_reboot = r.refreshed.host.wait_on_reboot;
        },
        record {
          source = λ e i.
              subst (λ x. (Among e n.events) ⊎ Waiting x n.pq.head e) is.dest_addr
                (r.only.source e i);
        },
        λ q. r.quiet (ap (sought env n) is.dest_addr ∙ q),
      )
