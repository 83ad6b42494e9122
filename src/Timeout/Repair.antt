-- ===== src/Timeout/Repair.antt =====
-- `local_repair_timeout` on a well-formed table.
use aodv_uu.Prelude.{
  ℕ, ◌+◌, not, ◌==◌, true, false, List, [], ◌∷◌, some, ◌≡◌, refl, sym, subst, ◌∙◌, arith,
  Bool-cases, inl, inr, length,
}
use aodv_uu.Word.{clear_flag, has_flag}
use aodv_uu.Params.{rt_repair, aodv_rerr}
use aodv_uu.State.{Node, RtTable, Handler, Buffer}
use aodv_uu.Machine.{
  Env, TimerLaws, update, ◌>>=◌, then_run, when, get_rt_run, modify_rt_run, modify_rt,
}
use aodv_uu.Device.{ifindex2devindex, dev_ifindex, Known}
use aodv_uu.Precursor.{emptied, precursor_list_destroy}
use aodv_uu.Precursor.Laws.{IsCounted, emptied-IsCounted, precursor_list_destroy_run}
use aodv_uu.Route.Invariant.{
  Inv, Linked, view, SameTable, SameTable-Inv, SameTable-Linked, SameTable-view,
}
use aodv_uu.Route.Modify.{with_entry, with_entry-Inv, with_entry-view, with_entry-Linked}
use aodv_uu.Rerr.{rerr_create, rerr_calc_size, first_prec}
use aodv_uu.Socket.{aodv_socket_new_msg}
use aodv_uu.Socket.Quiet.{Quiet, Quiet-self, Quiet-trans}
use aodv_uu.Link.{ns_ifindex}
use aodv_uu.Socket.Sent.{aodv_socket_send-Sends, send_on_all-Sends}
use aodv_uu.Timeout.{local_repair_timeout, report_failure}

-- A table in which the entry at `p` was rewritten.
record Kept (n m : Node) (p : ℕ) (new : RtTable) : Type 0 where
  inv : Inv m
  linked : Linked m p new
  same : (d : ℕ) → view m d ≡ view n d
  active : m.num_active ≡ n.num_active
  now : m.now ≡ n.now

rewritten :
    {n : Node} {p : ℕ} {old : RtTable} (new : RtTable)
    → Inv n
    → Linked n p old
    → new.dest_addr ≡ old.dest_addr
    → new.hash ≡ old.hash
    → new.state ≡ old.state
    → Kept n (with_entry p new n.num_active n) p new
rewritten {n} {p} {old} new inv l to hash st = record {
  inv = with_entry-Inv n p old inv l new n.num_active to hash (ground (arith, st));
  linked = with_entry-Linked n p old inv l new n.num_active to hash;
  same = with_entry-view n p old inv l new n.num_active to hash;
  active = refl;
  now = refl;
}

Kept-trans : {a b c : Node} {p : ℕ} {r s : RtTable} → Kept a b p r → Kept b c p s → Kept a c p s
Kept-trans f g = record {
  inv = g.inv;
  linked = g.linked;
  same = λ d. g.same d ∙ f.same d;
  active = g.active ∙ f.active;
  now = g.now ∙ f.now;
}

Quiet-Kept : {n m : Node} {p : ℕ} {rt : RtTable} → Quiet n m → Inv n → Linked n p rt → Kept n m p rt
Quiet-Kept {n} {m} q inv l =
    let same : SameTable n m = record {
      heap = q.heap;
      next_address = omega (arith, q.next_address);
      num_entries = q.num_entries;
      num_active = q.num_active;
      tbl = q.tbl;
    } in
    record {
      inv = SameTable-Inv same inv;
      linked = SameTable-Linked same l;
      same = SameTable-view same;
      active = q.num_active;
      now = q.now;
    }

module _ (env : Env) where
  only_precursor :
      (ps : List ℕ) (n : Node) → length ps ≡ 1 → (x : ℕ) × (first_prec ps n ≡ some (x, n))
  unfolding first_prec
  only_precursor [] n e = absurd (omega arith)
  only_precursor (x ∷ ps) n e = (x, refl)

  buffer-Quiet : (n : Node) (b : Buffer) → Quiet n (record n { send_buf = b })
  buffer-Quiet n b = record {
    heap = refl;
    next_address = refl;
    num_entries = refl;
    num_active = refl;
    tbl = refl;
    nif = refl;
    dev_indices = refl;
    now = refl;
  }

  report_failure-Quiet :
      (rt : RtTable) (n : Node) (dev : ℕ)
      → IsCounted rt
      → ifindex2devindex rt.ifindex n ≡ some dev
      → Known ns_ifindex n
      → (m : Node) × (report_failure env rt n ≡ some (tt, m)) × Quiet n m
  unfolding report_failure rerr_create dev_ifindex aodv_socket_new_msg
  report_failure-Quiet rt n dev c e (k, f) =
      let b : Buffer =
        update
          (update (update (update (update (λ i. 0) 1 aodv_rerr) 3 0) 8 rt.dest_addr) 12
            rt.dest_seqno)
          4 1 in
      let n₀ : Node = record n { send_buf = b } in
      let e₀ : ifindex2devindex rt.ifindex n₀ ≡ some dev = unfold ifindex2devindex in e in
      let own : Known ns_ifindex n₀ = (k, unfold ifindex2devindex in f) in
      let written = buffer-Quiet n b in
      elim (Bool-cases (rt.nprec == 1)) [
        | inl t ↦
            let (x, first) = only_precursor rt.precursors n₀ (ground (arith, t, c.counted)) in
            let (m, run, q) =
              aodv_socket_send-Sends env (λ e. Unit) b x (rerr_calc_size 1) 1 dev n₀ own
                (λ s e a. tt) in
            (m, rw (t, ◌>>=◌, first, e₀) run, Quiet-trans written q.quiet)
        | inr t ↦
            let (m, run, q) =
              send_on_all-Sends env (λ e. Unit) (rerr_calc_size 1) 1 n₀ own (λ s e a. tt) in
            (m, rw t run, Quiet-trans written q.quiet)
      ]

  report_if_Quiet :
      (rt : RtTable) (n : Node) (dev : ℕ)
      → IsCounted rt
      → ifindex2devindex rt.ifindex n ≡ some dev
      → Known ns_ifindex n
      → (m : Node) × (when (not (rt.nprec == 0)) (report_failure env rt) n ≡ some (tt, m))
        × Quiet n m
  report_if_Quiet rt n dev c e known = elim (Bool-cases (rt.nprec == 0)) [
    | inl t ↦ (n, rw t, Quiet-self n)
    | inr t ↦ rw t (report_failure-Quiet rt n dev c e known)
  ]

-- What becomes of the entry: it is no longer in repair, it has no precursors, and its timer runs to its
-- deletion.
unfoldable pub repair_failed : Env → (now : ℕ) → RtTable → RtTable
repair_failed env now rt =
    let r = emptied (record rt { flags = clear_flag rt.flags rt_repair }) in
    record r {
      rt_timer =
          env.timer_set_timeout now env.delete_period
            (record (r.rt_timer) { handler = Handler.route_delete });
    }

pub record IsDoomed (env : Env) (now : ℕ) (old new : RtTable) : Type 0 where
  pub flags : has_flag new.flags rt_repair ≡ false
  pub state : new.state ≡ old.state
  pub dest_addr : new.dest_addr ≡ old.dest_addr
  pub dest_seqno : new.dest_seqno ≡ old.dest_seqno
  pub precursors : new.precursors ≡ []
  pub nprec : new.nprec ≡ 0
  pub running : new.rt_timer.used ≡ true
  pub handler : new.rt_timer.handler ≡ Handler.route_delete
  pub timeout : new.rt_timer.timeout ≡ now + env.delete_period

repair_failed-IsDoomed :
    (env : Env) (now : ℕ) (rt : RtTable)
    → TimerLaws env
    → IsCounted rt
    → IsDoomed env now rt (repair_failed env now rt)
unfolding repair_failed
repair_failed-IsDoomed env now rt laws c =
    let (_, zeroed) = emptied-IsCounted rt c in
    unfold emptied in
    record {
      flags = ground arith;
      state = refl;
      dest_addr = refl;
      dest_seqno = refl;
      precursors = refl;
      nprec = zeroed;
      running = laws.set_used now _ _;
      handler = laws.set_handler now _ _;
      timeout = laws.set_timeout now _ _ ∙ laws.add_msec now _;
    }

-- The timers behave as documented, and the pointer names an entry of a well-formed table, whose
-- precursor list is counted and whose interface is known, as is the agent's own. The timeout of a local repair then runs
-- without a fault: the entry is no longer in repair, has no precursors, and is deleted after
-- DELETE_PERIOD. Its state and sequence number are as they were; the table stays well-formed, with
-- as many active entries, and every destination is looked up as before.
pub local_repair_timeout-Inv :
    (env : Env) (n : Node) (p dev : ℕ) (rt : RtTable)
    → TimerLaws env
    → Inv n
    → Linked n p rt
    → IsCounted rt
    → ifindex2devindex rt.ifindex n ≡ some dev
    → Known ns_ifindex n
    → (m : Node) × (new : RtTable) × (local_repair_timeout env (some p) n ≡ some (tt, m))
      × Inv m
      × Linked m p new
      × IsDoomed env n.now rt new
      × (m.num_active ≡ n.num_active)
      × ((d : ℕ) → view m d ≡ view n d)
unfolding local_repair_timeout
local_repair_timeout-Inv env n p dev rt laws inv l c e (own, f) =
    let r₁ : RtTable = record rt { flags = clear_flag rt.flags rt_repair } in
    let k₁ = rewritten r₁ inv l refl refl refl in
    let n₁ = with_entry p r₁ n.num_active n in
    let c₁ : IsCounted r₁ = record {
      distinct = c.distinct;
      counted = c.counted;
      small = c.small;
    } in
    let (n₂, reported, q) =
      report_if_Quiet env r₁ n₁ dev c₁ (unfold ifindex2devindex in e)
        (own, unfold ifindex2devindex in f) in
    let k₂ = Kept-trans k₁ (Quiet-Kept q k₁.inv k₁.linked) in
    let r₂ = emptied r₁ in
    let k₃ = Kept-trans k₂ (
      rewritten r₂ k₂.inv k₂.linked (unfold emptied in refl) (unfold emptied in refl)
        (unfold emptied in refl)) in
    let n₃ = with_entry p r₂ n₂.num_active n₂ in
    let r₃ = repair_failed env n₂.now rt in
    let k₄ = Kept-trans k₃ (
      rewritten r₃ k₃.inv k₃.linked (unfold repair_failed in refl) (unfold repair_failed in refl)
        (unfold repair_failed in refl)) in
    (
      with_entry p r₃ n₃.num_active n₃,
      r₃,
      rw
          (
            modify_rt_run p _ _ n rt l.stored,
            get_rt_run p _ n₁ r₁ k₁.linked.stored,
            then_run (when (not (r₁.nprec == 0)) (report_failure env r₁)) _ n₁ n₂ reported,
            then_run (precursor_list_destroy (some p)) _ n₂ n₃
                (precursor_list_destroy_run n₂ p r₁ k₂.linked.stored),
            modify_rt,
            k₃.linked.stored,
          )
          (unfold repair_failed in refl),
      k₄.inv,
      k₄.linked,
      subst (λ t. IsDoomed env n.now rt (repair_failed env t rt)) (sym k₂.now)
          (repair_failed-IsDoomed env n.now rt laws c),
      k₄.active,
      k₄.same,
    )
