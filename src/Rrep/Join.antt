-- ===== src/Rrep/Join.antt =====
-- The precursors that a forwarded RREP adds, in code/aodv-uu-0.96/aodv_rrep.c.
use aodv_uu.Prelude.{ℕ, ◌<◌, true, some, ◌≡◌, ◌≢◌, sym, ap, ◌∙◌, arith, ◌==◌, if◌then◌else◌}
use aodv_uu.State.{RtTable, Node}
use aodv_uu.Machine.{◌>>=◌, ◌>>◌, Env, get_rt, update_ne}
use aodv_uu.Precursor.{has_precursor, precursor_add}
use aodv_uu.Precursor.Laws.{IsCounted, precursor_add-has}
use aodv_uu.Route.Chain.{valid_entry}
use aodv_uu.Route.Invariant.{Inv, Linked, view}
use aodv_uu.Route.Modify.{with_entry, with_entry-Inv, with_entry-view, with_entry-Linked}
use aodv_uu.Rrep.Send.{join_precursors}

-- The address became a precursor of the route `old`, which is `new` now, and nothing else of it changed.
pub record Gains (addr : ℕ) (old new : RtTable) : Type 0 where
  pub counted : IsCounted new
  pub route : new ≡ record old { precursors = new.precursors; nprec = new.nprec }
  pub has :
      (a : ℕ)
      → has_precursor new.precursors a
        ≡ (if addr == a then true else has_precursor old.precursors a)

-- From `n` to `m` only the entry at `p` changed, to `new`.
record IsJoined (n m : Node) (p : ℕ) (new : RtTable) : Type 0 where
  inv : Inv m
  linked : Linked m p new
  lookup : (d : ℕ) → view m d ≡ view n d
  others : (q : ℕ) (rt : RtTable) → q ≢ p → Linked n q rt → Linked m q rt

precursor_add-IsJoined :
    (env : Env) (n : Node) (p addr : ℕ) (rt : RtTable)
    → Inv n
    → Linked n p rt
    → IsCounted rt
    → rt.nprec < 4294967295
    → (m : Node) × (new : RtTable) × (precursor_add env (some p) addr n ≡ some (tt, m))
      × IsJoined n m p new
      × Gains addr rt new
precursor_add-IsJoined env n p addr rt inv l c room =
    let (new, r, has) = precursor_add-has env n p addr rt l.stored c room in
    let m = with_entry p new n.num_active n in
    let to = ap RtTable.dest_addr r.route in
    let same : valid_entry (some new) ≡ valid_entry (some rt) =
      ap (λ x. valid_entry (some x)) r.route in
    (
      m,
      new,
      r.runs ∙ (λ i. some (tt, r.frame i)) ∙ (λ i. some (tt, record n { heap = r.heap i })),
      record {
        inv =
            with_entry-Inv n p rt inv l new n.num_active to (ap RtTable.hash r.route)
              (omega (arith, same));
        linked = with_entry-Linked n p rt inv l new n.num_active to (ap RtTable.hash r.route);
        lookup = with_entry-view n p rt inv l new n.num_active to (ap RtTable.hash r.route);
        others = λ q x e k. record {
          stored = update_ne n.heap q p (some new) e ∙ k.stored;
          member = k.member;
        };
      },
      record { counted = r.counted; route = r.route; has = has },
    )

-- The pointers are to two different entries of a well-formed table, whose lists are sets that are
-- counted, with room for one more precursor. Then `join_precursors` runs, and the next hop of each
-- route is a precursor of the other. No precursor is lost and no other one is added, the lists are sets
-- that are counted, the two routes are otherwise as before, no other route changed, the table is
-- well-formed, and every destination is looked up as before.
pub join_precursors-joins :
    (env : Env) (n : Node) (p q : ℕ) (fwd rev : RtTable)
    → Inv n
    → Linked n p fwd
    → Linked n q rev
    → p ≢ q
    → IsCounted fwd
    → IsCounted rev
    → fwd.nprec < 4294967295
    → rev.nprec < 4294967295
    → (m : Node) × (fwd' rev' : RtTable) × (join_precursors env p q n ≡ some (tt, m))
      × Inv m
      × Linked m p fwd'
      × Gains rev.next_hop fwd fwd'
      × Linked m q rev'
      × Gains fwd.next_hop rev rev'
      × ((d : ℕ) → view m d ≡ view n d)
      × ((r : ℕ) (rt : RtTable) → r ≢ p → r ≢ q → Linked n r rt → Linked m r rt)
unfolding join_precursors
join_precursors-joins env n p q fwd rev inv lp lq e cp cq rp rq =
    let (m₁, fwd', run₁, j₁, g₁) = precursor_add-IsJoined env n p rev.next_hop fwd inv lp cp rp in
    let (m, rev', run₂, j₂, g₂) =
      precursor_add-IsJoined env m₁ q fwd.next_hop rev j₁.inv (j₁.others q rev (λ s. e (sym s)) lq)
        cq rq in
    (
      m,
      fwd',
      rev',
      rw (◌>>=◌, ◌>>◌, get_rt, lq.stored, run₁, j₁.linked.stored, ap RtTable.next_hop g₁.route)
          run₂,
      j₂.inv,
      j₂.others p fwd' e j₁.linked,
      g₁,
      j₂.linked,
      g₂,
      λ d. j₂.lookup d ∙ j₁.lookup d,
      λ r rt np nq l. j₂.others r rt nq (j₁.others r rt np l),
    )
