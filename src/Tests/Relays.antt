-- ===== src/Tests/Relays.antt =====
-- A table with two routes, along which a RREP is forwarded.
use aodv_uu.Prelude.{
  ℕ, none, some, ◌≡◌, ◌≢◌, refl, sym, subst, ◌∷◌, [], inl, inr, ==_ne, ℕ_discrete, ◌==◌,
  if◌then◌else◌, arith, total,
}
use aodv_uu.State.{RtTable, Node}
use aodv_uu.Precursor.{has_precursor}
use aodv_uu.Route.Chain.{Chain, active_in}
use aodv_uu.Route.Invariant.{Inv, Linked, view}
use aodv_uu.Rrep.Send.{join_precursors}
use aodv_uu.Rrep.Join.{Gains, join_precursors-joins}
use aodv_uu.Tests.Env.{env, fresh}
use aodv_uu.Tests.Table.{entry}

abbrev back : RtTable
back = record entry { dest_addr = 129; next_hop = 80; hash = 129; nprec = 0; precursors = [] }

-- Both hang in the bucket 1.
abbrev both : Node
both = record fresh {
  heap = λ p. if p == 1 then some entry else if p == 2 then some back else none;
  next_address = 3;
  num_entries = 2;
  num_active = 2;
  tbl = λ i. if i == 1 then 2 ∷ 1 ∷ [] else [];
}

in_bucket : (i : ℕ) → i ≡ 1 → Chain both.heap i (both.tbl i)
in_bucket i e =
    subst (λ j. Chain both.heap j (both.tbl j)) (sym e)
      (
        record { entry = back; stored = refl; bucket = refl; hashed = refl },
        (omega arith, tt),
        (record { entry = entry; stored = refl; bucket = refl; hashed = refl }, tt, tt),
      )

both-Inv : Inv both
unfolding total active_in
both-Inv = record {
  fresh = λ p l. ground arith;
  chains = λ i l. elim (ℕ_discrete i 1) [ yes e ↦ in_bucket i e | no e ↦ rw (==_ne i 1 e) tt ];
  entries = refl;
  active = refl;
  bounded = omega arith;
}

join_precursors-joins_example :
    (m : Node) × (fwd rev : RtTable) × (join_precursors env 1 2 both ≡ some (tt, m))
    × Inv m
    × Linked m 1 fwd
    × Gains 80 entry fwd
    × Linked m 2 rev
    × Gains entry.next_hop back rev
    × ((d : ℕ) → view m d ≡ view both d)
    × ((r : ℕ) (rt : RtTable) → r ≢ 1 → r ≢ 2 → Linked both r rt → Linked m r rt)
unfolding has_precursor
join_precursors-joins_example =
    join_precursors-joins env both 1 2 entry back both-Inv
      (record { stored = refl; member = inr (inl refl) })
      (record { stored = refl; member = inl refl }) (omega arith)
      (record { distinct = (refl, tt); counted = refl; small = omega arith })
      (record { distinct = tt; counted = refl; small = omega arith }) (omega arith) (omega arith)
