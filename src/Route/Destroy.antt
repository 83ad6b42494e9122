-- ===== src/Route/Destroy.antt =====
-- `rt_table_destroy` on a well-formed table.
use aodv_uu.Prelude.{
  ℕ, zero, suc, ◌+◌, ◌<◌, List, [], ◌∷◌, some, ◌≡◌, ◌≢◌, refl, sym, ap, ◌∙◌, subst, arith, inl,
  ==_refl, ℕ_discrete, total, total_congr, length,
}
use aodv_uu.State.{RtTable, Node}
use aodv_uu.Machine.{Env, then_run, unlink, own_address}
use aodv_uu.Table.{hashing}
use aodv_uu.Route.Chain.{Chain, In, unlink-NotIn}
use aodv_uu.Route.Change.{rt_table_delete, delete_all, destroy_from, rt_table_destroy}
use aodv_uu.Route.Invariant.{Inv, Inv-active-le, Linked, linked_in}
use aodv_uu.Route.Modify.{Linked-NotIn}
use aodv_uu.Route.Delete.{rt_table_delete-bucket}

-- The table after one bucket was emptied.
record Emptied (n m : Node) (i : ℕ) : Type 0 where
  inv : Inv m
  here : m.tbl i ≡ []
  elsewhere : (j : ℕ) → j < 64 → j ≢ i → m.tbl j ≡ n.tbl j

head-Linked :
    (n : Node) (i p : ℕ) (ps : List ℕ)
    → n.tbl i ≡ p ∷ ps
    → Chain n.heap i (n.tbl i)
    → (rt : RtTable) × Linked n p rt × (hashing rt.dest_addr ≡ i)
head-Linked n i p ps e c =
    let (at, _, _) = subst (Chain n.heap i) e c in
    (
      at.entry,
      record {
        stored = at.stored;
        member = subst (In p) (sym (ap n.tbl at.bucket ∙ e)) (inl refl);
      },
      at.bucket,
    )

delete_all_run :
    (env : Env) (n : Node) (i : ℕ) (ps : List ℕ)
    → i < 64
    → n.tbl i ≡ ps
    → Inv n
    → (m : Node) × (delete_all env ps n ≡ some (tt, m)) × Emptied n m i
unfolding delete_all
delete_all_run env n i [] lt e inv =
    (n, refl, record { inv = inv; here = e; elsewhere = λ j l s. refl })
delete_all_run env n i (p ∷ ps) lt e inv =
    let (rt, l, at) = head-Linked n i p ps e (inv.chains i lt) in
    let (n₁, run, inv₁, tbl) = rt_table_delete-bucket env n p rt inv l in
    let here : n₁.tbl i ≡ ps =
      ap (λ t. t i) tbl ∙ ap (λ b. unlink own_address b p) e ∙ rw (==_refl p) in
    let (m, rest, done) = delete_all_run env n₁ i ps lt here inv₁ in
    (
      m,
      then_run (rt_table_delete env (some p)) (delete_all env ps) n n₁ run ∙ rest,
      record {
        inv = done.inv;
        here = done.here;
        elsewhere = λ j k s.
            done.elsewhere j k s
            ∙ ap (λ t. t j) tbl
            ∙ unlink-NotIn p (n.tbl j) (Linked-NotIn n p rt inv l j k (λ w. s (w ∙ at)));
      },
    )

destroy_from_run :
    (env : Env) (n : Node) (rounds i : ℕ)
    → i + rounds ≡ 64
    → Inv n
    → ((j : ℕ) → j < i → n.tbl j ≡ [])
    → (m : Node) × (destroy_from env rounds i n ≡ some (tt, m))
      × Inv m
      × ((j : ℕ) → j < 64 → m.tbl j ≡ [])
unfolding destroy_from
destroy_from_run env n zero i e inv h = (n, refl, inv, λ j l. h j (omega arith))
destroy_from_run env n (suc rounds) i e inv h =
    let (n₁, run, done) = delete_all_run env n i (n.tbl i) (omega arith) refl inv in
    let (m, rest, inv', all) = destroy_from_run env n₁ rounds (i + 1) (omega arith) done.inv (λ j l.
      elim (ℕ_discrete j i) [
        | yes s ↦ ap n₁.tbl s ∙ done.here
        | no s ↦ done.elsewhere j (omega arith) s ∙ h j (omega arith)
      ]) in
    (
      m,
      then_run (delete_all env (n.tbl i)) (destroy_from env rounds (i + 1)) n n₁ run ∙ rest,
      inv',
      all,
    )

total_zero : (k : ℕ) → total (λ j. 0) k ≡ 0
unfolding total
total_zero zero = refl
total_zero (suc k) = omega (arith, total_zero k)

-- The destruction of a well-formed table deletes every entry and does not fault: the call returns,
-- the table is well-formed, every bucket is empty, and both counters are 0.
pub rt_table_destroy-empty :
    (env : Env) (n : Node)
    → Inv n
    → (m : Node) × (rt_table_destroy env n ≡ some (tt, m))
      × Inv m
      × ((j : ℕ) → j < 64 → m.tbl j ≡ [])
      × (m.num_entries ≡ 0)
      × (m.num_active ≡ 0)
unfolding rt_table_destroy
rt_table_destroy-empty env n inv =
    let (m, run, inv', all) = destroy_from_run env n 64 0 refl inv (λ j l. absurd (omega arith)) in
    let none_left : m.num_entries ≡ 0 =
      inv'.entries
      ∙ total_congr (linked_in m) (λ j. 0) 64 (λ j l. ap length (all j l))
      ∙ total_zero 64 in
    (m, run, inv', all, none_left, omega (arith, none_left, Inv-active-le m inv'))
