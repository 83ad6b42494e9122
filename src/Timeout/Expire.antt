-- ===== src/Timeout/Expire.antt =====
-- `route_expire_timeout` and `widened`.
use aodv_uu.Prelude.{
  ℕ, zero, suc, ◌+◌, ◌≤◌, some, ◌≡◌, ◌≢◌, refl, sym, subst, ◌∙◌, arith, ==_ne, ltb, pos, ◌-◌, ◌*◌,
  Bool-cases, inl, inr, ℕ_discrete,
}
use aodv_uu.Params.{net_diameter, rreq_retries, ttl_threshold, ttl_increment}
use aodv_uu.State.{Node, RtTable, SeekEntry, valid}
use aodv_uu.Machine.{Env, get_rt_run, bind_run}
use aodv_uu.Precursor.{emptied}
use aodv_uu.Precursor.Laws.{precursor_list_destroy_run}
use aodv_uu.Route.Change.{rt_table_invalidate, invalidated}
use aodv_uu.Route.Invariant.{Inv, Linked, view}
use aodv_uu.Route.Modify.{with_entry, with_entry-Inv, with_entry-view, with_entry-Linked}
use aodv_uu.Route.Invalidate.{rt_table_invalidate-Inv}
use aodv_uu.Timeout.{route_expire_timeout, widened}

-- The valid route at the pointer, of more than one hop, expires in a well-formed table. The timeout
-- leaves a well-formed table with one active entry less, in which every destination is looked up as
-- before; the entry is the invalidated one with an emptied precursor list.
pub route_expire_timeout-Inv :
    (env : Env) (n : Node) (p : ℕ) (rt : RtTable)
    → Inv n
    → Linked n p rt
    → rt.state ≡ valid
    → rt.hcnt ≢ 1
    → (m : Node) × (route_expire_timeout env (some p) n ≡ some (tt, m))
      × Inv m
      × (m.num_active + 1 ≡ n.num_active)
      × Linked m p (emptied (invalidated env n.now rt))
      × ((d : ℕ) → view m d ≡ view n d)
unfolding route_expire_timeout
route_expire_timeout-Inv env n p rt inv l v far =
    let (n₁, run, inv₁, less, l₁, same) = rt_table_invalidate-Inv env n p rt inv l v in
    let r₁ = invalidated env n.now rt in
    let to : (emptied r₁).dest_addr ≡ r₁.dest_addr = unfold emptied in refl in
    let hash : (emptied r₁).hash ≡ r₁.hash = unfold emptied in refl in
    (
      with_entry p (emptied r₁) n₁.num_active n₁,
      rw
          (
            get_rt_run p _ n rt l.stored,
            ==_ne rt.hcnt 1 far,
            bind_run (rt_table_invalidate env (some p)) _ n n₁ (pos 0) run,
          )
          (precursor_list_destroy_run n₁ p r₁ l₁.stored),
      with_entry-Inv n₁ p r₁ inv₁ l₁ (emptied r₁) n₁.num_active to hash (unfold emptied in refl),
      less,
      with_entry-Linked n₁ p r₁ inv₁ l₁ (emptied r₁) n₁.num_active to hash,
      λ d. with_entry-view n₁ p r₁ inv₁ l₁ (emptied r₁) n₁.num_active to hash d ∙ same d,
    )

-- A number of rounds of the search.
unfoldable pub rings : ℕ → SeekEntry → SeekEntry
rings zero e = e
rings (suc k) e = rings k (widened e)

rings-ttl : (k : ℕ) (e : SeekEntry) → e.ttl ≤ net_diameter → (rings k e).ttl ≤ net_diameter
unfolding rings
rings-ttl zero e l = l
rings-ttl (suc k) e l = rings-ttl k (widened e) (unfold widened in ground (arith, l))

-- `j` rounds are enough for the ttl to reach the threshold, and each of the other `i` is a request.
rings-reqs :
    (k j i : ℕ) (e : SeekEntry)
    → k ≡ j + i
    → ttl_threshold ≤ e.ttl + ttl_increment * j
    → e.reqs + i ≤ (rings k e).reqs
unfolding rings
rings-reqs zero j i e s l = omega arith
rings-reqs (suc k) j i e s l = elim (Bool-cases (ltb e.ttl ttl_threshold)) [
  | inl t ↦
      let e' : SeekEntry = record e { ttl = e.ttl + ttl_increment } in
      let step : widened e ≡ e' = unfold widened in rw t in
      subst (λ x. e.reqs + i ≤ (rings k x).reqs) (sym step)
        (rings-reqs k (j - 1) i e' (ground (arith, t)) (ground (arith, t)))
  | inr t ↦
      let e' : SeekEntry = record e { ttl = net_diameter; reqs = e.reqs + 1 } in
      let step : widened e ≡ e' = unfold widened in rw t in
      subst (λ x. e.reqs + i ≤ (rings k x).reqs) (sym step)
        (elim (ℕ_discrete i 0) [
          | yes z ↦ omega (arith, rings-reqs k k 0 e' (omega arith) (omega arith))
          | no z ↦ omega (arith, rings-reqs k j (i - 1) e' (omega arith) (omega arith))
        ])
]

-- The expanding ring search ends: after at most six rounds, from any ttl, the entry counts
-- RREQ_RETRIES requests, which is when `route_discovery_timeout` gives up. The ttl never passes
-- NET_DIAMETER, if it does not at the start.
pub widened-gives_up :
    (e : SeekEntry)
    → (rreq_retries ≤ (rings 6 e).reqs)
      × ((k : ℕ) → e.ttl ≤ net_diameter → (rings k e).ttl ≤ net_diameter)
widened-gives_up e = (omega (arith, rings-reqs 6 4 2 e refl (omega arith)), λ k. rings-ttl k e)
