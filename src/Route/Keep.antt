-- ===== src/Route/Keep.antt =====
-- `rt_table_update_route_timeouts` of code/aodv-uu-0.96/routing_table.c on a well-formed table.
use aodv_uu.Prelude.{
  ℕ, not, ◌&&◌, ◌||◌, Bool, Option, none, some, ◌≡◌, refl, ◌∙◌, ◌==◌, false, inl, inr, Bool-cases,
  Option-cases,
}
use aodv_uu.Word.{has_flag}
use aodv_uu.Params.{rt_inet_dest}
use aodv_uu.State.{Node, RtTable, is_valid}
use aodv_uu.Machine.{◌>>=◌, ◌>>◌, get_rt, get_rt_run, Env}
use aodv_uu.Queue.Refresh.{Refreshed, Refreshed-self, Refreshed-trans, refresh_then}
use aodv_uu.Route.Change.{refresh_route, update_next_hop_timeout, rt_table_update_route_timeouts}
use aodv_uu.Route.Invariant.{Inv, Linked, view, view-Linked, rt_table_find-view}

module _ (env : Env) where
  update_next_hop-Refreshed :
      (n : Node) (rt : RtTable)
      → Inv n
      → (m : Node) × (update_next_hop_timeout env rt n ≡ some (tt, m))
        × Refreshed env n m
        × (m ≡ record n { heap = m.heap })
  unfolding update_next_hop_timeout
  update_next_hop-Refreshed n rt inv = elim (Option-cases (view n rt.next_hop)) [
    | inl e ↦ (
      n,
      rw (◌>>=◌, rt_table_find-view n rt.next_hop inv, e) refl,
      Refreshed-self env n inv,
      refl,
    )
    | inr (q, e) ↦
        let (next, l, _) = view-Linked n rt.next_hop inv e in
        let test =
          is_valid next.state
          && not (next.dest_addr == rt.dest_addr)
          && (env.llfeedback || rt.hello_timer.used) in
        elim (Bool-cases test) [
          | inl t ↦
              rw (◌>>=◌, rt_table_find-view n rt.next_hop inv, e, get_rt, l.stored, t)
                (refresh_then env n q next inv l)
          | inr t ↦ (
            n,
            rw (◌>>=◌, rt_table_find-view n rt.next_hop inv, e, get_rt, l.stored, t) refl,
            Refreshed-self env n inv,
            refl,
          )
        ]
  ]

  abbrev LinkedIf : Node → Option ℕ → Type 0
  LinkedIf n o = (p : ℕ) → o ≡ some p → (rt : RtTable) × Linked n p rt

  refresh_route-Refreshed :
      (inet : RtTable → Bool) (o : Option ℕ) (n : Node)
      → Inv n
      → LinkedIf n o
      → (m : Node) × (refresh_route env inet o n ≡ some (tt, m))
        × Refreshed env n m
        × (m ≡ record n { heap = m.heap })
  unfolding refresh_route
  refresh_route-Refreshed inet none n inv h = (n, refl, Refreshed-self env n inv, refl)
  refresh_route-Refreshed inet (some p) n inv h =
      let (rt, l) = h p refl in
      let test = env.llfeedback || inet rt || not (rt.hcnt == 1) || rt.hello_timer.used in
      elim (Bool-cases (is_valid rt.state)) [
        | inr v ↦ (n, rw (◌>>=◌, get_rt, l.stored, v) refl, Refreshed-self env n inv, refl)
        | inl v ↦ elim (Bool-cases test) [
          | inr t ↦
              let (m, run, r, s) = update_next_hop-Refreshed n rt inv in
              (
                m,
                rw (◌>>=◌, ◌>>◌, get_rt, l.stored, v, t) (rw (get_rt_run p _ n rt l.stored) run),
                r,
                s,
              )
          | inl t ↦
              let (n₁, run₁, r₁, s₁) = refresh_then env n p rt inv l in
              let (rt₁, l₁, _) = r₁.linked p rt l in
              let (m, run, r, s) = update_next_hop-Refreshed n₁ rt₁ r₁.inv in
              (
                m,
                rw (◌>>◌, ◌>>=◌, get_rt, l.stored, v, t)
                    (rw (run₁, get_rt_run p _ n₁ rt₁ l₁.stored) run),
                Refreshed-trans env r₁ r,
                s ∙ (λ i. record (s₁ i) { heap = m.heap }),
              )
        ]
      ]

  -- Both routes stand in a well-formed table. The update returns, and only timeouts move.
  pub rt_table_update_route_timeouts-Refreshed :
      (fwd_rt rev_rt : Option ℕ) (n : Node)
      → Inv n
      → ((p : ℕ) → fwd_rt ≡ some p → (rt : RtTable) × Linked n p rt)
      → ((p : ℕ) → rev_rt ≡ some p → (rt : RtTable) × Linked n p rt)
      → (m : Node) × (rt_table_update_route_timeouts env fwd_rt rev_rt n ≡ some (tt, m))
        × Refreshed env n m
        × (m ≡ record n { heap = m.heap })
  unfolding rt_table_update_route_timeouts
  rt_table_update_route_timeouts-Refreshed fwd_rt rev_rt n inv hf hr =
      let (n₁, run₁, r₁, s₁) =
        refresh_route-Refreshed (λ rt. has_flag rt.flags rt_inet_dest) fwd_rt n inv hf in
      let (m, run, r, s) =
        refresh_route-Refreshed (λ rt. false) rev_rt n₁ r₁.inv
          (λ p e. let (rt, l) = hr p e in let (rt', l', _) = r₁.linked p rt l in (rt', l')) in
      (m, rw (◌>>◌, run₁) run, Refreshed-trans env r₁ r, s ∙ (λ i. record (s₁ i) { heap = m.heap }))
