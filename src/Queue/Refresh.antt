-- ===== src/Queue/Refresh.antt =====
-- What `packet_queue_set_verdict` of code/aodv-uu-0.96/ns-2/packet_queue.cc does to the routing table: some
-- timeouts move.
use aodv_uu.Prelude.{
  ℕ, not, ◌&&◌, Option, none, some, ◌≡◌, refl, sym, ap, ◌∙◌, subst, ◌==◌, inl, inr, Bool-cases,
  Option-cases, ℕ_discrete, arith,
}
use aodv_uu.State.{Node, RtTable, Verdict, is_valid}
use aodv_uu.Machine.{◌>>=◌, get_rt, skip, update_ne, Env}
use aodv_uu.Device.{dev_ifindex, dev_nr}
use aodv_uu.Device.Index.{SameHost, SameHost-self, SameHost-trans}
use aodv_uu.Table.{rt_table_update_timeout}
use aodv_uu.Table.Timed.{timed, timed_run, Later, Later-trans, Later-rest}
use aodv_uu.Route.Chain.{valid_entry}
use aodv_uu.Route.Invariant.{Inv, Linked, view, view-Linked, rt_table_find-view}
use aodv_uu.Route.Modify.{with_entry, with_entry-Inv, with_entry-view, with_entry-Linked}
use aodv_uu.Queue.Verdict.{touch_next_hop, touch_routes, is_drop}
use aodv_uu.Queue.Ready.{Ready}

-- From `n` to `m` only timeouts of routes moved in the table, and the table stayed well-formed.
pub record Refreshed (env : Env) (n m : Node) : Type 0 where
  pub inv : Inv m
  pub lookup : (d : ℕ) → view m d ≡ view n d
  pub linked :
      (q : ℕ) (rt : RtTable)
      → Linked n q rt
      → (new : RtTable) × Linked m q new × Later env n.now env.active_route_timeout rt new
  pub host : SameHost n m
  pub now : m.now ≡ n.now
  pub next_address : m.next_address ≡ n.next_address
  pub num_entries : m.num_entries ≡ n.num_entries
  pub num_active : m.num_active ≡ n.num_active

module _ (env : Env) where
  pub Refreshed-self : (n : Node) → Inv n → Refreshed env n n
  Refreshed-self n inv = record {
    inv = inv;
    lookup = λ d. refl;
    linked = λ q rt l. (rt, l, Later.same);
    host = SameHost-self n;
    now = refl;
    next_address = refl;
    num_entries = refl;
    num_active = refl;
  }

  pub Refreshed-trans : {a b c : Node} → Refreshed env a b → Refreshed env b c → Refreshed env a c
  Refreshed-trans f g = record {
    inv = g.inv;
    lookup = λ d. g.lookup d ∙ f.lookup d;
    linked = λ q rt l.
        let (r₁, l₁, e₁) = f.linked q rt l in
        let (r₂, l₂, e₂) = g.linked q r₁ l₁ in
        (
          r₂,
          l₂,
          Later-trans env e₁ (subst (λ t. Later env t env.active_route_timeout r₁ r₂) f.now e₂),
        );
    host = SameHost-trans f.host g.host;
    now = g.now ∙ f.now;
    next_address = g.next_address ∙ f.next_address;
    num_entries = g.num_entries ∙ f.num_entries;
    num_active = g.num_active ∙ f.num_active;
  }

  -- One timeout.
  refresh_one :
      (n : Node) (p : ℕ) (rt : RtTable)
      → Inv n
      → Linked n p rt
      → (m : Node) × (rt_table_update_timeout env (some p) env.active_route_timeout n
          ≡ some (some p, m))
        × Refreshed env n m
        × (m ≡ record n { heap = m.heap })
  refresh_one n p rt inv l =
      let new = timed env n.now env.active_route_timeout rt in
      let rest = Later-rest env (Later.again rt Later.same) in
      let to = ap RtTable.dest_addr rest in
      let hash = ap RtTable.hash rest in
      let m = with_entry p new n.num_active n in
      let state : valid_entry (some new) ≡ valid_entry (some rt) =
        ap (λ r. valid_entry (some r)) rest in
      let linked = with_entry-Linked n p rt inv l new n.num_active to hash in
      (
        m,
        timed_run env n p env.active_route_timeout rt l.stored,
        record {
          inv = with_entry-Inv n p rt inv l new n.num_active to hash (omega (arith, state));
          lookup = with_entry-view n p rt inv l new n.num_active to hash;
          linked = λ q r k. elim (ℕ_discrete q p) [
            | yes e ↦
                let same : r ≡ rt = ground (arith, k.stored, l.stored, ap (λ x. n.heap x) e) in
                (
                  new,
                  subst (λ x. Linked m x new) (sym e) linked,
                  subst (λ x. Later env n.now env.active_route_timeout x new) (sym same)
                      (Later.again rt Later.same),
                )
            | no e ↦ (
              r,
              record { stored = update_ne n.heap q p (some new) e ∙ k.stored; member = k.member },
              Later.same,
            )
          ];
          host = record { this_host = refl; dev_indices = refl; wait_on_reboot = refl };
          now = refl;
          next_address = refl;
          num_entries = refl;
          num_active = refl;
        },
        refl,
      )

  -- The same, in a block whose rest does not use the result.
  pub refresh_then :
      (n : Node) (p : ℕ) (rt : RtTable)
      → Inv n
      → Linked n p rt
      → (m : Node) × ((rt_table_update_timeout env (some p) env.active_route_timeout >>= λ _. skip)
            n
          ≡ some (tt, m))
        × Refreshed env n m
        × (m ≡ record n { heap = m.heap })
  refresh_then n p rt inv l =
      let (m, run, r, e) = refresh_one n p rt inv l in (m, rw (◌>>=◌, run) refl, r, e)

  touch_next_hop-Refreshed :
      (n : Node) (rt : RtTable)
      → Inv n
      → (m : Node) × (touch_next_hop env rt n ≡ some (tt, m))
        × Refreshed env n m
        × (m ≡ record n { heap = m.heap })
  unfolding touch_next_hop
  touch_next_hop-Refreshed n rt inv = elim (Option-cases (view n rt.next_hop)) [
    | inl e ↦
        (n, rw (◌>>=◌, rt_table_find-view n rt.next_hop inv, e) refl, Refreshed-self n inv, refl)
    | inr (q, e) ↦
        let (next, l, _) = view-Linked n rt.next_hop inv e in
        elim (Bool-cases (is_valid next.state && not (next.dest_addr == rt.dest_addr))) [
          | inl t ↦
              rw (◌>>=◌, rt_table_find-view n rt.next_hop inv, e, get_rt, l.stored, t)
                (refresh_then n q next inv l)
          | inr t ↦ (
            n,
            rw (◌>>=◌, rt_table_find-view n rt.next_hop inv, e, get_rt, l.stored, t) refl,
            Refreshed-self n inv,
            refl,
          )
        ]
  ]

  -- The route to the Internet, if there is one.
  touch_inet-Refreshed :
      (n : Node) (inet : Option ℕ)
      → Inv n
      → ((q : ℕ) → inet ≡ some q → (rt : RtTable) × Linked n q rt)
      → (m : Node) × (rt_table_update_timeout env inet env.active_route_timeout n ≡ some (inet, m))
        × Refreshed env n m
        × (m ≡ record n { heap = m.heap })
  unfolding rt_table_update_timeout
  touch_inet-Refreshed n none inv h = (n, refl, Refreshed-self n inv, refl)
  touch_inet-Refreshed n (some q) inv h = let (rt, l) = h q refl in refresh_one n q rt inv l

  pub touch_routes-Refreshed :
      (n : Node) (d : ℕ) (verdict : Verdict) (inet rt : Option ℕ)
      → Inv n
      → Ready n
      → ((q : ℕ) → inet ≡ some q → (r : RtTable) × Linked n q r)
      → ((q : ℕ) → rt ≡ some q → (r : RtTable) × Linked n q r)
      → (m : Node) × (touch_routes env d verdict inet rt n ≡ some (tt, m))
        × Refreshed env n m
        × (m ≡ record n { heap = m.heap })
  unfolding touch_routes dev_ifindex
  touch_routes-Refreshed n d verdict inet none inv ready hi hr =
      (n, refl, Refreshed-self n inv, refl)
  touch_routes-Refreshed n d verdict inet (some p) inv ready hi hr =
      let (rt, l) = hr p refl in
      let (k, e) = ready.routes p rt l in
      elim (Bool-cases (is_valid rt.state && not (is_drop verdict))) [
        | inr t ↦ (n, rw (◌>>=◌, get_rt, l.stored, t) refl, Refreshed-self n inv, refl)
        | inl t ↦ elim (Bool-cases (not (d == (dev_nr k n).ipaddr))) [
          | inr u ↦ (n, rw (◌>>=◌, get_rt, l.stored, t, e, u) refl, Refreshed-self n inv, refl)
          | inl u ↦
              let (n₁, run₁, r₁, e₁) = touch_inet-Refreshed n inet inv hi in
              let (rt₁, l₁, _) = r₁.linked p rt l in
              let (n₂, run₂, r₂, e₂) = refresh_one n₁ p rt₁ r₁.inv l₁ in
              let (m, run₃, r₃, e₃) = touch_next_hop-Refreshed n₂ rt r₂.inv in
              (
                m,
                rw (◌>>=◌, get_rt, l.stored, t, e, u, run₁, run₂) run₃,
                Refreshed-trans r₁ (Refreshed-trans r₂ r₃),
                e₃
                    ∙ (λ i. record (e₂ i) { heap = m.heap })
                    ∙ (λ i. record (e₁ i) { heap = m.heap }),
              )
        ]
      ]
