-- ===== src/Route/Linked.antt =====
-- A new entry is linked into a well-formed table of code/aodv-uu-0.96/routing_table.c.
use aodv_uu.Prelude.{
  ℕ, ◌+◌, ◌<◌, ◌∷◌, subst, inl, inr, none, some, ◌≡◌, ◌≢◌, refl, sym, ap, ◌∙◌, if◌then◌else◌,
  length, arith, total, total_change, ℕ_discrete, ==_refl, ==_ne,
}
use aodv_uu.State.{RtTable, Node, is_valid}
use aodv_uu.Machine.{◌>>◌, when, get_rt, update_self, update_ne, ◌>>=◌, Env}
use aodv_uu.Table.{hashing}
use aodv_uu.Route.{linked_node, started_rt, insert_entry, release_packets, released}
use aodv_uu.Device.{Known, ifindex2devindex}
use aodv_uu.Queue.Ready.{Ready}
use aodv_uu.Route.Chain.{
  In, NotIn, Chain, active_in, lookup_in, NotIn-none, Chain-update_other, active_in-update_other,
  lookup_in-update_other,
}
use aodv_uu.Route.Invariant.{Inv, view, linked_in, active_at, hashing-lt, Inv-active-le}

module _ (env : Env) where
  pub linked_node-stored :
      (p : ℕ) (rt : RtTable) (life : ℕ) (n : Node)
      → (linked_node env p rt life n).heap p ≡ some (started_rt env n.now rt life)
  unfolding linked_node
  linked_node-stored p rt life n = update_self n.heap p (some (started_rt env n.now rt life))

  -- Both insertions end so: packets are released in the state where the entry is linked in.
  pub insert_entry_run :
      (p : ℕ) (rt : RtTable) (life : ℕ) (n m : Node)
      → when
          (is_valid rt.state)
          (released env (started_rt env n.now rt life))
          (linked_node env p rt life n)
        ≡ some (tt, m)
      → insert_entry env p rt life n ≡ some (some p, m)
  unfolding insert_entry release_packets started_rt
  insert_entry_run p rt life n m run =
      rw (◌>>◌, ◌>>=◌, get_rt, linked_node-stored p rt life n, run) refl

  pub linked_node-counted :
      (p : ℕ) (rt : RtTable) (life : ℕ) (n : Node)
      → n.num_entries < 4294967295
      → (linked_node env p rt life n).num_entries ≡ n.num_entries + 1
  unfolding linked_node
  linked_node-counted p rt life n room = omega arith

  module _ (p : ℕ) (rt : RtTable) (life : ℕ) (n : Node) (inv : Inv n) (free : n.heap p ≡ none)
      (old : p < n.next_address) (hashed : rt.hash ≡ rt.dest_addr)
      (room : n.num_entries < 4294967295) where
    abbrev i₀ : ℕ
    i₀ = hashing rt.dest_addr

    apart : (i : ℕ) → i < 64 → NotIn p (n.tbl i)
    apart i l = NotIn-none n.heap i p (n.tbl i) free (inv.chains i l)

    bucket_self : (linked_node env p rt life n).tbl i₀ ≡ p ∷ n.tbl i₀
    unfolding linked_node
    bucket_self =
        update_self n.tbl i₀ (env.pointers.list_add (n.tbl i₀) p)
        ∙ env.pointers.list_add-first (n.tbl i₀) p

    bucket_ne : (j : ℕ) → j ≢ i₀ → (linked_node env p rt life n).tbl j ≡ n.tbl j
    unfolding linked_node
    bucket_ne j e = update_ne n.tbl j i₀ (env.pointers.list_add (n.tbl i₀) p) e

    kept : (j : ℕ) → j < 64 → active_in (linked_node env p rt life n).heap (n.tbl j) ≡ active_at n j
    unfolding linked_node
    kept j l = active_in-update_other n.heap j p (n.tbl j) _ (apart j l)

    Chain-at :
        (i : ℕ)
        → i < 64
        → Chain (linked_node env p rt life n).heap i ((linked_node env p rt life n).tbl i)
    unfolding linked_node started_rt
    Chain-at i l = elim (ℕ_discrete i i₀) [
      | no e ↦
          rw (bucket_ne i e)
            (Chain-update_other n.heap i p (n.tbl i) _ (apart i l) (inv.chains i l))
      | yes e ↦
          rw (e, bucket_self)
            (
              record {
                entry = started_rt env n.now rt life;
                stored = update_self n.heap p _;
                bucket = refl;
                hashed = hashed;
              },
              apart i₀ (hashing-lt rt.dest_addr),
              Chain-update_other n.heap i₀ p (n.tbl i₀) _ (apart i₀ (hashing-lt rt.dest_addr))
                  (inv.chains i₀ (hashing-lt rt.dest_addr)),
            )
    ]

    active_self :
        active_at (linked_node env p rt life n) i₀
        ≡ (if is_valid rt.state then 1 else 0) + active_at n i₀
    unfolding linked_node started_rt active_in
    active_self =
        rw (bucket_self, update_self)
          (ap (λ x. (if is_valid rt.state then 1 else 0) + x) (kept i₀ (hashing-lt rt.dest_addr)))

    count_active :
        (linked_node env p rt life n).num_active
        ≡ total (active_at (linked_node env p rt life n)) 64
    unfolding linked_node
    count_active = ground (
      arith,
      inv.active,
      inv.bounded,
      Inv-active-le n inv,
      active_self,
      total_change (active_at n) (active_at (linked_node env p rt life n)) 64 i₀
          (hashing-lt rt.dest_addr)
          (λ j l e.
            sym (ap (active_in (linked_node env p rt life n).heap) (bucket_ne j e) ∙ kept j l)),
    )

    pub linked_node-Inv : Inv (linked_node env p rt life n)
    unfolding linked_node
    linked_node-Inv = record {
      fresh = λ q l.
          rw (update_ne n.heap q p (some (started_rt env n.now rt life)) (omega arith))
            (inv.fresh q l);
      chains = Chain-at;
      entries = omega (
        arith,
        inv.entries,
        total_change (linked_in n) (linked_in (linked_node env p rt life n)) 64 i₀
            (hashing-lt rt.dest_addr) (λ j l e. ap length (sym (bucket_ne j e))),
        ap length bucket_self,
      );
      active = count_active;
      bounded = omega arith;
    }

    -- The new entry is found under its destination, and every other destination reads as before.
    pub linked_node-view_self : view (linked_node env p rt life n) rt.dest_addr ≡ some p
    unfolding linked_node started_rt lookup_in
    linked_node-view_self = rw (bucket_self, update_self, ==_refl)

    pub linked_node-view_ne :
        (d : ℕ) → d ≢ rt.dest_addr → view (linked_node env p rt life n) d ≡ view n d
    unfolding linked_node started_rt lookup_in
    linked_node-view_ne d e =
        let rest =
          lookup_in-update_other n.heap (hashing d) p (n.tbl (hashing d))
            (some (started_rt env n.now rt life)) d (apart (hashing d) (hashing-lt d)) in
        elim (ℕ_discrete (hashing d) i₀) [
          | no f ↦ rw (bucket_ne (hashing d) f) rest
          | yes f ↦
              rw
                (
                  ap (linked_node env p rt life n).tbl f
                      ∙ bucket_self
                      ∙ ap (λ j. p ∷ n.tbl j) (sym f),
                  update_self,
                  ==_ne rt.dest_addr d (λ s. e (sym s)),
                )
                rest
        ]

    pub linked_node-Ready : Ready n → Known rt.ifindex n → Ready (linked_node env p rt life n)
    unfolding linked_node started_rt ifindex2devindex
    linked_node-Ready ready known = record {
      own = ready.own;
      routes = λ q r l. elim (ℕ_discrete q p) [
        | yes e ↦
            let same : r ≡ started_rt env n.now rt life = ground (
              arith,
              l.stored,
              ap (λ x. (linked_node env p rt life n).heap x) e,
              linked_node-stored p rt life n,
            ) in
            rw same known
        | no e ↦ ready.routes q r (record {
          stored = sym (update_ne n.heap q p (some (started_rt env n.now rt life)) e) ∙ l.stored;
          member = elim (ℕ_discrete (hashing r.dest_addr) i₀) [
            | no f ↦ subst (In q) (bucket_ne (hashing r.dest_addr) f) l.member
            | yes f ↦
                elim (subst (In q)
                  (ap (linked_node env p rt life n).tbl f
                    ∙ bucket_self
                    ∙ ap (λ k. p ∷ n.tbl k) (sym f))
                  l.member) [ inl x ↦ absurd (e x) | inr x ↦ x ]
          ];
        })
      ];
    }
