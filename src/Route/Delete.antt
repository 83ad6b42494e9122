-- ===== src/Route/Delete.antt =====
-- `rt_table_delete` on a well-formed table.
use aodv_uu.Prelude.{
  ℕ, ◌+◌, ◌<◌, true, List, none, some, ◌≡◌, ◌≢◌, refl, sym, ap, ◌∙◌, arith, Bool-cases, ◌==◌,
  if◌then◌else◌, fun_ext, total, ==_ne, length, total_change, inl, inr,
}
use aodv_uu.Word.{dec32}
use aodv_uu.State.{RtTable, Node, is_valid}
use aodv_uu.Machine.{
  update, update_self, update_ne, unlink, own_address, ◌>>◌, then_run, get_rt_run, Env,
}
use aodv_uu.Precursor.{precursor_list_destroy, emptied}
use aodv_uu.Precursor.Laws.{precursor_list_destroy_run}
use aodv_uu.Table.{hashing}
use aodv_uu.Route.Chain.{
  In, Chain, valid_entry, active_in, goes_to, lookup_in, Chain-unlink, NotIn-unlink_self,
  unlink-NotIn, length-unlink, active_in-unlink, lookup_in-unlink, Chain-update_other,
  active_in-update_other, lookup_in-update_other, lookup_in-unlink_self,
}
use aodv_uu.Route.Change.{rt_table_delete}
use aodv_uu.Route.Invariant.{Inv, Linked, view, Inv-active-le, linked_in, active_at, hashing-lt}
use aodv_uu.Route.Modify.{Linked-NotIn, Linked-old}

module _ (env : Env) (n : Node) (p : ℕ) (rt : RtTable) where
  -- The state after the deletion of the entry at `p`.
  deleted : Node
  deleted = record n {
    tbl = λ i. unlink own_address (n.tbl i) p;
    num_active = if is_valid rt.state then dec32 n.num_active else n.num_active;
    num_entries = dec32 n.num_entries;
    heap = update (update n.heap p (some (emptied rt))) p none;
  }

  detached :
      ◌≡◌ {A = ℕ → List ℕ}
        (λ i. env.pointers.list_detach (n.tbl i) p)
        (λ i. unlink own_address (n.tbl i) p)
  detached = fun_ext (λ i. env.pointers.list_detach-unlink (n.tbl i) p)

  freed : deleted.heap ≡ update n.heap p none
  unfolding deleted
  freed = fun_ext λ q. elim (Bool-cases (q == p)) [ inl e ↦ rw e | inr e ↦ rw e ]

  delete_run : n.heap p ≡ some rt → rt_table_delete env (some p) n ≡ some (tt, deleted)
  unfolding rt_table_delete deleted emptied
  delete_run e =
      let n₁ : Node = record n { tbl = λ i. unlink own_address (n.tbl i) p } in
      let n₂ : Node = record n₁ { heap = update n.heap p (some (emptied rt)) } in
      rw
        (
          detached,
          then_run (precursor_list_destroy (some p)) _ n₁ n₂ (precursor_list_destroy_run n₁ p rt e),
          get_rt_run p _ n₂ (emptied rt) (update_self n.heap p (some (emptied rt))),
        )
        (elim (Bool-cases (is_valid rt.state)) [ inl v ↦ rw (v, ◌>>◌) | inr v ↦ rw (v, ◌>>◌) ])

  module _ (inv : Inv n) (l : Linked n p rt) where
    -- Other buckets are as they were.
    bucket_ne : (j : ℕ) → j < 64 → j ≢ hashing rt.dest_addr → deleted.tbl j ≡ n.tbl j
    unfolding deleted
    bucket_ne j lt e = unlink-NotIn p (n.tbl j) (Linked-NotIn n p rt inv l j lt e)

    Chain-at : (i : ℕ) → i < 64 → Chain deleted.heap i (deleted.tbl i)
    unfolding deleted
    Chain-at i lt = rw freed (
        Chain-update_other n.heap i p (unlink own_address (n.tbl i) p) none
          (NotIn-unlink_self n.heap i p (n.tbl i) (inv.chains i lt))
          (Chain-unlink n.heap i p (n.tbl i) (inv.chains i lt)))

    abbrev i₀ : ℕ
    i₀ = hashing rt.dest_addr

    -- In every bucket the entries that are left count as before.
    active_left :
        (j : ℕ) → j < 64 → active_at deleted j ≡ active_in n.heap (unlink own_address (n.tbl j) p)
    unfolding deleted
    active_left j lt =
        ap (λ h. active_in h (unlink own_address (n.tbl j) p)) freed
        ∙ active_in-update_other n.heap j p (unlink own_address (n.tbl j) p) none
            (NotIn-unlink_self n.heap j p (n.tbl j) (inv.chains j lt))

    length_here : linked_in deleted i₀ + 1 ≡ linked_in n i₀
    unfolding deleted
    length_here = length-unlink p (n.tbl i₀) l.member

    active_here : active_at deleted i₀ + valid_entry (some rt) ≡ active_at n i₀
    active_here = omega (
      arith,
      active_left i₀ (hashing-lt rt.dest_addr),
      ap valid_entry l.stored,
      active_in-unlink n.heap i₀ p (n.tbl i₀) l.member (inv.chains i₀ (hashing-lt rt.dest_addr)),
    )

    entries_left : total (linked_in deleted) 64 + 1 ≡ n.num_entries
    entries_left = omega (
      arith,
      inv.entries,
      length_here,
      total_change (linked_in n) (linked_in deleted) 64 i₀ (hashing-lt rt.dest_addr)
          (λ j lt e. ap length (sym (bucket_ne j lt e))),
    )

    actives_left : total (active_at deleted) 64 + valid_entry (some rt) ≡ n.num_active
    actives_left = omega (
      arith,
      inv.active,
      active_here,
      total_change (active_at n) (active_at deleted) 64 i₀ (hashing-lt rt.dest_addr) (λ j lt e.
          ap (active_in n.heap) (sym (unlink-NotIn p (n.tbl j) (Linked-NotIn n p rt inv l j lt e)))
          ∙ sym (active_left j lt)),
    )

    deleted-Inv : Inv deleted
    unfolding deleted
    deleted-Inv = record {
      fresh = λ q le.
          ap (λ h. h q) freed
          ∙ update_ne n.heap q p none (omega (arith, Linked-old n p rt inv l))
          ∙ inv.fresh q le;
      chains = Chain-at;
      entries = omega (arith, entries_left, inv.bounded);
      active = ground (arith, actives_left, Inv-active-le n inv, inv.bounded);
      bounded = omega (arith, inv.bounded);
    }

    view_ne : (d : ℕ) → d ≢ rt.dest_addr → view deleted d ≡ view n d
    unfolding deleted
    view_ne d e =
        let i = hashing d in
        ap (λ h. lookup_in h d (unlink own_address (n.tbl i) p)) freed
        ∙ lookup_in-update_other n.heap i p (unlink own_address (n.tbl i) p) none d
            (NotIn-unlink_self n.heap i p (n.tbl i) (inv.chains i (hashing-lt d)))
        ∙ lookup_in-unlink n.heap i p (n.tbl i) d
            (ap (goes_to d) l.stored ∙ ==_ne rt.dest_addr d (λ s. e (sym s)))

    -- The pointer names an entry of a well-formed table. The call frees it and does not fault; the
    -- table stays well-formed and has one entry less, and one active entry less if the entry was
    -- valid; every other destination is looked up as before, and its own is unknown if no other
    -- entry goes there.
    pub rt_table_delete-Inv :
        (m : Node) × (rt_table_delete env (some p) n ≡ some (tt, m))
        × Inv m
        × (m.num_entries + 1 ≡ n.num_entries)
        × (m.num_active + valid_entry (some rt) ≡ n.num_active)
        × (m.heap p ≡ none)
        × ((d : ℕ) → d ≢ rt.dest_addr → view m d ≡ view n d)
        × (((q : ℕ)
              → In q (n.tbl (hashing rt.dest_addr))
              → goes_to rt.dest_addr (n.heap q) ≡ true
              → q ≡ p)
            → view m rt.dest_addr ≡ none)
    unfolding deleted
    rt_table_delete-Inv = (
      deleted,
      delete_run l.stored,
      deleted-Inv,
      omega (arith, entries_left, inv.bounded),
      ground (arith, actives_left, Inv-active-le n inv, inv.bounded),
      ap (λ h. h p) freed ∙ update_self n.heap p none,
      view_ne,
      λ only.
          ap (λ h. lookup_in h rt.dest_addr (unlink own_address (n.tbl i₀) p)) freed
          ∙ lookup_in-update_other n.heap i₀ p (unlink own_address (n.tbl i₀) p) none rt.dest_addr
              (NotIn-unlink_self n.heap i₀ p (n.tbl i₀) (inv.chains i₀ (hashing-lt rt.dest_addr)))
          ∙ lookup_in-unlink_self n.heap i₀ p (n.tbl i₀) rt.dest_addr only
              (inv.chains i₀ (hashing-lt rt.dest_addr)),
    )

    -- What the next deletion meets.
    pub rt_table_delete-bucket :
        (m : Node) × (rt_table_delete env (some p) n ≡ some (tt, m))
        × Inv m
        × (m.tbl ≡ (λ i. unlink own_address (n.tbl i) p))
    unfolding deleted
    rt_table_delete-bucket = (deleted, delete_run l.stored, deleted-Inv, refl)
