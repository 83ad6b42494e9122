-- ===== src/Rerr/Process.antt =====
-- What `rerr_process` leaves alone.
use aodv_uu.Prelude.{
  ℕ, zero, suc, ◌+◌, ◌≤◌, ◌<◌, ◌&&◌, true, false, none, some, ◌≡◌, ◌≢◌, refl, sym, ap, ◌∙◌, arith,
  ◌==◌, ltb, Option-cases, Bool-cases, inl, inr,
}
use aodv_uu.State.{Node, RtTable, Buffer, is_valid, valid}
use aodv_uu.Machine.{◌>>=◌, Env, bind_run, get_rt}
use aodv_uu.Records.{rerr_record_find}
use aodv_uu.Records.Seen.{rerr_record_insert-find}
use aodv_uu.Route.Invariant.{
  Inv, SameTable, SameTable-Inv, SameTable-view, view, view-Linked, rt_table_find-view,
}
use aodv_uu.Rerr.{
  Pending, process_udest, process_udests, rerr_process, rerr_udest_at, rerr_calc_size,
}

-- A RERR whose originator, id and sender are not recorded is shorter than its count of destinations
-- needs. It is recorded, and nothing else is done. In every later state that has the same records of
-- RERRs, every RERR with the same originator, id and sender is dropped, the complete ones too,
-- whatever their length.
pub rerr_process_truncated :
    (env : Env) (n : Node) (rerr : Buffer) (rerrlen ip_src : ℕ)
    → rerr_record_find (rerr 20) (rerr 16) ip_src n ≡ none
    → rerrlen < rerr_calc_size (rerr 4)
    → (m : Node) × (rerr_process env rerr rerrlen ip_src n ≡ some (tt, m))
      × (m ≡ record n { next_address = m.next_address; rerr_records = m.rerr_records })
      × ((rerr' : Buffer) (len : ℕ)
          → rerr' 20 ≡ rerr 20
          → rerr' 16 ≡ rerr 16
          → (k : Node) → k.rerr_records ≡ m.rerr_records
          → rerr_process env rerr' len ip_src k ≡ some (tt, k))
unfolding rerr_process rerr_record_find
rerr_process_truncated env n rerr rerrlen ip_src e l =
    let (rec, m, run, frame, later, found, _, _, _) =
      rerr_record_insert-find env n (rerr 20) (rerr 16) ip_src in
    let short : ltb rerrlen (rerr_calc_size (rerr 4)) ≡ true = ground (arith, l) in
    (m, rw (◌>>=◌, e, run, short), frame, λ rerr' len o i k same. rw (◌>>=◌, o, i, same, found))

-- The destinations of a message from `from` on, `rounds` of them: none has a valid route over the
-- sender.
abbrev pub NotVia : Node → Buffer → (ip_src rounds from : ℕ) → Type 0
NotVia n rerr ip_src rounds from =
    (k p : ℕ) (rt : RtTable)
    → from ≤ k
    → k < from + rounds
    → view n (rerr (rerr_udest_at k)) ≡ some p
    → n.heap p ≡ some rt
    → rt.state ≡ valid
    → rt.next_hop ≢ ip_src

process_udest_skip :
    (env : Env) (n : Node) (rerr : Buffer) (ip_src k : ℕ) (pending : Pending)
    → Inv n
    → NotVia n rerr ip_src 1 k
    → process_udest env rerr ip_src k pending n ≡ some (pending, n)
unfolding process_udest
process_udest_skip env n rerr ip_src k pending inv h =
    let d = rerr (rerr_udest_at k) in
    elim (Option-cases (view n d)) [
      | inl e ↦ rw (◌>>=◌, rt_table_find-view n d inv, e)
      | inr (p, e) ↦
          let (rt, l, to) = view-Linked n d inv e in
          elim (Bool-cases (is_valid rt.state && rt.next_hop == ip_src)) [
            | inl t ↦ absurd (
                h k p rt (omega arith) (omega arith) e l.stored (ground (arith, t))
                  (ground (arith, t)))
            | inr t ↦ rw (◌>>=◌, rt_table_find-view n d inv, e, get_rt, l.stored, t)
          ]
    ]

process_udests_skip :
    (env : Env) (n : Node) (rerr : Buffer) (ip_src rounds k : ℕ) (pending : Pending)
    → Inv n
    → NotVia n rerr ip_src rounds k
    → process_udests env rerr ip_src rounds k pending n ≡ some (pending, n)
unfolding process_udests
process_udests_skip env n rerr ip_src zero k pending inv h = refl
process_udests_skip env n rerr ip_src (suc rounds) k pending inv h =
    bind_run (process_udest env rerr ip_src k pending) _ n n pending
      (process_udest_skip env n rerr ip_src k pending inv (λ j p rt a b. h j p rt a (omega arith)))
    ∙ process_udests_skip env n rerr ip_src rounds (k + 1) pending inv
        (λ j p rt a b. h j p rt (omega arith) (omega arith))

-- A RERR that is complete and not yet recorded names no destination to which the well-formed table has a
-- valid route over the sender. Then it is recorded, and nothing else happens: no routing entry
-- changes and nothing leaves the node.
pub rerr_process_unaffected :
    (env : Env) (n : Node) (rerr : Buffer) (rerrlen ip_src : ℕ)
    → Inv n
    → rerr_record_find (rerr 20) (rerr 16) ip_src n ≡ none
    → rerr_calc_size (rerr 4) ≤ rerrlen
    → NotVia n rerr ip_src (rerr 4) 0
    → (m : Node) × (rerr_process env rerr rerrlen ip_src n ≡ some (tt, m))
      × (m ≡ record n { next_address = m.next_address; rerr_records = m.rerr_records })
      × ((rerr_record_find (rerr 20) (rerr 16) ip_src m) ≢ none)
unfolding rerr_process
rerr_process_unaffected env n rerr rerrlen ip_src inv e l h =
    let (rec, m, run, frame, later, found, _, _, _) =
      rerr_record_insert-find env n (rerr 20) (rerr 16) ip_src in
    let long : ltb rerrlen (rerr_calc_size (rerr 4)) ≡ false = ground (arith, l) in
    let same : SameTable n m = record {
      heap = ap Node.heap frame;
      next_address = later;
      num_entries = ap Node.num_entries frame;
      num_active = ap Node.num_active frame;
      tbl = ap Node.tbl frame;
    } in
    let inv' = SameTable-Inv same inv in
    let h' : NotVia m rerr ip_src (rerr 4) 0 = λ k p rt a b s st.
      h k p rt a b (sym (SameTable-view same (rerr (rerr_udest_at k))) ∙ s)
        (ap (λ g. g p) (sym same.heap) ∙ st) in
    let pending : Pending = record { new_rerr = false; unicast_dest = 0 } in
    (
      m,
      rw (◌>>=◌, e, run, long, process_udests_skip env m rerr ip_src (rerr 4) 0 pending inv' h'),
      frame,
      λ s. ground (arith, found, s),
    )
