-- ===== src/Route/Updated.antt =====
-- `rt_table_update` of code/aodv-uu-0.96/routing_table.c as one change of an entry.
use aodv_uu.Prelude.{
  ℕ, Option, false, not, ◌&&◌, some, ◌≡◌, ap, ◌∙◌, ltb, ◌==◌, if◌then◌else◌, Bool-cases, inl, inr,
}
use aodv_uu.Word.{u8, inc32, has_flag}
use aodv_uu.Params.{rt_inet_dest}
use aodv_uu.State.{RtTable, RtState, Node, Handler, is_valid}
use aodv_uu.Machine.{
  update, update_self, update-update, ◌>>=◌, ◌>>◌, modify_rt, then_run, get_rt_run, modify_rt_run,
  Env, skip, ret, when,
}
use aodv_uu.Table.{rt_table_update_timeout}
use aodv_uu.Route.{release_packets, released}
use aodv_uu.Route.Change.{rt_table_update, before_update, after_update, revived_flags}
use aodv_uu.Table.Timed.{timed, timed_run}

module _ (env : Env) where
  -- The entry after the last lines of an update.
  unfoldable pub finished : ℕ → ℕ → RtState → RtTable → RtTable
  finished now lifetime state rt =
      let r₁ = record rt { rt_timer = record (rt.rt_timer) { handler = Handler.route_expire } } in
      let r₂ = if not (has_flag rt.flags rt_inet_dest) then timed env now lifetime r₁ else r₁ in
      record r₂ { state = state }

  -- The entry after the update.
  unfoldable pub updated : ℕ → (next hops seqno lifetime : ℕ) → RtState → ℕ → RtTable → RtTable
  updated now next hops seqno lifetime state flags rt = finished now lifetime state (record rt {
    flags = revived_flags rt state flags;
    dest_seqno = seqno;
    next_hop = next;
    hcnt = u8 hops;
  })

  -- The entry at `p` is written as `rt`, and its packets are sent.
  unfoldable pub settled : Node → ℕ → RtTable → Option (Unit {0} × Node)
  settled n p rt =
      when (is_valid rt.state) (released env rt) (record n { heap = update n.heap p (some rt) })

  pub settled-settled :
      (n : Node) (p : ℕ) (r₁ rt : RtTable)
      → settled (record n { heap = update n.heap p (some r₁) }) p rt ≡ settled n p rt
  unfolding settled
  settled-settled n p r₁ rt = λ i.
      when (is_valid rt.state) (released env rt)
        (record n { heap = update-update n.heap p (some r₁) (some rt) i })

  tail_run :
      (n : Node) (p : ℕ) (state : RtState) (rt : RtTable)
      → n.heap p ≡ some rt
      → (modify_rt p (λ r. record r { state = state }) >> release_packets env p) n
        ≡ settled n p (record rt { state = state })
  unfolding release_packets settled
  tail_run n p state rt e =
      let r : RtTable = record rt { state = state } in
      let n₁ : Node = record n { heap = update n.heap p (some r) } in
      rw (modify_rt_run p _ _ n rt e, get_rt_run p _ n₁ r (update_self n.heap p (some r)))

  timed-skip :
      (n : Node) (p lifetime : ℕ) (rt : RtTable)
      → n.heap p ≡ some rt
      → (rt_table_update_timeout env (some p) lifetime >>= λ _. skip) n
        ≡ some (tt, record n { heap = update n.heap p (some (timed env n.now lifetime rt)) })
  timed-skip n p lifetime rt e = rw (◌>>=◌, timed_run env n p lifetime rt e)

  pub finished_run :
      (n : Node) (p lifetime : ℕ) (state : RtState) (rt : RtTable)
      → n.heap p ≡ some rt
      → after_update env p lifetime state n ≡ settled n p (finished n.now lifetime state rt)
  unfolding after_update finished
  finished_run n p lifetime state rt e =
      let r₁ : RtTable = record rt {
        rt_timer = record (rt.rt_timer) { handler = Handler.route_expire };
      } in
      let n₁ : Node = record n { heap = update n.heap p (some r₁) } in
      let r₂ = timed env n.now lifetime r₁ in
      let n₂ : Node = record n₁ { heap = update n₁.heap p (some r₂) } in
      let e₁ = update_self n.heap p (some r₁) in
      let e₂ = update_self n₁.heap p (some r₂) in
      rw (modify_rt_run p _ _ n rt e, get_rt_run p _ n₁ r₁ e₁)
        (elim (Bool-cases (has_flag rt.flags rt_inet_dest)) [
          | inl t ↦
              rw t
                (tail_run n₁ p state r₁ e₁ ∙ settled-settled n p r₁ (record r₁ { state = state }))
          | inr t ↦ rw t (
              then_run (rt_table_update_timeout env (some p) lifetime >>= λ _. skip) _ n₁ n₂
                (timed-skip n₁ p lifetime r₁ e₁)
              ∙ tail_run n₂ p state r₂ e₂
              ∙ settled-settled n₁ p r₂ (record r₂ { state = state })
              ∙ settled-settled n p r₁ (record r₂ { state = state }))
        ])

  -- The count of active entries after the update.
  unfoldable pub recounted : RtTable → RtState → ℕ → ℕ
  recounted rt state k = if not (is_valid rt.state) && is_valid state then inc32 k else k

  pub before_run :
      (n : Node) (p hops : ℕ) (state : RtState) (rt : RtTable)
      → n.heap p ≡ some rt
      → (ltb 1 (u8 hops) && rt.hcnt == 1) ≡ false
      → before_update env p hops state n
        ≡ some (tt, record n { num_active = recounted rt state n.num_active })
  unfolding before_update recounted
  before_run n p hops state rt e k =
      rw (get_rt_run p _ n rt e) (elim (Bool-cases (not (is_valid rt.state) && is_valid state)) [
        | inl t ↦ rw (t, ◌>>◌, k)
        | inr t ↦ rw (t, ◌>>◌, k)
      ])

  pub updated_run :
      (n : Node) (p next hops seqno lifetime : ℕ) (state : RtState) (flags : ℕ) (rt : RtTable)
      → n.heap p ≡ some rt
      → (ltb 1 (u8 hops) && rt.hcnt == 1) ≡ false
      → rt_table_update env p next hops seqno lifetime state flags n
        ≡ ((λ _.
                settled
                  (record n { num_active = recounted rt state n.num_active })
                  p
                  (updated n.now next hops seqno lifetime state flags rt))
              >> ret p)
            n
  unfolding rt_table_update updated
  updated_run n p next hops seqno lifetime state flags rt e k =
      let n₁ : Node = record n { num_active = recounted rt state n.num_active } in
      let r : RtTable = record rt {
        flags = revived_flags rt state flags;
        dest_seqno = seqno;
        next_hop = next;
        hcnt = u8 hops;
      } in
      let n₂ : Node = record n₁ { heap = update n.heap p (some r) } in
      rw
        (
          get_rt_run p _ n rt e,
          then_run (before_update env p hops state) _ n n₁ (before_run n p hops state rt e k),
          modify_rt_run p _ _ n₁ rt e,
        )
        (ap (λ o. ((λ _. o) >> ret p) n)
          (finished_run n₂ p lifetime state r (update_self n.heap p (some r))
            ∙ settled-settled n₁ p r (finished n.now lifetime state r)))
