-- ===== src/Table/Timed.antt =====
-- `rt_table_update_timeout` of code/aodv-uu-0.96/routing_table.c, as a change of an entry.
use aodv_uu.Prelude.{
  ℕ, ◌+◌, ◌≤◌, not, ◌||◌, some, ◌≡◌, refl, ap, ◌∙◌, arith, pos, ltb_ℤ, if◌then◌else◌, Bool-cases,
  inl, inr,
}
use aodv_uu.State.{RtTable, Node, is_valid, valid}
use aodv_uu.Machine.{update, stored_again, ◌>>=◌, ◌>>◌, get_rt, modify_rt, Env, TimerLaws}
use aodv_uu.Table.{rt_table_update_timeout}

module _ (env : Env) where
  -- The entry after its timeout was updated at the time `now`.
  unfoldable pub timed : ℕ → ℕ → RtTable → RtTable
  timed now lifetime rt =
      if not (is_valid rt.state)
        || ltb_ℤ (env.timeval_diff rt.rt_timer.timeout (env.timeval_add_msec now lifetime)) (pos 0)
      then record rt { rt_timer = env.timer_set_timeout now lifetime rt.rt_timer }
      else rt

  pub timed_run :
      (n : Node) (p lifetime : ℕ) (rt : RtTable)
      → n.heap p ≡ some rt
      → rt_table_update_timeout env (some p) lifetime n
        ≡ some (some p, record n { heap = update n.heap p (some (timed n.now lifetime rt)) })
  unfolding rt_table_update_timeout timed
  timed_run n p lifetime rt e =
      let test =
        not (is_valid rt.state)
        || ltb_ℤ (env.timeval_diff rt.rt_timer.timeout (env.timeval_add_msec n.now lifetime))
            (pos 0) in
      elim (Bool-cases test) [
        | inl t ↦ rw (◌>>=◌, ◌>>◌, get_rt, e, t, modify_rt, e)
        | inr t ↦ rw (◌>>=◌, ◌>>◌, get_rt, e, t) (stored_again (some p) n p e)
      ]

  -- The entry after its timeout was updated a number of times.
  pub data Later (now lifetime : ℕ) (old : RtTable) : RtTable → Type 0 where
    same : Later now lifetime old old
    again :
        (new : RtTable)
        → Later now lifetime old new
        → Later now lifetime old (timed now lifetime new)

  pub Later-trans :
      {now lifetime : ℕ} {a b c : RtTable}
      → Later now lifetime a b
      → Later now lifetime b c
      → Later now lifetime a c
  Later-trans f same = f
  Later-trans f (again c g) = again c (Later-trans f g)

  -- Only the timer changed.
  timed_rest :
      (now lifetime : ℕ) (rt : RtTable)
      → timed now lifetime rt ≡ record rt { rt_timer = (timed now lifetime rt).rt_timer }
  unfolding timed
  timed_rest now lifetime rt = ground arith

  pub Later-rest :
      {now lifetime : ℕ} {old new : RtTable}
      → Later now lifetime old new
      → new ≡ record old { rt_timer = new.rt_timer }
  Later-rest same = refl
  Later-rest {now = now} {lifetime = lifetime} (again c g) =
      timed_rest now lifetime c
      ∙ (λ i. record (Later-rest g i) { rt_timer = (timed now lifetime c).rt_timer })

  -- The timers behave as documented: the timeout of a valid route moves to later times only, and the
  -- handler stays.
  pub Later-timer :
      (laws : TimerLaws env) {now lifetime : ℕ} {old new : RtTable}
      → Later now lifetime old new
      → (new.rt_timer.handler ≡ old.rt_timer.handler)
        × (old.state ≡ valid → old.rt_timer.timeout ≤ new.rt_timer.timeout)
  unfolding timed
  Later-timer laws same = (refl, λ _. omega arith)
  Later-timer laws {now = now} {lifetime = lifetime} {old = old} (again c g) =
      let (h, l) = Later-timer laws g in
      let st : c.state ≡ old.state = ap RtTable.state (Later-rest g) in
      let t = laws.set_timeout now lifetime c.rt_timer in
      let a = laws.add_msec now lifetime in
      let d = laws.diff_lt c.rt_timer.timeout (now + lifetime) 0 in
      let k = laws.set_handler now lifetime c.rt_timer in
      (ground (arith, k, h), λ v. ground (arith, t, a, d, l v, st, v))
