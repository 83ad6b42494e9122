-- ===== src/Rrep/Drop.antt =====
-- The RREPs that `rrep_process` of code/aodv-uu-0.96/aodv_rrep.c drops.
use aodv_uu.Prelude.{
  ℕ, ◌<◌, ◌⊎◌, inl, inr, false, none, some, ◌≡◌, ◌≢◌, refl, sym, ap, ◌∙◌, arith, ◌==◌, ltb,
  Bool-cases, ℕ_discrete,
}
use aodv_uu.Word.{has_flag, lt_i32}
use aodv_uu.Params.{rt_unidir}
use aodv_uu.State.{Buffer, Node, RtTable, valid}
use aodv_uu.Machine.{◌>>=◌, Env, get_rt}
use aodv_uu.Device.{dev_ifindex, dev_nr}
use aodv_uu.Route.Invariant.{Inv, view, rt_table_find-view}
use aodv_uu.Fresh.{fresher, Costly, read_cost}
use aodv_uu.Fresh.Reads.{read_cost_keeps}
use aodv_uu.Rreq.Ignore.{own_ipaddr_run}
use aodv_uu.Rrep.{rrep_size}
use aodv_uu.Rrep.Process.{rrep_process, rrep_process_plain, forward_route, accepts}

-- The message does not replace the route to the destination that the node has: the number of the route
-- is known and not older than that of the message, and where the two are equal the route is
-- valid, not taken for unidirectional, and costs no more.
pub record IsStale (env : Env) (n : Node) (rrep : Buffer) (cost p : ℕ) (rt : RtTable) : Type 0 where
  pub found : view n (rrep 8) ≡ some p
  pub stored : n.heap p ≡ some rt
  pub known : rt.dest_seqno ≢ 0
  pub newer : lt_i32 rt.dest_seqno (rrep 12) ≡ false
  pub better :
      rrep 12 ≡ rt.dest_seqno
      → (rt.state ≡ valid)
        × (has_flag rt.flags rt_unidir ≡ false)
        × (env.lt_double cost rt.cost ≡ false)

stale_accepts :
    (env : Env) (n : Node) (rrep : Buffer) (cost p : ℕ) (rt : RtTable)
    → IsStale env n rrep cost p rt
    → accepts env.lt_double rrep cost rt ≡ false
unfolding accepts fresher
stale_accepts env n rrep cost p rt s = elim (ℕ_discrete (rrep 12) rt.dest_seqno) [
  | yes e ↦ let (v, f, c) = s.better e in ground (arith, s.known, s.newer, v, f, c)
  | no e ↦ ground (arith, s.known, s.newer, e)
]

forward_route_stale :
    (env : Env) (n : Node) (c : Costly) (ip_src ifindex p : ℕ) (rt : RtTable)
    → Inv n
    → IsStale env n c.message c.cost p rt
    → forward_route env c ip_src ifindex n ≡ some (none, n)
unfolding forward_route
forward_route_stale env n c ip_src ifindex p rt inv s =
    rw
      (
        ◌>>=◌,
        rt_table_find-view n (c.message 8) inv,
        s.found,
        get_rt,
        s.stored,
        stale_accepts env n c.message c.cost p rt s,
      )
      refl

-- The message with the cost of the link is as stale as the one that arrived.
costly-IsStale :
    (env : Env) (n : Node) (rrep : Buffer) (c : Costly) (p : ℕ) (rt : RtTable)
    → c.message 8 ≡ rrep 8
    → c.message 12 ≡ rrep 12
    → IsStale env n rrep c.cost p rt
    → IsStale env n c.message c.cost p rt
costly-IsStale env n rrep c p rt d q s = record {
  found = ap (view n) d ∙ s.found;
  stored = s.stored;
  known = s.known;
  newer = rw q s.newer;
  better = λ e. s.better (sym q ∙ e);
}

-- A RREP without the bit lr is dropped in a well-formed table if it is too short, if its destination is
-- this node, or if it is complete and, with the cost that it carries and that of the link, does not
-- replace the route to its destination that the node has. The handler returns, nothing changes and
-- nothing is sent. The device of the interface has to be known.
pub rrep_process_dropped :
    (env : Env) (n : Node) (rrep : Buffer) (rreplen ip_src ip_ttl ifindex dev : ℕ)
    → dev_ifindex ifindex n ≡ some (dev, n)
    → Inv n
    → has_flag (rrep 2) 32 ≡ false
    → (rreplen < rrep_size)
      ⊎ (rrep 8 ≡ (dev_nr dev n).ipaddr)
      ⊎ ((c : Costly) × (p : ℕ) × (rt : RtTable) × (read_cost env rrep ip_src rrep_size rreplen n
            ≡ some (c, n))
          × IsStale env n rrep c.cost p rt)
    → rrep_process env rrep rreplen ip_src ip_ttl ifindex n ≡ some (tt, n)
unfolding rrep_process rrep_process_plain
rrep_process_dropped env n rrep rreplen ip_src ip_ttl ifindex dev d inv lr h =
    let mine = own_ipaddr_run ifindex dev n d in
    elim (Bool-cases (ltb rreplen rrep_size)) [
      | inl t ↦ rw (lr, t) refl
      | inr t ↦ elim (Bool-cases (rrep 8 == (dev_nr dev n).ipaddr)) [
        | inl u ↦ rw (lr, t, ◌>>=◌, mine, u) refl
        | inr u ↦ elim h [
          | inl l ↦ absurd (ground (arith, l, t))
          | inr (inl s) ↦ absurd (ground (arith, s, u))
          | inr (inr (c, p, rt, e, s)) ↦
              let same = (read_cost_keeps env rrep ip_src rrep_size rreplen c n n e).1 in
              let s' =
                costly-IsStale env n rrep c p rt (same 8 (omega arith)) (same 12 (omega arith)) s in
              rw
                (
                  lr,
                  t,
                  ◌>>=◌,
                  mine,
                  u,
                  e,
                  rt_table_find-view n (rrep 16) inv,
                  forward_route_stale env n c ip_src ifindex p rt inv s',
                )
                refl
        ]
      ]
    ]
