-- ===== src/Route/Change.antt =====
-- Changes of entries in the routing table, code/aodv-uu-0.96/routing_table.c: `rt_table_update` and
-- `rt_table_update_with_channel`, the timeouts, `rt_table_invalidate`, `rt_table_delete` and
-- `rt_table_destroy`.
use aodv_uu.Prelude.{
  ℕ, zero, suc, ◌+◌, Bool, false, not, ◌&&◌, ◌||◌, List, [], ◌∷◌, Option, none, some, ℤ, pos,
  negsuc, ltb, ◌==◌, if◌then◌else◌,
}
use aodv_uu.Word.{u8, inc32, dec32, has_flag, clear_flag}
use aodv_uu.Seqno.{seqno_incr}
use aodv_uu.Params.{rt_repair, rt_inet_dest, rt_tablesize}
use aodv_uu.State.{Handler, RtTable, RtState, invalid, is_valid}
use aodv_uu.Machine.{M, ◌>>=◌, ◌>>◌, ret, skip, get, modify, update, get_rt, modify_rt, when, Env}
use aodv_uu.Precursor.{precursor_list_destroy}
use aodv_uu.Table.{rt_table_update_timeout, rt_table_find}
use aodv_uu.Route.{release_packets}

-- The flags that an update sets: a route that is valid again is no longer in repair.
unfoldable pub revived_flags : RtTable → RtState → ℕ → ℕ
revived_flags rt state flags =
    if not (is_valid rt.state) && is_valid state && has_flag rt.flags rt_repair
    then clear_flag flags rt_repair
    else flags

module _ (env : Env) where
  -- What both updates do before they write the route: an expired route that becomes valid is counted,
  -- and a neighbour that is one no more has its link broken.
  unfoldable pub before_update : ℕ → ℕ → RtState → M (Unit {0})
  before_update p hops state = do
    rt ← get_rt p
    when (not (is_valid rt.state) && is_valid state)
        (modify λ n. record n { num_active = inc32 n.num_active })
    when (ltb 1 (u8 hops) && rt.hcnt == 1) (do
      modify_rt p λ r. record r {
        last_hello_time = 0;
        hello_cnt = 0;
        hello_timer = env.timer_remove r.hello_timer;
      }
      env.neighbor_link_break p)

  -- What both do after it: the timer, the state, and the packets that wait.
  unfoldable pub after_update : ℕ → ℕ → RtState → M (Unit {0})
  after_update p lifetime state = do
    modify_rt p λ r. record r { rt_timer = record (r.rt_timer) { handler = Handler.route_expire } }
    rt ← get_rt p
    when (not (has_flag rt.flags rt_inet_dest))
        (rt_table_update_timeout env (some p) lifetime >>= λ _. skip)
    modify_rt p λ r. record r { state = state }
    release_packets env p

  unfoldable pub rt_table_update : ℕ → (next hops seqno lifetime : ℕ) → RtState → (flags : ℕ) → M ℕ
  rt_table_update p next hops seqno lifetime state flags = do
    rt ← get_rt p
    before_update p hops state
    modify_rt p λ r. record r {
      flags = revived_flags rt state flags;
      dest_seqno = seqno;
      next_hop = next;
      hcnt = u8 hops;
    }
    after_update p lifetime state
    ret p

  unfoldable pub rt_table_update_with_channel :
      ℕ → (next hops seqno lifetime : ℕ) → RtState → (flags : ℕ) → ℤ → ℕ → M ℕ
  rt_table_update_with_channel p next hops seqno lifetime state flags channel cost = do
    rt ← get_rt p
    before_update p hops state
    modify_rt p λ r. record r {
      flags = revived_flags rt state flags;
      dest_seqno = seqno;
      next_hop = next;
      hcnt = u8 hops;
      channel = channel;
      cost = cost;
    }
    after_update p lifetime state
    ret p

  -- The neighbour that is the next hop of `rt`, if it is another node.
  unfoldable pub update_next_hop_timeout : RtTable → M (Unit {0})
  update_next_hop_timeout rt = do
    found ← rt_table_find rt.next_hop
    elim found [
      | none ↦ skip
      | some q ↦ do
        next_hop_rt ← get_rt q
        when
            (is_valid next_hop_rt.state
              && not (next_hop_rt.dest_addr == rt.dest_addr)
              && (env.llfeedback || rt.hello_timer.used))
            (rt_table_update_timeout env (some q) env.active_route_timeout >>= λ _. skip)
    ]

  -- One half of `rt_table_update_route_timeouts`; `inet` is the extra case of the forward route.
  unfoldable pub refresh_route : (RtTable → Bool) → Option ℕ → M (Unit {0})
  refresh_route inet none = skip
  refresh_route inet (some p) = do
    rt ← get_rt p
    when (is_valid rt.state) (do
      when (env.llfeedback || inet rt || not (rt.hcnt == 1) || rt.hello_timer.used)
          (rt_table_update_timeout env (some p) env.active_route_timeout >>= λ _. skip)
      rt' ← get_rt p
      update_next_hop_timeout rt')

  unfoldable pub rt_table_update_route_timeouts : Option ℕ → Option ℕ → M (Unit {0})
  rt_table_update_route_timeouts fwd_rt rev_rt = do
    refresh_route (λ rt. has_flag rt.flags rt_inet_dest) fwd_rt
    refresh_route (λ rt. false) rev_rt

  -- The entry after it was invalidated at the time `now`.
  unfoldable pub invalidated : ℕ → RtTable → RtTable
  invalidated now rt =
      let repair = has_flag rt.flags rt_repair in
      let stopped = env.timer_remove rt.rt_timer in
      record rt {
        rt_timer =
            env.timer_set_timeout now
              (if repair then env.active_route_timeout else env.delete_period)
              (record stopped {
                handler = if repair then Handler.local_repair else Handler.route_delete;
              });
        hello_timer = env.timer_remove rt.hello_timer;
        ack_timer = env.timer_remove rt.ack_timer;
        state = invalid;
        hello_cnt = 0;
        dest_seqno = seqno_incr rt.dest_seqno;
        last_hello_time = 0;
      }

  -- The result is 0, or -1 where nothing is done.
  unfoldable pub rt_table_invalidate : Option ℕ → M ℤ
  rt_table_invalidate none = ret (negsuc 0)
  rt_table_invalidate (some p) = do
    n ← get
    rt ← get_rt p
    if is_valid rt.state
        then (do
          modify_rt p (invalidated n.now)
          modify λ m. record m { num_active = dec32 m.num_active }
          ret (pos 0))
        else ret (negsuc 0)

  -- `list_detach` takes the entry out of the bucket that it stands in, and `free` ends its life.
  unfoldable pub rt_table_delete : Option ℕ → M (Unit {0})
  rt_table_delete none = skip
  rt_table_delete (some p) = do
    modify λ n. record n { tbl = λ i. env.pointers.list_detach (n.tbl i) p }
    precursor_list_destroy (some p)
    rt ← get_rt p
    when (is_valid rt.state) (modify λ n. record n { num_active = dec32 n.num_active })
    modify λ n. record n { num_entries = dec32 n.num_entries; heap = update n.heap p none }

  -- `list_foreach_safe` over one bucket, and the loop over the buckets.
  unfoldable pub delete_all : List ℕ → M (Unit {0})
  delete_all [] = skip
  delete_all (p ∷ ps) = do rt_table_delete (some p); delete_all ps

  unfoldable pub destroy_from : (rounds i : ℕ) → M (Unit {0})
  destroy_from zero i = skip
  destroy_from (suc rounds) i = do n ← get; delete_all (n.tbl i); destroy_from rounds (i + 1)

  unfoldable pub rt_table_destroy : M (Unit {0})
  rt_table_destroy = destroy_from rt_tablesize 0
