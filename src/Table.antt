-- ===== src/Table.antt =====
-- What the routing table and the packet queue share: the lookup and the update of a timeout in
-- code/aodv-uu-0.96/routing_table.c.
pub mod Timed
use aodv_uu.Prelude.{
  ℕ, ◌%◌, Bool, not, ◌&&◌, ◌||◌, List, [], ◌∷◌, Option, none, some, pos, ltb_ℤ, ◌==◌, if◌then◌else◌,
}
use aodv_uu.Params.{rt_tablesize}
use aodv_uu.State.{RtTable, is_valid}
use aodv_uu.Machine.{M, ◌>>=◌, ◌>>◌, ret, get, get_rt, modify_rt, when, Env}

-- `hashing`: the place in the table. The hash value is the address itself.
abbrev pub hashing : ℕ → ℕ
hashing addr = addr % rt_tablesize

-- `list_foreach` over a bucket, up to the first entry that passes the test.
unfoldable pub find_entry : (RtTable → Bool) → List ℕ → M (Option ℕ)
find_entry test [] = ret none
find_entry test (p ∷ ps) = do rt ← get_rt p; if test rt then ret (some p) else find_entry test ps

unfoldable pub rt_table_find : ℕ → M (Option ℕ)
rt_table_find dest_addr = do
  n ← get
  if n.num_entries == 0
      then ret none
      else find_entry (λ rt. rt.hash == dest_addr && rt.dest_addr == dest_addr)
          (n.tbl (hashing dest_addr))

module _ (env : Env) where
  -- The current timeout stays if it is the later one.
  unfoldable pub rt_table_update_timeout : Option ℕ → ℕ → M (Option ℕ)
  rt_table_update_timeout none lifetime = ret none
  rt_table_update_timeout (some p) lifetime = do
    rt ← get_rt p
    n ← get
    let later =
        ltb_ℤ (env.timeval_diff rt.rt_timer.timeout (env.timeval_add_msec n.now lifetime)) (pos 0)
    when (not (is_valid rt.state) || later)
        (modify_rt p λ r. record r { rt_timer = env.timer_set_timeout n.now lifetime r.rt_timer })
    ret (some p)
