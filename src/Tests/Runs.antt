-- ===== src/Tests/Runs.antt =====
-- Runs of the routing table.
use aodv_uu.Prelude.{ℕ, ◌≡◌, refl, none, some, Option, pos, List, ◌∷◌, []}
use aodv_uu.State.{valid, Node}
use aodv_uu.Machine.{M, ◌>>=◌, ◌>>◌, ret, get}
use aodv_uu.Device.{dev_ifindex, ifindex2devindex, devindex_from}
use aodv_uu.Precursor.{precursor_add, precursor_list_destroy, destroy_loop, has_precursor, emptied}
use aodv_uu.Table.{rt_table_find, find_entry, rt_table_update_timeout}
use aodv_uu.Route.{
  rt_table_insert, rt_table_insert_with_channel, new_rt, insert_handler, insert_life, released,
  release_packets, started_rt, linked_node, insert_entry,
}
use aodv_uu.Route.Change.{
  rt_table_update, rt_table_invalidate, rt_table_delete, revived_flags, before_update, after_update,
  invalidated,
}
use aodv_uu.Seqno.{seqno_incr}
use aodv_uu.Tests.Env.{env, fresh}

abbrev result : {A : Type 0} → Option (A × Node) → Option A
result (some (a, n)) = some a
result none = none

-- What a run computes with.
unfoldable pub program : Unit {0}
unfolding rt_table_insert rt_table_insert_with_channel rt_table_find rt_table_update
    rt_table_invalidate rt_table_delete precursor_add seqno_incr dev_ifindex ifindex2devindex
    devindex_from find_entry new_rt insert_handler insert_life released release_packets started_rt
    linked_node insert_entry rt_table_update_timeout revived_flags before_update after_update
    invalidated precursor_list_destroy destroy_loop has_precursor emptied
program = tt

abbrev session : M (Option ℕ × Option ℕ × Option ℕ × ℕ × ℕ × List ℕ)
session = do
  a ← rt_table_insert env 65 7 2 10 1000 valid 0 0
  b ← rt_table_insert_with_channel env 129 8 1 20 1000 valid 0 0 (pos 2) 5
  c ← rt_table_find 65
  r ← rt_table_update env 2 9 3 21 2000 valid 0
  i ← rt_table_invalidate env a
  precursor_add env b 77
  rt_table_delete env a
  d ← rt_table_find 65
  n ← get
  ret (b, c, d, n.num_entries, n.num_active, n.tbl 1)

result-session : result (session fresh) ≡ some (some 2, some 1, none, 1, 1, 2 ∷ [])
unfolding program
result-session = refl
