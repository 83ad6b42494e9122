-- ===== src/Tests/Witnesses.antt =====
-- The theorems at concrete inputs: the routing table.
use aodv_uu.Prelude.{ℕ, ◌+◌, ◌<◌, true, false, none, some, ◌≡◌, ◌≢◌, refl, [], pos, arith, inl, inr}
use aodv_uu.State.{Node, RtTable, valid, Handler}
use aodv_uu.Machine.{update}
use aodv_uu.Device.{ifindex2devindex, devindex_from}
use aodv_uu.Precursor.{emptied, has_precursor}
use aodv_uu.Precursor.Laws.{IsCounted}
use aodv_uu.Table.{rt_table_find, rt_table_update_timeout}
use aodv_uu.Route.{rt_table_insert, rt_table_insert_with_channel}
use aodv_uu.Route.Chain.{lookup_in, In, goes_to}
use aodv_uu.Route.Change.{
  rt_table_invalidate, rt_table_delete, rt_table_update, rt_table_destroy, invalidated,
}
use aodv_uu.Route.Invariant.{Inv, Linked, view, rt_table_find-view}
use aodv_uu.Route.Insert.{Inserted, rt_table_insert_new}
use aodv_uu.Route.Invalidate.{rt_table_invalidate-Inv}
use aodv_uu.Route.Delete.{rt_table_delete-Inv}
use aodv_uu.Route.Update.{IsUpdated, rt_table_update_timeout-later, rt_table_update-Inv}
use aodv_uu.Route.Channel.{NoneOn, rt_table_insert_with_channel_new}
use aodv_uu.Route.Destroy.{rt_table_destroy-empty}
use aodv_uu.Timeout.{route_expire_timeout, local_repair_timeout}
use aodv_uu.Timeout.Repair.{IsDoomed, local_repair_timeout-Inv}
use aodv_uu.Timeout.Expire.{route_expire_timeout-Inv}
use aodv_uu.Tests.Env.{env, env-TimerLaws}
use aodv_uu.Device.Index.{SameHost}
use aodv_uu.Link.Leaves.{Only}
use aodv_uu.Queue.Waiting.{Waiting}
use aodv_uu.Route.Release.{sought}
use aodv_uu.Tests.Table.{entry, routed, routed-Inv, routed-Ready, routed-Linked}

rt_table_find-view_example : rt_table_find 65 routed ≡ some (some 1, routed)
unfolding lookup_in
rt_table_find-view_example = rt_table_find-view routed 65 routed-Inv

rt_table_insert_new_example :
    (n' : Node) × (rt_table_insert env 66 9 1 20 1000 valid 0 0 routed ≡ some (some 2, n'))
    × Inserted env routed n' 66 2
unfolding lookup_in ifindex2devindex devindex_from
rt_table_insert_new_example =
    rt_table_insert_new env routed routed-Inv 66 9 1 20 1000 valid 0 0 routed-Ready (0, refl)
      (omega arith) refl

rt_table_invalidate-Inv_example :
    (m : Node) × (rt_table_invalidate env (some 1) routed ≡ some (pos 0, m))
    × Inv m
    × (m.num_active + 1 ≡ 1)
    × Linked m 1 (invalidated env 5000 entry)
    × ((d : ℕ) → view m d ≡ view routed d)
rt_table_invalidate-Inv_example =
    rt_table_invalidate-Inv env routed 1 entry routed-Inv routed-Linked refl

rt_table_delete-Inv_example :
    (m : Node) × (rt_table_delete env (some 1) routed ≡ some (tt, m))
    × Inv m
    × (m.num_entries + 1 ≡ 1)
    × (m.num_active + 1 ≡ 1)
    × (m.heap 1 ≡ none)
    × ((d : ℕ) → d ≢ 65 → view m d ≡ view routed d)
    × (((q : ℕ) → In q (routed.tbl 1) → goes_to 65 (routed.heap q) ≡ true → q ≡ 1)
        → view m 65 ≡ none)
rt_table_delete-Inv_example = rt_table_delete-Inv env routed 1 entry routed-Inv routed-Linked

rt_table_update_timeout-later_example :
    (new : RtTable) × (rt_table_update_timeout env (some 1) 2000 routed
      ≡ some (some 1, record routed { heap = update routed.heap 1 (some new) }))
    × (new ≡ record entry { rt_timer = new.rt_timer })
    × (new.rt_timer.handler ≡ Handler.route_expire)
    × (new.rt_timer.timeout ≡ 7000)
rt_table_update_timeout-later_example =
    rt_table_update_timeout-later env env-TimerLaws routed 1 2000 entry refl

rt_table_update-Inv_example :
    (m : Node) × (new : RtTable) × (rt_table_update env 1 9 3 21 2000 valid 0 routed ≡ some (1, m))
    × Inv m
    × Linked m 1 new
    × IsUpdated env 5000 9 3 21 2000 0 entry new
    × (m.num_active + 1 ≡ 2)
    × ((d : ℕ) → view m d ≡ view routed d)
    × SameHost routed m
    × Only (Waiting 65 []) routed m
    × (sought env routed 65 ≡ false → m.events ≡ [])
rt_table_update-Inv_example =
    rt_table_update-Inv env env-TimerLaws routed 1 9 3 21 2000 0 entry routed-Inv routed-Ready
      routed-Linked refl

entry-IsCounted : IsCounted entry
unfolding has_precursor
entry-IsCounted = record { distinct = (refl, tt); counted = refl; small = omega arith }

route_expire_timeout-Inv_example :
    (m : Node) × (route_expire_timeout env (some 1) routed ≡ some (tt, m))
    × Inv m
    × (m.num_active + 1 ≡ 1)
    × Linked m 1 (emptied (invalidated env 5000 entry))
    × ((d : ℕ) → view m d ≡ view routed d)
route_expire_timeout-Inv_example =
    route_expire_timeout-Inv env routed 1 entry routed-Inv routed-Linked refl (omega arith)

-- The entry for 65 is on the channel 0.
routed-NoneOn : NoneOn routed 65 (pos 1) (routed.tbl 1)
routed-NoneOn q rt (inl e) s = ground (arith, e, s)
routed-NoneOn q rt (inr e) s = absurd e

rt_table_insert_with_channel_new_example :
    (m : Node) × (rt_table_insert_with_channel env 65 9 1 20 1000 valid 0 0 (pos 1) 4 routed
      ≡ some (some 2, m))
    × Inserted env routed m 65 2
unfolding ifindex2devindex devindex_from
rt_table_insert_with_channel_new_example =
    rt_table_insert_with_channel_new env routed 65 9 1 20 1000 valid 0 0 (pos 1) 4 0 routed-Inv
      routed-Ready routed-NoneOn (omega arith) refl (omega arith)

rt_table_destroy-empty_example :
    (m : Node) × (rt_table_destroy env routed ≡ some (tt, m))
    × Inv m
    × ((j : ℕ) → j < 64 → m.tbl j ≡ [])
    × (m.num_entries ≡ 0)
    × (m.num_active ≡ 0)
rt_table_destroy-empty_example = rt_table_destroy-empty env routed routed-Inv

local_repair_timeout-Inv_example :
    (m : Node) × (new : RtTable) × (local_repair_timeout env (some 1) routed ≡ some (tt, m))
    × Inv m
    × Linked m 1 new
    × IsDoomed env 5000 entry new
    × (m.num_active ≡ 1)
    × ((d : ℕ) → view m d ≡ view routed d)
unfolding ifindex2devindex devindex_from
local_repair_timeout-Inv_example =
    local_repair_timeout-Inv env routed 1 0 entry env-TimerLaws routed-Inv routed-Linked
      entry-IsCounted refl (0, refl)
