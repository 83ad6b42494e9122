-- ===== src/Tests/Handlers.antt =====
-- The theorems at concrete inputs: the handlers of messages, and the calls on the table in a row.
use aodv_uu.Prelude.{
  true, ◌+◌, ◌*◌, ◌≤◌, some, ◌≡◌, refl, inl, inr, pos, [], ◌==◌, ltb, if◌then◌else◌, arith,
}
use aodv_uu.State.{Node, Buffer, valid}
use aodv_uu.Machine.{Env, update}
use aodv_uu.Device.{dev_ifindex, ifindex2devindex, devindex_from}
use aodv_uu.Records.{find_first, rreq_blacklist_find, rreq_record_find_less_cost}
use aodv_uu.Ext.{each_ext, ext_rounds, get_cost}
use aodv_uu.Ext.Rounds.{each_ext-ext_rounds}
use aodv_uu.Ext.Cost.{neighbor_list, link_cost, get_cost-find_first}
use aodv_uu.Fresh.{Costly, cost_ext, read_cost}
use aodv_uu.Rreq.Common.{reverse_life}
use aodv_uu.Rreq.Lifetime.{reverse_life-bounds}
use aodv_uu.Rreq.Ignore.{rreq_process_ignored}
use aodv_uu.Rreq.Process.{rreq_process}
use aodv_uu.Rreq.Relay.{Passed, rreq_process_passes}
use aodv_uu.Rreq.Destination.{Answered, rreq_process_answers}
use aodv_uu.Rrep.Process.{rrep_process}
use aodv_uu.Rrep.Drop.{rrep_process_dropped}
use aodv_uu.Route.Change.{rt_table_update, rt_table_update_with_channel}
use aodv_uu.Route.Chain.{lookup_in}
use aodv_uu.Route.UpdateChannel.{on_channel, rt_table_update_with_channel-update}
use aodv_uu.Route.History.{History}
use aodv_uu.Tests.Env.{env, fresh, no_neighbor}
use aodv_uu.Tests.Table.{routed, entry, routed-Inv, fresh-Inv, fresh-Ready}
use aodv_uu.Queue.Ready.{Ready}
use aodv_uu.Queue.Waiting.{Waiting}

-- A RREQ from 77 for this node, with the id 3.
abbrev rreq : Buffer
rreq i =
    if i == 1
    then 1
    else if i == 8
    then 3
    else if i == 12
    then 1
    else if i == 20
    then 77
    else if i == 24
    then 5
    else 0

-- The same, as if this node had sent it.
abbrev own_rreq : Buffer
own_rreq = update rreq 20 1

device : dev_ifindex 0 fresh ≡ some (0, fresh)
unfolding dev_ifindex ifindex2devindex devindex_from
device = refl

rreq_process_ignored_example : rreq_process env own_rreq 42 9 5 0 fresh ≡ some (tt, fresh)
rreq_process_ignored_example =
    rreq_process_ignored env fresh own_rreq 42 9 5 0 0 device (inl (inl refl))

abbrev costly : Costly
costly = record { message = rreq; cost = 0x43abc16d674ec800 }

read : read_cost env rreq 9 32 32 fresh ≡ some (costly, fresh)
unfolding read_cost each_ext
read = refl

rreq_process_answers_example :
    (m : Node) × (rreq_process env rreq 32 9 5 0 fresh ≡ some (tt, m))
    × Answered env fresh m rreq 9 0 0 0x43abc16d674ec800
unfolding ifindex2devindex devindex_from lookup_in rreq_blacklist_find rreq_record_find_less_cost
    find_first
rreq_process_answers_example =
    rreq_process_answers env fresh rreq 32 9 5 0 0 costly
      (record {
        inv = fresh-Inv;
        plain = omega arith;
        device = refl;
        ours = refl;
        foreign = omega arith;
        complete = omega arith;
        listed = refl;
        costly = read;
        unseen = refl;
        unrouted = refl;
        room = omega arith;
        awake = refl;
        ready = fresh-Ready;
        agent = refl;
        neighbor = omega arith;
      })
      refl refl

-- The same for the node 50, which is not known here.
abbrev passing_rreq : Buffer
passing_rreq = update rreq 12 50

abbrev passing_costly : Costly
passing_costly = record { message = passing_rreq; cost = 0x43abc16d674ec800 }

read_passing : read_cost env passing_rreq 9 32 32 fresh ≡ some (passing_costly, fresh)
unfolding read_cost each_ext
read_passing = refl

rreq_process_passes_example :
    (m : Node) × (rreq_process env passing_rreq 32 9 5 0 fresh ≡ some (tt, m))
    × Passed env fresh m passing_rreq 9 5 0 passing_costly
unfolding ifindex2devindex devindex_from lookup_in rreq_blacklist_find rreq_record_find_less_cost
    find_first
rreq_process_passes_example =
    rreq_process_passes env fresh passing_rreq 32 9 5 0 0 passing_costly (record {
      inv = fresh-Inv;
      plain = omega arith;
      device = refl;
      foreign = omega arith;
      elsewhere = omega arith;
      ends = omega arith;
      complete = omega arith;
      listed = refl;
      costly = read_passing;
      unseen = refl;
      unrouted = refl;
      unreachable = refl;
      room = omega arith;
      ready = fresh-Ready;
    })

-- A RREP about 65 for this node, which seeks it.
abbrev new_rrep : Buffer
new_rrep i =
    if i == 1
    then 2
    else if i == 4
    then 2
    else if i == 8
    then 65
    else if i == 12
    then 9
    else if i == 16
    then 1
    else if i == 20
    then 3000
    else 0

abbrev new_costly : Costly
new_costly = record { message = new_rrep; cost = 0x43abc16d674ec800 }

abbrev seeking : Env
seeking = record env { seek_list_remove = λ p s. (true, s) }

-- A RREP about 65 with an older number than the route has.
abbrev old_rrep : Buffer
old_rrep i = if i == 1 then 2 else if i == 8 then 65 else if i == 12 then 9 else 0

abbrev old_costly : Costly
old_costly = record { message = old_rrep; cost = 0x43abc16d674ec800 }

read_old : read_cost env old_rrep 9 32 32 routed ≡ some (old_costly, routed)
unfolding read_cost each_ext
read_old = refl

device_routed : dev_ifindex 0 routed ≡ some (0, routed)
unfolding dev_ifindex ifindex2devindex devindex_from
device_routed = refl

rrep_process_dropped_example : rrep_process env old_rrep 32 9 5 0 routed ≡ some (tt, routed)
unfolding lookup_in
rrep_process_dropped_example =
    rrep_process_dropped env routed old_rrep 32 9 5 0 0 device_routed routed-Inv refl (
      inr (
        inr (
          old_costly,
          1,
          entry,
          read_old,
          record {
            found = refl;
            stored = refl;
            known = omega arith;
            newer = refl;
            better = λ e. absurd (omega (arith, e));
          },
        )))

each_ext-ext_rounds_example :
    each_ext Costly.message (cost_ext env 9) 32 42 ext_rounds 0 costly fresh
    ≡ each_ext Costly.message (cost_ext env 9) 32 42 1000 0 costly fresh
each_ext-ext_rounds_example =
    each_ext-ext_rounds Costly.message (cost_ext env 9) 32 42 1000 costly fresh (omega arith)

reverse_life-bounds_example :
    (40 ≤ 34 → reverse_life 40 + 70 * (40 + 1) ≡ 2450)
    × (35 ≤ 40 → 4294967296 ≤ reverse_life 40 + 15470)
    × (35 ≤ 40 → 49 * 24 * 3600000 ≤ reverse_life 40)
reverse_life-bounds_example = reverse_life-bounds 40 (omega arith)

-- A node with the neighbour 9.
abbrev neighbored : Node
neighbored = record fresh {
  this_host = record (fresh.this_host) {
    neighbors = λ i. record no_neighbor { ipaddr = if i == 0 then 9 else 0 };
    neighbor_num = 1;
  };
}

get_cost-find_first_example :
    get_cost env 9 1 neighbored
    ≡ some (
      link_cost env 1 (
          find_first
            (λ nb. nb.ipaddr == 9)
            (neighbor_list neighbored.this_host.neighbors neighbored.this_host.neighbor_num 0)),
      neighbored,
    )
get_cost-find_first_example = get_cost-find_first env neighbored 9 1 (omega arith) (omega arith)

rt_table_update_with_channel-update_example :
    rt_table_update_with_channel env 1 9 1 12 3000 valid 0 (pos 2) 4 routed
    ≡ rt_table_update env 1 9 1 12 3000 valid 0
        (record routed { heap = update routed.heap 1 (some (on_channel (pos 2) 4 entry)) })
rt_table_update_with_channel-update_example =
    rt_table_update_with_channel-update env routed 1 9 1 12 3000 valid 0 (pos 2) 4 entry refl refl

-- The table at its start, and after one insertion.
abbrev started : Node
started = record fresh { tbl = λ i. if ltb i 64 then [] else [] }
