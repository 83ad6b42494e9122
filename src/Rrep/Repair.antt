-- ===== src/Rrep/Repair.antt =====
-- `rrep_process_lr` of code/aodv-uu-0.96/aodv_rrep.c: a RREP that answers a local repair.
use aodv_uu.Prelude.{
  ℕ, zero, suc, ◌+◌, Bool, true, false, not, ◌&&◌, List, [], ◌∷◌, Option, none, some, ltb, ◌==◌,
  if◌then◌else◌,
}
use aodv_uu.Word.{dec8, inc32, has_flag, clear_flag}
use aodv_uu.Params.{
  rt_repair, rerr_nodelete, rerr_local_repair, rrep_udest_ext, next_hop_wait, rt_tablesize,
}
use aodv_uu.State.{Buffer, is_valid, valid}
use aodv_uu.Machine.{M, ◌>>=◌, ◌>>◌, skip, ret, get, update, get_rt, deref, when, Env}
use aodv_uu.Device.{dev_ifindex, dev_nr}
use aodv_uu.Table.{rt_table_find}
use aodv_uu.Route.{rt_table_insert}
use aodv_uu.Route.Change.{rt_table_update}
use aodv_uu.Socket.{aodv_socket_send}
use aodv_uu.Rreq.{store}
use aodv_uu.Rerr.{rerr_create, rerr_add_udest, first_prec, same_precursors, Pending, send_rerr}
use aodv_uu.Rrep.{rrep_size, rrep_ack_create}
use aodv_uu.Rrep.Send.{rrep_forward}
use aodv_uu.Hello.Cost.{modify_host}
use aodv_uu.Hello.Send.{keep_hellos}
use aodv_uu.Ext.{each_ext, ext_rounds}
use aodv_uu.Fresh.{own_ipaddr}

module _ (env : Env) where
  -- The route to a destination over the sender. A new one is updated at once with the flags
  -- `fwd_rt->flags & !RT_REPAIR`, which are 0; an old one keeps its flags.
  unfoldable pub repaired_route : Buffer → (dest ip_src ifindex : ℕ) → M ℕ
  repaired_route rrep dest ip_src ifindex = do
    found ← rt_table_find dest
    elim found [
      | none ↦ do
        new ← rt_table_insert env dest ip_src (rrep 4 + 1) (rrep 12) (rrep 20) valid 0 ifindex
        p ← deref new
        _ ← rt_table_update env p ip_src (rrep 4 + 1) (rrep 12) (rrep 20) valid 0
        ret p
      | some p ↦ do
        rt ← get_rt p
        rt_table_update env p ip_src (rrep 4 + 1) (rrep 12) (rrep 20) valid rt.flags
    ]

  -- An extension with a destination, at a node that did not ask for the repair.
  unfoldable pub repair_ext :
      Buffer → (ip_src ifindex own : ℕ) → (ext : ℕ) → Unit {0} → M (Unit {0})
  repair_ext rrep ip_src ifindex own ext u =
      if rrep ext == rrep_udest_ext && not (rrep 16 == own)
      then (do _ ← repaired_route rrep (rrep (ext + 2)) ip_src ifindex; skip)
      else skip

  -- An entry in repair gets the new route, if it goes to the destination or led over it; the result says
  -- whether it did.
  unfoldable pub repair_entry : Buffer → (ip_src p : ℕ) → M Bool
  repair_entry rrep ip_src p = do
    rt ← get_rt p
    if has_flag rt.flags rt_repair
        then if rt.dest_addr == rrep 8
          then (do
            _ ← rt_table_update env p ip_src (rrep 4 + 1) (rrep 12) (rrep 20) valid 0
            ret true)
          else if rt.next_hop == rrep 8
          then (do
            _ ← rt_table_update env p ip_src (rrep 4 + rt.hcnt) rt.dest_seqno (rrep 20) valid 0
            ret true)
          else ret false
        else ret false

  -- A repaired route is reported to its precursors. `unicast_dest` is not initialised.
  unfoldable pub report_repaired : ℕ → Pending → M Pending
  report_repaired p pending = do
    rt ← get_rt p
    if rt.nprec == 0
        then ret pending
        else if pending.new_rerr
        then (do
          rerr_add_udest rt.dest_addr rt.dest_seqno
          ret (record pending {
            unicast_dest =
                if not (pending.unicast_dest == 0)
                  && not (same_precursors pending.unicast_dest rt.precursors)
                then 0
                else pending.unicast_dest;
          }))
        else (do
          rerr_create (rerr_nodelete + rerr_local_repair) rt.dest_addr rt.dest_seqno
          (λ n. store 16 n.this_host.rerr_id n)
          modify_host λ h. record h { rerr_id = inc32 h.rerr_id }
          (λ n. store 20 (dev_nr 0 n).ipaddr n)
          unicast ← (if rt.nprec == 1 then first_prec rt.precursors else ret pending.unicast_dest)
          ret (record { new_rerr = true; unicast_dest = unicast }))

  -- The loops over the table.
  unfoldable pub repair_bucket : Buffer → (ip_src : ℕ) → List ℕ → Pending → M Pending
  repair_bucket rrep ip_src [] pending = ret pending
  repair_bucket rrep ip_src (p ∷ ps) pending = do
    done ← repair_entry rrep ip_src p
    pending' ← (if done then report_repaired p pending else ret pending)
    repair_bucket rrep ip_src ps pending'

  unfoldable pub repair_from : Buffer → (ip_src rounds i : ℕ) → Pending → M Pending
  repair_from rrep ip_src zero i pending = ret pending
  repair_from rrep ip_src (suc rounds) i pending = do
    n ← get
    pending' ← repair_bucket rrep ip_src (n.tbl i) pending
    repair_from rrep ip_src rounds (i + 1) pending'

  -- At the node that asked.
  unfoldable pub repair_all : Buffer → (ip_src : ℕ) → M (Unit {0})
  repair_all rrep ip_src = do
    pending ←
        repair_from rrep ip_src rt_tablesize 0
          (record { new_rerr = false; unicast_dest = env.uninitialized })
    when pending.new_rerr (send_rerr env pending.unicast_dest)

  -- At a node on the way: the route to the destination, the acknowledgement, and on.
  unfoldable pub relay_repair :
      Buffer → (rreplen ip_src ip_ttl ifindex : ℕ) → Option ℕ → M (Unit {0})
  relay_repair rrep rreplen ip_src ip_ttl ifindex rev_rt = do
    fwd_rt ← repaired_route rrep (rrep 8) ip_src ifindex
    rrep' ←
        (if has_flag (rrep 2) 64
          then (do
            rrep_ack_create
            rt ← get_rt fwd_rt
            dev ← dev_ifindex rt.ifindex
            (λ n. aodv_socket_send env n.send_buf rt.next_hop next_hop_wait env.maxttl dev n)
            ret (update rrep 2 (clear_flag (rrep 2) 64)))
          else ret rrep)
    elim rev_rt [
      | none ↦ skip
      | some q ↦ do
        rev ← get_rt q
        when (is_valid rev.state)
            (rrep_forward env rrep' rreplen (some q) (some fwd_rt) (dec8 ip_ttl))
    ]

  unfoldable pub rrep_process_lr : Buffer → (rreplen ip_src ip_ttl ifindex : ℕ) → M (Unit {0})
  rrep_process_lr rrep rreplen ip_src ip_ttl ifindex = if ltb rreplen rrep_size then skip else (do
    own ← own_ipaddr ifindex
    if rrep 8 == own then skip else (do
      each_ext (λ u. rrep) (repair_ext rrep ip_src ifindex own) rrep_size rreplen ext_rounds 0 tt
      rev_rt ← rt_table_find (rrep 16)
      if rrep 16 == own
          then repair_all rrep ip_src
          else relay_repair rrep rreplen ip_src ip_ttl ifindex rev_rt
      keep_hellos env))
