-- ===== src/Rrep/Process.antt =====
-- `rrep_process` of code/aodv-uu-0.96/aodv_rrep.c.
use aodv_uu.Prelude.{ℕ, ◌+◌, Bool, not, ◌||◌, Option, none, some, pos, ltb, ◌==◌, if◌then◌else◌}
use aodv_uu.Word.{u8, dec8, u32_ℤ, has_flag, clear_flag}
use aodv_uu.Params.{rt_unidir, rt_repair, rerr_nodelete, aodv_broadcast, next_hop_wait}
use aodv_uu.State.{Buffer, RtTable, is_valid, valid}
use aodv_uu.Machine.{M, ◌>>=◌, ◌>>◌, skip, ret, modify, update, get_rt, deref, when, Env}
use aodv_uu.Device.{dev_ifindex}
use aodv_uu.Table.{rt_table_find}
use aodv_uu.Route.{rt_table_insert_with_channel}
use aodv_uu.Route.Change.{rt_table_update_with_channel}
use aodv_uu.Socket.{aodv_socket_send}
use aodv_uu.Rerr.{rerr_create, rerr_calc_size}
use aodv_uu.Rrep.{rrep_size, rrep_cost_size, rrep_ack_create}
use aodv_uu.Rrep.Send.{rrep_forward}
use aodv_uu.Rrep.Repair.{rrep_process_lr}
use aodv_uu.Hello.Send.{keep_hellos}
use aodv_uu.Fresh.{fresher, own_ipaddr, read_cost, Costly}

-- The forward route, which may be NULL, and the hop count and flags that it had before.
pub record Accepted : Type 0 where
  pub fwd_rt : Option ℕ
  pub pre_repair_hcnt : ℕ
  pub pre_repair_flags : ℕ

-- Whether a RREP replaces a route.
unfoldable pub accepts : (ℕ → ℕ → Bool) → Buffer → (cost : ℕ) → RtTable → Bool
accepts lt_double rrep cost rt =
    fresher rt (rrep 12)
      (not (is_valid rt.state) || has_flag rt.flags rt_unidir || lt_double cost rt.cost)

-- The flag that asks for an acknowledgement.
abbrev pub wants_ack : Buffer → Bool
wants_ack rrep = has_flag (rrep 2) 64

module _ (env : Env) where
  -- The forward route is inserted or updated; `none` if the message is dropped.
  unfoldable pub forward_route : Costly → (ip_src ifindex : ℕ) → M (Option Accepted)
  forward_route c ip_src ifindex = do
    let rrep = c.message
    fwd_rt ← rt_table_find (rrep 8)
    elim fwd_rt [
      | none ↦ do
        new ←
            rt_table_insert_with_channel env (rrep 8) ip_src (rrep 4 + 1) (rrep 12) (rrep 20) valid
              0 ifindex (pos (rrep 0)) c.cost
        ret (some (record { fwd_rt = new; pre_repair_hcnt = 0; pre_repair_flags = 0 }))
      | some p ↦ do
        rt ← get_rt p
        if accepts env.lt_double rrep c.cost rt
            then (do
              q ←
                  rt_table_update_with_channel env p ip_src (rrep 4 + 1) (rrep 12) (rrep 20) valid
                    rt.flags (pos (rrep 0)) c.cost
              ret (
                  some (record {
                    fwd_rt = some q;
                    pre_repair_hcnt = rt.hcnt;
                    pre_repair_flags = u8 rt.flags;
                  })))
            else ret none
    ]

  -- The acknowledgement, and the message without the flag.
  unfoldable pub acknowledge : Buffer → Option ℕ → M Buffer
  acknowledge rrep fwd_rt =
      if wants_ack rrep
      then (do
        rrep_ack_create
        p ← deref fwd_rt
        rt ← get_rt p
        dev ← dev_ifindex rt.ifindex
        (λ n. aodv_socket_send env n.send_buf rt.next_hop next_hop_wait env.maxttl dev n)
        ret (update rrep 2 (clear_flag (rrep 2) 64)))
      else ret rrep

  -- The RREP was for this node. A route that was in repair and is longer now is reported.
  unfoldable pub report_longer : Accepted → M (Unit {0})
  report_longer a = when (has_flag a.pre_repair_flags rt_repair) (do
    p ← deref a.fwd_rt
    rt ← get_rt p
    when (ltb a.pre_repair_hcnt rt.hcnt) (do
      rerr_create rerr_nodelete rt.dest_addr rt.dest_seqno
      when (not (rt.nprec == 0)) (do
        dev ← dev_ifindex rt.ifindex
        (λ n.
            aodv_socket_send env n.send_buf aodv_broadcast (rerr_calc_size (n.send_buf 4)) 1 dev
              n))))

  -- The RREP goes on along a valid reverse route, on the channel of that route.
  unfoldable pub pass_on : Buffer → Option ℕ → Option ℕ → (ip_ttl : ℕ) → M (Unit {0})
  pass_on rrep none fwd_rt ip_ttl = skip
  pass_on rrep (some rev_rt) fwd_rt ip_ttl = do
    rev ← get_rt rev_rt
    when (is_valid rev.state) (do
      modify λ n. record n { channel_num = u32_ℤ rev.channel }
      rrep_forward env rrep rrep_cost_size (some rev_rt) fwd_rt (dec8 ip_ttl))

  unfoldable pub finish_rrep : Buffer → Accepted → Option ℕ → (ip_ttl own : ℕ) → M (Unit {0})
  finish_rrep rrep a rev_rt ip_ttl own = do
    rrep' ← acknowledge rrep a.fwd_rt
    if rrep' 16 == own then report_longer a else pass_on rrep' rev_rt a.fwd_rt ip_ttl
    keep_hellos env

  unfoldable pub rrep_process_plain : Buffer → (rreplen ip_src ip_ttl ifindex : ℕ) → M (Unit {0})
  rrep_process_plain rrep rreplen ip_src ip_ttl ifindex =
      if ltb rreplen rrep_size then skip else (do
        own ← own_ipaddr ifindex
        if rrep 8 == own then skip else (do
          c ← read_cost env rrep ip_src rrep_size rreplen
          rev_rt ← rt_table_find (rrep 16)
          accepted ← forward_route c ip_src ifindex
          elim accepted [ none ↦ skip | some a ↦ finish_rrep c.message a rev_rt ip_ttl own ]))

  unfoldable pub rrep_process : Buffer → (rreplen ip_src ip_ttl ifindex : ℕ) → M (Unit {0})
  rrep_process rrep rreplen ip_src ip_ttl ifindex =
      if has_flag (rrep 2) 32
      then rrep_process_lr env rrep rreplen ip_src ip_ttl ifindex
      else rrep_process_plain rrep rreplen ip_src ip_ttl ifindex
