-- ===== src/Hello/Process.antt =====
-- `hello_process` of code/aodv-uu-0.96/aodv_hello.c.
use aodv_uu.Prelude.{
  ℕ, zero, suc, ◌+◌, ◌-◌, ◌*◌, ◌/◌, ◌%◌, Bool, true, not, ◌&&◌, Option, none, some, pos, ltb, ltb_ℤ,
  ◌==◌, if◌then◌else◌,
}
use aodv_uu.Word.{u8, u32, inc32, has_flag, set_flag, clear_flag}
use aodv_uu.Params.{
  allowed_hello_loss, hello_interval, route_timeout_slack, rt_unidir, max_channel_num,
  rrep_hello_interval_ext, rrep_hello_neighbor_set_ext,
}
use aodv_uu.State.{Buffer, valid, invalid, is_valid}
use aodv_uu.Machine.{
  M, ◌>>=◌, ◌>>◌, ret, skip, get, modify, modify_rt, update, get_rt, fault, deref, Env,
}
use aodv_uu.Device.{dev_ifindex, dev_nr}
use aodv_uu.Table.{rt_table_find}
use aodv_uu.Route.{rt_table_insert}
use aodv_uu.Route.Change.{rt_table_update}
use aodv_uu.Socket.{aodv_socket_send}
use aodv_uu.Rreq.{store}
use aodv_uu.Rrep.{rrep_size, rrep_ack_create, rrep_ack_size}
use aodv_uu.Ext.{ext_size, ext_rounds, recv_buf_size, neighbor_at}
use aodv_uu.Hello.Cost.{modify_neighbor}
use aodv_uu.Hello.Neighbors.{known_neighbor, add_neighbor}
use aodv_uu.Hello.Send.{hello_update_timeout}

-- The sender is entered among the neighbours, with its stability.
unfoldable pub note_sender : (hello_dest res1 : ℕ) → M (Unit {0})
note_sender hello_dest res1 = do
  found ← known_neighbor (λ nb. nb.ipaddr == hello_dest)
  elim found [
    | some i ↦ modify_neighbor i (λ nb. record nb { neighbor_sta = res1 })
    | none ↦ add_neighbor (λ nb. record nb { ipaddr = hello_dest; neighbor_sta = res1 })
  ]

-- The place of the sender; a place without an address on the way is taken.
unfoldable pub claim_from : (hello_dest rounds neib_index : ℕ) → M ℕ
claim_from hello_dest zero neib_index = ret neib_index
claim_from hello_dest (suc rounds) neib_index =
    let rest = claim_from hello_dest rounds (neib_index + 1) in
    (do
      nb ← neighbor_at neib_index
      if nb.ipaddr == hello_dest
          then ret neib_index
          else if nb.ipaddr == 0
          then (do
            modify_neighbor neib_index (λ nb. record nb { ipaddr = hello_dest })
            ret neib_index)
          else rest)

unfoldable pub claim_place : ℕ → M ℕ
claim_place hello_dest = do n ← get; claim_from hello_dest n.this_host.neighbor_num 0

-- The locals that the loop over the extensions changes; the loop ends with a bad one.
pub record HelloInfo : Type 0 where
  pub flags : ℕ
  pub interval : ℕ
  pub ended : Bool

-- Whether the address is in the neighbour set, and each time that it is the flag is cleared.
unfoldable pub hears_us : Buffer → (own ext rounds i : ℕ) → ℕ → ℕ
hears_us hello own ext zero i flags = flags
hears_us hello own ext (suc rounds) i flags =
    if ltb i (hello (ext + 1))
    then hears_us hello own ext rounds (i + 4)
        (if hello (ext + 2 + i) == own then clear_flag flags rt_unidir else flags)
    else flags

unfoldable pub hello_ext : Buffer → (own ext : ℕ) → HelloInfo → HelloInfo
hello_ext hello own ext info =
    if hello ext == rrep_hello_interval_ext
    then if hello (ext + 1) == 4 then record info { interval = hello (ext + 2) } else info
    else if hello ext == rrep_hello_neighbor_set_ext
    then record info { flags = hears_us hello own ext recv_buf_size 0 info.flags }
    else record info { ended = true }

-- `while (rreplen > (int) RREP_SIZE)`; here the length counts down.
unfoldable pub hello_exts : Buffer → (ifindex rounds rreplen ext : ℕ) → HelloInfo → M HelloInfo
hello_exts hello ifindex zero rreplen ext info = fault
hello_exts hello ifindex (suc rounds) rreplen ext info =
    let rest =
      hello_exts hello ifindex rounds (rreplen - ext_size hello ext) (ext + ext_size hello ext) in
    if ltb rrep_size rreplen
    then if ltb (ext + 1) recv_buf_size
      then (do
        dev ← dev_ifindex ifindex
        n ← get
        let info' = hello_ext hello (dev_nr dev n).ipaddr ext info
        if info'.ended then ret info' else rest info')
      else fault
    else ret info

module _ (env : Env) where
  -- The acknowledgement goes back on the channel of the HELLO.
  unfoldable pub send_hello_ack : Buffer → (ifindex neib_index : ℕ) → M (Unit {0})
  send_hello_ack hello ifindex neib_index = do
    if ltb (hello 0) max_channel_num then skip else fault
    modify_neighbor neib_index λ nb. record nb {
      channel_hello_self_received =
          update nb.channel_hello_self_received (hello 0)
            (inc32 (nb.channel_hello_self_received (hello 0)));
      channel_hello_remote_sent = hello 28;
    }
    rrep_ack_create
    store 2 1
    store 0 (hello 0)
    store 3 (u8 (hello 28))
    nb ← neighbor_at neib_index
    store 4 (u8 (nb.channel_hello_self_received (hello 0)))
    (λ n. store 5 (u8 n.this_host.stability.is_stable) n)
    modify λ n. record n { channel_num = hello 0 }
    dev ← dev_ifindex ifindex
    (λ n. aodv_socket_send env n.send_buf (hello 8) rrep_ack_size env.maxttl dev n)

  -- The flags of the route to the sender, before the extensions are read.
  unfoldable pub hello_flags : Option ℕ → M ℕ
  hello_flags none = ret (if env.unidir_hack then rt_unidir else 0)
  hello_flags (some p) = do
    rt ← get_rt p
    ret (if env.unidir_hack then set_flag (u8 rt.flags) rt_unidir else u8 rt.flags)

  -- The count of the HELLOs that come one after the other.
  unfoldable pub count_hello : (p interval : ℕ) → M (Unit {0})
  count_hello p interval n =
      modify_rt p
        (λ r. record r {
          hello_cnt =
              if ltb_ℤ (env.timeval_diff n.now r.last_hello_time)
                (pos (u32 (interval + interval / 2)))
              then u8 (r.hello_cnt + 1)
              else 1;
          last_hello_time = n.now;
        })
        n

  -- The route to the sender: it is inserted, kept, counted or updated.
  unfoldable pub hello_route : Buffer → (ifindex : ℕ) → HelloInfo → Option ℕ → M (Unit {0})
  hello_route hello ifindex info none = do
    inserted ←
        rt_table_insert env (hello 8) (hello 8) 1 (hello 12)
          (u32 (allowed_hello_loss * info.interval + route_timeout_slack))
          (if env.receive_n_hellos == 0 then valid else invalid) info.flags ifindex
    p ← deref inserted
    modify_rt p λ r. record r { hello_cnt = 1 }
    hello_update_timeout env p (u32 (allowed_hello_loss * info.interval))
  hello_route hello ifindex info (some p) = do
    rt ← get_rt p
    if has_flag info.flags rt_unidir && is_valid rt.state && ltb 1 rt.hcnt
        then hello_update_timeout env p (u32 (allowed_hello_loss * info.interval))
        else if not (env.receive_n_hellos == 0) && ltb (rt.hello_cnt + 1) env.receive_n_hellos
        then count_hello p info.interval
        else (do
          _ ←
              rt_table_update env p (hello 8) 1 (hello 12)
                (u32 (allowed_hello_loss * info.interval + route_timeout_slack)) valid info.flags
          hello_update_timeout env p (u32 (allowed_hello_loss * info.interval)))

  unfoldable pub hello_process : Buffer → (rreplen ifindex : ℕ) → M (Unit {0})
  hello_process hello rreplen ifindex = do
    note_sender (hello 8) (hello 2 % 32)
    neib_index ← claim_place (hello 8)
    send_hello_ack hello ifindex neib_index
    rt ← rt_table_find (hello 8)
    flags ← hello_flags rt
    info ←
        hello_exts hello ifindex ext_rounds rreplen rrep_size
          (record { flags = flags; interval = hello_interval; ended = Bool.false })
    hello_route hello ifindex info rt
