-- ===== src/Hello/Send.antt =====
-- `hello_start`, `hello_stop`, `hello_send` and `hello_update_timeout` of
-- code/aodv-uu-0.96/aodv_hello.c.
use aodv_uu.Prelude.{
  ℕ, zero, suc, ◌+◌, ◌*◌, ◌/◌, ◌%◌, not, ◌&&◌, Option, none, some, ℤ, pos, ltb_ℤ, add_ℤ, sub_ℤ,
  pos_part, ◌==◌, if◌then◌else◌,
}
use aodv_uu.Word.{u8}
use aodv_uu.Params.{
  allowed_hello_loss, hello_interval, hello_delay, rt_tablesize, max_nr_interfaces, aodv_broadcast,
  rrep_hello_neighbor_set_ext,
}
use aodv_uu.State.{Buffer, Handler, Timer, RtTable}
use aodv_uu.Machine.{M, ◌>>=◌, ◌>>◌, ret, skip, get, modify, modify_rt, when, Env}
use aodv_uu.Device.{dev_nr}
use aodv_uu.Socket.{aodv_socket_send}
use aodv_uu.Rreq.{store}
use aodv_uu.Rrep.{rrep_create, rrep_size}
use aodv_uu.Ext.{ext_size}
use aodv_uu.Hello.Cost.{modify_host, update_costs}
use aodv_uu.Hello.Neighbors.{each_bucket, update_sta_info, update_neighbor_info}

-- An entry in the loop that lists the neighbours: its address goes to the first place of the
-- contents, and the length grows by four.
unfoldable pub list_neighbor : ℕ → RtTable → Unit {0} → M (Unit {0})
list_neighbor ext rt u =
    when rt.hello_timer.used
      (do store (ext + 2) rt.dest_addr; (λ n. store (ext + 1) (u8 (n.send_buf (ext + 1) + 4)) n))

-- Where the extension is written: behind the one before, if there was one.
unfoldable pub next_ext : Buffer → Option ℕ → ℕ
next_ext rrep none = rrep_size
next_ext rrep (some ext) = ext + ext_size rrep ext

-- The extension with the neighbours; the result is the offset of the extension and the size of the
-- message, which stays if there is no neighbour.
unfoldable pub neighbor_set : Option ℕ → ℕ → M (ℕ × ℕ)
neighbor_set before msg_size = do
  n ← get
  let ext = next_ext n.send_buf before
  store ext rrep_hello_neighbor_set_ext
  store (ext + 1) 0
  _ ← each_bucket (list_neighbor ext) rt_tablesize 0 tt
  m ← get
  ret (ext, if m.send_buf (ext + 1) == 0 then msg_size else rrep_size + ext_size m.send_buf ext)

abbrev pub modify_hello_timer : (Timer → Timer) → M (Unit {0})
modify_hello_timer f = modify λ n. record n { hello_timer = f n.hello_timer }

module _ (env : Env) where
  unfoldable pub hello_jitter : ℤ
  hello_jitter = if env.hello_jittering then env.random_jitter else pos 0

  unfoldable pub hello_stop : M (Unit {0})
  hello_stop = modify_hello_timer env.timer_remove

  -- The HELLO on one interface. `ext` and `msg_size` are the locals that the loop passes on.
  unfoldable pub hello_on : (i : ℕ) → Option ℕ × ℕ → M (Option ℕ × ℕ)
  hello_on i (ext, msg_size) = do
    (λ n.
        rrep_create 0 0 0 (dev_nr i n).ipaddr n.this_host.seqno (dev_nr i n).ipaddr
          (allowed_hello_loss * hello_interval) n)
    update_costs env
    next ←
        (if env.unidir_hack
          then (do (e, size) ← neighbor_set ext msg_size; ret (some e, size))
          else ret (ext, msg_size))
    update_sta_info env
    update_neighbor_info
    (λ n. store 2 (n.send_buf 2 / 32 * 32 + n.this_host.stability.is_stable % 32) n)
    (λ n. store 28 n.this_host.hello_tail n)
    (λ n. aodv_socket_send env n.send_buf aodv_broadcast next.1 1 i n)
    ret next

  unfoldable pub hello_all : (rounds i : ℕ) → Option ℕ × ℕ → M (Unit {0})
  hello_all zero i locals = skip
  hello_all (suc rounds) i locals = do
    next ← (λ n. (if (dev_nr i n).enabled then hello_on i locals else ret locals) n)
    hello_all rounds (i + 1) next

  -- The time to the next HELLO, if other broadcasts have been sent `time_diff` ago.
  unfoldable pub hello_wait : (time_diff jitter : ℤ) → ℤ
  hello_wait time_diff jitter =
      let left = sub_ℤ (pos hello_interval) time_diff in
      if ltb_ℤ (add_ℤ left jitter) (pos 0) then sub_ℤ left jitter else add_ℤ left jitter

  unfoldable pub set_hello_timer : ℤ → M (Unit {0})
  set_hello_timer wait n = modify_hello_timer (env.timer_set_timeout n.now (pos_part wait)) n

  unfoldable pub hello_send : M (Unit {0})
  hello_send = do
    n ← get
    if env.optimized_hellos
          && ltb_ℤ (pos env.active_route_timeout) (env.timeval_diff n.now n.this_host.fwd_time)
        then hello_stop
        else (do
          let time_diff = env.timeval_diff n.now n.this_host.bcast_time
          if ltb_ℤ time_diff (pos hello_interval)
              then set_hello_timer (hello_wait time_diff hello_jitter)
              else (do
                hello_all max_nr_interfaces 0 (none, rrep_size)
                set_hello_timer (add_ℤ (pos hello_interval) hello_jitter)))

  unfoldable pub hello_start : M (Unit {0})
  hello_start = do
    n ← get
    when (not n.hello_timer.used) (do
      modify_host λ h. record h { fwd_time = n.now }
      modify_hello_timer (env.timer_init Handler.hello_send)
      hello_send)

  -- `if (!llfeedback && optimized_hellos) hello_start();`
  unfoldable pub keep_hellos : M (Unit {0})
  keep_hellos = when (not env.llfeedback && env.optimized_hellos) hello_start

  unfoldable pub hello_update_timeout : (p time : ℕ) → M (Unit {0})
  hello_update_timeout p time n =
      modify_rt p
        (λ r. record r {
          hello_timer = env.timer_set_timeout n.now (time + hello_delay) r.hello_timer;
          last_hello_time = n.now;
        })
        n
