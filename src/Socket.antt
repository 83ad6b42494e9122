-- ===== src/Socket.antt =====
-- Sending of control messages: `aodv_socket_send`, `aodv_socket_new_msg` and `aodv_socket_queue_msg` of
-- code/aodv-uu-0.96/aodv_socket.c, as they are compiled for ns-2.
pub mod Limit
pub mod Quiet
pub mod Sent
pub mod Unicast
use aodv_uu.Prelude.{
  ℕ, zero, suc, ◌+◌, ◌-◌, Bool, true, false, not, ◌&&◌, Option, none, some, ◌∷◌, pos, ltb, ltb_ℤ,
  ◌==◌, if◌then◌else◌,
}
use mathlib.Core.Option
use aodv_uu.Word.{u8, u32}
use aodv_uu.Params.{
  aodv_broadcast, aodv_rreq, aodv_rrep, aodv_rerr, rreq_ratelimit, rerr_ratelimit,
  max_nr_interfaces, pt_aodvuu, ip_hdr_len,
}
use aodv_uu.Packet.{Packet, down, ns_af_none, ns_af_inet}
use aodv_uu.Link.{send_packet}
use aodv_uu.State.{Buffer, RateLimit, Node}
use aodv_uu.Machine.{M, ◌>>=◌, ◌>>◌, skip, modify, when, update, Env}
use aodv_uu.Device.{dev_nr}

-- The byte offset of `type` in every message.
abbrev pub type_offset : ℕ
type_offset = 1

-- `memset` of the send buffer, and `memcpy` of `size` bytes of a message into it.
unfoldable pub aodv_socket_new_msg : M (Unit {0})
aodv_socket_new_msg = modify λ n. record n { send_buf = λ i. 0 }

unfoldable pub aodv_socket_queue_msg : Buffer → ℕ → M (Unit {0})
aodv_socket_queue_msg msg size =
    modify λ n. record n { send_buf = λ i. if ltb i size then msg i else n.send_buf i }

-- The loops over the enabled interfaces, from the interface `i` on; `act` is their body.
unfoldable pub each_interface : (ℕ → M (Unit {0})) → (rounds i : ℕ) → M (Unit {0})
each_interface act zero i = skip
each_interface act (suc rounds) i = do
  (λ n. (when (dev_nr i n).enabled (act i)) n)
  each_interface act rounds (i + 1)

module _ (env : Env) where
  -- A message at the time `now`: `none` if the limit drops it, and otherwise the window after it.
  unfoldable pub rate_limit : ℕ → ℕ → RateLimit → Option RateLimit
  rate_limit limit now w =
      if w.count == limit - 1
      then if ltb_ℤ (env.timeval_diff now (w.times 0)) (pos 1000)
        then none
        else some (record w {
          times = λ i.
              if i == w.count - 1
              then now
              else if ltb i (w.count - 1)
              then w.times (i + 1)
              else w.times i;
        })
      else some (record w { times = update w.times w.count now; count = w.count + 1 })

  -- The limit on a message of this type: only RREQ and RERR are limited.
  unfoldable pub limited : ℕ → Node → Option Node
  limited type n =
      if env.ratelimit
      then if type == aodv_rreq
        then Option.map (λ w. record n { rreq_ratel = w })
            (rate_limit rreq_ratelimit n.now n.rreq_ratel)
        else if type == aodv_rerr
        then Option.map (λ w. record n { rerr_ratel = w })
            (rate_limit rerr_ratelimit n.now n.rerr_ratel)
        else some n
      else some n

  -- The packet carries `len` bytes of the message to the address `dst`.
  unfoldable pub message_packet : Buffer → (dst len ttl saddr : ℕ) → Packet
  message_packet msg dst len ttl saddr =
      let p = env.allocpkt in
      record p {
        contents = λ i. if ltb i len then msg i else 0;
        ptype = pt_aodvuu;
        direction = down;
        size = u32 (p.size + len + ip_hdr_len);
        prev_hop = saddr;
        saddr = saddr;
        daddr = dst;
        ttl = u8 ttl;
        addr_type = if dst == aodv_broadcast then ns_af_none else ns_af_inet;
      }

  unfoldable pub transmit : Buffer → (dst len ttl dev : ℕ) → M (Unit {0})
  transmit msg dst len ttl dev n =
      (do
        when (dst == aodv_broadcast)
            (modify λ m. record m { this_host = record (m.this_host) { bcast_time = m.now } })
        send_packet env (message_packet msg dst len ttl (dev_nr dev n).ipaddr) dst 0)
        n

  unfoldable pub aodv_socket_send : Buffer → (dst len ttl dev : ℕ) → M (Unit {0})
  aodv_socket_send msg dst len ttl dev n =
      if n.wait_on_reboot && msg type_offset == aodv_rrep
      then some (tt, n)
      else elim (limited (msg type_offset) n) [
        | none ↦ some (tt, n)
        | some n' ↦ transmit msg dst len ttl dev n'
      ]

  -- Broadcast of the message in the send buffer on all of them.
  unfoldable pub send_on_all : (len ttl : ℕ) → M (Unit {0})
  send_on_all len ttl =
      each_interface (λ i n. aodv_socket_send n.send_buf aodv_broadcast len ttl i n)
        max_nr_interfaces 0
