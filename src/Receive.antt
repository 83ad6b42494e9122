-- ===== src/Receive.antt =====
-- The way in: `recvAODVUUPacket` and `aodv_socket_process_packet` of code/aodv-uu-0.96/aodv_socket.c.
use aodv_uu.Prelude.{ℕ, zero, suc, ◌+◌, Bool, false, not, ◌&&◌, ◌||◌, ◌==◌, if◌then◌else◌}
use aodv_uu.Word.{u8, sub32, lt_i32}
use aodv_uu.Params.{
  aodv_rreq, aodv_rreq_lr, aodv_rrep, aodv_rrep_lr, aodv_rerr, aodv_rerr_lr, aodv_rrep_ack,
  aodv_broadcast, max_nr_interfaces, pt_aodvuu, ip_hdr_len,
}
use aodv_uu.Packet.{Packet, is_up}
use aodv_uu.Link.{ns_ifindex}
use aodv_uu.State.{Buffer, Node}
use aodv_uu.Machine.{M, ◌>>◌, skip, fault, update, Env}
use aodv_uu.Device.{dev_nr}
use aodv_uu.Rreq.Process.{rreq_process}
use aodv_uu.Rrep.Process.{rrep_process}
use aodv_uu.Rrep.Send.{rrep_ack_process}
use aodv_uu.Rerr.{rerr_process}
use aodv_uu.Hello.Process.{hello_process}

-- The loop over the interfaces from `i` on: whether one that is enabled has the address.
unfoldable pub from_itself : (rounds i src : ℕ) → Node → Bool
from_itself zero i src n = false
from_itself (suc rounds) i src n =
    ((dev_nr i n).enabled && (dev_nr i n).ipaddr == src) || from_itself rounds (i + 1) src n

module _ (env : Env) where
  -- The `switch`.
  unfoldable pub dispatch : Buffer → (len src ttl ifindex : ℕ) → M (Unit {0})
  dispatch msg len src ttl ifindex =
      let type = msg 1 in
      if type == aodv_rreq_lr || type == aodv_rreq
      then rreq_process env msg len src ttl ifindex
      else if type == aodv_rrep || type == aodv_rrep_lr
      then rrep_process env msg len src ttl ifindex
      else if type == aodv_rerr || type == aodv_rerr_lr
      then rerr_process env msg len src
      else if type == aodv_rrep_ack
      then rrep_ack_process env msg len src
      else skip

  unfoldable pub aodv_socket_process_packet : Buffer → (len src dst ttl ifindex : ℕ) → M (Unit {0})
  aodv_socket_process_packet msg len src dst ttl ifindex =
      if msg 1 == aodv_rrep && ttl == 1 && dst == aodv_broadcast
      then hello_process env msg len ifindex
      else (do env.neighbor_add msg src ifindex; dispatch msg len src ttl ifindex)

  -- The two assertions are faults where they fail; the size counts the IP header. The length is an
  -- `int` that may be negative; the handlers only test whether it is below or above the size of a message,
  -- which 0 passes and fails as a negative length does.
  unfoldable pub recv_aodvuu_packet : Packet → M (Unit {0})
  recv_aodvuu_packet p n =
      if not (p.ptype == pt_aodvuu) || not (is_up p.direction)
      then fault n
      else if from_itself max_nr_interfaces 0 p.saddr n
      then skip n
      else aodv_socket_process_packet (update p.contents 0 (u8 p.channel))
          (let len = sub32 p.size ip_hdr_len in if lt_i32 len 0 then 0 else len) p.saddr p.daddr
          p.ttl ns_ifindex n
