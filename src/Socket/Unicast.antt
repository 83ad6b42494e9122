-- ===== src/Socket/Unicast.antt =====
-- `aodv_socket_send` of code/aodv-uu-0.96/aodv_socket.c to one node.
use aodv_uu.Prelude.{ℕ, ◌∷◌, some, ◌≡◌, ◌≢◌, refl, false, ==_ne, ◌∙◌, arith}
use aodv_uu.Params.{aodv_broadcast, aodv_rrep}
use aodv_uu.Packet.{Packet}
use aodv_uu.State.{Buffer, Node, schedule}
use aodv_uu.Machine.{◌>>◌, Env}
use aodv_uu.Device.{ifindex2devindex, dev_nr}
use aodv_uu.Link.{ns_ifindex, unicast_headers}
use aodv_uu.Link.Leaves.{send_packet_own}
use aodv_uu.Socket.{message_packet, transmit, aodv_socket_send, limited}

-- The packet with the message to its next hop `dst`, and the state after it was passed down.
abbrev pub unicast_packet : Env → Buffer → (dst len ttl dev : ℕ) → Node → Packet
unicast_packet env msg dst len ttl dev n =
    unicast_headers env (message_packet env msg dst len ttl (dev_nr dev n).ipaddr) dst n

abbrev pub sent : Env → Buffer → (dst len ttl dev : ℕ) → Node → Node
sent env msg dst len ttl dev n = record n {
  events = schedule (unicast_packet env msg dst len ttl dev n) n.channel_num 0 ∷ n.events;
}

-- From the agent's device, to one node.
transmit_run :
    (env : Env) (msg : Buffer) (dst len ttl dev : ℕ) (n : Node)
    → ifindex2devindex ns_ifindex n ≡ some dev
    → dst ≢ aodv_broadcast
    → transmit env msg dst len ttl dev n ≡ some (tt, sent env msg dst len ttl dev n)
unfolding transmit message_packet
transmit_run env msg dst len ttl dev n own uni =
    rw (==_ne dst aodv_broadcast uni, ◌>>◌)
      (send_packet_own env (message_packet env msg dst len ttl (dev_nr dev n).ipaddr) dst 0 dev n
        own refl refl uni)

-- A RREP is not limited.
pub send_rrep_run :
    (env : Env) (msg : Buffer) (dst len ttl dev : ℕ) (n : Node)
    → ifindex2devindex ns_ifindex n ≡ some dev
    → dst ≢ aodv_broadcast
    → n.wait_on_reboot ≡ false
    → msg 1 ≡ aodv_rrep
    → aodv_socket_send env msg dst len ttl dev n ≡ some (tt, sent env msg dst len ttl dev n)
unfolding aodv_socket_send limited
send_rrep_run env msg dst len ttl dev n own uni w t =
    let go : aodv_socket_send env msg dst len ttl dev n ≡ transmit env msg dst len ttl dev n =
      ground (arith, w, t) in
    go ∙ transmit_run env msg dst len ttl dev n own uni
