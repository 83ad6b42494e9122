-- ===== src/Rreq/Forward.antt =====
-- The label `forward` of `rreq_process` in code/aodv-uu-0.96/aodv_rreq.c, without a route to the
-- destination.
use aodv_uu.Prelude.{
  ℕ, zero, suc, ◌+◌, ◌-◌, ◌<◌, none, some, ◌≡◌, ◌≢◌, inl, inr, refl, ap, ◌⊎◌, ◌∙◌, arith, ltb,
  Bool-cases, if◌then◌else◌,
}
use aodv_uu.Word.{u8, u32}
use aodv_uu.Params.{aodv_broadcast, channel_count, ip_hdr_len}
use aodv_uu.Packet.{Packet, DropReason}
use aodv_uu.State.{Buffer, Node, Event, schedule, drop}
use aodv_uu.Machine.{◌>>=◌, Env, then_run, update}
use aodv_uu.Device.{Known, ifindex2devindex}
use aodv_uu.Link.{ns_ifindex}
use aodv_uu.Link.Leaves.{Only, Only-trans}
use aodv_uu.Socket.{aodv_socket_queue_msg, message_packet}
use aodv_uu.Socket.Quiet.{Quiet, Quiet-self, Quiet-trans, Quiet-Known}
use aodv_uu.Socket.Sent.{send_on_all-Sends}
use aodv_uu.Rreq.{rreq_cost_size, rreq_forward_with_channel, queue_rreq, each_channel}
use aodv_uu.Rreq.Common.{forward_rreq, with_known_seqno, entry_of}

-- A packet that carries a copy of the request, one hop further, to all neighbours.
pub record IsForwarded (env : Env) (rreq : Buffer) (ip_ttl : ℕ) (e : Event) : Type 0 where
  pub packet : Packet
  pub event :
      ((interface : ℕ) × (delay : ℕ) × (e ≡ schedule packet interface delay))
      ⊎ ((reason : DropReason) × (e ≡ drop packet reason))
  pub daddr : packet.daddr ≡ aodv_broadcast
  pub ttl : packet.ttl ≡ u8 (ip_ttl - 1)
  pub size : packet.size ≡ u32 (env.allocpkt.size + rreq_cost_size + ip_hdr_len)
  pub hcnt : packet.contents 4 ≡ u8 (rreq 4 + 1)
  pub rest : (i : ℕ) → i < rreq_cost_size → i ≢ 4 → packet.contents i ≡ rreq i
  pub hops : 1 < ip_ttl

-- The table, the devices and the clock are as before, and what leaves the node are such copies.
pub record Forwards (env : Env) (rreq : Buffer) (ip_ttl : ℕ) (n m : Node) : Type 0 where
  pub quiet : Quiet n m
  pub only : Only (IsForwarded env rreq ip_ttl) n m

Forwards-self : (env : Env) (rreq : Buffer) (ip_ttl : ℕ) (n : Node) → Forwards env rreq ip_ttl n n
Forwards-self env rreq ip_ttl n = record {
  quiet = Quiet-self n;
  only = record { source = λ e i. inl i };
}

module _ (env : Env) (rreq : Buffer) (ip_ttl : ℕ) where
  on_channel :
      1 < ip_ttl
      → (channel : ℕ) (n : Node) → Known ns_ifindex n
      → (m : Node) × (rreq_forward_with_channel env rreq rreq_cost_size (ip_ttl - 1) channel n
          ≡ some (tt, m))
        × Forwards env rreq ip_ttl n m
  unfolding rreq_forward_with_channel queue_rreq aodv_socket_queue_msg
  on_channel l channel n (i₀, e₀) =
      let copy : Buffer = λ i. if ltb i rreq_cost_size then rreq i else n.send_buf i in
      let msg : Buffer = update copy 4 (u8 (rreq 4 + 1)) in
      let (m, run, s) =
        send_on_all-Sends env (IsForwarded env rreq ip_ttl) rreq_cost_size (ip_ttl - 1)
          (record n { send_buf = msg; channel_num = channel }) (i₀, unfold ifindex2devindex in e₀)
          (λ src e a.
            unfold message_packet in
            record {
              packet = a.packet;
              event = a.event;
              daddr = a.daddr;
              ttl = a.ttl refl;
              size = a.size;
              hcnt = ap (λ b. b 4) a.contents;
              rest = λ i u v. ap (λ b. b i) a.contents ∙ ground (arith, u, v);
              hops = l;
            }) in
      (
        m,
        run,
        record {
          quiet = record {
            heap = s.quiet.heap;
            next_address = s.quiet.next_address;
            num_entries = s.quiet.num_entries;
            num_active = s.quiet.num_active;
            tbl = s.quiet.tbl;
            nif = s.quiet.nif;
            dev_indices = s.quiet.dev_indices;
            now = s.quiet.now;
          };
          only = record { source = s.only.source };
        },
      )

  on_channels :
      1 < ip_ttl
      → (rounds i : ℕ) (n : Node) → Known ns_ifindex n
      → (m : Node) × (each_channel
            (rreq_forward_with_channel env rreq rreq_cost_size (ip_ttl - 1))
            rounds
            i
            n
          ≡ some (tt, m))
        × Forwards env rreq ip_ttl n m
  unfolding each_channel
  on_channels l zero i n known = (n, refl, Forwards-self env rreq ip_ttl n)
  on_channels l (suc rounds) i n known =
      let act = rreq_forward_with_channel env rreq rreq_cost_size (ip_ttl - 1) in
      let (n₁, first, f) = on_channel l i n known in
      let (m, run, g) = on_channels l rounds (i + 1) n₁ (Quiet-Known ns_ifindex f.quiet known) in
      (
        m,
        then_run (act i) (each_channel act rounds (i + 1)) n n₁ first ∙ run,
        record { quiet = Quiet-trans f.quiet g.quiet; only = Only-trans f.only g.only },
      )

  -- Without a route to the destination.
  pub forward_rreq-Forwards :
      (seqno : ℕ) (n : Node)
      → Known ns_ifindex n
      → (m : Node) × (forward_rreq env rreq seqno none rreq_cost_size ip_ttl n ≡ some (tt, m))
        × Forwards env rreq ip_ttl n m
  unfolding forward_rreq entry_of with_known_seqno
  forward_rreq-Forwards seqno n known = elim (Bool-cases (ltb 1 ip_ttl)) [
    | inl t ↦ rw (t, ◌>>=◌) (on_channels (ground (arith, t)) channel_count 0 n known)
    | inr t ↦ (n, rw t refl, Forwards-self env rreq ip_ttl n)
  ]
