-- ===== src/Socket/Sent.antt =====
-- What a broadcast of code/aodv-uu-0.96/aodv_socket.c adds to what leaves the node.
use aodv_uu.Prelude.{
  ℕ, zero, suc, ◌+◌, ◌&&◌, ◌==◌, if◌then◌else◌, some, ◌≡◌, refl, sym, ap, subst, ◌∙◌, arith,
  Bool-cases, Option-cases, inl, inr,
}
use aodv_uu.Params.{aodv_broadcast, aodv_rrep, max_nr_interfaces, rreq_ratelimit, rerr_ratelimit}
use aodv_uu.State.{Node, Buffer, Event}
use aodv_uu.Machine.{M, Env, then_run, when, modify}
use aodv_uu.Device.{dev_nr, Known}
use aodv_uu.Link.{ns_ifindex, send_packet}
use aodv_uu.Link.Leaves.{Among, Only, Only-trans, About, Leaves, send_packet-Leaves}
use aodv_uu.Socket.{
  aodv_socket_send, limited, rate_limit, transmit, each_interface, send_on_all, type_offset,
  message_packet,
}
use aodv_uu.Socket.Quiet.{Quiet, Quiet-self, Quiet-trans, Quiet-Known, limited-Quiet}

-- The table and the message are as before.
pub record Sends (P : Event → Type 0) (n m : Node) : Type 0 where
  pub quiet : Quiet n m
  pub only : Only P n m
  pub send_buf : m.send_buf ≡ n.send_buf

Sends-self : {P : Event → Type 0} (n : Node) → Sends P n n
Sends-self n = record {
  quiet = Quiet-self n;
  only = record { source = λ e i. inl i };
  send_buf = refl;
}

Sends-trans : {P : Event → Type 0} {a b c : Node} → Sends P a b → Sends P b c → Sends P a c
Sends-trans f g = record {
  quiet = Quiet-trans f.quiet g.quiet;
  only = Only-trans f.only g.only;
  send_buf = g.send_buf ∙ f.send_buf;
}

-- The limit of the rate changes none of them.
record Kept (n m : Node) : Type 0 where
  events : m.events ≡ n.events
  send_buf : m.send_buf ≡ n.send_buf

limited-Kept : (env : Env) (type : ℕ) (n n' : Node) → limited env type n ≡ some n' → Kept n n'
unfolding limited
limited-Kept env type n n' e =
    elim (Option-cases (rate_limit env rreq_ratelimit n.now n.rreq_ratel)) [
      | inl a ↦ elim (Option-cases (rate_limit env rerr_ratelimit n.now n.rerr_ratel)) [
        | inl b ↦ ground (arith, a, b, e)
        | inr (w, b) ↦ ground (arith, a, b, e)
      ]
      | inr (v, a) ↦ elim (Option-cases (rate_limit env rerr_ratelimit n.now n.rerr_ratel)) [
        | inl b ↦ ground (arith, a, b, e)
        | inr (w, b) ↦ ground (arith, a, b, e)
      ]
    ]

-- A broadcast notes its time.
abbrev stamped : ℕ → Node → Node
stamped dst n =
    if dst == aodv_broadcast
    then record n { this_host = record (n.this_host) { bcast_time = n.now } }
    else n

module _ (env : Env) (P : Event → Type 0) where
  -- An event that satisfies `P` whenever it is about the packet with the message.
  abbrev pub Allowed : Buffer → (dst len ttl : ℕ) → Type 0
  Allowed msg dst len ttl =
      (src : ℕ) (e : Event) → About (message_packet env msg dst len ttl src) e → P e

  Leaves-Sends :
      {Q : Event → Type 0} {n m : Node} → ((e : Event) → Q e → P e) → Leaves Q n m → Sends P n m
  Leaves-Sends h l = record {
    quiet = record {
      heap = ap Node.heap l.frame;
      next_address = ap Node.next_address l.frame;
      num_entries = ap Node.num_entries l.frame;
      num_active = ap Node.num_active l.frame;
      tbl = ap Node.tbl l.frame;
      nif = ap (λ x. x.this_host.nif) l.frame;
      dev_indices = ap Node.dev_indices l.frame;
      now = ap Node.now l.frame;
    };
    only = record {
      source = λ e i. elim (l.only.source e i) [ inl j ↦ inl j | inr q ↦ inr (h e q) ];
    };
    send_buf = ap Node.send_buf l.frame;
  }

  stamped-Sends : (dst : ℕ) (n : Node) → Sends P n (stamped dst n)
  stamped-Sends dst n = elim (Bool-cases (dst == aodv_broadcast)) [
    | inl t ↦
        let n₁ : Node = record n { this_host = record (n.this_host) { bcast_time = n.now } } in
        rw t (record {
          quiet = record {
            heap = refl;
            next_address = refl;
            num_entries = refl;
            num_active = refl;
            tbl = refl;
            nif = refl;
            dev_indices = refl;
            now = refl;
          };
          only = record { source = λ e i. inl i };
          send_buf = refl;
        })
    | inr t ↦ rw t (Sends-self n)
  ]

  transmit-Sends :
      (msg : Buffer) (dst len ttl dev : ℕ) (n : Node)
      → Known ns_ifindex n
      → Allowed msg dst len ttl
      → (m : Node) × (transmit env msg dst len ttl dev n ≡ some (tt, m)) × Sends P n m
  unfolding transmit
  transmit-Sends msg dst len ttl dev n known h =
      let src = (dev_nr dev n).ipaddr in
      let s = stamped-Sends dst n in
      let (m, run, l) =
        send_packet-Leaves env (message_packet env msg dst len ttl src) dst 0 (stamped dst n)
          (Quiet-Known ns_ifindex s.quiet known) in
      (
        m,
        then_run
              (when (dst == aodv_broadcast)
                (modify λ m. record m { this_host = record (m.this_host) { bcast_time = m.now } }))
              (send_packet env (message_packet env msg dst len ttl src) dst 0) n (stamped dst n)
              (ground arith)
            ∙ run,
        Sends-trans s (Leaves-Sends (h src) l),
      )

  limited-Sends : (type : ℕ) (n n' : Node) → limited env type n ≡ some n' → Sends P n n'
  limited-Sends type n n' e =
      let k = limited-Kept env type n n' e in
      record {
        quiet = limited-Quiet env type n n' e;
        only = record { source = λ x i. inl (subst (Among x) k.events i) };
        send_buf = k.send_buf;
      }

  pub aodv_socket_send-Sends :
      (msg : Buffer) (dst len ttl dev : ℕ) (n : Node)
      → Known ns_ifindex n
      → Allowed msg dst len ttl
      → (m : Node) × (aodv_socket_send env msg dst len ttl dev n ≡ some (tt, m)) × Sends P n m
  unfolding aodv_socket_send
  aodv_socket_send-Sends msg dst len ttl dev n known h =
      elim (Bool-cases (n.wait_on_reboot && msg type_offset == aodv_rrep)) [
        | inl t ↦ (n, rw t, Sends-self n)
        | inr t ↦ elim (Option-cases (limited env (msg type_offset) n)) [
          | inl e ↦ (n, rw (t, e), Sends-self n)
          | inr (n', e) ↦
              let k = limited-Sends (msg type_offset) n n' e in
              let (m, run, s) =
                transmit-Sends msg dst len ttl dev n' (Quiet-Known ns_ifindex k.quiet known) h in
              (m, rw (t, e) run, Sends-trans k s)
        ]
      ]

  -- A broadcast on the interfaces, where the message is `msg`.
  broadcast-Sends :
      (msg : Buffer) (len ttl : ℕ)
      → Allowed msg aodv_broadcast len ttl
      → (rounds i : ℕ) (n : Node) → n.send_buf ≡ msg
      → Known ns_ifindex n
      → (m : Node) × (each_interface
            (λ i n. aodv_socket_send env n.send_buf aodv_broadcast len ttl i n)
            rounds
            i
            n
          ≡ some (tt, m))
        × Sends P n m
  unfolding each_interface
  broadcast-Sends msg len ttl h zero i n b known = (n, refl, Sends-self n)
  broadcast-Sends msg len ttl h (suc rounds) i n b known =
      let act : ℕ → M (Unit {0}) =
        λ i n. aodv_socket_send env n.send_buf aodv_broadcast len ttl i n in
      let (n₁, first, s₁) : (m : Node) × (when (dev_nr i n).enabled (act i) n ≡ some (tt, m))
          × Sends P n m =
        elim (Bool-cases (dev_nr i n).enabled) [
          | inl t ↦ rw t (
              aodv_socket_send-Sends n.send_buf aodv_broadcast len ttl i n known
                (subst (λ x. Allowed x aodv_broadcast len ttl) (sym b) h))
          | inr t ↦ (n, rw t, Sends-self n)
        ] in
      let (m, rest, s₂) =
        broadcast-Sends msg len ttl h rounds (i + 1) n₁ (s₁.send_buf ∙ b)
          (Quiet-Known ns_ifindex s₁.quiet known) in
      (
        m,
        then_run (λ n. when (dev_nr i n).enabled (act i) n) (each_interface act rounds (i + 1)) n n₁
              first
            ∙ rest,
        Sends-trans s₁ s₂,
      )

  -- The agent's device is known. Then a broadcast returns, the table and the clock are as before, and
  -- what leaves the node are packets with the message.
  pub send_on_all-Sends :
      (len ttl : ℕ) (n : Node)
      → Known ns_ifindex n
      → Allowed n.send_buf aodv_broadcast len ttl
      → (m : Node) × (send_on_all env len ttl n ≡ some (tt, m)) × Sends P n m
  unfolding send_on_all
  send_on_all-Sends len ttl n known h =
      broadcast-Sends n.send_buf len ttl h max_nr_interfaces 0 n refl known
