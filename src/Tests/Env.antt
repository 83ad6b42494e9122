-- ===== src/Tests/Env.antt =====
-- A concrete instance of what the agent does not implement: lists that are kept in order, timers that
-- are switched on and off, an empty list of sought destinations, and a link break that invalidates
-- the neighbour's own entry.
use aodv_uu.Prelude.{
  ℕ, length, ◌<◌, ◌≡◌, ap, inl, inr, Bool-cases, Option-cases, ◌+◌, ◌-◌, ◌*◌, ◌/◌, refl, ◌∷◌, [],
  ◌++◌, ◌==◌, List, Bool, Option, some, true, false, none, ℤ, pos, negsuc, leb, ltb, if◌then◌else◌,
  arith,
}
use aodv_uu.State.{Node, NeighborInfo, Handler, RerrRecord, RreqRecord, Blacklist}
use aodv_uu.Machine.{ListOps, unlink, own_address, skip, ret, Env, TimerLaws}
use aodv_uu.Packet.{Packet, down, ns_af_none}

abbrev pub ordered : {A : Type 0} (address : A → ℕ) → ListOps A address
ordered address = record {
  list_add = λ xs x. x ∷ xs;
  list_detach = unlink address;
  list_add-first = λ xs x. refl;
  list_detach-unlink = λ xs p. refl;
}

abbrev pub sub_ℕ : ℕ → ℕ → ℤ
sub_ℕ a b = if leb b a then pos (a - b) else negsuc (b - a - 1)

-- A queue that is kept in order.
abbrev first_to : ℕ → List Packet → Option (Packet × List Packet)
first_to a [] = none
first_to a (p ∷ ps) =
    if p.next_hop == a
    then some (p, ps)
    else elim (first_to a ps) [ none ↦ none | some (q, rest) ↦ some (q, p ∷ rest) ]

pub first_to-shrinks :
    (a : ℕ) (q rest : List Packet) (p : Packet)
    → first_to a q ≡ some (p, rest)
    → length rest < length q
first_to-shrinks a [] rest p e = absurd (ground (arith, e))
first_to-shrinks a (x ∷ xs) rest p e = elim (Bool-cases (x.next_hop == a)) [
  | inl t ↦ let same : rest ≡ xs = ground (arith, e, t) in omega (arith, ap length same)
  | inr t ↦ elim (Option-cases (first_to a xs)) [
    | inl f ↦ absurd (ground (arith, e, t, f))
    | inr ((y, ys), f) ↦
        let less = first_to-shrinks a xs ys y f in
        let same : rest ≡ x ∷ ys = ground (arith, e, t, f) in omega (arith, ap length same)
  ]
]

abbrev others : (Packet → Bool) → List Packet → List Packet
others f [] = []
others f (p ∷ ps) = if f p then others f ps else p ∷ others f ps

abbrev pub env : Env
env = record {
  unidir_hack = false;
  rreq_gratuitous = false;
  expanding_ring_search = true;
  local_repair = true;
  ratelimit = true;
  llfeedback = false;
  optimized_hellos = false;
  hello_jittering = false;
  receive_n_hellos = 0;
  active_route_timeout = 3000;
  ttl_start = 2;
  delete_period = 15000;
  fresh_memory = λ p. 0;
  uninitialized = 0;
  timer_init = λ h t. record { used = false; timeout = 0; handler = h };
  timer_set_timeout = λ now msec t. record t { used = true; timeout = now + msec };
  timer_remove = λ t. record t { used = false };
  timeval_add_msec = λ a m. a + m;
  timeval_diff = sub_ℕ;
  pointers = ordered own_address;
  rreq_records_ops = ordered RreqRecord.address;
  blacklist_ops = ordered Blacklist.address;
  rerr_records_ops = ordered RerrRecord.address;
  seek_list_find = λ a s. none;
  seek_list_remove = λ p s. (false, s);
  seek_list_insert = λ a q t f s. (0, s);
  neighbor_link_break = λ p. skip;
  neighbor_add = λ m s i. skip;
  lt_double = ltb;
  add_double = λ a b. a + b;
  mul_double = λ a b. a * b;
  div_double = λ a b. a / b;
  neg_double = λ a. a;
  log_double = λ a. a;
  double_of_int = λ a. a;
  mac_state = λ i. 1;
  mac_snr = λ i. 1;
  random_jitter = pos 0;
  maxttl = 255;
  random_uniform = 0;
  allocpkt = record {
    ptype = 0;
    size = 0;
    direction = down;
    num_forwards = 0;
    prev_hop = 0;
    next_hop = 0;
    addr_type = ns_af_none;
    xmit_failure = false;
    saddr = 0;
    daddr = 0;
    ttl = 32;
    channel = 0;
    contents = λ i. 0;
  };
  pq_list = record { list_add_tail = λ xs x. xs ++ (x ∷ []); list_add_tail-last = λ xs x. refl };
  ifq_filter = λ a q. first_to a q;
  ifq_filter_by = λ f q. others f q;
  timer_age_queue = ret none;
}

pub env-TimerLaws : TimerLaws env
env-TimerLaws = record {
  init_handler = λ h t. refl;
  init_used = λ h t. refl;
  set_timeout = λ n m t. refl;
  set_used = λ n m t. refl;
  set_handler = λ n m t. refl;
  remove_used = λ t. refl;
  diff_lt = λ a b k. ground arith;
  add_msec = λ a m. refl;
}

abbrev pub no_neighbor : NeighborInfo
no_neighbor = record {
  ipaddr = 0;
  neighbor_sta = 0;
  valid_sta = false;
  channel_hello_self_received = λ c. 0;
  channel_hello_remote_sent = 0;
  channel_hello_remote_received = λ c. 0;
  channel_hello_sequence = λ c k. 0;
  host_stability_sequence = λ k. 0;
  channel_cost = λ c. 0;
}

-- An agent at its start, with one device at the address 1.
abbrev pub fresh : Node
fresh = record {
  heap = λ p. none;
  next_address = 1;
  num_entries = 0;
  num_active = 0;
  tbl = λ i. [];
  this_host = record {
    seqno = 1;
    bcast_time = 0;
    fwd_time = 0;
    rreq_id = 0;
    rerr_id = 0;
    nif = 1;
    devs = λ i. record { enabled = ltb i 1; ipaddr = 1; broadcast = 0xffffffff; ifindex = 0 };
    neighbors = λ i. no_neighbor;
    neighbor_num = 0;
    stability = record {
      neighbor_num = 0;
      neighbor_change = 0;
      ava_channel_num = 0;
      best_channel_snr = 0;
      is_stable = 0;
    };
    hello_head = 0;
    hello_tail = 0;
    stability_sequence = λ i. 0;
  };
  dev_indices = λ i. 0;
  channel_num = 0;
  rreq_records = [];
  rreq_blacklist = [];
  rerr_records = [];
  seeks = record { entry = λ p. none; seekhead = [] };
  send_buf = λ i. 0;
  rreq_ratel = record { times = λ i. 0; count = 0 };
  rerr_ratel = record { times = λ i. 0; count = 0 };
  wait_on_reboot = false;
  worb_timer = record { used = false; timeout = 0; handler = Handler.null };
  pq = record {
    head = [];
    len = 0;
    garbage_collect_timer = record { used = true; timeout = 1000; handler = Handler.packet_queue };
  };
  ifqueue = none;
  n_ifaces = 3;
  initialized = true;
  hello_timer = record { used = false; timeout = 0; handler = Handler.null };
  now = 5000;
  events = [];
}
