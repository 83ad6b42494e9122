-- ===== src/Tests/Table.antt =====
-- A node with one route, over two hops to 65, in a well-formed table.
use aodv_uu.Prelude.{
  ℕ, true, false, none, some, ◌≡◌, refl, sym, subst, ◌∷◌, [], pos, inl, ==_ne, ℕ_discrete, ◌==◌,
  if◌then◌else◌, arith, total,
}
use aodv_uu.State.{Node, RtTable, valid, Handler}
use aodv_uu.Route.Chain.{Chain, active_in}
use aodv_uu.Route.Invariant.{Inv, Linked}
use aodv_uu.Device.{ifindex2devindex, devindex_from}
use aodv_uu.Queue.Ready.{Ready}
use aodv_uu.Tests.Env.{fresh}

abbrev pub entry : RtTable
entry = record {
  dest_addr = 65;
  dest_seqno = 10;
  ifindex = 0;
  next_hop = 7;
  hcnt = 2;
  flags = 0;
  state = valid;
  rt_timer = record { used = true; timeout = 6000; handler = Handler.route_expire };
  ack_timer = record { used = false; timeout = 0; handler = Handler.rrep_ack };
  hello_timer = record { used = false; timeout = 0; handler = Handler.hello };
  last_hello_time = 0;
  hello_cnt = 0;
  hash = 65;
  nprec = 1;
  precursors = 77 ∷ [];
  channel = pos 0;
  cost = 0;
}

abbrev pub routed : Node
routed = record fresh {
  heap = λ p. if p == 1 then some entry else none;
  next_address = 2;
  num_entries = 1;
  num_active = 1;
  tbl = λ i. if i == 1 then 1 ∷ [] else [];
}

pub fresh-Inv : Inv fresh
unfolding total active_in
fresh-Inv = record {
  fresh = λ p l. refl;
  chains = λ i l. tt;
  entries = refl;
  active = refl;
  bounded = omega arith;
}

in_bucket : (i : ℕ) → i ≡ 1 → Chain routed.heap i (routed.tbl i)
in_bucket i e =
    subst (λ j. Chain routed.heap j (routed.tbl j)) (sym e)
      (record { entry = entry; stored = refl; bucket = refl; hashed = refl }, tt, tt)

pub routed-Inv : Inv routed
unfolding total active_in
routed-Inv = record {
  fresh = λ p l. ground arith;
  chains = λ i l. elim (ℕ_discrete i 1) [ yes e ↦ in_bucket i e | no e ↦ rw (==_ne i 1 e) tt ];
  entries = refl;
  active = refl;
  bounded = omega arith;
}

pub routed-Linked : Linked routed 1 entry
routed-Linked = record { stored = refl; member = inl refl }

pub fresh-Ready : Ready fresh
unfolding ifindex2devindex devindex_from
fresh-Ready = record { own = (0, refl); routes = λ q rt l. absurd l.member }

pub routed-Ready : Ready routed
unfolding ifindex2devindex devindex_from
routed-Ready = record {
  own = (0, refl);
  routes = λ q rt l. elim (ℕ_discrete q 1) [
    | yes e ↦ let same : rt ≡ entry = ground (arith, l.stored, e) in rw same (0, refl)
    | no e ↦ absurd (ground (arith, l.stored, e))
  ];
}
