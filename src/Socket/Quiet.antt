-- ===== src/Socket/Quiet.antt =====
-- What sending leaves alone.
use aodv_uu.Prelude.{ℕ, ◌≡◌, refl, ◌∙◌, arith, Option-cases, inl, inr, some}
use aodv_uu.Params.{rreq_ratelimit, rerr_ratelimit}
use aodv_uu.State.{Node}
use aodv_uu.Machine.{Env}
use aodv_uu.Device.{Known, ifindex2devindex}
use aodv_uu.Socket.{limited, rate_limit}

-- The routing table, the devices and the clock are as they were.
pub record Quiet (n m : Node) : Type 0 where
  pub heap : m.heap ≡ n.heap
  pub next_address : m.next_address ≡ n.next_address
  pub num_entries : m.num_entries ≡ n.num_entries
  pub num_active : m.num_active ≡ n.num_active
  pub tbl : m.tbl ≡ n.tbl
  pub nif : m.this_host.nif ≡ n.this_host.nif
  pub dev_indices : m.dev_indices ≡ n.dev_indices
  pub now : m.now ≡ n.now

pub Quiet-self : (n : Node) → Quiet n n
Quiet-self n = record {
  heap = refl;
  next_address = refl;
  num_entries = refl;
  num_active = refl;
  tbl = refl;
  nif = refl;
  dev_indices = refl;
  now = refl;
}

pub Quiet-trans : {a b c : Node} → Quiet a b → Quiet b c → Quiet a c
Quiet-trans f g = record {
  heap = g.heap ∙ f.heap;
  next_address = g.next_address ∙ f.next_address;
  num_entries = g.num_entries ∙ f.num_entries;
  num_active = g.num_active ∙ f.num_active;
  tbl = g.tbl ∙ f.tbl;
  nif = g.nif ∙ f.nif;
  dev_indices = g.dev_indices ∙ f.dev_indices;
  now = g.now ∙ f.now;
}

pub Quiet-Known : {n m : Node} (ifindex : ℕ) → Quiet n m → Known ifindex n → Known ifindex m
unfolding ifindex2devindex
Quiet-Known ifindex q (i, e) = (i, rw (q.nif, q.dev_indices) e)

pub limited-Quiet : (env : Env) (type : ℕ) (n n' : Node) → limited env type n ≡ some n' → Quiet n n'
unfolding limited
limited-Quiet env type n n' e =
    elim (Option-cases (rate_limit env rreq_ratelimit n.now n.rreq_ratel)) [
      | inl a ↦ elim (Option-cases (rate_limit env rerr_ratelimit n.now n.rerr_ratel)) [
        | inl b ↦ ground (arith, a, b, e)
        | inr (w, b) ↦ ground (arith, a, b, e)
      ]
      | inr (v, a) ↦ elim (Option-cases (rate_limit env rerr_ratelimit n.now n.rerr_ratel)) [
        | inl b ↦ ground (arith, a, b, e)
        | inr (w, b) ↦ ground (arith, a, b, e)
      ]
    ]
