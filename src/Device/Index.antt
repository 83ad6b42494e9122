-- ===== src/Device/Index.antt =====
-- What `ifindex2devindex` finds.
use aodv_uu.Prelude.{
  ℕ, zero, suc, ◌+◌, ◌≤◌, ◌<◌, none, some, ◌≡◌, ◌≢◌, refl, sym, ap, ◌∙◌, ℕ_discrete, arith,
}
use aodv_uu.State.{Node}
use aodv_uu.Device.{devindex_from, ifindex2devindex, Known}

devindex_from-some :
    (rounds i ifindex : ℕ) (f : ℕ → ℕ) (k : ℕ)
    → devindex_from rounds i ifindex f ≡ some k
    → (i ≤ k) × (k < i + rounds) × (f k ≡ ifindex) × ((j : ℕ) → i ≤ j → j < k → f j ≢ ifindex)
unfolding devindex_from
devindex_from-some zero i ifindex f k e = ground (arith, e)
devindex_from-some (suc rounds) i ifindex f k e = elim (ℕ_discrete (f i) ifindex) [
  | yes q ↦
      let same : k ≡ i = ground (arith, e, q) in
      (omega arith, omega arith, ap f same ∙ q, λ j l m. absurd (omega arith))
  | no q ↦
      let (a, b, c, d) = devindex_from-some rounds (i + 1) ifindex f k (ground (arith, e, q)) in
      (
        omega arith,
        omega arith,
        c,
        λ j l m. elim (ℕ_discrete j i) [
          | yes s ↦ λ w. q (ap f (sym s) ∙ w)
          | no s ↦ d j (omega arith) m
        ],
      )
]

devindex_from-none :
    (rounds i ifindex : ℕ) (f : ℕ → ℕ)
    → devindex_from rounds i ifindex f ≡ none
    → (j : ℕ) → i ≤ j
    → j < i + rounds
    → f j ≢ ifindex
unfolding devindex_from
devindex_from-none zero i ifindex f e j l k = absurd (omega arith)
devindex_from-none (suc rounds) i ifindex f e j l k = elim (ℕ_discrete (f i) ifindex) [
  | yes q ↦ absurd (ground (arith, e, q))
  | no q ↦ elim (ℕ_discrete j i) [
    | yes s ↦ λ w. q (ap f (sym s) ∙ w)
    | no s ↦
        devindex_from-none rounds (i + 1) ifindex f (ground (arith, e, q)) j (omega arith)
          (omega arith)
  ]
]

-- `ifindex2devindex` returns the least place, below the number of interfaces, at which the index is
-- stored, and -1 only if it is stored at none of them.
ifindex2devindex-least :
    (ifindex : ℕ) (n : Node)
    → ((k : ℕ)
        → ifindex2devindex ifindex n ≡ some k
        → (k < n.this_host.nif)
          × (n.dev_indices k ≡ ifindex)
          × ((j : ℕ) → j < k → n.dev_indices j ≢ ifindex))
      × (ifindex2devindex ifindex n ≡ none
          → (j : ℕ) → j < n.this_host.nif
          → n.dev_indices j ≢ ifindex)
unfolding ifindex2devindex
ifindex2devindex-least ifindex n = (
  λ k e.
      let (a, b, c, d) = devindex_from-some n.this_host.nif 0 ifindex n.dev_indices k e in
      (omega arith, c, λ j l. d j (omega arith) l),
  λ e j l.
      devindex_from-none n.this_host.nif 0 ifindex n.dev_indices e j (omega arith) (omega arith),
)

-- What is not of the table, and matters to the sending of a message.
pub record SameHost (n m : Node) : Type 0 where
  pub this_host : m.this_host ≡ n.this_host
  pub dev_indices : m.dev_indices ≡ n.dev_indices
  pub wait_on_reboot : m.wait_on_reboot ≡ n.wait_on_reboot

pub SameHost-device :
    {n m : Node} (ifindex : ℕ)
    → SameHost n m
    → ifindex2devindex ifindex m ≡ ifindex2devindex ifindex n
unfolding ifindex2devindex
SameHost-device ifindex s = rw (s.this_host, s.dev_indices) refl

pub SameHost-Known : {n m : Node} (ifindex : ℕ) → SameHost n m → Known ifindex n → Known ifindex m
SameHost-Known ifindex s (i, e) = (i, SameHost-device ifindex s ∙ e)

pub SameHost-trans : {a b c : Node} → SameHost a b → SameHost b c → SameHost a c
SameHost-trans f g = record {
  this_host = g.this_host ∙ f.this_host;
  dev_indices = g.dev_indices ∙ f.dev_indices;
  wait_on_reboot = g.wait_on_reboot ∙ f.wait_on_reboot;
}

pub SameHost-self : (n : Node) → SameHost n n
SameHost-self n = record { this_host = refl; dev_indices = refl; wait_on_reboot = refl }
