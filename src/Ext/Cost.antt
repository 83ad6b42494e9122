-- ===== src/Ext/Cost.antt =====
-- `getCost` of code/aodv-uu-0.96/ns-2/aodv-uu.h against a search in the list of the neighbours.
use aodv_uu.Prelude.{
  ℕ, zero, suc, ◌+◌, ◌≤◌, ◌<◌, ◌≡◌, refl, arith, true, ltb, ◌==◌, Bool-cases, inl, inr, Option,
  none, some, List, [], ◌∷◌,
}
use aodv_uu.State.{Node, NeighborInfo}
use aodv_uu.Machine.{◌>>=◌, Env}
use aodv_uu.Records.{find_first}
use aodv_uu.Params.{most_cost, least_rate}
use aodv_uu.Ext.{neighbor_at, max_neighbors, cost_from, get_cost, max_double, min_double}

-- The neighbours from the place `i` on, `count` of them.
unfoldable pub neighbor_list : (ℕ → NeighborInfo) → (count i : ℕ) → List NeighborInfo
neighbor_list neighbors zero i = []
neighbor_list neighbors (suc count) i = neighbors i ∷ neighbor_list neighbors count (i + 1)

-- The cost of the link to a neighbour, if it is known: the rate of the channel, 1e-6 at least, gives
-- the negated logarithm, 1e5 at most.
abbrev pub link_cost : Env → (channel : ℕ) → Option NeighborInfo → ℕ
link_cost env channel none = most_cost
link_cost env channel (some nb) =
    min_double env most_cost
      (env.neg_double (env.log_double (max_double env least_rate (nb.channel_cost channel))))

cost_from-find_first :
    (env : Env) (n : Node) (src channel rounds i : ℕ)
    → rounds + i ≤ max_neighbors
    → channel < 3
    → cost_from env src channel rounds i n
      ≡ some (
        link_cost env channel
            (find_first (λ nb. nb.ipaddr == src) (neighbor_list n.this_host.neighbors rounds i)),
        n,
      )
unfolding cost_from find_first neighbor_list neighbor_at
cost_from-find_first env n src channel zero i l c = refl
cost_from-find_first env n src channel (suc rounds) i l c =
    let room : ltb i max_neighbors ≡ true = ground (arith, l) in
    let known : ltb channel 3 ≡ true = ground (arith, c) in
    elim (Bool-cases ((n.this_host.neighbors i).ipaddr == src)) [
      | inl t ↦ rw (◌>>=◌, room, t, known) refl
      | inr t ↦
          rw (◌>>=◌, room, t)
            (cost_from-find_first env n src channel rounds (i + 1) (omega arith) c)
    ]

-- With 20 neighbours at most, and one of the three channels, `getCost` returns the cost of the link to
-- the first neighbour with the address in the list of the neighbours, and 1e5 if there is none; it
-- reads the array within its bounds and changes nothing.
pub get_cost-find_first :
    (env : Env) (n : Node) (src channel : ℕ)
    → n.this_host.neighbor_num ≤ max_neighbors
    → channel < 3
    → get_cost env src channel n
      ≡ some (
        link_cost env channel (
            find_first
              (λ nb. nb.ipaddr == src)
              (neighbor_list n.this_host.neighbors n.this_host.neighbor_num 0)),
        n,
      )
unfolding get_cost
get_cost-find_first env n src channel l c =
    cost_from-find_first env n src channel n.this_host.neighbor_num 0 (omega arith) c
