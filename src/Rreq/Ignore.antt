-- ===== src/Rreq/Ignore.antt =====
-- The requests that `rreq_process` of code/aodv-uu-0.96/aodv_rreq.c ignores.
use aodv_uu.Prelude.{
  ℕ, ◌<◌, ◌⊎◌, ◌↔◌, inl, inr, Bool, true, false, none, some, ◌≡◌, ◌≢◌, ◌≤◌, ◌∙◌, refl, arith, ◌==◌,
  ==_ne, ltb, ◌||◌, Bool-cases, Option-cases,
}
use aodv_uu.State.{Buffer, Node}
use aodv_uu.Machine.{◌>>=◌, Env}
use aodv_uu.Device.{dev_ifindex, dev_nr}
use aodv_uu.Records.{rreq_blacklist_find, rreq_record_find, rreq_record_find_less_cost}
use aodv_uu.Params.{aodv_rreq_lr}
use aodv_uu.Fresh.{own_ipaddr, Costly, read_cost}
use aodv_uu.Rreq.{rreq_size}
use aodv_uu.Rreq.Common.{ignored}
use aodv_uu.Rreq.LocalRepair.{rreq_process_lr}
use aodv_uu.Rreq.Process.{rreq_process, rreq_process_plain}

pub own_ipaddr_run :
    (ifindex dev : ℕ) (n : Node)
    → dev_ifindex ifindex n ≡ some (dev, n)
    → own_ipaddr ifindex n ≡ some ((dev_nr dev n).ipaddr, n)
unfolding own_ipaddr
own_ipaddr_run ifindex dev n e = rw (◌>>=◌, e)

-- The request comes from this node, is too short, or comes over a neighbour in the blacklist.
abbrev pub Ignorable : Buffer → (rreqlen ip_src own : ℕ) → Node → Type 0
Ignorable rreq rreqlen ip_src own n =
    (rreq 20 ≡ own) ⊎ (rreqlen < rreq_size) ⊎ (rreq_blacklist_find ip_src n ≢ none)

-- `ignored` decides, and changes nothing.
pub ignored_run :
    (rreq : Buffer) (rreqlen ip_src own : ℕ) (n : Node)
    → (b : Bool) × (ignored rreq rreqlen ip_src own n ≡ some (b, n))
      × ((Ignorable rreq rreqlen ip_src own n) ↔ (b ≡ true))
unfolding ignored
ignored_run rreq rreqlen ip_src own n =
    elim (Bool-cases (rreq 20 == own || ltb rreqlen rreq_size)) [
      | inl t ↦ (true, rw t refl, ground (arith, t))
      | inr t ↦ elim (Option-cases (rreq_blacklist_find ip_src n)) [
        | inl e ↦ (false, rw (t, ◌>>=◌, e), ground (arith, t, e))
        | inr (x, e) ↦ (true, rw (t, ◌>>=◌, e), ground (arith, t, e))
      ]
    ]

pub not_ignored :
    (rreq : Buffer) (rreqlen ip_src own : ℕ) (n : Node)
    → rreq 20 ≢ own
    → rreq_size ≤ rreqlen
    → rreq_blacklist_find ip_src n ≡ none
    → ignored rreq rreqlen ip_src own n ≡ some (false, n)
not_ignored rreq rreqlen ip_src own n foreign complete listed =
    let (b, e, i) = ignored_run rreq rreqlen ip_src own n in
    elim (Bool-cases b) [
      | inl t ↦ absurd (elim (i.1 t) [
        | inl s ↦ foreign s
        | inr (inl s) ↦ omega (arith, s, complete)
        | inr (inr s) ↦ s listed
      ])
      | inr t ↦ e ∙ (λ j. some (t j, n))
    ]

-- A request for a repair is recorded, and one of the other kind is recorded with a lower cost than the
-- one that it carries with the cost of the link.
abbrev pub Repeated : Env → Buffer → (rreqlen ip_src : ℕ) → Node → Type 0
Repeated env rreq rreqlen ip_src n =
    ((rreq 1 ≡ aodv_rreq_lr) × ((rreq_record_find (rreq 20) (rreq 8) n) ≢ none))
    ⊎ ((rreq 1 ≢ aodv_rreq_lr)
        × ((c : Costly) × (read_cost env rreq ip_src rreq_size rreqlen n ≡ some (c, n))
            × ((rreq_record_find_less_cost env (rreq 20) (rreq 8) c.cost n) ≢ none)))

-- A request is ignored, whether it asks for a repair or not, if it comes from this node, if it is
-- too short, or if it comes over a neighbour in the blacklist. One that asks for a repair is
-- ignored as well if it is recorded. One that does not, and whose extensions are read without a
-- fault, is ignored if it is recorded with a strictly lower cost than its own: that of its last
-- extension with a cost with that of the link added, or log(MAX_NUM) if it has no such extension.
-- To be ignored means that the handler returns, nothing changes and nothing is sent. The device of
-- the interface has to be known.
pub rreq_process_ignored :
    (env : Env) (n : Node) (rreq : Buffer) (rreqlen ip_src ip_ttl ifindex dev : ℕ)
    → dev_ifindex ifindex n ≡ some (dev, n)
    → (Ignorable rreq rreqlen ip_src (dev_nr dev n).ipaddr n) ⊎ (Repeated env rreq rreqlen ip_src n)
    → rreq_process env rreq rreqlen ip_src ip_ttl ifindex n ≡ some (tt, n)
unfolding rreq_process rreq_process_plain rreq_process_lr
rreq_process_ignored env n rreq rreqlen ip_src ip_ttl ifindex dev d h =
    let own = (dev_nr dev n).ipaddr in
    let mine = own_ipaddr_run ifindex dev n d in
    let (b, e, i) = ignored_run rreq rreqlen ip_src own n in
    elim (Bool-cases b) [
      | inl y ↦ elim (Bool-cases (rreq 1 == aodv_rreq_lr)) [
        | inl t ↦ rw (t, ◌>>=◌, mine, e, y) refl
        | inr t ↦ rw (t, ◌>>=◌, mine, e, y) refl
      ]
      | inr y ↦ elim h [
        | inl x ↦ absurd (ground (arith, i.0 x, y))
        | inr (inl (t, r)) ↦ elim (Option-cases (rreq_record_find (rreq 20) (rreq 8) n)) [
          | inl z ↦ absurd (r z)
          | inr (rec, z) ↦ rw (t, ◌>>=◌, mine, e, y, z) refl
        ]
        | inr (inr (t, (c, s, r))) ↦
            elim (Option-cases (rreq_record_find_less_cost env (rreq 20) (rreq 8) c.cost n)) [
              | inl z ↦ absurd (r z)
              | inr (rec, z) ↦ rw (==_ne (rreq 1) aodv_rreq_lr t, ◌>>=◌, mine, e, y, s, z) refl
            ]
      ]
    ]
