-- ===== src/Hello/Sent.antt =====
-- How far the ring of the latest HELLOs is when `hello_send` of code/aodv-uu-0.96/aodv_hello.c has computed
-- the costs of the channels a number of times.
use aodv_uu.Prelude.{ℕ, zero, suc, ◌⊎◌, ◌≡◌, Option, none, some}
use aodv_uu.State.{Node}
use aodv_uu.Machine.{M, Env}
use aodv_uu.Hello.Cost.{update_costs}

-- The ring has the same head and tail.
pub record SameRing (n m : Node) : Type 0 where
  pub head : m.this_host.hello_head ≡ n.this_host.hello_head
  pub tail : m.this_host.hello_tail ≡ n.this_host.hello_tail

-- The call faults or leaves the head and the tail.
abbrev Leaving : M (Unit {0}) → Node → Type 0
Leaving act n = (act n ≡ none) ⊎ ((m : Node) × (act n ≡ some (tt, m)) × SameRing n m)

module _ (env : Env) where
  -- The ring of the state after a run.
  abbrev tail_of : Option (Unit {0} × Node) → ℕ
  tail_of none = 0
  tail_of (some (_, m)) = m.this_host.hello_tail

  abbrev head_of : Option (Unit {0} × Node) → ℕ
  head_of none = 0
  head_of (some (_, m)) = m.this_host.hello_head

-- The states that are reached when the block was run `k` times since the constructor, which sets the
-- head and the tail to 0; other steps leave these two alone.
pub data Sent (env : Env) : ℕ → Node → Type 0 where
  start : (n : Node) → n.this_host.hello_head ≡ 0 → n.this_host.hello_tail ≡ 0 → Sent env zero n
  next :
      (k : ℕ) (n m : Node) → Sent env k n → update_costs env n ≡ some (tt, m) → Sent env (suc k) m
  other : (k : ℕ) (n m : Node) → Sent env k n → SameRing n m → Sent env k m
