-- ===== src/Agent/Start.antt =====
-- The agent after its constructor, code/aodv-uu-0.96/ns-2/aodv-uu.cc.
use aodv_uu.Prelude.{ℕ, none, some, [], ◌≡◌, refl, arith, false}
use aodv_uu.State.{Node}
use aodv_uu.Machine.{Env}
use aodv_uu.Device.{ifindex2devindex, devindex_from}
use aodv_uu.Queue.{packet_queue_init}
use aodv_uu.Queue.Fifo.{IsQueue}
use aodv_uu.Queue.Ready.{Ready}
use aodv_uu.Route.{rt_table_init}
use aodv_uu.Route.Invariant.{Inv}
use aodv_uu.Route.History.{rt_table_init-Inv}
use aodv_uu.Agent.{new_agent, new_host}

-- A new agent: its table is well-formed and empty, its devices are known, its queue is empty, and it was not
-- started.
pub record IsNew (m : Node) : Type 0 where
  pub inv : Inv m
  pub ready : Ready m
  pub queue : IsQueue m.pq
  pub entries : m.num_entries ≡ 0
  pub waiting : m.pq.head ≡ []
  pub initialized : m.initialized ≡ false

-- No routing entry is allocated. The constructor of the agent returns, and leaves a well-formed and empty
-- table, known devices, and an empty queue that is counted; the agent is not started.
pub new_agent-IsNew :
    (env : Env) (n : Node)
    → ((p : ℕ) → n.heap p ≡ none)
    → (m : Node) × (new_agent env n ≡ some (tt, m)) × IsNew m
unfolding new_agent rt_table_init packet_queue_init new_host ifindex2devindex devindex_from
new_agent-IsNew env n free = (
  _,
  refl,
  record {
    inv =
        let i = rt_table_init-Inv n _ free refl in
        record {
          fresh = i.fresh;
          chains = i.chains;
          entries = i.entries;
          active = i.active;
          bounded = i.bounded;
        };
    ready = record {
      own = (0, refl);
      routes = λ q rt l. absurd (ground (arith, l.stored, free q));
    };
    queue = record { counted = refl; bounded = omega arith };
    entries = refl;
    waiting = refl;
    initialized = refl;
  },
)
