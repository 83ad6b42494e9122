-- ===== src/Tests/Hellos.antt =====
-- The theorem on the ring of HELLOs at a concrete run.
use aodv_uu.Prelude.{ℕ, zero, suc, ◌%◌}
use aodv_uu.Params.{max_sequence_len}
use aodv_uu.State.{Node}
use aodv_uu.Machine.{update}
use aodv_uu.Hello.Cost.{advance_ring}
use aodv_uu.Hello.Sent.{Sent}
use aodv_uu.Tests.Env.{env, fresh}

-- The block at a node with no neighbours.
abbrev run_alone : Node → Node
run_alone n =
    let h = n.this_host in
    record n {
      this_host = advance_ring env (record h {
        stability_sequence =
            update h.stability_sequence (h.hello_tail % max_sequence_len) h.stability.is_stable;
      });
    }

-- The node after a number of runs.
abbrev runs : ℕ → Node
runs zero = fresh
runs (suc k) = run_alone (runs k)
