-- ===== src/Route/Release.antt =====
-- The packets that wait for a route, as the functions of code/aodv-uu-0.96/routing_table.c release them.
use aodv_uu.Prelude.{ℕ, Bool, false, arith, some, ◌≡◌, refl, inl, inr, Bool-cases, if◌then◌else◌}
use aodv_uu.Word.{has_flag}
use aodv_uu.Params.{rt_inet_dest}
use aodv_uu.State.{Node, RtTable, SeekList, is_valid, pq_send, pq_enc_send}
use aodv_uu.Machine.{◌>>=◌, ◌>>◌, when, Env}
use aodv_uu.Device.{ifindex2devindex}
use aodv_uu.Link.Leaves.{Only, Only-self}
use aodv_uu.Queue.Ready.{Ready}
use aodv_uu.Queue.Refresh.{Refreshed, Refreshed-self, Refreshed-trans}
use aodv_uu.Queue.Waiting.{Waiting}
use aodv_uu.Queue.Release.{packet_queue_set_verdict-Refreshed}
use aodv_uu.Route.{released}
use aodv_uu.Route.Invariant.{Inv, SameTable-Inv}
use aodv_uu.Table.Timed.{Later}

-- Whether the destination was being sought.
abbrev pub sought : Env → Node → (d : ℕ) → Bool
sought env n d = (env.seek_list_remove (env.seek_list_find d n.seeks) n.seeks).0

-- From `n` to `m` packets for `d` were released: timeouts moved at most, and what left the node are
-- packets that waited for `d`, none if it was not sought.
pub record IsReleased (env : Env) (n m : Node) (d : ℕ) : Type 0 where
  pub refreshed : Refreshed env n m
  pub only : Only (Waiting d n.pq.head) n m
  pub quiet : sought env n d ≡ false → m.events ≡ n.events

seeks-Ready : (n : Node) (s : SeekList) → Ready n → Ready (record n { seeks = s })
unfolding ifindex2devindex
seeks-Ready n s ready = record {
  own = ready.own;
  routes = λ q rt l. ready.routes q rt (record { stored = l.stored; member = l.member });
}

seeks-Refreshed :
    (env : Env) (n : Node) (s : SeekList) → Inv n → Refreshed env n (record n { seeks = s })
seeks-Refreshed env n s inv = record {
  inv =
      SameTable-Inv
        (record {
          heap = refl;
          next_address = omega arith;
          num_entries = refl;
          num_active = refl;
          tbl = refl;
        })
        inv;
  lookup = λ d. refl;
  linked = λ q rt l. (rt, record { stored = l.stored; member = l.member }, Later.same);
  host = record { this_host = refl; dev_indices = refl; wait_on_reboot = refl };
  now = refl;
  next_address = refl;
  num_entries = refl;
  num_active = refl;
}

module _ (env : Env) (rt : RtTable) (n : Node) (inv : Inv n) (ready : Ready n) where
  released-IsReleased :
      (m : Node) × (released env rt n ≡ some (tt, m)) × IsReleased env n m rt.dest_addr
  unfolding released
  released-IsReleased =
      let s = (env.seek_list_remove (env.seek_list_find rt.dest_addr n.seeks) n.seeks).1 in
      let n₁ : Node = record n { seeks = s } in
      let r₁ = seeks-Refreshed env n s inv in
      elim (Bool-cases (sought env n rt.dest_addr)) [
        | inl t ↦
            let (z, m, run, r, o, _) =
              packet_queue_set_verdict-Refreshed env rt.dest_addr
                (if has_flag rt.flags rt_inet_dest then pq_enc_send else pq_send) n₁ r₁.inv
                (seeks-Ready n s ready) in
            (
              m,
              rw (t, ◌>>=◌, ◌>>◌, run) refl,
              record {
                refreshed = Refreshed-trans env r₁ r;
                only = record { source = o.source };
                quiet = λ f. absurd (ground (arith, t, f));
              },
            )
        | inr t ↦ (
          n₁,
          rw (t, ◌>>◌) refl,
          record { refreshed = r₁; only = record { source = λ e i. inl i }; quiet = λ f. refl },
        )
      ]

  -- The same, where only packets for a valid route are released.
  pub release-IsReleased :
      (m : Node) × (when (is_valid rt.state) (released env rt) n ≡ some (tt, m))
      × IsReleased env n m rt.dest_addr
  release-IsReleased = elim (Bool-cases (is_valid rt.state)) [
    | inl t ↦ rw t released-IsReleased
    | inr t ↦ (
      n,
      rw t refl,
      record { refreshed = Refreshed-self env n inv; only = Only-self n; quiet = λ f. refl },
    )
  ]
