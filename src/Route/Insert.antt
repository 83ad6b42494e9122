-- ===== src/Route/Insert.antt =====
-- Insertion into a well-formed table.
use aodv_uu.Prelude.{ℕ, suc, negsuc, ◌+◌, ◌<◌, subst, false, none, some, ◌≡◌, ◌≢◌, refl, ◌∙◌, arith}
use aodv_uu.State.{RtTable, RtState, Node}
use aodv_uu.Machine.{◌>>=◌, Env}
use aodv_uu.Table.{hashing}
use aodv_uu.Route.{rt_table_insert, linked_node, started_rt, new_rt, insert_entry}
use aodv_uu.Device.{Known, ifindex2devindex}
use aodv_uu.Device.Index.{SameHost}
use aodv_uu.Link.Leaves.{Only}
use aodv_uu.Queue.Ready.{Ready}
use aodv_uu.Queue.Waiting.{Waiting}
use aodv_uu.Table.Timed.{Later}
use aodv_uu.Route.Release.{sought, release-IsReleased}
use aodv_uu.Route.Invariant.{Inv, view, view-Linked, hashing-lt, find_dest-Chain}
use aodv_uu.Route.Linked.{
  linked_node-stored, insert_entry_run, linked_node-counted, linked_node-Inv, linked_node-view_self,
  linked_node-view_ne, linked_node-Ready,
}

-- What an insertion at `d` makes of a table: `n'` is well-formed, `d` reads as the new entry, and the
-- other destinations as before. What leaves the node are packets that waited for `d`, none if it was not
-- sought.
pub record Inserted (env : Env) (n n' : Node) (d p : ℕ) : Type 0 where
  pub inv : Inv n'
  pub here : view n' d ≡ some p
  pub elsewhere : (j : ℕ) → j ≢ d → view n' j ≡ view n j
  pub counted : n'.num_entries ≡ n.num_entries + 1
  pub host : SameHost n n'
  pub only : Only (Waiting d n.pq.head) n n'
  pub quiet : sought env n d ≡ false → n'.events ≡ n.events

-- `malloc` keeps the table.
pub malloc-Inv : {n : Node} → Inv n → Inv (record n { next_address = suc n.next_address })
malloc-Inv v = record {
  fresh = λ p l. v.fresh p (omega arith);
  chains = v.chains;
  entries = v.entries;
  active = v.active;
  bounded = v.bounded;
}

malloc-Known :
    (n : Node) (i : ℕ) → Known i n → Known i (record n { next_address = suc n.next_address })
unfolding ifindex2devindex
malloc-Known n i k = k

malloc-Ready : {n : Node} → Ready n → Ready (record n { next_address = suc n.next_address })
unfolding ifindex2devindex
malloc-Ready {n} ready = record {
  own = ready.own;
  routes = λ q rt l. ready.routes q rt (record { stored = l.stored; member = l.member });
}

-- The entry that an insertion started, perhaps with a later timeout.
abbrev pub Stored : Env → Node → Node → RtTable → Type 0
Stored env n n' started =
    (new : RtTable) × (n'.heap n.next_address ≡ some new)
    × Later env n.now env.active_route_timeout started new

module _ (env : Env) (n : Node) (inv : Inv n) where
  -- The last steps of both insertions.
  pub linked-Inserted :
      (rt : RtTable) (life : ℕ)
      → Ready n
      → Known rt.ifindex n
      → rt.hash ≡ rt.dest_addr
      → n.num_entries < 4294967295
      → (n' : Node) × (insert_entry env n.next_address rt life
            (record n { next_address = suc n.next_address })
          ≡ some (some n.next_address, n'))
        × Inserted env n n' rt.dest_addr n.next_address
        × Stored env n n' (started_rt env n.now rt life)
  unfolding linked_node started_rt
  linked-Inserted rt life ready known hashed room =
      let n₁ : Node = record n { next_address = suc n.next_address } in
      let p = n.next_address in
      let n₂ = linked_node env p rt life n₁ in
      let started = started_rt env n.now rt life in
      let free = inv.fresh p (omega arith) in
      let old : p < n₁.next_address = omega arith in
      let v = malloc-Inv inv in
      let inv₂ = linked_node-Inv env p rt life n₁ v free old hashed room in
      let here₂ = linked_node-view_self env p rt life n₁ v free old hashed room in
      let ready₁ = malloc-Ready ready in
      let ready₂ =
        linked_node-Ready env p rt life n₁ v free old hashed room ready₁
          (malloc-Known n rt.ifindex known) in
      let (m, run, is) = release-IsReleased env started n₂ inv₂ ready₂ in
      let (at, l, to) = view-Linked n₂ rt.dest_addr inv₂ here₂ in
      let r = is.refreshed in
      let (new, l', later) = r.linked p at l in
      (
        m,
        insert_entry_run env p rt life n₁ m run,
        record {
          inv = r.inv;
          here = r.lookup rt.dest_addr ∙ here₂;
          elsewhere =
              λ j e. r.lookup j ∙ linked_node-view_ne env p rt life n₁ v free old hashed room j e;
          counted = r.num_entries ∙ linked_node-counted env p rt life n₁ room;
          host = record {
            this_host = r.host.this_host;
            dev_indices = r.host.dev_indices;
            wait_on_reboot = r.host.wait_on_reboot;
          };
          only = record { source = is.only.source };
          quiet = is.quiet;
        },
        (
          new,
          l'.stored,
          subst (λ x. Later env n.now env.active_route_timeout x new)
              (ground (arith, l.stored, linked_node-stored env p rt life n₁)) later,
        ),
      )

  -- If a well-formed table has an entry for the destination, `rt_table_insert` returns NULL and
  -- changes nothing.
  pub rt_table_insert_old :
      (dest_addr next hops seqno life : ℕ) (state : RtState) (flags ifindex : ℕ) {q : ℕ}
      → view n dest_addr ≡ some q
      → rt_table_insert env dest_addr next hops seqno life state flags ifindex n ≡ some (none, n)
  unfolding rt_table_insert
  rt_table_insert_old dest_addr next hops seqno life state flags ifindex e = rw (
    find_dest-Chain n (hashing dest_addr) dest_addr (n.tbl (hashing dest_addr))
        (inv.chains (hashing dest_addr) (hashing-lt dest_addr)),
    ◌>>=◌,
    e,
  )

  -- A well-formed table has no entry for the destination, and room for one more; its interfaces, the
  -- one given and the agent's own are known. Then `rt_table_insert` returns a new entry in a
  -- well-formed table with one entry more; a lookup of the destination finds it, and other
  -- destinations are looked up as before. All that leaves the node are packets that waited for the
  -- destination, and none does if it was not sought.
  pub rt_table_insert_new :
      (dest_addr next hops seqno life : ℕ) (state : RtState) (flags ifindex : ℕ)
      → Ready n
      → Known ifindex n
      → n.num_entries < 4294967295
      → view n dest_addr ≡ none
      → (n' : Node) × (rt_table_insert env dest_addr next hops seqno life state flags ifindex n
          ≡ some (some n.next_address, n'))
        × Inserted env n n' dest_addr n.next_address
  unfolding rt_table_insert new_rt
  rt_table_insert_new dest_addr next hops seqno life state flags ifindex ready known room e =
      let rt =
        new_rt env dest_addr next hops seqno state flags ifindex (negsuc 0) 0x40f86a0000000000 in
      let (m, run, is, _) = linked-Inserted rt life ready known refl room in
      (
        m,
        rw
            (
              find_dest-Chain n (hashing dest_addr) dest_addr (n.tbl (hashing dest_addr))
                  (inv.chains (hashing dest_addr) (hashing-lt dest_addr)),
              ◌>>=◌,
              e,
            )
            run,
        is,
      )
