-- ===== src/Route/Channel.antt =====
-- `rt_table_insert_with_channel` on a well-formed table.
use aodv_uu.Prelude.{
  arith, ℕ, suc, ◌<◌, ◌&&◌, false, List, [], ◌∷◌, none, some, ◌≡◌, refl, ap, ℤ, eqb_ℤ, ◌==◌, inl,
  inr, ==_ne, ◌≢◌,
}
use aodv_uu.State.{RtTable, RtState, Node}
use aodv_uu.Machine.{◌>>=◌, Env, get_rt}
use aodv_uu.Device.{ifindex2devindex, dev_ifindex, dev_nr}
use aodv_uu.Table.{hashing, find_entry}
use aodv_uu.Route.{rt_table_insert_with_channel, new_rt, started_rt}
use aodv_uu.Route.Chain.{In, Chain, lookup_in}
use aodv_uu.Route.Invariant.{Inv, hashing-lt}
use aodv_uu.Queue.Ready.{Ready}
use aodv_uu.Route.Insert.{Inserted, Stored, linked-Inserted}

-- No entry of a list of pointers goes to `d` on the channel.
abbrev pub NoneOn : Node → (d : ℕ) → ℤ → List ℕ → Type 0
NoneOn n d channel ps =
    (q : ℕ) (rt : RtTable)
    → In q ps
    → n.heap q ≡ some rt
    → (rt.dest_addr == d && eqb_ℤ rt.channel channel) ≡ false

-- Where a lookup finds nothing, there is no entry for the destination on any channel.
pub lookup_none-NoneOn :
    (n : Node) (i d : ℕ) (channel : ℤ) (ps : List ℕ)
    → Chain n.heap i ps
    → lookup_in n.heap d ps ≡ none
    → NoneOn n d channel ps
unfolding lookup_in
lookup_none-NoneOn n i d channel [] c e q rt m st = absurd m
lookup_none-NoneOn n i d channel (p ∷ ps) c e q rt (inl s) st =
    ground (arith, ap (λ x. n.heap x) s, st, c.0.stored, e)
lookup_none-NoneOn n i d channel (p ∷ ps) c e q rt (inr m) st =
    lookup_none-NoneOn n i d channel ps c.2 (ground (arith, e)) q rt m st

find_channel-Chain :
    (n : Node) (i d : ℕ) (channel : ℤ) (ps : List ℕ)
    → Chain n.heap i ps
    → NoneOn n d channel ps
    → find_entry (λ rt. rt.dest_addr == d && eqb_ℤ rt.channel channel) ps n ≡ some (none, n)
unfolding find_entry
find_channel-Chain n i d channel [] c h = refl
find_channel-Chain n i d channel (p ∷ ps) c h =
    rw (◌>>=◌, get_rt, c.0.stored, h p c.0.entry (inl refl) c.0.stored)
      (find_channel-Chain n i d channel ps c.2 (λ q rt m. h q rt (inr m)))

-- A new entry is stored: the call returns, and its state is that of an insertion.
pub rt_table_insert_with_channel_run :
    (env : Env) (n : Node) (dest_addr next hops seqno life : ℕ) (state : RtState)
    (flags ifindex : ℕ) (channel : ℤ) (cost : ℕ) (dev : ℕ)
    → Inv n
    → Ready n
    → NoneOn n dest_addr channel (n.tbl (hashing dest_addr))
    → n.num_entries < 4294967295
    → ifindex2devindex ifindex n ≡ some dev
    → dest_addr ≢ (dev_nr dev n).ipaddr
    → (m : Node) × (rt_table_insert_with_channel env dest_addr next hops seqno life state flags
          ifindex channel cost n
        ≡ some (some n.next_address, m))
      × Inserted env n m dest_addr n.next_address
      × Stored env n m (
          started_rt env n.now
            (new_rt env dest_addr next hops seqno state flags ifindex channel cost)
            life)
unfolding rt_table_insert_with_channel dev_ifindex new_rt
rt_table_insert_with_channel_run env n dest_addr next hops seqno life state flags ifindex channel
      cost dev inv ready free room e own =
    let rt = new_rt env dest_addr next hops seqno state flags ifindex channel cost in
    let n₁ : Node = record n { next_address = suc n.next_address } in
    let e₁ : ifindex2devindex ifindex n₁ ≡ some dev = unfold ifindex2devindex in e in
    let (m, run, is, stored) = linked-Inserted env n inv rt life ready (dev, e) refl room in
    (
      m,
      rw
          (
            ◌>>=◌,
            find_channel-Chain n (hashing dest_addr) dest_addr channel (n.tbl (hashing dest_addr))
                (inv.chains (hashing dest_addr) (hashing-lt dest_addr)) free,
            e₁,
            ==_ne dest_addr (dev_nr dev n).ipaddr own,
          )
          run,
      is,
      stored,
    )

-- The well-formed table has no entry for the destination on this channel, there is room for one more,
-- the interfaces of its routes, the one given and the agent's own are known, and the destination is
-- not the address of the one given. The call returns a new entry in a well-formed table with one
-- entry more. In the resulting state it is the one that a lookup finds, also where the table has an entry for
-- the same destination on another channel; other destinations are looked up as before. All that
-- leaves the node are packets that waited for the destination, and none does if it was not sought.
pub rt_table_insert_with_channel_new :
    (env : Env) (n : Node) (dest_addr next hops seqno life : ℕ) (state : RtState)
    (flags ifindex : ℕ) (channel : ℤ) (cost : ℕ) (dev : ℕ)
    → Inv n
    → Ready n
    → NoneOn n dest_addr channel (n.tbl (hashing dest_addr))
    → n.num_entries < 4294967295
    → ifindex2devindex ifindex n ≡ some dev
    → dest_addr ≢ (dev_nr dev n).ipaddr
    → (m : Node) × (rt_table_insert_with_channel env dest_addr next hops seqno life state flags
          ifindex channel cost n
        ≡ some (some n.next_address, m))
      × Inserted env n m dest_addr n.next_address
rt_table_insert_with_channel_new env n dest_addr next hops seqno life state flags ifindex channel
      cost dev inv ready free room e own =
    let (m, run, is, _) =
      rt_table_insert_with_channel_run env n dest_addr next hops seqno life state flags ifindex
        channel cost dev inv ready free room e own in
    (m, run, is)
