-- ===== src/Route/Invariant.antt =====
-- The well-formedness of the routing table, and how lookups read a well-formed table.
use aodv_uu.Prelude.{
  ℕ, ◌≤◌, ◌<◌, ◌&&◌, List, [], ◌∷◌, Option, none, some, ◌≡◌, refl, sym, Bool-cases, inl, inr, ap,
  ◌∙◌, ◌==◌, length, arith, total, le-total, total_mono,
}
use aodv_uu.State.{RtTable, Node}
use aodv_uu.Table.{hashing, find_entry, rt_table_find}
use aodv_uu.Route.Chain.{Heap, In, Chain, active_in, lookup_in, goes_to}

abbrev pub linked_in : Node → ℕ → ℕ
linked_in n i = length (n.tbl i)

abbrev pub active_at : Node → ℕ → ℕ
active_at n i = active_in n.heap (n.tbl i)

-- The buckets are chains, the two counters count, and `malloc` has not handed out what comes next.
pub record Inv (n : Node) : Type 0 where
  pub fresh : (p : ℕ) → n.next_address ≤ p → n.heap p ≡ none
  pub chains : (i : ℕ) → i < 64 → Chain n.heap i (n.tbl i)
  pub entries : n.num_entries ≡ total (linked_in n) 64
  pub active : n.num_active ≡ total (active_at n) 64
  pub bounded : n.num_entries < 4294967296

-- What a lookup of `d` means: the first entry for `d` in its bucket.
abbrev pub view : Node → ℕ → Option ℕ
view n d = lookup_in n.heap d (n.tbl (hashing d))

-- An entry of the table, with its place.
pub record Linked (n : Node) (p : ℕ) (rt : RtTable) : Type 0 where
  pub stored : n.heap p ≡ some rt
  pub member : In p (n.tbl (hashing rt.dest_addr))

-- The same table: nothing of it was written, though memory may have been allocated.
pub record SameTable (n m : Node) : Type 0 where
  pub heap : m.heap ≡ n.heap
  pub next_address : n.next_address ≤ m.next_address
  pub num_entries : m.num_entries ≡ n.num_entries
  pub num_active : m.num_active ≡ n.num_active
  pub tbl : m.tbl ≡ n.tbl

pub hashing-lt : (d : ℕ) → hashing d < 64
hashing-lt d = omega arith

pub SameTable-Inv : {n m : Node} → SameTable n m → Inv n → Inv m
SameTable-Inv {n} {m} s v = record {
  fresh = λ p l. ap (λ h. h p) s.heap ∙ v.fresh p (omega arith);
  chains = λ i l. rw (s.heap, s.tbl) (v.chains i l);
  entries = rw (s.num_entries, s.tbl) v.entries;
  active = rw (s.num_active, s.heap, s.tbl) v.active;
  bounded = omega arith;
}

pub SameTable-view : {n m : Node} → SameTable n m → (d : ℕ) → view m d ≡ view n d
SameTable-view s d = rw (s.heap, s.tbl)

pub SameTable-Linked :
    {n m : Node} {p : ℕ} {rt : RtTable} → SameTable n m → Linked n p rt → Linked m p rt
SameTable-Linked {p = p} {rt = rt} s l = record {
  stored = ap (λ h. h p) s.heap ∙ l.stored;
  member = rw s.tbl l.member;
}

active_in-le : (h : Heap) (ps : List ℕ) → active_in h ps ≤ length ps
unfolding active_in
active_in-le h [] = omega arith
active_in-le h (p ∷ ps) = ground (arith, active_in-le h ps)

pub active_at-le : (n : Node) → total (active_at n) 64 ≤ total (linked_in n) 64
active_at-le n = total_mono (active_at n) (linked_in n) 64 (λ j. active_in-le n.heap (n.tbl j))

-- There are no more active entries than entries.
pub Inv-active-le : (n : Node) → Inv n → n.num_active ≤ n.num_entries
Inv-active-le n v = omega (arith, v.entries, v.active, active_at-le n)

-- The test of `rt_table_find`, and the one of `rt_table_insert`, agree with the lookup on a chain.
find_entry-Chain :
    (n : Node) (i d : ℕ) (ps : List ℕ)
    → Chain n.heap i ps
    → find_entry (λ rt. rt.hash == d && rt.dest_addr == d) ps n ≡ some (lookup_in n.heap d ps, n)
unfolding find_entry lookup_in
find_entry-Chain n i d [] c = refl
find_entry-Chain n i d (p ∷ ps) c =
    ground (arith, c.0.stored, c.0.hashed, find_entry-Chain n i d ps c.2)

pub find_dest-Chain :
    (n : Node) (i d : ℕ) (ps : List ℕ)
    → Chain n.heap i ps
    → find_entry (λ rt. rt.dest_addr == d) ps n ≡ some (lookup_in n.heap d ps, n)
unfolding find_entry lookup_in
find_dest-Chain n i d [] c = refl
find_dest-Chain n i d (p ∷ ps) c = ground (arith, c.0.stored, find_dest-Chain n i d ps c.2)

lookup_in-empty : (h : Heap) (d : ℕ) (ps : List ℕ) → length ps ≡ 0 → lookup_in h d ps ≡ none
unfolding lookup_in
lookup_in-empty h d [] e = refl
lookup_in-empty h d (p ∷ ps) e = absurd (omega arith)

-- On a well-formed table `rt_table_find` does not fault, changes nothing and returns the first entry for
-- the destination.
pub rt_table_find-view : (n : Node) (d : ℕ) → Inv n → rt_table_find d n ≡ some (view n d, n)
unfolding rt_table_find
rt_table_find-view n d v = ground (
  arith,
  find_entry-Chain n (hashing d) d (n.tbl (hashing d)) (v.chains (hashing d) (hashing-lt d)),
  v.entries,
  le-total (linked_in n) 64 (hashing d) (hashing-lt d),
  lookup_in-empty n.heap d (n.tbl (hashing d)),
)

lookup_in-linked :
    (h : Heap) (d i : ℕ) (ps : List ℕ) {p : ℕ}
    → Chain h i ps
    → lookup_in h d ps ≡ some p
    → (rt : RtTable) × (h p ≡ some rt) × (rt.dest_addr ≡ d) × In p ps
unfolding lookup_in
lookup_in-linked h d i [] c e = absurd (ground (arith, e))
lookup_in-linked h d i (q ∷ ps) {p} c e = elim (Bool-cases (goes_to d (h q))) [
  | inl t ↦
      let same : q ≡ p = ground (arith, t, e) in
      (c.0.entry, rw (← same) c.0.stored, ground (arith, t, c.0.stored), inl (sym same))
  | inr t ↦
      let (rt, stored, to, member) = lookup_in-linked h d i ps c.2 (ground (arith, t, e)) in
      (rt, stored, to, inr member)
]

-- What a lookup in a well-formed table finds is an entry of the table, and one for the destination.
pub view-Linked :
    (n : Node) (d : ℕ) {p : ℕ}
    → Inv n
    → view n d ≡ some p
    → (rt : RtTable) × Linked n p rt × (rt.dest_addr ≡ d)
view-Linked n d v e =
    let (rt, stored, to, member) =
      lookup_in-linked n.heap d (hashing d) (n.tbl (hashing d))
        (v.chains (hashing d) (hashing-lt d)) e in
    (rt, record { stored = stored; member = rw to member }, to)
