-- ===== src/Precursor/Laws.antt =====
-- The precursor list is a set of addresses, and `nprec` is its size.
use aodv_uu.Prelude.{
  ℕ, ◌+◌, ◌<◌, true, false, List, [], ◌∷◌, some, ◌≡◌, refl, length, arith, ◌==◌, if◌then◌else◌,
  Bool-cases, inl, inr, ==_refl, ==_ne, ℕ_discrete,
}
use aodv_uu.Word.{inc32, dec32}
use aodv_uu.State.{RtTable, Node}
use aodv_uu.Machine.{M, ◌>>=◌, get_rt, modify_rt, update, update_stored, unlink, own_address, Env}
use aodv_uu.Precursor.{
  has_precursor, destroy_loop, emptied, precursor_list_destroy, precursor_add, precursor_remove,
}

-- No address stands in the list twice.
abbrev pub Distinct : List ℕ → Type 0
Distinct [] = Unit
Distinct (x ∷ xs) = (has_precursor xs x ≡ false) × Distinct xs

-- The counter counts, and it does not wrap.
pub record IsCounted (rt : RtTable) : Type 0 where
  pub distinct : Distinct rt.precursors
  pub counted : rt.nprec ≡ length rt.precursors
  pub small : rt.nprec < 4294967296

pub precursor_list_destroy_run :
    (n : Node) (p : ℕ) (rt : RtTable)
    → n.heap p ≡ some rt
    → precursor_list_destroy (some p) n
      ≡ some (tt, record n { heap = update n.heap p (some (emptied rt)) })
unfolding precursor_list_destroy
precursor_list_destroy_run n p rt e = rw (modify_rt, e)

destroy_loop-length : (xs : List ℕ) (k : ℕ) → k ≡ length xs → k < 4294967296 → destroy_loop xs k ≡ 0
unfolding destroy_loop
destroy_loop-length [] k e l = e
destroy_loop-length (x ∷ xs) k e l = destroy_loop-length xs (dec32 k) (omega arith) (omega arith)

-- If the precursor list of an entry is a set that is counted, then after `precursor_list_destroy`
-- the list is empty and the counter is 0.
pub emptied-IsCounted :
    (rt : RtTable) → IsCounted rt → IsCounted (emptied rt) × ((emptied rt).nprec ≡ 0)
unfolding emptied
emptied-IsCounted rt c =
    let zeroed = destroy_loop-length rt.precursors rt.nprec c.counted c.small in
    (record { distinct = tt; counted = zeroed; small = omega arith }, zeroed)

has-unlink :
    (xs : List ℕ) (x y : ℕ)
    → Distinct xs
    → has_precursor (unlink own_address xs x) y ≡ (if x == y then false else has_precursor xs y)
unfolding has_precursor
has-unlink [] x y d = ground arith
has-unlink (z ∷ xs) x y d = ground (arith, has-unlink xs x y, d.0)

Distinct-unlink : (xs : List ℕ) (x : ℕ) → Distinct xs → Distinct (unlink own_address xs x)
Distinct-unlink [] x d = tt
Distinct-unlink (z ∷ xs) x d = elim (Bool-cases (z == x)) [
  | inl e ↦ rw e d.1
  | inr e ↦ rw e (ground (arith, has-unlink xs x z d.1, d.0), Distinct-unlink xs x d.1)
]

length-unlink_has :
    (xs : List ℕ) (x : ℕ)
    → has_precursor xs x ≡ true
    → length (unlink own_address xs x) + 1 ≡ length xs
unfolding has_precursor
length-unlink_has [] x h = cc
length-unlink_has (z ∷ xs) x h = ground (arith, length-unlink_has xs x)

-- One run on the entry `old` at `p`: it does not fault, writes `new` there and nothing elsewhere. Of the entry
-- only the list and its counter change, and the list of `new` is a set that is counted.
pub record Rewrites (n : Node) (p : ℕ) (old : RtTable) (run : M (Unit {0})) (new : RtTable)
    : Type 0 where
  pub after : Node
  pub runs : run n ≡ some (tt, after)
  pub heap : after.heap ≡ update n.heap p (some new)
  pub frame : after ≡ record n { heap = after.heap }
  pub route : new ≡ record old { precursors = new.precursors; nprec = new.nprec }
  pub counted : IsCounted new

module _ (env : Env) (n : Node) (p addr : ℕ) (rt : RtTable) (at : n.heap p ≡ some rt)
    (c : IsCounted rt) where
  -- The pointer is to an entry whose list is a set that is counted, with room for one more. Then
  -- `precursor_add` runs, makes the address a precursor, keeps the others and adds none, and leaves
  -- the list a set that is counted.
  pub precursor_add-has :
      rt.nprec < 4294967295
      → (new : RtTable) × Rewrites n p rt (precursor_add env (some p) addr) new
        × ((a : ℕ)
            → has_precursor new.precursors a
              ≡ (if addr == a then true else has_precursor rt.precursors a))
  unfolding precursor_add has_precursor
  precursor_add-has room = elim (Bool-cases (has_precursor rt.precursors addr)) [
    | inl e ↦ (
      rt,
      record {
        after = n;
        runs = rw (◌>>=◌, get_rt, at, e);
        heap = update_stored n.heap p at;
        frame = refl;
        route = refl;
        counted = c;
      },
      λ a. elim (ℕ_discrete addr a) [ yes s ↦ rw (← s, ==_refl) e | no s ↦ rw (==_ne addr a s) ],
    )
    | inr e ↦
        let new : RtTable = record rt {
          precursors = addr ∷ rt.precursors;
          nprec = inc32 rt.nprec;
        } in
        (
          new,
          record {
            after = record n { heap = update n.heap p (some new) };
            runs = rw (◌>>=◌, get_rt, at, e, modify_rt, at, env.pointers.list_add-first);
            heap = refl;
            frame = refl;
            route = refl;
            counted = record {
              distinct = (e, c.distinct);
              counted = omega (arith, c.counted);
              small = omega arith;
            };
          },
          λ a. refl,
        )
  ]

  -- The pointer is to an entry whose list is a set that is counted. Then `precursor_remove` runs,
  -- takes the address out of the precursors and no other, and leaves the list a set that is
  -- counted.
  pub precursor_remove-has :
      (new : RtTable) × Rewrites n p rt (precursor_remove env (some p) addr) new
      × ((a : ℕ)
          → has_precursor new.precursors a
            ≡ (if addr == a then false else has_precursor rt.precursors a))
  unfolding precursor_remove
  precursor_remove-has = elim (Bool-cases (has_precursor rt.precursors addr)) [
    | inr e ↦ (
      rt,
      record {
        after = n;
        runs = rw (◌>>=◌, get_rt, at, e);
        heap = update_stored n.heap p at;
        frame = refl;
        route = refl;
        counted = c;
      },
      λ a. elim (ℕ_discrete addr a) [ yes s ↦ rw (← s, ==_refl) e | no s ↦ rw (==_ne addr a s) ],
    )
    | inl e ↦
        let rest = unlink own_address rt.precursors addr in
        let fewer = length-unlink_has rt.precursors addr e in
        let new : RtTable = record rt { precursors = rest; nprec = dec32 rt.nprec } in
        (
          new,
          record {
            after = record n { heap = update n.heap p (some new) };
            runs = rw (◌>>=◌, get_rt, at, e, modify_rt, at, env.pointers.list_detach-unlink);
            heap = refl;
            frame = refl;
            route = refl;
            counted = record {
              distinct = Distinct-unlink rt.precursors addr c.distinct;
              counted = omega (arith, c.counted, c.small, fewer);
              small = omega arith;
            };
          },
          λ a. has-unlink rt.precursors addr a c.distinct,
        )
  ]
