-- ===== src/Route/Chain.antt =====
-- What holds of one bucket of the routing table, and how it follows changes of the heap and of the list.
use aodv_uu.Prelude.{
  ℕ, ◌+◌, Bool, true, false, List, [], ◌∷◌, Option, none, some, ◌≡◌, ◌≢◌, ◌⊎◌, inl, inr, refl, sym,
  ap, ◌==◌, if◌then◌else◌, length, arith, Bool-cases, ==_refl, ==_ne, subst, ◌∙◌, ℕ_discrete,
}
use aodv_uu.State.{RtTable, is_valid}
use aodv_uu.Machine.{update, update_self, update_ne, unlink, own_address}
use aodv_uu.Table.{hashing}

abbrev pub Heap : Type 0
Heap = ℕ → Option RtTable

-- The pointer is to an entry whose hash is its address, and whose bucket is `i`.
pub record LinkedAt (h : Heap) (i p : ℕ) : Type 0 where
  pub entry : RtTable
  pub stored : h p ≡ some entry
  pub bucket : hashing entry.dest_addr ≡ i
  pub hashed : entry.hash ≡ entry.dest_addr

abbrev pub In : ℕ → List ℕ → Type 0
In p [] = ⊥
In p (q ∷ qs) = (p ≡ q) ⊎ In p qs

abbrev pub NotIn : ℕ → List ℕ → Type 0
NotIn p [] = Unit
NotIn p (q ∷ qs) = (p ≢ q) × NotIn p qs

-- Every pointer of the bucket is to an entry of it, and none stands there twice.
abbrev pub Chain : Heap → ℕ → List ℕ → Type 0
Chain h i [] = Unit
Chain h i (p ∷ ps) = LinkedAt h i p × NotIn p ps × Chain h i ps

-- 1 for a valid entry, and their number in a bucket.
abbrev pub valid_entry : Option RtTable → ℕ
valid_entry none = 0
valid_entry (some rt) = if is_valid rt.state then 1 else 0

unfoldable pub active_in : Heap → List ℕ → ℕ
active_in h [] = 0
active_in h (p ∷ ps) = valid_entry (h p) + active_in h ps

-- The first entry of a bucket with the destination `d`.
abbrev pub goes_to : ℕ → Option RtTable → Bool
goes_to d none = false
goes_to d (some rt) = rt.dest_addr == d

unfoldable pub lookup_in : Heap → ℕ → List ℕ → Option ℕ
lookup_in h d [] = none
lookup_in h d (p ∷ ps) = if goes_to d (h p) then some p else lookup_in h d ps

-- One pointer against a list of them.
pub In-apart : {q : ℕ} (p : ℕ) (ps : List ℕ) → NotIn p ps → In q ps → p ≢ q
In-apart p [] o m = absurd m
In-apart p (x ∷ ps) o (inl e) = λ s. o.0 (s ∙ e)
In-apart p (x ∷ ps) o (inr m) = In-apart p ps o.1 m

pub NotIn-unlink : (p q : ℕ) (ps : List ℕ) → NotIn p ps → NotIn p (unlink own_address ps q)
NotIn-unlink p q [] o = tt
NotIn-unlink p q (x ∷ ps) o = elim (Bool-cases (x == q)) [
  | inl e ↦ rw e o.1
  | inr e ↦ rw e (o.0, NotIn-unlink p q ps o.1)
]

pub unlink-NotIn : (q : ℕ) (ps : List ℕ) → NotIn q ps → unlink own_address ps q ≡ ps
unlink-NotIn q [] o = refl
unlink-NotIn q (p ∷ ps) o = ground (arith, o.0, unlink-NotIn q ps o.1)

pub length-unlink :
    (q : ℕ) (ps : List ℕ) → In q ps → length (unlink own_address ps q) + 1 ≡ length ps
length-unlink q [] m = absurd m
length-unlink q (p ∷ ps) m = elim (ℕ_discrete p q) [
  | yes e ↦ ground arith
  | no e ↦ ground (arith, length-unlink q ps)
]

pub In-linked : (h : Heap) (i : ℕ) {q : ℕ} (ps : List ℕ) → Chain h i ps → In q ps → LinkedAt h i q
In-linked h i [] c m = absurd m
In-linked h i {q} (p ∷ ps) c (inl e) = subst (LinkedAt h i) (sym e) c.0
In-linked h i (p ∷ ps) c (inr m) = In-linked h i ps c.2 m

pub lookup_in-none :
    (h : Heap) (d : ℕ) (ps : List ℕ)
    → ((x : ℕ) → In x ps → goes_to d (h x) ≡ false)
    → lookup_in h d ps ≡ none
unfolding lookup_in
lookup_in-none h d [] f = refl
lookup_in-none h d (p ∷ ps) f = rw (f p (inl refl)) (lookup_in-none h d ps (λ x m. f x (inr m)))

In-unlink_later :
    (x q p : ℕ) (ps : List ℕ)
    → (In x (unlink own_address ps q) → In x ps)
    → (x ≡ p) ⊎ In x (unlink own_address ps q)
    → (x ≡ p) ⊎ In x ps
In-unlink_later x q p ps f (inl e) = inl e
In-unlink_later x q p ps f (inr m) = inr (f m)

pub In-unlink : (x q : ℕ) (ps : List ℕ) → In x (unlink own_address ps q) → In x ps
In-unlink x q [] m = m
In-unlink x q (p ∷ ps) m = elim (Bool-cases (p == q)) [
  | inl e ↦ inr (rw e at m)
  | inr e ↦ In-unlink_later x q p ps (In-unlink x q ps) (rw e at m)
]

module _ (h : Heap) (i q : ℕ) where
  -- A pointer to nothing, or to an entry of another bucket, is not in the bucket.
  pub NotIn-none : (ps : List ℕ) → h q ≡ none → Chain h i ps → NotIn q ps
  NotIn-none [] e c = tt
  NotIn-none (p ∷ ps) e c = (λ s. ground (arith, c.0.stored, ap h s), NotIn-none ps e c.2)

  pub NotIn-other :
      (ps : List ℕ) (rt : RtTable)
      → h q ≡ some rt
      → hashing rt.dest_addr ≢ i
      → Chain h i ps
      → NotIn q ps
  NotIn-other [] rt e o c = tt
  NotIn-other (p ∷ ps) rt e o c =
      (λ s. o (ground (arith, c.0.stored, c.0.bucket, ap h s)), NotIn-other ps rt e o c.2)

  pub Chain-update_other :
      (ps : List ℕ) (v : Option RtTable) → NotIn q ps → Chain h i ps → Chain (update h q v) i ps
  Chain-update_other [] v o c = tt
  Chain-update_other (p ∷ ps) v o c = (
    record {
      entry = c.0.entry;
      stored = ground (arith, c.0.stored, o.0);
      bucket = c.0.bucket;
      hashed = c.0.hashed;
    },
    c.1,
    Chain-update_other ps v o.1 c.2,
  )

  pub active_in-update_other :
      (ps : List ℕ) (v : Option RtTable) → NotIn q ps → active_in (update h q v) ps ≡ active_in h ps
  unfolding active_in
  active_in-update_other [] v o = refl
  active_in-update_other (p ∷ ps) v o =
      rw (update_ne h p q v (λ e. o.0 (sym e)), active_in-update_other ps v o.1)

  pub lookup_in-update_other :
      (ps : List ℕ) (v : Option RtTable) (d : ℕ)
      → NotIn q ps
      → lookup_in (update h q v) d ps ≡ lookup_in h d ps
  unfolding lookup_in
  lookup_in-update_other [] v d o = refl
  lookup_in-update_other (p ∷ ps) v d o =
      rw (update_ne h p q v (λ e. o.0 (sym e)), lookup_in-update_other ps v d o.1)

  -- A change of one entry that keeps its destination and its hash.
  module _ (old new : RtTable) (at : h q ≡ some old) where
    pub Chain-update_same :
        (ps : List ℕ)
        → new.dest_addr ≡ old.dest_addr
        → new.hash ≡ old.hash
        → Chain h i ps
        → Chain (update h q (some new)) i ps
    Chain-update_same [] d k c = tt
    Chain-update_same (p ∷ ps) d k c = (
      elim (ℕ_discrete p q) [
        | yes e ↦ record {
          entry = new;
          stored = ground arith;
          bucket = ground (arith, c.0.stored, c.0.bucket, ap h e);
          hashed = ground (arith, c.0.stored, c.0.hashed, ap h e);
        }
        | no e ↦ record {
          entry = c.0.entry;
          stored = rw (update_ne h p q (some new) e) c.0.stored;
          bucket = c.0.bucket;
          hashed = c.0.hashed;
        }
      ],
      c.1,
      Chain-update_same ps d k c.2,
    )

    pub active_in-update_self :
        (ps : List ℕ) (v : Option RtTable)
        → In q ps
        → Chain h i ps
        → active_in (update h q v) ps + valid_entry (some old) ≡ active_in h ps + valid_entry v
    unfolding active_in
    active_in-update_self [] v m c = absurd m
    active_in-update_self (p ∷ ps) v (inl e) c =
        let here = ap valid_entry (ap h e) in
        let there = ap valid_entry (ap (update h q v) e) in
        let this = ap valid_entry (update_self h q v) in
        let was = ap valid_entry at in
        omega (
          arith,
          active_in-update_other ps v (subst (λ x. NotIn x ps) (sym e) c.1),
          here,
          there,
          this,
          was,
        )
    active_in-update_self (p ∷ ps) v (inr m) c =
        let apart : p ≢ q = In-apart p ps c.1 m in
        omega (arith, ap valid_entry (update_ne h p q v apart), active_in-update_self ps v m c.2)

    pub lookup_in-update_same :
        (ps : List ℕ) (d : ℕ)
        → new.dest_addr ≡ old.dest_addr
        → lookup_in (update h q (some new)) d ps ≡ lookup_in h d ps
    unfolding lookup_in
    lookup_in-update_same [] d k = refl
    lookup_in-update_same (p ∷ ps) d k = elim (ℕ_discrete p q) [
      | yes e ↦ ground (arith, lookup_in-update_same ps d k, at, ap h e)
      | no e ↦ rw (update_ne h p q (some new) e, lookup_in-update_same ps d k)
    ]

  pub Chain-unlink : (ps : List ℕ) → Chain h i ps → Chain h i (unlink own_address ps q)
  Chain-unlink [] c = tt
  Chain-unlink (p ∷ ps) c = elim (Bool-cases (p == q)) [
    | inl e ↦ rw e c.2
    | inr e ↦ rw e (c.0, NotIn-unlink p q ps c.1, Chain-unlink ps c.2)
  ]

  pub active_in-unlink :
      (ps : List ℕ)
      → In q ps
      → Chain h i ps
      → active_in h (unlink own_address ps q) + valid_entry (h q) ≡ active_in h ps
  unfolding active_in
  active_in-unlink [] m c = absurd m
  active_in-unlink (p ∷ ps) m c = elim (ℕ_discrete p q) [
    | yes e ↦ ground (arith, ap (λ x. valid_entry (h x)) e)
    | no e ↦ ground (arith, active_in-unlink ps)
  ]

  pub lookup_in-unlink :
      (ps : List ℕ) (d : ℕ)
      → goes_to d (h q) ≡ false
      → lookup_in h d (unlink own_address ps q) ≡ lookup_in h d ps
  unfolding lookup_in
  lookup_in-unlink [] d e = refl
  lookup_in-unlink (p ∷ ps) d e = elim (ℕ_discrete p q) [
    | yes s ↦ ground (arith, ap (λ x. goes_to d (h x)) s)
    | no s ↦ ground (arith, lookup_in-unlink ps d e)
  ]

  pub NotIn-unlink_self : (ps : List ℕ) → Chain h i ps → NotIn q (unlink own_address ps q)
  NotIn-unlink_self [] c = tt
  NotIn-unlink_self (p ∷ ps) c = elim (ℕ_discrete p q) [
    | yes s ↦ rw (s, ==_refl) (subst (λ x. NotIn x ps) s c.1)
    | no s ↦ rw (==_ne p q s) ((λ e. s (sym e)), NotIn-unlink_self ps c.2)
  ]

  -- Without the one entry for `d` a bucket has none.
  pub lookup_in-unlink_self :
      (ps : List ℕ) (d : ℕ)
      → ((x : ℕ) → In x ps → goes_to d (h x) ≡ true → x ≡ q)
      → Chain h i ps
      → lookup_in h d (unlink own_address ps q) ≡ none
  lookup_in-unlink_self ps d only c = lookup_in-none h d (unlink own_address ps q) λ x m.
      elim (Bool-cases (goes_to d (h x))) [
        | inl e ↦ absurd (
            In-apart q (unlink own_address ps q) (NotIn-unlink_self ps c) m
              (sym (only x (In-unlink x q ps m) e)))
        | inr e ↦ e
      ]
