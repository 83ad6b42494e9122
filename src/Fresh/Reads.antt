-- ===== src/Fresh/Reads.antt =====
-- The loop that reads the cost of a message writes to the message only, behind its structure.
use aodv_uu.Prelude.{
  subst, ap, ℕ, zero, suc, ◌+◌, ◌≤◌, ◌<◌, ◌≡◌, refl, sym, ◌∙◌, arith, true, false, ltb, ◌==◌,
  Bool-cases, inl, inr, Option, none, some, Option-cases,
}
use aodv_uu.Word.{sub32}
use aodv_uu.State.{Buffer, Node}
use aodv_uu.Machine.{M, ◌>>=◌, Env, update_ne}
use aodv_uu.Params.{rreq_cost_ext}
use aodv_uu.Ext.{
  each_ext, ext_size, recv_buf_size, ext_rounds, neighbor_at, max_neighbors, cost_from, get_cost,
}
use aodv_uu.Ext.Rounds.{each_ext-zero, each_ext_ended, each_ext_behind, each_ext_round}
use aodv_uu.Fresh.{Costly, cost_ext, read_cost}

neighbor_at_run :
    (i : ℕ) (n : Node)
    → ltb i max_neighbors ≡ true
    → neighbor_at i n ≡ some (n.this_host.neighbors i, n)
unfolding neighbor_at
neighbor_at_run i n t = rw t refl

neighbor_at-none : (i : ℕ) (n : Node) → ltb i max_neighbors ≡ false → neighbor_at i n ≡ none
unfolding neighbor_at
neighbor_at-none i n t = rw t refl

-- A call that leaves the state alone.
abbrev pub Reads : {A : Type 0} → M A → Type 0
Reads {A} m = (n k : Node) (a : A) → m n ≡ some (a, k) → k ≡ n

result_eq :
    {A : Type 0} {a b : A} {n k : Node}
    → ◌≡◌ {A = Option (A × Node)} (some (a, n)) (some (b, k))
    → (a ≡ b) × (k ≡ n)
result_eq e = ground (arith, e)

no_result : {A : Type 0} {B : Type 0} {b : A × Node} → ◌≡◌ {A = Option (A × Node)} none (some b) → B
no_result e = absurd (ground (arith, e))

-- A body that leaves the state alone and keeps what holds of its state, in a loop.
module _ {A : Type 0} (msg : A → Buffer) (body : ℕ → A → M A) (size len : ℕ) (P : A → Type 0)
    (keep : (ext : ℕ) (a b : A) (n k : Node)
      → size ≤ ext
      → P a
      → body ext a n ≡ some (b, k)
      → (k ≡ n) × P b) where
  pub each_ext_keeps :
      (rounds extlen : ℕ) (a b : A) (n k : Node)
      → P a
      → each_ext msg body size len rounds extlen a n ≡ some (b, k)
      → (k ≡ n) × P b
  each_ext_keeps zero extlen a b n k h e =
      no_result {A = A} (sym (each_ext-zero msg body size len extlen a n) ∙ e)
  each_ext_keeps (suc rounds) extlen a b n k h e = elim (Bool-cases (ltb size (sub32 len extlen))) [
    | inl t ↦ elim (Bool-cases (ltb (size + extlen + 1) recv_buf_size)) [
      | inl u ↦
          let step = sym (each_ext_round msg body size len rounds extlen a n t u) ∙ e in
          elim (Option-cases (body (size + extlen) a n)) [
            | inl z ↦ no_result (rw (◌>>=◌, z) at step)
            | inr ((a', n'), z) ↦
                let (s, h') = keep (size + extlen) a a' n n' (omega arith) h z in
                let (s', h'') =
                  each_ext_keeps rounds (extlen + ext_size (msg a') (size + extlen)) a' b n' k h'
                    (rw (◌>>=◌, z) at step) in
                (s' ∙ s, h'')
          ]
      | inr u ↦
          no_result
            (sym (each_ext_behind msg body size len rounds extlen a n t (ground (arith, u))) ∙ e)
    ]
    | inr t ↦
        let (s, s') = result_eq (sym (each_ext_ended msg body size len rounds extlen a n t) ∙ e) in
        (s', subst P s h)
  ]

module _ (env : Env) where
  cost_from-Reads : (src channel rounds i : ℕ) → Reads (cost_from env src channel rounds i)
  unfolding cost_from
  cost_from-Reads src channel zero i n k a e = (result_eq e).1
  cost_from-Reads src channel (suc rounds) i n k a e = elim (Bool-cases (ltb i max_neighbors)) [
    | inl t ↦ elim (Bool-cases ((n.this_host.neighbors i).ipaddr == src)) [
      | inl u ↦ elim (Bool-cases (ltb channel 3)) [
        | inl v ↦ (result_eq (rw (◌>>=◌, neighbor_at_run i n t, u, v) at e)).1
        | inr v ↦ no_result (rw (◌>>=◌, neighbor_at_run i n t, u, v) at e)
      ]
      | inr u ↦
          cost_from-Reads src channel rounds (i + 1) n k a
            (rw (◌>>=◌, neighbor_at_run i n t, u) at e)
    ]
    | inr t ↦ no_result (rw (◌>>=◌, neighbor_at-none i n t) at e)
  ]

  get_cost-Reads : (src channel : ℕ) → Reads (get_cost env src channel)
  unfolding get_cost
  get_cost-Reads src channel n k a e =
      cost_from-Reads src channel n.this_host.neighbor_num 0 n k a e

  -- The bytes before the contents of the first extension are those of the message.
  abbrev pub Same : (size : ℕ) → Buffer → Costly → Type 0
  Same size message c = (i : ℕ) → i < size + 2 → c.message i ≡ message i

  cost_ext_keeps :
      (ip_src size : ℕ) (message : Buffer) (ext : ℕ) (a b : Costly) (n k : Node)
      → size ≤ ext
      → Same size message a
      → cost_ext env ip_src ext a n ≡ some (b, k)
      → (k ≡ n) × Same size message b
  unfolding cost_ext
  cost_ext_keeps ip_src size message ext a b n k l h e =
      elim (Bool-cases (a.message ext == rreq_cost_ext)) [
        | inl t ↦ elim (Option-cases (get_cost env ip_src (a.message 0) n)) [
          | inl z ↦ no_result {A = Costly} (rw (t, ◌>>=◌, z) at e)
          | inr ((link, n'), z) ↦
              let (s, s') = result_eq (rw (t, ◌>>=◌, z) at e) in
              let w = get_cost-Reads ip_src (a.message 0) n n' link z in
              (
                s' ∙ w,
                λ i m.
                    ap (λ c. c.message i) (sym s)
                    ∙ update_ne a.message i (ext + 2) _ (omega arith)
                    ∙ h i m,
              )
        ]
        | inr t ↦
            let (s, s') = result_eq (rw t at e) in
            (s', λ i m. ap (λ c. c.message i) (sym s) ∙ h i m)
      ]

  -- The reading of the cost changes no more than the contents of the extensions.
  pub read_cost_keeps :
      (message : Buffer) (ip_src size len : ℕ) (c : Costly) (n k : Node)
      → read_cost env message ip_src size len n ≡ some (c, k)
      → (k ≡ n) × Same size message c
  unfolding read_cost
  read_cost_keeps message ip_src size len c n k e =
      each_ext_keeps Costly.message (cost_ext env ip_src) size len (Same size message)
        (λ ext a b n k. cost_ext_keeps ip_src size message ext a b n k) ext_rounds 0 _ c n k
        (λ i m. refl) e
