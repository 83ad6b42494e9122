-- ===== src/Ext/Rounds.antt =====
-- The loop over the extensions ends: the rounds that the handlers give it are enough.
use aodv_uu.Prelude.{
  ℕ, zero, suc, ◌+◌, ◌≤◌, ◌≡◌, refl, sym, ◌∙◌, arith, true, false, ltb, Bool-cases, inl, inr, none,
  some, Option-cases,
}
use aodv_uu.Word.{sub32}
use aodv_uu.State.{Buffer, Node}
use aodv_uu.Machine.{M, ◌>>=◌}
use aodv_uu.Ext.{each_ext, ext_size, recv_buf_size, ext_rounds}

module _ {A : Type 0} (msg : A → Buffer) (body : ℕ → A → M A) (size len : ℕ) where
  pub each_ext-zero :
      (extlen : ℕ) (a : A) (n : Node) → each_ext msg body size len zero extlen a n ≡ none
  unfolding each_ext
  each_ext-zero extlen a n = refl

  pub each_ext_ended :
      (rounds extlen : ℕ) (a : A) (n : Node)
      → ltb size (sub32 len extlen) ≡ false
      → each_ext msg body size len (suc rounds) extlen a n ≡ some (a, n)
  unfolding each_ext
  each_ext_ended rounds extlen a n e = rw e refl

  pub each_ext_behind :
      (rounds extlen : ℕ) (a : A) (n : Node)
      → ltb size (sub32 len extlen) ≡ true
      → recv_buf_size ≤ size + extlen + 1
      → each_ext msg body size len (suc rounds) extlen a n ≡ none
  unfolding each_ext
  each_ext_behind rounds extlen a n e l =
      let f : ltb (size + extlen + 1) recv_buf_size ≡ false = ground (arith, l) in rw (e, f) refl

  pub each_ext_round :
      (rounds extlen : ℕ) (a : A) (n : Node)
      → ltb size (sub32 len extlen) ≡ true
      → ltb (size + extlen + 1) recv_buf_size ≡ true
      → each_ext msg body size len (suc rounds) extlen a n
        ≡ (body (size + extlen) a >>= λ a'.
              each_ext msg body size len rounds (extlen + ext_size (msg a') (size + extlen)) a')
            n
  unfolding each_ext
  each_ext_round rounds extlen a n e f = rw (e, f) refl

  -- More rounds change nothing, where they change nothing after one round.
  each_ext_go :
      (rounds rounds' extlen : ℕ) (a : A) (n : Node)
      → (ltb size (sub32 len extlen) ≡ true
          → ltb (size + extlen + 1) recv_buf_size ≡ true
          → (extlen' : ℕ) (a' : A) (m : Node) → extlen + 2 ≤ extlen'
          → each_ext msg body size len rounds extlen' a' m
            ≡ each_ext msg body size len rounds' extlen' a' m)
      → each_ext msg body size len (suc rounds) extlen a n
        ≡ each_ext msg body size len (suc rounds') extlen a n
  each_ext_go rounds rounds' extlen a n later = elim (Bool-cases (ltb size (sub32 len extlen))) [
    | inl e ↦ elim (Bool-cases (ltb (size + extlen + 1) recv_buf_size)) [
      | inl f ↦
          each_ext_round rounds extlen a n e f
          ∙ elim (Option-cases (body (size + extlen) a n)) [
            | inl z ↦ rw (◌>>=◌, z) refl
            | inr ((a', m), z) ↦
                rw (◌>>=◌, z)
                  (later e f (extlen + ext_size (msg a') (size + extlen)) a' m (omega arith))
          ]
          ∙ sym (each_ext_round rounds' extlen a n e f)
      | inr f ↦
          let l : recv_buf_size ≤ size + extlen + 1 = ground (arith, f) in
          each_ext_behind rounds extlen a n e l ∙ sym (each_ext_behind rounds' extlen a n e l)
    ]
    | inr e ↦ each_ext_ended rounds extlen a n e ∙ sym (each_ext_ended rounds' extlen a n e)
  ]

  -- Where the rounds reach behind the receive buffer, more of them change nothing.
  each_ext_more :
      (rounds rounds' extlen : ℕ) (a : A) (n : Node)
      → recv_buf_size ≤ suc rounds + (size + extlen)
      → rounds ≤ rounds'
      → each_ext msg body size len (suc rounds) extlen a n
        ≡ each_ext msg body size len (suc rounds') extlen a n
  each_ext_more zero rounds' extlen a n h l =
      each_ext_go zero rounds' extlen a n (λ e f. absurd (ground (arith, h, f)))
  each_ext_more (suc rounds) zero extlen a n h l = absurd (omega arith)
  each_ext_more (suc rounds) (suc rounds') extlen a n h l =
      each_ext_go (suc rounds) (suc rounds') extlen a n (λ e f extlen' a' m g.
        each_ext_more rounds rounds' extlen' a' m (omega arith) (omega arith))

  -- The loop over the extensions of a message never uses up the rounds that the handlers give it,
  -- whatever the message and its length are and whatever the body does: each round goes on by two bytes at
  -- least, so the loop ends, or reads behind the receive buffer, before. With any larger number of
  -- rounds its outcome is the same.
  pub each_ext-ext_rounds :
      (rounds : ℕ) (a : A) (n : Node)
      → ext_rounds ≤ rounds
      → each_ext msg body size len ext_rounds 0 a n ≡ each_ext msg body size len rounds 0 a n
  each_ext-ext_rounds zero a n l = absurd (omega arith)
  each_ext-ext_rounds (suc rounds) a n l =
      each_ext_more recv_buf_size rounds 0 a n (omega arith) (omega arith)
