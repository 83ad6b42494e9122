-- ===== src/Hello/Ring.antt =====
-- The ring of the latest HELLOs, in the costs of the channels that `hello_send` of
-- code/aodv-uu-0.96/aodv_hello.c computes.
use aodv_uu.Prelude.{
  ℕ, zero, suc, ◌+◌, ◌-◌, ◌%◌, ◌==◌, not, ◌&&◌, ◌≤◌, ◌<◌, ◌≡◌, ◌↔◌, refl, arith, true, false, ltb,
  Bool-cases, inl, inr, none, some,
}
use aodv_uu.Word.{inc32}
use aodv_uu.State.{NeighborInfo, HostInfo}
use aodv_uu.Machine.{Env}
use aodv_uu.Params.{max_sequence_len}
use aodv_uu.Hello.Cost.{
  ring_full, count_stable, channel_cost, predict, predict_connect_time, series_at,
}

-- The loop reads behind the array as soon as it goes beyond the place 9.
count_stable-none :
    (own theirs : ℕ → ℕ) (rounds i : ℕ)
    → max_sequence_len < rounds + i
    → 0 < rounds
    → count_stable own theirs rounds i ≡ none
unfolding count_stable
count_stable-none own theirs zero i l g = absurd (omega arith)
count_stable-none own theirs (suc rounds) i l g = elim (Bool-cases (ltb i max_sequence_len)) [
  | inl t ↦
      rw (t, count_stable-none own theirs rounds (i + 1) (omega arith) (ground (arith, t, l))) refl
  | inr t ↦ rw t refl
]

-- Within the array it counts.
count_stable-some :
    (own theirs : ℕ → ℕ) (rounds i : ℕ)
    → rounds + i ≤ max_sequence_len
    → (k : ℕ) × (count_stable own theirs rounds i ≡ some k)
unfolding count_stable
count_stable-some own theirs zero i l = (0, refl)
count_stable-some own theirs (suc rounds) i l =
    let room : ltb i max_sequence_len ≡ true = ground (arith, l) in
    let (k, e) = count_stable-some own theirs rounds (i + 1) (omega arith) in
    elim (Bool-cases (not (own i == 0) && not (theirs i == 0))) [
      | inl t ↦ (inc32 k, rw (room, e, t) refl)
      | inr t ↦ (k, rw (room, e, t) refl)
    ]

-- The ring holds the places from the head up to the tail, ten at most.
pub record IsRing (h : HostInfo) : Type 0 where
  pub ordered : h.hello_head ≤ h.hello_tail
  pub short : h.hello_tail ≤ h.hello_head + 9

pub ring_full_iff :
    (h : HostInfo)
    → IsRing h
    → h.hello_tail < 4294967295
    → (ring_full h ≡ true) ↔ (h.hello_tail ≡ h.hello_head + 9)
ring_full_iff h r l = ground (arith, r.ordered, r.short, l)

series_at-some :
    (s : ℕ → ℕ) (tail back : ℕ)
    → back ≤ tail
    → series_at s tail back ≡ some (s ((tail - back) % max_sequence_len))
unfolding series_at
series_at-some s tail back l = let a : ltb tail back ≡ false = ground (arith, l) in rw a refl

predict_connect_time-some :
    (env : Env) (s : ℕ → ℕ) (tail : ℕ)
    → 2 ≤ tail
    → predict_connect_time env s tail
      ≡ some (
          predict env
            (s (tail % max_sequence_len))
            (s ((tail - 1) % max_sequence_len))
            (s ((tail - 2) % max_sequence_len)))
unfolding predict_connect_time
predict_connect_time-some env s tail l =
    ground (arith, series_at-some s tail 1 (omega arith), series_at-some s tail 2 (omega arith))

-- The ring holds the HELLOs from the head up to the tail, ten places at most. Then the cost of a channel
-- to a neighbour is read out of bounds exactly if the ring is full and its head is at 2 or
-- more: the stabilities are read at the places from the head on, and not modulo the length of the
-- ring.
pub channel_cost-none_iff :
    (env : Env) (h : HostInfo) (nb : NeighborInfo) (channel : ℕ)
    → IsRing h
    → h.hello_tail < 4294967295
    → (channel_cost env h nb channel ≡ none)
      ↔ ((h.hello_tail ≡ h.hello_head + 9) × (2 ≤ h.hello_head))
unfolding channel_cost
channel_cost-none_iff env h nb channel r l =
    let own = h.stability_sequence in
    let theirs = nb.host_stability_sequence in
    let rounds = h.hello_tail - h.hello_head in
    let full = ring_full_iff h r l in
    elim (Bool-cases (ring_full h)) [
      | inl t ↦
          let tail = full.0 t in
          let time =
            predict_connect_time-some env (nb.channel_hello_sequence channel) h.hello_tail
              (omega arith) in
          elim (Bool-cases (ltb h.hello_head 2)) [
            | inl u ↦
                let (k, e) =
                  count_stable-some own theirs rounds h.hello_head (ground (arith, tail, u)) in
                (
                  λ z. absurd (ground (arith, t, time, e, z)),
                  λ (_, g). absurd (ground (arith, g, u)),
                )
            | inr u ↦
                let e =
                  count_stable-none own theirs rounds h.hello_head (ground (arith, tail, u))
                    (ground (arith, tail)) in
                (λ z. (tail, ground (arith, u)), λ z. rw (t, time, e) refl)
          ]
      | inr t ↦ (λ z. absurd (ground (arith, t, z)), λ (g, _). absurd (ground (arith, t, full.1 g)))
    ]
