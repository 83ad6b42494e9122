-- ===== src/Hello/Cost.antt =====
-- The costs of the channels to each neighbour, which `hello_send` of code/aodv-uu-0.96/aodv_hello.c
-- computes. A `double` is its bit pattern; the decimal literals are written as patterns.
use aodv_uu.Prelude.{
  ℕ, zero, suc, ◌+◌, ◌-◌, ◌%◌, Bool, not, ◌&&◌, Option, none, some, ltb, ◌==◌, if◌then◌else◌,
}
use mathlib.Core.Option
use aodv_uu.Word.{inc32}
use aodv_uu.Params.{max_sequence_len, max_channel_num}
use aodv_uu.State.{NeighborInfo, HostInfo}
use aodv_uu.Machine.{M, ◌>>=◌, ◌>>◌, skip, get, modify, update, Env}
use aodv_uu.Ext.{neighbor_at, max_neighbors}

-- `this_host` after a change, and one of its neighbours after one.
abbrev pub modify_host : (HostInfo → HostInfo) → M (Unit {0})
modify_host f = modify λ n. record n { this_host = f n.this_host }

unfoldable pub modify_neighbor : ℕ → (NeighborInfo → NeighborInfo) → M (Unit {0})
modify_neighbor i f = do
  nb ← neighbor_at i
  modify_host λ h. record h { neighbors = update h.neighbors i (f nb) }

-- `head % MAX_SEQUENCE_LEN == (tail + 1) % MAX_SEQUENCE_LEN`: the ring of the latest HELLOs is full.
abbrev pub ring_full : HostInfo → Bool
ring_full h = h.hello_head % max_sequence_len == inc32 h.hello_tail % max_sequence_len

-- The loop from `now_index` on; a place behind the array is a fault.
unfoldable pub count_stable : (ℕ → ℕ) → (ℕ → ℕ) → (rounds now_index : ℕ) → Option ℕ
count_stable own theirs zero now_index = some 0
count_stable own theirs (suc rounds) now_index =
    let rest = count_stable own theirs rounds (now_index + 1) in
    if ltb now_index max_sequence_len
    then Option.map
        (λ k. if not (own now_index == 0) && not (theirs now_index == 0) then inc32 k else k) rest
    else none

-- A place of the ring, `back` before the tail; a negative index is a fault.
unfoldable pub series_at : (ℕ → ℕ) → (tail back : ℕ) → Option ℕ
series_at hello_series tail back =
    if ltb tail back then none else some (hello_series ((tail - back) % max_sequence_len))

module _ (env : Env) where
  -- `a > 0 ? b / a : 0`.
  unfoldable pub rate : ℕ → ℕ → ℕ
  rate a b = if env.lt_double 0 a then env.div_double b a else 0

  unfoldable pub deliver_rate : HostInfo → NeighborInfo → (channel : ℕ) → ℕ
  deliver_rate h nb channel =
      let self_sent = env.double_of_int h.hello_tail in
      let self_received = env.double_of_int (nb.channel_hello_self_received channel) in
      let remote_sent = env.double_of_int nb.channel_hello_remote_sent in
      let remote_received = env.double_of_int (nb.channel_hello_remote_received channel) in
      let product =
        env.mul_double (rate self_sent remote_received) (rate remote_sent self_received) in
      if env.lt_double 0x3ff0000000000000 product then 0x3ff0000000000000 else product

  -- 0.886773 + 0.039934 * a + 0.706171 * b + 0.080530 * c
  unfoldable pub predict : (a b c : ℕ) → ℕ
  predict a b c =
      env.add_double
        (env.add_double
          (env.add_double 0x3fec6071c53f39d2
            (env.mul_double 0x3fa4723aafff36ac (env.double_of_int a)))
          (env.mul_double 0x3fe698f3eccc4695 (env.double_of_int b)))
        (env.mul_double 0x3fb49d9d3458cd21 (env.double_of_int c))

  unfoldable pub predict_connect_time : (ℕ → ℕ) → (tail : ℕ) → Option ℕ
  predict_connect_time s tail = elim (series_at s tail 1) [
    | none ↦ none
    | some b ↦ elim (series_at s tail 2) [
      | none ↦ none
      | some c ↦ some (predict (s (tail % max_sequence_len)) b c)
    ]
  ]

  -- 1.0 * stable_count / MAX_SEQUENCE_LEN
  unfoldable pub status_change_possibility : ℕ → ℕ
  status_change_possibility stable_count =
      env.div_double (env.mul_double 0x3ff0000000000000 (env.double_of_int stable_count))
        (env.double_of_int max_sequence_len)

  -- 0.33 * a + 0.33 * b + 0.33 * c
  unfoldable pub weighted : (a b c : ℕ) → ℕ
  weighted a b c =
      let third : ℕ = 0x3fd51eb851eb851f in
      env.add_double (env.add_double (env.mul_double third a) (env.mul_double third b))
        (env.mul_double third c)

  -- The new cost of a channel to a neighbour.
  unfoldable pub channel_cost : HostInfo → NeighborInfo → (channel : ℕ) → Option ℕ
  channel_cost h nb channel =
      let delivered = deliver_rate h nb channel in
      if ring_full h
      then elim (predict_connect_time (nb.channel_hello_sequence channel) h.hello_tail) [
        | none ↦ none
        | some predicted ↦
            Option.map (λ k. weighted delivered predicted (status_change_possibility k))
              (count_stable h.stability_sequence nb.host_stability_sequence
                (h.hello_tail - h.hello_head) h.hello_head)
      ]
      else some
          (if env.lt_double delivered 0x3f847ae147ae147b then 0x3f847ae147ae147b else delivered)

  unfoldable pub set_cost : (neib_index channel : ℕ) → M (Unit {0})
  set_cost neib_index channel = do
    nb ← neighbor_at neib_index
    n ← get
    elim (channel_cost n.this_host nb channel) [
      | none ↦ (λ m. none)
      | some cost ↦
          modify_neighbor neib_index
            (λ nb. record nb { channel_cost = update nb.channel_cost channel cost })
    ]

  -- The loops over the channels and the neighbours.
  unfoldable pub set_costs : (neib_index rounds channel : ℕ) → M (Unit {0})
  set_costs neib_index zero channel = skip
  set_costs neib_index (suc rounds) channel = do
    set_cost neib_index channel
    set_costs neib_index rounds (channel + 1)

  unfoldable pub all_costs : (rounds neib_index : ℕ) → M (Unit {0})
  all_costs zero neib_index = skip
  all_costs (suc rounds) neib_index = do
    set_costs neib_index max_channel_num 0
    all_costs rounds (neib_index + 1)

  -- The place of the new tail is cleared for each neighbour and channel.
  unfoldable pub cleared : (tail : ℕ) → NeighborInfo → NeighborInfo
  cleared tail nb = record nb {
    channel_hello_sequence = λ c.
        if ltb c max_channel_num
        then update (nb.channel_hello_sequence c) (tail % max_sequence_len) 0
        else nb.channel_hello_sequence c;
  }

  unfoldable pub advance_ring : HostInfo → HostInfo
  advance_ring h =
      let tail = inc32 h.hello_tail in
      record h {
        hello_head = if ring_full h then inc32 h.hello_head else h.hello_head;
        hello_tail = tail;
        neighbors =
            λ i. if ltb i max_neighbors then cleared tail (h.neighbors i) else h.neighbors i;
      }

  -- The block that `hello_send` runs for each interface.
  unfoldable pub update_costs : M (Unit {0})
  update_costs = do
    modify_host λ h. record h {
      stability_sequence =
          update h.stability_sequence (h.hello_tail % max_sequence_len) h.stability.is_stable;
    }
    n ← get
    all_costs n.this_host.neighbor_num 0
    modify_host advance_ring
