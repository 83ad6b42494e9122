-- ===== src/Ext.antt =====
-- The extensions behind a message: the macros `AODV_EXT_*` of code/aodv-uu-0.96/defs.h and the loops
-- over the extensions of a received message. An extension has its type at the byte 0, its length at 1
-- and its contents from 2 on.
pub mod Rounds
pub mod Cost
use aodv_uu.Prelude.{ℕ, zero, suc, ◌+◌, ◌*◌, some, none, ltb, ◌==◌, if◌then◌else◌}
use aodv_uu.Word.{sub32}
use aodv_uu.State.{Buffer, NeighborInfo}
use aodv_uu.Machine.{M, ◌>>=◌, ret, get, fault, Env}
use aodv_uu.Params.{most_cost, least_rate}

-- RECV_BUF_SIZE.
abbrev pub recv_buf_size : ℕ
recv_buf_size = 24 + 100 * 8

abbrev pub ext_hdr_size : ℕ
ext_hdr_size = 2

-- `AODV_EXT_SIZE` of the extension at a byte offset.
abbrev pub ext_size : Buffer → ℕ → ℕ
ext_size msg ext = ext_hdr_size + msg (ext + 1)

-- `while ((len - extlen) > size)`, on unsigned words. The body gets the offset of the extension and
-- passes a state on, in which the message stands; a header behind the receive buffer is a fault.
unfoldable pub each_ext :
    {A : Type 0} → (A → Buffer) → (ℕ → A → M A) → (size len rounds extlen : ℕ) → A → M A
each_ext msg body size len zero extlen a = fault
each_ext msg body size len (suc rounds) extlen a =
    let rest = each_ext msg body size len rounds in
    if ltb size (sub32 len extlen)
    then if ltb (size + extlen + 1) recv_buf_size
      then (do a' ← body (size + extlen) a; rest (extlen + ext_size (msg a') (size + extlen)) a')
      else fault
    else ret a

-- More rounds than the receive buffer has bytes.
abbrev pub ext_rounds : ℕ
ext_rounds = suc recv_buf_size

-- The array `neighbors` has 20 places.
abbrev pub max_neighbors : ℕ
max_neighbors = 20

unfoldable pub neighbor_at : ℕ → M NeighborInfo
neighbor_at i n = if ltb i max_neighbors then some (n.this_host.neighbors i, n) else none

module _ (env : Env) where
  -- `max` and `min` of two doubles.
  abbrev pub max_double : ℕ → ℕ → ℕ
  max_double a b = if env.lt_double a b then b else a

  abbrev pub min_double : ℕ → ℕ → ℕ
  min_double a b = if env.lt_double b a then b else a

  -- The loop of `getCost` from the neighbour `i` on. A channel that there is not is a fault.
  unfoldable pub cost_from : (src channel rounds i : ℕ) → M ℕ
  cost_from src channel zero i = ret most_cost
  cost_from src channel (suc rounds) i =
      let rest = cost_from src channel rounds (i + 1) in
      (do
        nb ← neighbor_at i
        if nb.ipaddr == src
            then (if ltb channel 3
                then ret (
                    min_double most_cost (
                      env.neg_double
                        (env.log_double (max_double least_rate (nb.channel_cost channel)))))
                else fault)
            else rest)

  unfoldable pub get_cost : (src channel : ℕ) → M ℕ
  get_cost src channel = do n ← get; cost_from src channel n.this_host.neighbor_num 0
