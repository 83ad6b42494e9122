-- ===== src/Hello/Neighbors.antt =====
-- `update_sta_info` and `update_neighbor_info` of code/aodv-uu-0.96/aodv_hello.c.
use aodv_uu.Prelude.{
  ℕ, zero, suc, ◌+◌, Bool, true, false, not, ◌&&◌, List, [], ◌∷◌, ◌++◌, Option, none, some, ltb,
  ◌==◌, if◌then◌else◌, length,
}
use aodv_uu.Word.{inc32}
use aodv_uu.Params.{rt_tablesize}
use aodv_uu.State.{NeighborInfo, StaInfo, RtTable}
use aodv_uu.Machine.{M, ◌>>=◌, ◌>>◌, ret, skip, get, when, fault, get_rt, Env}
use aodv_uu.Ext.{neighbor_at, max_neighbors}
use aodv_uu.Hello.Cost.{modify_host, modify_neighbor}

-- The two loops over the routing table, with a state that is passed on.
unfoldable pub each_entry : {A : Type 0} → (RtTable → A → M A) → List ℕ → A → M A
each_entry body [] a = ret a
each_entry body (p ∷ ps) a = do rt ← get_rt p; a' ← body rt a; each_entry body ps a'

unfoldable pub each_bucket : {A : Type 0} → (RtTable → A → M A) → (rounds i : ℕ) → A → M A
each_bucket body zero i a = ret a
each_bucket body (suc rounds) i a = do
  n ← get
  a' ← each_entry body (n.tbl i) a
  each_bucket body rounds (i + 1) a'

-- The first neighbour from the place `j` on that passes the test.
unfoldable pub find_neighbor : (NeighborInfo → Bool) → (rounds j : ℕ) → M (Option ℕ)
find_neighbor test zero j = ret none
find_neighbor test (suc rounds) j =
    let rest = find_neighbor test rounds (j + 1) in
    (do nb ← neighbor_at j; if test nb then ret (some j) else rest)

unfoldable pub known_neighbor : (NeighborInfo → Bool) → M (Option ℕ)
known_neighbor test = do n ← get; find_neighbor test n.this_host.neighbor_num 0

abbrev pub is_member : List ℕ → ℕ → Bool
is_member [] a = false
is_member (x ∷ xs) a = if x == a then true else is_member xs a

abbrev pub modify_stability : (StaInfo → StaInfo) → M (Unit {0})
modify_stability f = modify_host λ h. record h { stability = f h.stability }

abbrev pub changed : M (Unit {0})
changed = modify_stability λ s. record s { neighbor_change = inc32 s.neighbor_change }

-- One entry in the first loop; the array of the addresses found so far has 20 places as well.
unfoldable pub count_entry : RtTable → List ℕ → M (List ℕ)
count_entry rt seen =
    if rt.hello_timer.used && not (is_member seen rt.dest_addr)
    then if ltb (length seen) max_neighbors
      then (do
        modify_stability λ s. record s { neighbor_num = inc32 s.neighbor_num }
        found ← known_neighbor (λ nb. nb.ipaddr == rt.dest_addr && nb.valid_sta)
        elim found [
          | none ↦ (do changed; ret (seen ++ (rt.dest_addr ∷ [])))
          | some _ ↦ ret (seen ++ (rt.dest_addr ∷ []))
        ])
      else fault
    else ret seen

-- Whether a HELLO of the address is awaited.
unfoldable pub is_heard : ℕ → RtTable → Bool → M Bool
is_heard ipaddr rt flag = ret (if rt.hello_timer.used && rt.dest_addr == ipaddr then true else flag)

unfoldable pub heard : ℕ → M Bool
heard ipaddr = each_bucket (is_heard ipaddr) rt_tablesize 0 false

-- The loop over the neighbours that counts those that are gone.
unfoldable pub count_gone : (rounds j : ℕ) → M (Unit {0})
count_gone zero j = skip
count_gone (suc rounds) j = do
  nb ← neighbor_at j
  when nb.valid_sta (do flag ← heard nb.ipaddr; when (not flag) changed)
  count_gone rounds (j + 1)

module _ (env : Env) where
  unfoldable pub count_channels : (rounds i : ℕ) → StaInfo → StaInfo
  count_channels zero i s = s
  count_channels (suc rounds) i s = count_channels rounds (i + 1) (record s {
    ava_channel_num = if env.mac_state i == 1 then inc32 s.ava_channel_num else s.ava_channel_num;
    best_channel_snr =
        if env.lt_double s.best_channel_snr (env.mac_snr i)
        then env.mac_snr i
        else s.best_channel_snr;
  })

  -- The sum with the parameters of the support vector machine.
  unfoldable pub svm_result : StaInfo → ℕ
  svm_result s =
      env.add_double
        (env.add_double
          (env.add_double
            (env.add_double (env.mul_double (env.double_of_int s.neighbor_num) 0x3fe8a093a3b6530e)
              (env.mul_double (env.double_of_int s.neighbor_change) 0xbfd952d8b5385b91))
            (env.mul_double (env.double_of_int s.ava_channel_num) 0x3fffd0bd54b4b82e))
          (env.mul_double s.best_channel_snr 0x40101d3bc4a7396a))
        0xc02a2be0eb92b5a5

  unfoldable pub judged : StaInfo → StaInfo
  judged s =
      let counted = count_channels 3 0 s in
      let t = record counted {
        best_channel_snr =
            if env.lt_double 0x4008000000000000 counted.best_channel_snr
            then 0x4008000000000000
            else counted.best_channel_snr;
      } in
      record t {
        is_stable =
            if env.lt_double (svm_result t) 0
            then 0
            else if t.neighbor_num == 0
            then 0
            else if t.ava_channel_num == 0
            then 0
            else 1;
      }

  unfoldable pub update_sta_info : M (Unit {0})
  update_sta_info = do
    modify_stability λ s. record s {
      neighbor_num = 0;
      neighbor_change = 0;
      ava_channel_num = 0;
      best_channel_snr = 0;
    }
    seen ← each_bucket count_entry rt_tablesize 0 []
    n ← get
    count_gone n.this_host.neighbor_num 0
    modify_stability judged

-- A new neighbour, behind those that there are.
unfoldable pub add_neighbor : (NeighborInfo → NeighborInfo) → M (Unit {0})
add_neighbor f = do
  n ← get
  modify_neighbor n.this_host.neighbor_num f
  modify_host λ h. record h { neighbor_num = inc32 h.neighbor_num }

unfoldable pub note_entry : RtTable → Unit {0} → M (Unit {0})
note_entry rt u = when rt.hello_timer.used (do
  found ← known_neighbor (λ nb. rt.dest_addr == nb.ipaddr)
  elim found [
    | some j ↦ modify_neighbor j (λ nb. record nb { valid_sta = true })
    | none ↦
        add_neighbor (λ nb. record nb { ipaddr = rt.dest_addr; neighbor_sta = 0; valid_sta = true })
  ])

unfoldable pub drop_gone : (rounds j : ℕ) → M (Unit {0})
drop_gone zero j = skip
drop_gone (suc rounds) j = do
  nb ← neighbor_at j
  when nb.valid_sta (do
    flag ← heard nb.ipaddr
    when (not flag) (modify_neighbor j (λ nb. record nb { valid_sta = false })))
  drop_gone rounds (j + 1)

unfoldable pub update_neighbor_info : M (Unit {0})
update_neighbor_info = do
  _ ← each_bucket note_entry rt_tablesize 0 tt
  n ← get
  drop_gone n.this_host.neighbor_num 0
