-- ===== src/Rerr/Layout.antt =====
-- The layout of a RERR: what `rerr_create` writes, and where destinations are added and read.
use aodv_uu.Prelude.{ℕ, if◌then◌else◌, ◌+◌, some, ◌≡◌, refl, Bool-cases, inl, inr}
use aodv_uu.Word.{has_flag}
use aodv_uu.Params.{aodv_rerr, aodv_rerr_lr, rerr_nodelete, rerr_local_repair}
use aodv_uu.State.{Node}
use aodv_uu.Socket.{aodv_socket_new_msg}
use aodv_uu.Rerr.{rerr_create, rerr_udest_at, has_lr, has_n}

-- `rerr_create` leaves in the send buffer a RERR for one destination. Its type is AODV_RERR_LR, with the
-- bit lr, if the flags have RERR_LOCAL_REPAIR, and AODV_RERR otherwise; the bit n is that of
-- RERR_NODELETE. The id and the originator, by which receivers know a RERR, are 0.
pub rerr_create-fields :
    (flags d s : ℕ) (n : Node)
    → (m : Node) × (rerr_create flags d s n ≡ some (tt, m))
      × (m.send_buf 1 ≡ (if has_flag flags rerr_local_repair then aodv_rerr_lr else aodv_rerr))
      × (has_lr m.send_buf ≡ has_flag flags rerr_local_repair)
      × (has_n m.send_buf ≡ has_flag flags rerr_nodelete)
      × (m.send_buf 4 ≡ 1)
      × (m.send_buf (rerr_udest_at 0) ≡ d)
      × (m.send_buf (rerr_udest_at 0 + 4) ≡ s)
      × (m.send_buf 16 ≡ 0)
      × (m.send_buf 20 ≡ 0)
unfolding rerr_create aodv_socket_new_msg
rerr_create-fields flags d s n = elim (Bool-cases (has_flag flags rerr_nodelete)) [
  | inl a ↦ elim (Bool-cases (has_flag flags rerr_local_repair)) [
    | inl b ↦ rw (a, b) (_, refl, refl, refl, refl, refl, refl, refl, refl, refl)
    | inr b ↦ rw (a, b) (_, refl, refl, refl, refl, refl, refl, refl, refl, refl)
  ]
  | inr a ↦ elim (Bool-cases (has_flag flags rerr_local_repair)) [
    | inl b ↦ rw (a, b) (_, refl, refl, refl, refl, refl, refl, refl, refl, refl)
    | inr b ↦ rw (a, b) (_, refl, refl, refl, refl, refl, refl, refl, refl, refl)
  ]
]
