-- ===== src/Fresh/Raise.antt =====
-- The node's own sequence number when it is asked for: `rreq_process` of code/aodv-uu-0.96/aodv_rreq.c.
use aodv_uu.Prelude.{ℕ, some, ◌≡◌, refl, ◌==◌, if◌then◌else◌, Bool-cases, inl, inr}
use aodv_uu.Word.{lt_i32}
use aodv_uu.Seqno.{seqno_incr}
use aodv_uu.State.{Node}
use aodv_uu.Machine.{◌>>=◌}
use aodv_uu.Fresh.{raise_seqno}

-- The number `s` after a request for the number `d`.
unfoldable pub raised : (d s : ℕ) → ℕ
raised d s = if d == 0 then s else if lt_i32 s d then d else if s == d then seqno_incr s else s

pub raise_seqno_run :
    (d : ℕ) (n : Node)
    → raise_seqno d n
      ≡ some
          (tt, record n { this_host = record (n.this_host) { seqno = raised d n.this_host.seqno } })
unfolding raise_seqno raised
raise_seqno_run d n = elim (Bool-cases (d == 0)) [
  | inl t ↦ rw t refl
  | inr t ↦ elim (Bool-cases (lt_i32 n.this_host.seqno d)) [
    | inl u ↦ rw (t, ◌>>=◌, u) refl
    | inr u ↦ elim (Bool-cases (n.this_host.seqno == d)) [
      | inl v ↦ rw (t, ◌>>=◌, u, v) refl
      | inr v ↦ rw (t, ◌>>=◌, u, v) refl
    ]
  ]
]
