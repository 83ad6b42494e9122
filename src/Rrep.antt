-- ===== src/Rrep.antt =====
-- Route replies: the messages that code/aodv-uu-0.96/aodv_rrep.c creates.
--
-- The fields of a RREP by the byte at which they start: 0 channel, 1 type, 2 the bit fields (`res1` in
-- the bits 0 to 4, then lr, a, r, `prefix` in the bits 8 to 12 and res2), 4 hcnt, 8 dest_addr,
-- 12 dest_seqno, 16 orig_addr, 20 lifetime, 24 dest_count and 28 hello_sent; the structure has 32 bytes.
-- Those of a RREP_ack: 0 channel, 1 type, 2 is_hello_ack, 3 hello_index, 4 channel_hello_received and
-- 5 host_stability, of 7 bytes.
pub mod Send
pub mod Repair
pub mod Process
pub mod Answer
pub mod Drop
pub mod Originator
pub mod Join
use aodv_uu.Prelude.{ℕ, ◌+◌, ◌*◌, ◌%◌, List, [], ◌∷◌, ltb, ◌==◌, if◌then◌else◌}
use aodv_uu.Word.{u8, inc32, dec32, u32}
use aodv_uu.Params.{
  aodv_rrep, aodv_rrep_lr, aodv_rrep_ack, rrep_ack_flag, rrep_repair, rrep_local_repair,
  rrep_cost_ext, rrep_udest_ext, rrep_hello_interval_ext,
}
use aodv_uu.State.{Buffer}
use aodv_uu.Machine.{M, ◌>>=◌, ◌>>◌, ret, skip, modify, when, update}
use aodv_uu.Socket.{aodv_socket_new_msg}
use aodv_uu.Rreq.{store, set_bit, any_flag, store_all}

abbrev pub rrep_size : ℕ
rrep_size = 32

-- The structure, a cost extension's header, and a `double`.
abbrev pub rrep_cost_size : ℕ
rrep_cost_size = rrep_size + 2 + 8

abbrev pub rrep_udest_size : ℕ
rrep_udest_size = 8

abbrev pub rrep_ack_size : ℕ
rrep_ack_size = 7

-- `RREP_EXT_OFFSET` of a message with `dest_count` destinations.
unfoldable pub rrep_ext_offset : ℕ → ℕ
rrep_ext_offset dest_count = 2 * dec32 dest_count + (rrep_size + dec32 dest_count * rrep_udest_size)

-- The fields that both kinds of replies have.
unfoldable pub start_rrep : (prefix hcnt dest_addr dest_seqno orig_addr life : ℕ) → M (Unit {0})
start_rrep prefix hcnt dest_addr dest_seqno orig_addr life = do
  aodv_socket_new_msg
  store 1 aodv_rrep
  store 2 (prefix % 32 * 256)
  store 4 (u8 hcnt)
  store 8 dest_addr
  store 12 dest_seqno
  store 16 orig_addr
  store 20 (u32 life)

unfoldable pub rrep_create :
    (flags prefix hcnt dest_addr dest_seqno orig_addr life : ℕ) → M (Unit {0})
rrep_create flags prefix hcnt dest_addr dest_seqno orig_addr life = do
  start_rrep prefix hcnt dest_addr dest_seqno orig_addr life
  store 24 1
  when (any_flag flags rrep_repair) (set_bit 128)
  when (any_flag flags rrep_ack_flag) (set_bit 64)
  when (any_flag flags rrep_local_repair) (do set_bit 32; store 1 aodv_rrep_lr)

unfoldable pub rrep_add_ext : (type offset len : ℕ) → List (ℕ × ℕ) → M (Unit {0})
rrep_add_ext type offset len fields =
    if ltb offset rrep_size
    then skip
    else (do store offset type; store (offset + 1) (u8 len); store_all (offset + 2) fields)

unfoldable pub rrep_create_with_cost :
    (flags prefix hcnt dest_addr dest_seqno orig_addr life cost : ℕ) → M (Unit {0})
rrep_create_with_cost flags prefix hcnt dest_addr dest_seqno orig_addr life cost = do
  start_rrep prefix hcnt dest_addr dest_seqno orig_addr life
  when (any_flag flags rrep_repair) (set_bit 128)
  when (any_flag flags rrep_ack_flag) (set_bit 64)
  rrep_add_ext rrep_cost_ext rrep_size 8 ((0, cost) ∷ [])

unfoldable pub rrep_ack_create : M (Unit {0})
rrep_ack_create = do aodv_socket_new_msg; store 1 aodv_rrep_ack; store 2 0; store 3 0; store 5 0

unfoldable pub rrep_add_udest : (udest udest_seqno : ℕ) → M (Unit {0})
rrep_add_udest udest udest_seqno = do
  (λ n.
      rrep_add_ext rrep_udest_ext (rrep_ext_offset (n.send_buf 24)) rrep_udest_size
        ((0, udest) ∷ (4, udest_seqno) ∷ []) n)
  modify λ n. record n { send_buf = update n.send_buf 24 (inc32 (n.send_buf 24)) }

-- The function gets the message, writes the extension there and returns the offset behind it.
unfoldable pub rrep_add_hello_ext : Buffer → (offset interval : ℕ) → ℕ × Buffer
rrep_add_hello_ext rrep offset interval =
    let ext = rrep_size + offset in
    (
      offset + (2 + 4),
      update (update (update rrep ext rrep_hello_interval_ext) (ext + 1) 4) (ext + 2) interval,
    )
