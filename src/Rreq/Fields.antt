-- ===== src/Rreq/Fields.antt =====
-- The messages that `rreq_create` and `rreq_create_with_cost` leave in the send buffer.
use aodv_uu.Prelude.{
  ℕ, Bool, true, false, some, [], ◌∷◌, ◌≡◌, ◌≢◌, refl, ap, ◌∙◌, arith, if◌then◌else◌,
}
use aodv_uu.Word.{inc32, set_flag}
use aodv_uu.Seqno.{seqno_incr}
use aodv_uu.Params.{
  aodv_rreq, aodv_rreq_lr, rreq_join, rreq_repair, rreq_gratuitous, rreq_dest_only, rreq_cost_ext,
}
use aodv_uu.State.{Buffer, Node}
use aodv_uu.Machine.{M, ◌>>◌, when, update, then_run}
use aodv_uu.Socket.{aodv_socket_new_msg}
use aodv_uu.Rreq.{
  store, any_flag, set_bit, set_rreq_flags, start_rreq, rreq_create, rreq_add_ext, store_all,
  rreq_create_with_cost,
}

-- One bit of the byte 2, and the four that both kinds of requests have.
abbrev pub with_bit : Bool → ℕ → ℕ → ℕ
with_bit b mask bits = if b then set_flag bits mask else bits

abbrev pub rreq_bits : (flags bits : ℕ) → ℕ
rreq_bits flags bits = with_bit (any_flag flags rreq_dest_only) 16 (
    with_bit (any_flag flags rreq_gratuitous) 32
      (with_bit (any_flag flags rreq_repair) 64 (with_bit (any_flag flags rreq_join) 128 bits)))

set_bit_if : Bool → ℕ → Buffer → Buffer
set_bit_if b mask buf = if b then update buf 2 (set_flag (buf 2) mask) else buf

when-set_bit :
    (b : Bool) (mask : ℕ) (n : Node)
    → when b (set_bit mask) n ≡ some (tt, record n { send_buf = set_bit_if b mask n.send_buf })
unfolding set_bit_if
when-set_bit true mask n = refl
when-set_bit false mask n = refl

set_bit_run :
    (b : Bool) (mask : ℕ) (k : M (Unit {0})) (n : Node)
    → (when b (set_bit mask) >> k) n ≡ k (record n { send_buf = set_bit_if b mask n.send_buf })
set_bit_run b mask k n =
    then_run (when b (set_bit mask)) k n (record n { send_buf = set_bit_if b mask n.send_buf })
      (when-set_bit b mask n)

set_bit_if-two :
    (b : Bool) (mask : ℕ) (buf : Buffer) → set_bit_if b mask buf 2 ≡ with_bit b mask (buf 2)
unfolding set_bit_if
set_bit_if-two true mask buf = refl
set_bit_if-two false mask buf = refl

set_bit_if-other : (b : Bool) (mask i : ℕ) (buf : Buffer) → i ≢ 2 → set_bit_if b mask buf i ≡ buf i
unfolding set_bit_if
set_bit_if-other b mask i buf e = ground arith

flagged : ℕ → Buffer → Buffer
flagged flags buf = set_bit_if (any_flag flags rreq_dest_only) 16 (
    set_bit_if (any_flag flags rreq_gratuitous) 32
      (set_bit_if (any_flag flags rreq_repair) 64 (set_bit_if (any_flag flags rreq_join) 128 buf)))

set_rreq_flags_run :
    (flags : ℕ) (n : Node)
    → set_rreq_flags flags n ≡ some (tt, record n { send_buf = flagged flags n.send_buf })
unfolding set_rreq_flags flagged
set_rreq_flags_run flags n =
    let join = any_flag flags rreq_join in
    let repair = any_flag flags rreq_repair in
    let grat = any_flag flags rreq_gratuitous in
    let b₁ = set_bit_if join 128 n.send_buf in
    let b₂ = set_bit_if repair 64 b₁ in
    let b₃ = set_bit_if grat 32 b₂ in
    rw
      (
        set_bit_run join 128 _ n,
        set_bit_run repair 64 _ (record n { send_buf = b₁ }),
        set_bit_run grat 32 _ (record n { send_buf = b₂ }),
      )
      (when-set_bit (any_flag flags rreq_dest_only) 16 (record n { send_buf = b₃ }))

flagged-other : (flags i : ℕ) (buf : Buffer) → i ≢ 2 → flagged flags buf i ≡ buf i
unfolding flagged
flagged-other flags i buf e =
    set_bit_if-other _ _ i _ e
    ∙ set_bit_if-other _ _ i _ e
    ∙ set_bit_if-other _ _ i _ e
    ∙ set_bit_if-other _ _ i _ e

flagged-two : (flags : ℕ) (buf : Buffer) → flagged flags buf 2 ≡ rreq_bits flags (buf 2)
unfolding flagged
flagged-two flags buf =
    set_bit_if-two _ _ _
    ∙ ap (with_bit (any_flag flags rreq_dest_only) 16) (
        set_bit_if-two _ _ _
        ∙ ap (with_bit (any_flag flags rreq_gratuitous) 32) (
            set_bit_if-two _ _ _
            ∙ ap (with_bit (any_flag flags rreq_repair) 64) (set_bit_if-two _ _ _)))

-- The buffer after the last line of `rreq_create`.
repaired : Bool → Buffer → Buffer
repaired b buf = if b then update (update buf 1 aodv_rreq_lr) 2 (set_flag (buf 2) 8) else buf

repaired_run :
    (b : Bool) (n : Node)
    → when b (store 1 aodv_rreq_lr >> set_bit 8) n
      ≡ some (tt, record n { send_buf = repaired b n.send_buf })
unfolding repaired
repaired_run true n = refl
repaired_run false n = refl

repaired-other : (b : Bool) (i : ℕ) (buf : Buffer) → i ≢ 1 → i ≢ 2 → repaired b buf i ≡ buf i
unfolding repaired
repaired-other b i buf e f = ground arith

repaired-type : (b : Bool) (buf : Buffer) → repaired b buf 1 ≡ (if b then aodv_rreq_lr else buf 1)
unfolding repaired
repaired-type true buf = refl
repaired-type false buf = refl

repaired-bits : (b : Bool) (buf : Buffer) → repaired b buf 2 ≡ with_bit b 8 (buf 2)
unfolding repaired
repaired-bits true buf = refl
repaired-bits false buf = refl

-- The buffer of `start_rreq`.
started : (id dest_addr dest_seqno orig_addr : ℕ) → Buffer
started id dest_addr dest_seqno orig_addr =
    update
      (update (update (update (update (update (λ i. 0) 1 aodv_rreq) 4 0) 8 id) 12 dest_addr) 16
        dest_seqno)
      20 orig_addr

-- The fields that both kinds of request have in common, in the buffer after the call: the id is the
-- node's, which goes up by one.
pub record IsRreq (dest_addr dest_seqno orig_addr : ℕ) (n m : Node) : Type 0 where
  pub hcnt : m.send_buf 4 ≡ 0
  pub id : m.send_buf 8 ≡ n.this_host.rreq_id
  pub next_id : m.this_host.rreq_id ≡ inc32 n.this_host.rreq_id
  pub destination : m.send_buf 12 ≡ dest_addr
  pub seqno : m.send_buf 16 ≡ dest_seqno
  pub originator : m.send_buf 20 ≡ orig_addr

-- `rreq_create` leaves in the send buffer a request for the destination with the node's next id. It
-- carries the node's own sequence number after it was incremented, one destination, and a bit for
-- each of the four flags. The type is AODV_RREQ_LR, and the bit lr is set, as soon as the flags have any
-- of the bits of 0x16, which are those of RREQ_REPAIR, RREQ_GRATUITOUS and 0x10.
pub rreq_create-fields :
    (flags dest_addr dest_seqno orig_addr : ℕ) (n : Node)
    → (m : Node) × (rreq_create flags dest_addr dest_seqno orig_addr n ≡ some (tt, m))
      × IsRreq dest_addr dest_seqno orig_addr n m
      × (m.send_buf 28 ≡ 1)
      × (m.this_host.seqno ≡ seqno_incr n.this_host.seqno)
      × (m.send_buf 24 ≡ m.this_host.seqno)
      × (m.send_buf 1 ≡ (if any_flag flags 0x16 then aodv_rreq_lr else aodv_rreq))
      × (m.send_buf 2 ≡ with_bit (any_flag flags 0x16) 8 (rreq_bits flags 0))
unfolding rreq_create start_rreq started aodv_socket_new_msg
rreq_create-fields flags dest_addr dest_seqno orig_addr n =
    let host = record (n.this_host) {
      rreq_id = inc32 n.this_host.rreq_id;
      seqno = seqno_incr n.this_host.seqno;
    } in
    let b₀ =
      update (update (started n.this_host.rreq_id dest_addr dest_seqno orig_addr) 28 1) 24
        (seqno_incr n.this_host.seqno) in
    let n₀ : Node = record n { this_host = host; send_buf = b₀ } in
    let n₁ : Node = record n₀ { send_buf = flagged flags b₀ } in
    let lr = any_flag flags 0x16 in
    let other = λ (i : ℕ) (e : i ≢ 1) (f : i ≢ 2).
      repaired-other lr i n₁.send_buf e f ∙ flagged-other flags i b₀ f in
    (
      record n₁ { send_buf = repaired lr n₁.send_buf },
      then_run (set_rreq_flags flags) (when lr (store 1 aodv_rreq_lr >> set_bit 8)) n₀ n₁
            (set_rreq_flags_run flags n₀)
          ∙ repaired_run lr n₁,
      record {
        hcnt = other 4 (omega arith) (omega arith);
        id = other 8 (omega arith) (omega arith);
        next_id = refl;
        destination = other 12 (omega arith) (omega arith);
        seqno = other 16 (omega arith) (omega arith);
        originator = other 20 (omega arith) (omega arith);
      },
      other 28 (omega arith) (omega arith),
      refl,
      other 24 (omega arith) (omega arith),
      repaired-type lr n₁.send_buf
          ∙ ap (λ t. if lr then aodv_rreq_lr else t) (flagged-other flags 1 b₀ (omega arith)),
      repaired-bits lr n₁.send_buf ∙ ap (with_bit lr 8) (flagged-two flags b₀),
    )

-- `rreq_create_with_cost` leaves in the send buffer a request of the type AODV_RREQ, whatever the
-- flags are, with the same common fields and bits. It carries the node's sequence number plus one, but
-- the number that the node keeps stays as it is, and no count of destinations is written. The cost stands
-- in an extension of 8 bytes behind the request.
pub rreq_create_with_cost-fields :
    (flags dest_addr dest_seqno orig_addr cost : ℕ) (n : Node)
    → (m : Node) × (rreq_create_with_cost flags dest_addr dest_seqno orig_addr cost n
        ≡ some (tt, m))
      × IsRreq dest_addr dest_seqno orig_addr n m
      × (m.send_buf 28 ≡ 0)
      × (m.this_host.seqno ≡ n.this_host.seqno)
      × (m.send_buf 24 ≡ inc32 n.this_host.seqno)
      × (m.send_buf 1 ≡ aodv_rreq)
      × (m.send_buf 2 ≡ rreq_bits flags 0)
      × (m.send_buf 32 ≡ rreq_cost_ext)
      × (m.send_buf 33 ≡ 8)
      × (m.send_buf 34 ≡ cost)
unfolding rreq_create_with_cost start_rreq started aodv_socket_new_msg rreq_add_ext store_all
rreq_create_with_cost-fields flags dest_addr dest_seqno orig_addr cost n =
    let host = record (n.this_host) { rreq_id = inc32 n.this_host.rreq_id } in
    let b₀ =
      update (started n.this_host.rreq_id dest_addr dest_seqno orig_addr) 24
        (inc32 n.this_host.seqno) in
    let n₀ : Node = record n { this_host = host; send_buf = b₀ } in
    let b₁ = flagged flags b₀ in
    let n₁ : Node = record n₀ { send_buf = b₁ } in
    let other = λ (i : ℕ) (f : i ≢ 2). flagged-other flags i b₀ f in
    (
      record n₁ { send_buf = update (update (update b₁ 32 rreq_cost_ext) 33 8) 34 cost },
      then_run (set_rreq_flags flags) (rreq_add_ext rreq_cost_ext 32 8 ((0, cost) ∷ [])) n₀ n₁
          (set_rreq_flags_run flags n₀),
      record {
        hcnt = other 4 (omega arith);
        id = other 8 (omega arith);
        next_id = refl;
        destination = other 12 (omega arith);
        seqno = other 16 (omega arith);
        originator = other 20 (omega arith);
      },
      other 28 (omega arith),
      refl,
      other 24 (omega arith),
      other 1 (omega arith),
      flagged-two flags b₀,
      refl,
      refl,
      refl,
    )
