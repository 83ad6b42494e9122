-- ===== src/Machine.antt =====
-- The agent's methods as functions on its state, and what they call that is not in the repository.
use aodv_uu.Prelude.{
  fun_ext, ℕ_discrete, ap, sym, ◌∙◌, ℕ, suc, ◌+◌, Bool, true, false, Option, none, some, List, [],
  ◌∷◌, ◌++◌, ℤ, pos, ◌≡◌, ltb, ltb_ℤ, ◌==◌, ◌≢◌, ==_refl, ==_ne, if◌then◌else◌,
}
use aodv_uu.State.{
  Timer, Handler, RtTable, RreqRecord, Blacklist, RerrRecord, SeekList, Node, Event, Buffer,
}
use aodv_uu.Packet.{Packet, QPkt}

-- A method takes the state to its result and the state after it; `none` is a fault: a read or a
-- write through a pointer to no object, or past the end of an array.
abbrev pub M : Type 0 → Type 0
M A = Node → Option (A × Node)

infixl 5 ◌>>=◌ ◌>>◌
abbrev pub ◌>>=◌ : {A B : Type 0} → M A → (A → M B) → M B
◌>>=◌ m f n = elim (m n) [ none ↦ none | some (a, n') ↦ f a n' ]

abbrev pub ◌>>◌ : {B : Type 0} → M (Unit {0}) → M B → M B
◌>>◌ m k n = elim (m n) [ none ↦ none | some (_, n') ↦ k n' ]

abbrev pub ret : {A : Type 0} → A → M A
ret a n = some (a, n)

abbrev pub skip : M (Unit {0})
skip n = some (tt, n)

abbrev pub get : M Node
get n = some (n, n)

abbrev pub modify : (Node → Node) → M (Unit {0})
modify f n = some (tt, f n)

abbrev pub update {ℓ} : {A : Type ℓ} → (ℕ → A) → ℕ → A → ℕ → A
update f k v j = if j == k then v else f j

pub update_self {ℓ} : {A : Type ℓ} (f : ℕ → A) (k : ℕ) (v : A) → update f k v k ≡ v
update_self f k v = rw (==_refl k)

pub update_ne {ℓ} : {A : Type ℓ} (f : ℕ → A) (j k : ℕ) (v : A) → j ≢ k → update f k v j ≡ f j
update_ne f j k v e = rw (==_ne j k e)

-- Of two writes at one place the second remains.
pub update-update {ℓ} :
    {A : Type ℓ} (f : ℕ → A) (k : ℕ) (v w : A) → update (update f k v) k w ≡ update f k w
update-update f k v w =
    fun_ext λ j. elim (ℕ_discrete j k) [ yes s ↦ rw (s, ==_refl k) | no s ↦ rw (==_ne j k s) ]

-- A write of what stands there changes nothing.
pub update_stored {ℓ} : {A : Type ℓ} (f : ℕ → A) (k : ℕ) {v : A} → f k ≡ v → f ≡ update f k v
update_stored f k {v} e = fun_ext λ j. elim (ℕ_discrete j k) [
  | yes s ↦ ap f s ∙ e ∙ sym (update_self f k v) ∙ ap (update f k v) (sym s)
  | no s ↦ sym (update_ne f j k v s)
]

pub stored_again :
    {A : Type 0} (a : A) (n : Node) (p : ℕ) {v : Option RtTable}
    → n.heap p ≡ v
    → ◌≡◌ {A = Option (A × Node)} (some (a, n)) (some (a, record n { heap = update n.heap p v }))
stored_again a n p e = λ i. some (a, record n { heap = update_stored n.heap p e i })

-- Reads and writes of a routing entry through its pointer.
abbrev pub get_rt : ℕ → M RtTable
get_rt p n = elim (n.heap p) [ none ↦ none | some rt ↦ some (rt, n) ]

abbrev pub modify_rt : ℕ → (RtTable → RtTable) → M (Unit {0})
modify_rt p f n = elim (n.heap p) [
  | none ↦ none
  | some rt ↦ some (tt, record n { heap = update n.heap p (some (f rt)) })
]

-- A call whose run is known, at the head of a block.
pub bind_run :
    {A B : Type 0} (m : M A) (f : A → M B) (n n' : Node) (a : A)
    → m n ≡ some (a, n')
    → (m >>= f) n ≡ f a n'
bind_run m f n n' a e = rw (◌>>=◌, e)

pub then_run :
    {B : Type 0} (m : M (Unit {0})) (k : M B) (n n' : Node)
    → m n ≡ some (tt, n')
    → (m >> k) n ≡ k n'
then_run m k n n' e = rw (◌>>◌, e)

-- A read and a write of an entry that is there, at the head of a block.
pub get_rt_run :
    {B : Type 0} (p : ℕ) (f : RtTable → M B) (n : Node) (rt : RtTable)
    → n.heap p ≡ some rt
    → (get_rt p >>= f) n ≡ f rt n
get_rt_run p f n rt e = rw (◌>>=◌, get_rt, e)

pub modify_rt_run :
    {B : Type 0} (p : ℕ) (g : RtTable → RtTable) (k : M B) (n : Node) (rt : RtTable)
    → n.heap p ≡ some rt
    → (modify_rt p g >> k) n ≡ k (record n { heap = update n.heap p (some (g rt)) })
modify_rt_run p g k n rt e = rw (◌>>◌, modify_rt, e)

-- The address of an object that `malloc` makes.
abbrev pub malloc : M ℕ
malloc n = some (n.next_address, record n { next_address = suc n.next_address })

-- A read or a write where nothing is.
abbrev pub fault : {A : Type 0} → M A
fault n = none

-- The object of a pointer that may be NULL.
abbrev pub deref : Option ℕ → M ℕ
deref none n = none
deref (some p) n = some (p, n)

abbrev pub emit : Event → M (Unit {0})
emit e n = some (tt, record n { events = e ∷ n.events })

-- An `if` with no `else`.
abbrev pub when : Bool → M (Unit {0}) → M (Unit {0})
when b m = if b then m else skip

-- The list without the first element that stands at an address.
abbrev pub unlink {ℓ} : {A : Type ℓ} → (A → ℕ) → List A → ℕ → List A
unlink address [] p = []
unlink address (x ∷ xs) p = if address x == p then xs else x ∷ unlink address xs p

-- `list_add` and `list_detach` of list.h, which is not in the repository, with what the callers rely
-- on: `list_add` puts the element first, and `list_detach` takes out the element at an address.
pub record ListOps (A : Type 0) (address : A → ℕ) : Type 0 where
  pub list_add : List A → A → List A
  pub list_detach : List A → ℕ → List A
  pub list_add-first : (xs : List A) (x : A) → list_add xs x ≡ x ∷ xs
  pub list_detach-unlink : (xs : List A) (p : ℕ) → list_detach xs p ≡ unlink address xs p

-- `list_add_tail`, which puts the element last.
pub record TailOps (A : Type 0) : Type 0 where
  pub list_add_tail : List A → A → List A
  pub list_add_tail-last : (xs : List A) (x : A) → list_add_tail xs x ≡ xs ++ (x ∷ [])

abbrev pub own_address : ℕ → ℕ
own_address p = p

-- `fresh_memory` is what memory holds that `malloc` hands out and nobody has written, and
-- `uninitialized` what a local variable holds that was not written; `random_jitter` is the random
-- expression of `hello_jitter`, and `mac_state` and `mac_snr` are what the three MAC objects report.
-- The options that the agent is started with, and the functions that it calls and that the repository
-- does not hold: those of timer_queue.c, list.h, seek_list.c and aodv_neighbor.c, and the operations
-- on `double`; a `double` is its bit pattern, and so is the `int` that
-- `double_of_int` takes. `maxttl` is MAXTTL of the system headers, `random_uniform` what
-- `Random::uniform` returns, `allocpkt` a new packet, and `ifq_filter` and `ifq_filter_by` are the two functions `filter` of the
-- interface queue: the first takes a packet with a next hop out of the queue, the second all that pass
-- a test.
pub record Env : Type 0 where
  pub unidir_hack : Bool
  pub rreq_gratuitous : Bool
  pub expanding_ring_search : Bool
  pub local_repair : Bool
  pub ratelimit : Bool
  pub llfeedback : Bool
  pub optimized_hellos : Bool
  pub hello_jittering : Bool
  pub receive_n_hellos : ℕ
  pub active_route_timeout : ℕ
  pub ttl_start : ℕ
  pub delete_period : ℕ
  pub fresh_memory : ℕ → ℕ
  pub uninitialized : ℕ
  pub timer_init : Handler → Timer → Timer
  pub timer_set_timeout : (now msec : ℕ) → Timer → Timer
  pub timer_remove : Timer → Timer
  pub timeval_add_msec : ℕ → ℕ → ℕ
  pub timeval_diff : ℕ → ℕ → ℤ
  pub pointers : ListOps ℕ own_address
  pub rreq_records_ops : ListOps RreqRecord RreqRecord.address
  pub blacklist_ops : ListOps Blacklist Blacklist.address
  pub rerr_records_ops : ListOps RerrRecord RerrRecord.address
  pub seek_list_find : ℕ → SeekList → Option ℕ
  pub seek_list_remove : Option ℕ → SeekList → Bool × SeekList
  pub seek_list_insert : (dest_addr dest_seqno ttl flags : ℕ) → SeekList → ℕ × SeekList
  pub neighbor_link_break : ℕ → M (Unit {0})
  pub neighbor_add : Buffer → (source ifindex : ℕ) → M (Unit {0})
  pub lt_double : ℕ → ℕ → Bool
  pub add_double : ℕ → ℕ → ℕ
  pub mul_double : ℕ → ℕ → ℕ
  pub div_double : ℕ → ℕ → ℕ
  pub neg_double : ℕ → ℕ
  pub log_double : ℕ → ℕ
  pub double_of_int : ℕ → ℕ
  pub mac_state : ℕ → ℕ
  pub mac_snr : ℕ → ℕ
  pub random_jitter : ℤ
  pub maxttl : ℕ
  pub random_uniform : ℕ
  pub allocpkt : Packet
  pub pq_list : TailOps QPkt
  pub ifq_filter : ℕ → List Packet → Option (Packet × List Packet)
  pub ifq_filter_by : (Packet → Bool) → List Packet → List Packet
  pub timer_age_queue : M (Option ℕ)

-- What the code relies on: a timer that is set runs until the time given and keeps its handler, a
-- removed one does not run, and instants and their differences are counted in milliseconds.
pub record TimerLaws (env : Env) : Type 0 where
  pub init_handler : (h : Handler) (t : Timer) → (env.timer_init h t).handler ≡ h
  pub init_used : (h : Handler) (t : Timer) → (env.timer_init h t).used ≡ false
  pub set_timeout :
      (now msec : ℕ) (t : Timer)
      → (env.timer_set_timeout now msec t).timeout ≡ env.timeval_add_msec now msec
  pub set_used : (now msec : ℕ) (t : Timer) → (env.timer_set_timeout now msec t).used ≡ true
  pub set_handler :
      (now msec : ℕ) (t : Timer) → (env.timer_set_timeout now msec t).handler ≡ t.handler
  pub remove_used : (t : Timer) → (env.timer_remove t).used ≡ false
  pub diff_lt : (a b k : ℕ) → ltb_ℤ (env.timeval_diff a b) (pos k) ≡ ltb a (b + k)
  pub add_msec : (a m : ℕ) → env.timeval_add_msec a m ≡ a + m
