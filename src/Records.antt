-- ===== src/Records.antt =====
-- The RREQs that were seen and the neighbours that are avoided: the `rreq_record_*` and
-- `rreq_blacklist_*` functions of code/aodv-uu-0.96/aodv_rreq.c, and the `rerr_record_*` functions of
-- code/aodv-uu-0.96/aodv_rerr.c.
pub mod Seen
use aodv_uu.Prelude.{
  ℕ, suc, ◌+◌, ◌*◌, ◌-◌, ◌/◌, Bool, true, false, ◌&&◌, List, [], ◌∷◌, Option, none, some, leb, ◌==◌,
  if◌then◌else◌,
}
use aodv_uu.Params.{
  path_discovery_time, rerr_time, rreq_retries, net_traversal_time, ttl_threshold, ttl_increment,
}
use aodv_uu.State.{Timer, Handler, RreqRecord, Blacklist, RerrRecord, Node}
use aodv_uu.Machine.{M, ◌>>=◌, ◌>>◌, ret, get, modify, malloc, Env}
use aodv_uu.Route.{no_timer}

-- `list_foreach` up to the first element that passes the test.
unfoldable pub find_first : {A : Type 0} → (A → Bool) → List A → Option A
find_first test [] = none
find_first test (x ∷ xs) = if test x then some x else find_first test xs

abbrev pub is_rreq : (orig_addr rreq_id : ℕ) → RreqRecord → Bool
is_rreq orig_addr rreq_id rec = rec.orig_addr == orig_addr && rec.rreq_id == rreq_id

unfoldable pub rreq_record_find : (orig_addr rreq_id : ℕ) → Node → Option RreqRecord
rreq_record_find orig_addr rreq_id n = find_first (is_rreq orig_addr rreq_id) n.rreq_records

abbrev pub is_address : ℕ → Blacklist → Bool
is_address dest_addr bl = bl.dest_addr == dest_addr

unfoldable pub rreq_blacklist_find : ℕ → Node → Option Blacklist
rreq_blacklist_find dest_addr n = find_first (is_address dest_addr) n.rreq_blacklist

abbrev pub is_rerr : (orig_addr rerr_id last_addr : ℕ) → RerrRecord → Bool
is_rerr orig_addr rerr_id last_addr rec =
    rec.orig_addr == orig_addr && rec.rerr_id == rerr_id && rec.last_addr == last_addr

unfoldable pub rerr_record_find : (orig_addr rerr_id last_addr : ℕ) → Node → Option RerrRecord
rerr_record_find orig_addr rerr_id last_addr n =
    find_first (is_rerr orig_addr rerr_id last_addr) n.rerr_records

module _ (env : Env) where
  unfoldable pub rreq_record_find_less_cost :
      (orig_addr rreq_id cost : ℕ) → Node → Option RreqRecord
  rreq_record_find_less_cost orig_addr rreq_id cost n =
      find_first (λ rec. is_rreq orig_addr rreq_id rec && env.lt_double rec.cost cost)
        n.rreq_records

  -- `timer_init` and `timer_set_timeout` of a new object.
  unfoldable pub new_timer : Handler → (now msec : ℕ) → Timer
  new_timer h now msec = env.timer_set_timeout now msec (env.timer_init h no_timer)

  unfoldable pub rreq_record_insert_with_cost : (orig_addr rreq_id cost : ℕ) → M RreqRecord
  rreq_record_insert_with_cost orig_addr rreq_id cost = do
    n ← get
    elim (rreq_record_find orig_addr rreq_id n) [
      | some rec ↦ ret rec
      | none ↦ do
        p ← malloc
        let rec : RreqRecord = record {
          address = p;
          orig_addr = orig_addr;
          rreq_id = rreq_id;
          rec_timer = new_timer Handler.rreq_record n.now path_discovery_time;
          cost = cost;
        }
        modify λ m. record m { rreq_records = env.rreq_records_ops.list_add m.rreq_records rec }
        ret rec
    ]

  -- The same, but for the cost, which is not written.
  unfoldable pub rreq_record_insert : (orig_addr rreq_id : ℕ) → M RreqRecord
  rreq_record_insert orig_addr rreq_id = do
    n ← get
    elim (rreq_record_find orig_addr rreq_id n) [
      | some rec ↦ ret rec
      | none ↦ do
        p ← malloc
        let rec : RreqRecord = record {
          address = p;
          orig_addr = orig_addr;
          rreq_id = rreq_id;
          rec_timer = new_timer Handler.rreq_record n.now path_discovery_time;
          cost = env.fresh_memory p;
        }
        modify λ m. record m { rreq_records = env.rreq_records_ops.list_add m.rreq_records rec }
        ret rec
    ]

  -- The timeout of the record at an address.
  unfoldable pub rreq_record_timeout : ℕ → M (Unit {0})
  rreq_record_timeout p =
      modify λ n. record n { rreq_records = env.rreq_records_ops.list_detach n.rreq_records p }

  -- BLACKLIST_TIMEOUT, as the macros expand; the division of a negative number rounds to 0.
  unfoldable pub blacklist_timeout : ℕ
  blacklist_timeout =
      let fixed = rreq_retries * net_traversal_time + 1 + rreq_retries in
      if leb env.ttl_start ttl_threshold
      then fixed + (ttl_threshold - env.ttl_start) / ttl_increment
      else fixed - (env.ttl_start - ttl_threshold) / ttl_increment

  unfoldable pub rreq_blacklist_insert : ℕ → M Blacklist
  rreq_blacklist_insert dest_addr = do
    n ← get
    elim (rreq_blacklist_find dest_addr n) [
      | some bl ↦ ret bl
      | none ↦ do
        p ← malloc
        let bl : Blacklist = record {
          address = p;
          dest_addr = dest_addr;
          bl_timer = new_timer Handler.rreq_blacklist n.now blacklist_timeout;
        }
        modify λ m. record m { rreq_blacklist = env.blacklist_ops.list_add m.rreq_blacklist bl }
        ret bl
    ]

  unfoldable pub rreq_blacklist_timeout : ℕ → M (Unit {0})
  rreq_blacklist_timeout p =
      modify λ n. record n { rreq_blacklist = env.blacklist_ops.list_detach n.rreq_blacklist p }

  unfoldable pub rerr_record_insert : (orig_addr rerr_id last_addr : ℕ) → M RerrRecord
  rerr_record_insert orig_addr rerr_id last_addr = do
    n ← get
    elim (rerr_record_find orig_addr rerr_id last_addr n) [
      | some rec ↦ ret rec
      | none ↦ do
        p ← malloc
        let rec : RerrRecord = record {
          address = p;
          orig_addr = orig_addr;
          rerr_id = rerr_id;
          last_addr = last_addr;
          rec_timer = new_timer Handler.rerr_record n.now rerr_time;
        }
        modify λ m. record m { rerr_records = env.rerr_records_ops.list_add m.rerr_records rec }
        ret rec
    ]

  unfoldable pub rerr_record_timeout : ℕ → M (Unit {0})
  rerr_record_timeout p =
      modify λ n. record n { rerr_records = env.rerr_records_ops.list_detach n.rerr_records p }
