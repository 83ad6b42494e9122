-- ===== src/Records/Seen.antt =====
-- What a lookup finds after an insertion, in the lists of `rreq_record_insert_with_cost`,
-- `rreq_blacklist_insert` and `rerr_record_insert`.
use aodv_uu.Prelude.{
  ℕ, suc, Bool, false, List, none, some, ◌≤◌, ◌≡◌, refl, ◌∙◌, arith, if◌then◌else◌, Option-cases,
  inl, inr,
}
use aodv_uu.Params.{path_discovery_time, rerr_time}
use aodv_uu.State.{Handler, RreqRecord, Blacklist, RerrRecord, Node}
use aodv_uu.Machine.{◌>>=◌, ◌>>◌, Env, ListOps}
use aodv_uu.Records.{
  find_first, is_rreq, is_address, is_rerr, rreq_record_find, rreq_record_insert_with_cost,
  rreq_blacklist_find, rreq_blacklist_insert, rerr_record_find, rerr_record_insert, new_timer,
  blacklist_timeout,
}

find_first-list_add :
    {A : Type 0} {address : A → ℕ} (ops : ListOps A address) (test : A → Bool) (xs : List A) (x : A)
    → find_first test (ops.list_add xs x) ≡ (if test x then some x else find_first test xs)
unfolding find_first
find_first-list_add ops test xs x = rw (ops.list_add-first xs x)

module _ (env : Env) (n : Node) where
  -- An insertion of a request returns what a lookup of it finds afterwards, and writes nothing but the list. A record that is there
  -- already is returned as it is, with its old cost, and nothing changes; a new one has the given cost.
  -- The lookups of all requests that the record does not answer give what they gave.
  pub rreq_record_insert_with_cost-find :
      (orig_addr rreq_id cost : ℕ)
      → (rec : RreqRecord) × (m : Node) × (rreq_record_insert_with_cost env orig_addr rreq_id cost n
          ≡ some (rec, m))
        × (m ≡ record n { next_address = m.next_address; rreq_records = m.rreq_records })
        × (n.next_address ≤ m.next_address)
        × (rreq_record_find orig_addr rreq_id m ≡ some rec)
        × (rreq_record_find orig_addr rreq_id n ≡ none → rec.cost ≡ cost)
        × ((old : RreqRecord)
            → rreq_record_find orig_addr rreq_id n ≡ some old
            → (rec ≡ old) × (m ≡ n))
        × ((orig_addr' rreq_id' : ℕ)
            → is_rreq orig_addr' rreq_id' rec ≡ false
            → rreq_record_find orig_addr' rreq_id' m ≡ rreq_record_find orig_addr' rreq_id' n)
  unfolding rreq_record_find rreq_record_insert_with_cost
  rreq_record_insert_with_cost-find orig_addr rreq_id cost =
      elim (Option-cases (find_first (is_rreq orig_addr rreq_id) n.rreq_records)) [
        | inl e ↦
            let rec : RreqRecord = record {
              address = n.next_address;
              orig_addr = orig_addr;
              rreq_id = rreq_id;
              rec_timer = new_timer env Handler.rreq_record n.now path_discovery_time;
              cost = cost;
            } in
            let added = λ (test : RreqRecord → Bool).
              find_first-list_add env.rreq_records_ops test n.rreq_records rec in
            (
              rec,
              record n {
                next_address = suc n.next_address;
                rreq_records = env.rreq_records_ops.list_add n.rreq_records rec;
              },
              rw (◌>>=◌, ◌>>◌, e),
              refl,
              omega arith,
              added (is_rreq orig_addr rreq_id) ∙ ground arith,
              λ _. refl,
              λ old s. ground (arith, e, s),
              λ orig_addr' rreq_id' f. added (is_rreq orig_addr' rreq_id') ∙ rw f,
            )
        | inr (old, e) ↦ (
          old,
          n,
          rw (◌>>=◌, e),
          refl,
          omega arith,
          e,
          λ s. ground (arith, e, s),
          λ o s. (ground (arith, e, s), refl),
          λ orig_addr' rreq_id' f. refl,
        )
      ]

  -- An address that is put on the blacklist is found there, and stays as it was if it was there;
  -- nothing but the list is written; a new
  -- entry runs for BLACKLIST_TIMEOUT. All other addresses are found, or not, as before.
  pub rreq_blacklist_insert-find :
      (dest_addr : ℕ)
      → (rec : Blacklist) × (m : Node) × (rreq_blacklist_insert env dest_addr n ≡ some (rec, m))
        × (m ≡ record n { next_address = m.next_address; rreq_blacklist = m.rreq_blacklist })
        × (n.next_address ≤ m.next_address)
        × (rreq_blacklist_find dest_addr m ≡ some rec)
        × (rreq_blacklist_find dest_addr n ≡ none
            → rec.bl_timer ≡ new_timer env Handler.rreq_blacklist n.now (blacklist_timeout env))
        × ((old : Blacklist) → rreq_blacklist_find dest_addr n ≡ some old → (rec ≡ old) × (m ≡ n))
        × ((dest_addr' : ℕ)
            → is_address dest_addr' rec ≡ false
            → rreq_blacklist_find dest_addr' m ≡ rreq_blacklist_find dest_addr' n)
  unfolding rreq_blacklist_find rreq_blacklist_insert
  rreq_blacklist_insert-find dest_addr =
      elim (Option-cases (find_first (is_address dest_addr) n.rreq_blacklist)) [
        | inl e ↦
            let rec : Blacklist = record {
              address = n.next_address;
              dest_addr = dest_addr;
              bl_timer = new_timer env Handler.rreq_blacklist n.now (blacklist_timeout env);
            } in
            let added = λ (test : Blacklist → Bool).
              find_first-list_add env.blacklist_ops test n.rreq_blacklist rec in
            (
              rec,
              record n {
                next_address = suc n.next_address;
                rreq_blacklist = env.blacklist_ops.list_add n.rreq_blacklist rec;
              },
              rw (◌>>=◌, ◌>>◌, e),
              refl,
              omega arith,
              added (is_address dest_addr) ∙ ground arith,
              λ _. refl,
              λ old s. ground (arith, e, s),
              λ dest_addr' f. added (is_address dest_addr') ∙ rw f,
            )
        | inr (old, e) ↦ (
          old,
          n,
          rw (◌>>=◌, e),
          refl,
          omega arith,
          e,
          λ s. ground (arith, e, s),
          λ o s. (ground (arith, e, s), refl),
          λ dest_addr' f. refl,
        )
      ]

  -- A RERR that is recorded is found afterwards, nothing but the list is written, and a record that is there already stays as it is; a
  -- new one runs for RERR_TIME. All other RERRs are found, or not, as before.
  pub rerr_record_insert-find :
      (orig_addr rerr_id last_addr : ℕ)
      → (rec : RerrRecord) × (m : Node) × (rerr_record_insert env orig_addr rerr_id last_addr n
          ≡ some (rec, m))
        × (m ≡ record n { next_address = m.next_address; rerr_records = m.rerr_records })
        × (n.next_address ≤ m.next_address)
        × (rerr_record_find orig_addr rerr_id last_addr m ≡ some rec)
        × (rerr_record_find orig_addr rerr_id last_addr n ≡ none
            → rec.rec_timer ≡ new_timer env Handler.rerr_record n.now rerr_time)
        × ((old : RerrRecord)
            → rerr_record_find orig_addr rerr_id last_addr n ≡ some old
            → (rec ≡ old) × (m ≡ n))
        × ((orig_addr' rerr_id' last_addr' : ℕ)
            → is_rerr orig_addr' rerr_id' last_addr' rec ≡ false
            → rerr_record_find orig_addr' rerr_id' last_addr' m
              ≡ rerr_record_find orig_addr' rerr_id' last_addr' n)
  unfolding rerr_record_find rerr_record_insert
  rerr_record_insert-find orig_addr rerr_id last_addr =
      elim (Option-cases (find_first (is_rerr orig_addr rerr_id last_addr) n.rerr_records)) [
        | inl e ↦
            let rec : RerrRecord = record {
              address = n.next_address;
              orig_addr = orig_addr;
              rerr_id = rerr_id;
              last_addr = last_addr;
              rec_timer = new_timer env Handler.rerr_record n.now rerr_time;
            } in
            let added = λ (test : RerrRecord → Bool).
              find_first-list_add env.rerr_records_ops test n.rerr_records rec in
            (
              rec,
              record n {
                next_address = suc n.next_address;
                rerr_records = env.rerr_records_ops.list_add n.rerr_records rec;
              },
              rw (◌>>=◌, ◌>>◌, e),
              refl,
              omega arith,
              added (is_rerr orig_addr rerr_id last_addr) ∙ ground arith,
              λ _. refl,
              λ old s. ground (arith, e, s),
              λ orig_addr' rerr_id' last_addr' f.
                  added (is_rerr orig_addr' rerr_id' last_addr') ∙ rw f,
            )
        | inr (old, e) ↦ (
          old,
          n,
          rw (◌>>=◌, e),
          refl,
          omega arith,
          e,
          λ s. ground (arith, e, s),
          λ o s. (ground (arith, e, s), refl),
          λ orig_addr' rerr_id' last_addr' f. refl,
        )
      ]
