-- ===== src/Tests/Messages.antt =====
-- The theorems at concrete inputs: messages, records and the search for a route.
use aodv_uu.Prelude.{
  true, false, ℕ, ◌+◌, ◌-◌, ◌≤◌, ◌<◌, false, none, some, ◌≡◌, ◌≢◌, ◌↔◌, refl, subst, ◌∷◌, [], ◌==◌,
  if◌then◌else◌, arith,
}
use aodv_uu.Seqno.{seqno_incr}
use aodv_uu.Params.{aodv_rerr_lr, aodv_rreq, aodv_rreq_lr, rreq_cost_ext, rerr_time}
use aodv_uu.State.{Node, Buffer, RreqRecord, RerrRecord, SeekEntry, Handler}
use aodv_uu.Records.{
  is_rreq, is_rerr, find_first, rreq_record_find, rerr_record_find, rreq_record_insert_with_cost,
  rerr_record_insert, new_timer,
}
use aodv_uu.Records.Seen.{rreq_record_insert_with_cost-find, rerr_record_insert-find}
use aodv_uu.Socket.{rate_limit}
use aodv_uu.Socket.Limit.{send_series, no_history, send_at, rate_limit_spaced, rate_limit_drop_iff}
use aodv_uu.Rreq.{rreq_create, rreq_create_with_cost}
use aodv_uu.Rreq.Fields.{IsRreq, rreq_create-fields, rreq_create_with_cost-fields}
use aodv_uu.Rerr.{rerr_create, has_lr, has_n, rerr_process, rerr_udest_at}
use aodv_uu.Rerr.Layout.{rerr_create-fields}
use aodv_uu.Rerr.Process.{NotVia, rerr_process_truncated, rerr_process_unaffected}
use aodv_uu.Route.{no_timer}
use aodv_uu.Route.Chain.{lookup_in}
use aodv_uu.Route.Invariant.{view}
use aodv_uu.Tests.Env.{env, env-TimerLaws, fresh}
use aodv_uu.Tests.Table.{routed, routed-Inv}

rreq_record_insert_with_cost-find_example :
    (rec : RreqRecord) × (m : Node) × (rreq_record_insert_with_cost env 65 1 4 routed
      ≡ some (rec, m))
    × (m ≡ record routed { next_address = m.next_address; rreq_records = m.rreq_records })
    × (2 ≤ m.next_address)
    × (rreq_record_find 65 1 m ≡ some rec)
    × (rreq_record_find 65 1 routed ≡ none → rec.cost ≡ 4)
    × ((old : RreqRecord) → rreq_record_find 65 1 routed ≡ some old → (rec ≡ old) × (m ≡ routed))
    × ((o i : ℕ) → is_rreq o i rec ≡ false → rreq_record_find o i m ≡ rreq_record_find o i routed)
rreq_record_insert_with_cost-find_example = rreq_record_insert_with_cost-find env routed 65 1 4

rerr_record_insert-find_example :
    (rec : RerrRecord) × (m : Node) × (rerr_record_insert env 65 1 7 routed ≡ some (rec, m))
    × (m ≡ record routed { next_address = m.next_address; rerr_records = m.rerr_records })
    × (2 ≤ m.next_address)
    × (rerr_record_find 65 1 7 m ≡ some rec)
    × (rerr_record_find 65 1 7 routed ≡ none
        → rec.rec_timer ≡ new_timer env Handler.rerr_record 5000 rerr_time)
    × ((old : RerrRecord) → rerr_record_find 65 1 7 routed ≡ some old → (rec ≡ old) × (m ≡ routed))
    × ((o i l : ℕ)
        → is_rerr o i l rec ≡ false
        → rerr_record_find o i l m ≡ rerr_record_find o i l routed)
rerr_record_insert-find_example = rerr_record_insert-find env routed 65 1 7

memory : ℕ → ℕ
memory i = 0

rate_limit_spaced_example :
    (send_series env 2 (0 ∷ 1000 ∷ []) (no_history memory)).sent 0 + 1000
    ≤ (send_series env 2 (0 ∷ 1000 ∷ []) (no_history memory)).sent 1
unfolding send_series send_at rate_limit
rate_limit_spaced_example =
    rate_limit_spaced env 2 memory (0 ∷ 1000 ∷ []) 0 env-TimerLaws (omega arith) (omega arith)

rate_limit_drop_iff_example :
    (rate_limit env 2 10 (send_series env 2 (5 ∷ []) (no_history memory)).window ≡ none) ↔ (
      (1 ≤ (send_series env 2 (5 ∷ []) (no_history memory)).number)
      × (10
          < (send_series env 2 (5 ∷ []) (no_history memory)).sent
              ((send_series env 2 (5 ∷ []) (no_history memory)).number - 1)
            + 1000))
rate_limit_drop_iff_example =
    rate_limit_drop_iff env 2 memory (5 ∷ []) 10 env-TimerLaws (omega arith)

rreq_create-fields_example :
    (m : Node) × (rreq_create 4 65 10 1 fresh ≡ some (tt, m))
    × IsRreq 65 10 1 fresh m
    × (m.send_buf 28 ≡ 1)
    × (m.this_host.seqno ≡ seqno_incr 1)
    × (m.send_buf 24 ≡ m.this_host.seqno)
    × (m.send_buf 1 ≡ aodv_rreq_lr)
    × (m.send_buf 2 ≡ 40)
rreq_create-fields_example = rreq_create-fields 4 65 10 1 fresh

rreq_create_with_cost-fields_example :
    (m : Node) × (rreq_create_with_cost 4 65 10 1 3 fresh ≡ some (tt, m))
    × IsRreq 65 10 1 fresh m
    × (m.send_buf 28 ≡ 0)
    × (m.this_host.seqno ≡ 1)
    × (m.send_buf 24 ≡ 2)
    × (m.send_buf 1 ≡ aodv_rreq)
    × (m.send_buf 2 ≡ 32)
    × (m.send_buf 32 ≡ rreq_cost_ext)
    × (m.send_buf 33 ≡ 8)
    × (m.send_buf 34 ≡ 3)
rreq_create_with_cost-fields_example = rreq_create_with_cost-fields 4 65 10 1 3 fresh

-- A RERR for one destination is in the send buffer, and the route `entry` is reported.
abbrev reported : Buffer
reported i = if i == 4 then 1 else 0

abbrev reporting : Node
reporting = record routed { send_buf = reported }

-- A RERR from the node 9, with the id 3, for the destination 66.
abbrev message : Buffer
message i =
    if i == 4 then 1 else if i == 8 then 66 else if i == 16 then 3 else if i == 20 then 9 else 0

rerr_process_truncated_example :
    (m : Node) × (rerr_process env message 12 7 routed ≡ some (tt, m))
    × (m ≡ record routed { next_address = m.next_address; rerr_records = m.rerr_records })
    × ((rerr' : Buffer) (len : ℕ)
        → rerr' 20 ≡ 9
        → rerr' 16 ≡ 3
        → (k : Node) → k.rerr_records ≡ m.rerr_records
        → rerr_process env rerr' len 7 k ≡ some (tt, k))
unfolding rerr_record_find find_first
rerr_process_truncated_example = rerr_process_truncated env routed message 12 7 refl (omega arith)

message-NotVia : NotVia routed message 7 1 0
unfolding lookup_in
message-NotVia k p rt a b e s v w =
    let zeroth : k ≡ 0 = omega arith in
    let e' = subst (λ j. view routed (message (rerr_udest_at j)) ≡ some p) zeroth e in
    absurd (ground (arith, e'))

rerr_process_unaffected_example :
    (m : Node) × (rerr_process env message 24 7 routed ≡ some (tt, m))
    × (m ≡ record routed { next_address = m.next_address; rerr_records = m.rerr_records })
    × (rerr_record_find 9 3 7 m ≢ none)
unfolding rerr_record_find find_first
rerr_process_unaffected_example =
    rerr_process_unaffected env routed message 24 7 routed-Inv refl (omega arith) message-NotVia

sought : SeekEntry
sought = record {
  dest_addr = 65;
  dest_seqno = 10;
  flags = 0;
  reqs = 0;
  ttl = 1;
  seek_timer = no_timer;
}

rerr_create-fields_example :
    (m : Node) × (rerr_create 2 65 10 fresh ≡ some (tt, m))
    × (m.send_buf 1 ≡ aodv_rerr_lr)
    × (has_lr m.send_buf ≡ true)
    × (has_n m.send_buf ≡ false)
    × (m.send_buf 4 ≡ 1)
    × (m.send_buf (rerr_udest_at 0) ≡ 65)
    × (m.send_buf (rerr_udest_at 0 + 4) ≡ 10)
    × (m.send_buf 16 ≡ 0)
    × (m.send_buf 20 ≡ 0)
rerr_create-fields_example = rerr_create-fields 2 65 10 fresh
