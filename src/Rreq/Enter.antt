-- ===== src/Rreq/Enter.antt =====
-- A new request in `rreq_process` of code/aodv-uu-0.96/aodv_rreq.c: its record, and the reverse route.
use aodv_uu.Prelude.{ℕ, ◌+◌, ◌<◌, ◌≢◌, none, some, ◌≡◌, sym, ap, ◌∙◌, subst, arith, inl, inr}
use aodv_uu.Word.{u8}
use aodv_uu.State.{Buffer, HostInfo, Node, PacketQueue, RreqRecord, RtTable}
use aodv_uu.Machine.{Env}
use aodv_uu.Device.{ifindex2devindex, dev_nr}
use aodv_uu.Device.Index.{SameHost, SameHost-device, SameHost-trans}
use aodv_uu.Fresh.{Costly}
use aodv_uu.Link.Leaves.{Among, Only}
use aodv_uu.Queue.Ready.{Ready, SameTable-Ready}
use aodv_uu.Queue.Waiting.{Waiting}
use aodv_uu.Records.{rreq_record_insert_with_cost}
use aodv_uu.Route.Invariant.{Inv, view, SameTable-Inv, SameTable-view}
use aodv_uu.Rreq.Answer.{record_request_run, reverse_route_run, IsReverse}
use aodv_uu.Rreq.Process.{reverse_route}

-- The node after both steps: the table has the reverse route at `p`, and what left the node are packets
-- that waited for the originator.
pub record IsEntered (env : Env) (n m : Node) (rreq : Buffer) (ip_src ifindex cost p : ℕ)
    (rt : RtTable) : Type 0 where
  pub inv : Inv m
  pub here : view m (rreq 20) ≡ some p
  pub stored : m.heap p ≡ some rt
  pub reverse : IsReverse rreq ip_src ifindex cost rt
  pub flags : rt.flags ≡ 0
  pub elsewhere : (d : ℕ) → d ≢ rreq 20 → view m d ≡ view n d
  pub host : SameHost n m
  pub only : Only (Waiting (rreq 20) n.pq.head) n m

pub enter_run :
    (env : Env) (n : Node) (rreq : Buffer) (c : Costly) (ip_src ifindex dev : ℕ)
    → Inv n
    → Ready n
    → ((i : ℕ) → i < 34 → c.message i ≡ rreq i)
    → ifindex2devindex ifindex n ≡ some dev
    → rreq 20 ≢ (dev_nr dev n).ipaddr
    → view n (rreq 20) ≡ none
    → n.num_entries < 4294967295
    → (rec : RreqRecord) × (n₁ : Node) × (m : Node) × (p : ℕ) × (rt : RtTable)
      × (rreq_record_insert_with_cost env (c.message 20) (c.message 8) c.cost n ≡ some (rec, n₁))
      × (reverse_route env c ip_src ifindex n₁ ≡ some (some (some p), m))
      × IsEntered env n m rreq ip_src ifindex c.cost p rt
enter_run env n rreq c ip_src ifindex dev inv ready same device foreign unrouted room =
    let orig = same 20 (omega arith) in
    let (rec, n₁, run₁, seen) = record_request_run env n (c.message 20) (c.message 8) c.cost in
    let own : (dev_nr dev n₁).ipaddr ≡ (dev_nr dev n).ipaddr =
      ap (λ h. (HostInfo.devs h dev).ipaddr) seen.host.this_host in
    let (m, rt, run₂, r) =
      reverse_route_run env n₁ c ip_src ifindex dev (SameTable-Inv seen.table inv)
        (SameTable-Ready seen.table seen.host ready)
        (SameTable-view seen.table (c.message 20) ∙ ap (view n) orig ∙ unrouted)
        (omega (arith, seen.table.num_entries, room)) (SameHost-device ifindex seen.host ∙ device)
        (λ e. foreign (sym orig ∙ e ∙ own)) in
    let is = r.inserted in
    let rev = r.reverse in
    (
      rec,
      n₁,
      m,
      n₁.next_address,
      rt,
      run₁,
      run₂,
      record {
        inv = is.inv;
        here = ap (view m) (sym orig) ∙ is.here;
        stored = r.stored;
        reverse = record {
          dest_addr = rev.dest_addr ∙ orig;
          next_hop = rev.next_hop;
          state = rev.state;
          hcnt = rev.hcnt ∙ ap (λ x. u8 (x + 1)) (same 4 (omega arith));
          dest_seqno = rev.dest_seqno ∙ same 24 (omega arith);
          rt_cost = rev.rt_cost;
          interface = rev.interface;
        };
        flags = r.flags;
        elsewhere = λ d e. is.elsewhere d (λ f. e (f ∙ orig)) ∙ SameTable-view seen.table d;
        host = SameHost-trans seen.host is.host;
        only = record {
          source = λ e i. elim (is.only.source e i) [
            | inl j ↦ inl (subst (Among e) seen.events j)
            | inr w ↦ inr (
                subst (λ x. Waiting x n.pq.head e) orig
                  (subst (λ x. Waiting (c.message 20) x e) (ap PacketQueue.head seen.pq) w))
          ];
        };
      },
    )
