-- ===== src/Precursor.antt =====
-- The precursors of a route: `precursor_add`, `precursor_remove` and `precursor_list_destroy` of
-- code/aodv-uu-0.96/routing_table.c.
pub mod Laws
use aodv_uu.Prelude.{ℕ, Bool, true, false, List, [], ◌∷◌, Option, none, some, ◌==◌, if◌then◌else◌}
use aodv_uu.Word.{inc32, dec32}
use aodv_uu.State.{RtTable}
use aodv_uu.Machine.{M, ◌>>=◌, skip, when, get_rt, modify_rt, Env}

unfoldable pub has_precursor : List ℕ → ℕ → Bool
has_precursor [] addr = false
has_precursor (x ∷ xs) addr = if x == addr then true else has_precursor xs addr

-- The loop of `precursor_list_destroy`: an element is detached and the count goes down, until none is
-- left.
unfoldable pub destroy_loop : List ℕ → ℕ → ℕ
destroy_loop [] nprec = nprec
destroy_loop (x ∷ xs) nprec = destroy_loop xs (dec32 nprec)

module _ (env : Env) where
  unfoldable pub precursor_add : Option ℕ → ℕ → M (Unit {0})
  precursor_add none addr = skip
  precursor_add (some p) addr = do
    rt ← get_rt p
    if has_precursor rt.precursors addr
        then skip
        else modify_rt p λ r. record r {
          precursors = env.pointers.list_add r.precursors addr;
          nprec = inc32 r.nprec;
        }

  -- The elements of the list are found by their address; `list_detach` takes the first such element.
  unfoldable pub precursor_remove : Option ℕ → ℕ → M (Unit {0})
  precursor_remove none addr = skip
  precursor_remove (some p) addr = do
    rt ← get_rt p
    when (has_precursor rt.precursors addr) (
        modify_rt p λ r. record r {
          precursors = env.pointers.list_detach r.precursors addr;
          nprec = dec32 r.nprec;
        })

unfoldable pub emptied : RtTable → RtTable
emptied r = record r { precursors = []; nprec = destroy_loop r.precursors r.nprec }

unfoldable pub precursor_list_destroy : Option ℕ → M (Unit {0})
precursor_list_destroy none = skip
precursor_list_destroy (some p) = modify_rt p emptied
