-- ===== src/Device.antt =====
-- Network devices: `ifindex2devindex` of code/aodv-uu-0.96/ns-2/aodv-uu.h, and the macros `DEV_IFINDEX`
-- and `DEV_NR` of defs.h.
pub mod Index
use aodv_uu.Prelude.{ℕ, zero, suc, ◌+◌, ◌==◌, Option, none, some, if◌then◌else◌, ◌≡◌}
use aodv_uu.State.{DevInfo, Node}
use aodv_uu.Machine.{M}

-- The loop from `i` on, with `rounds` rounds left.
unfoldable pub devindex_from : (rounds i ifindex : ℕ) → (ℕ → ℕ) → Option ℕ
devindex_from zero i ifindex dev_indices = none
devindex_from (suc rounds) i ifindex dev_indices =
    let rest = devindex_from rounds (i + 1) ifindex dev_indices in
    if dev_indices i == ifindex then some i else rest

-- `none` is -1.
unfoldable pub ifindex2devindex : ℕ → Node → Option ℕ
ifindex2devindex ifindex n = devindex_from n.this_host.nif 0 ifindex n.dev_indices

abbrev pub dev_nr : ℕ → Node → DevInfo
dev_nr i n = n.this_host.devs i

-- The place of the device in the array; the place -1 is a fault.
unfoldable pub dev_ifindex : ℕ → M ℕ
dev_ifindex ifindex n = elim (ifindex2devindex ifindex n) [ none ↦ none | some i ↦ some (i, n) ]

-- The interface is known.
abbrev pub Known : ℕ → Node → Type 0
Known ifindex n = (i : ℕ) × (ifindex2devindex ifindex n ≡ some i)
