-- ===== src/Virtio/Fs/Debts.antt =====
-- packages/kernel/src/virtio/fs.ts: the assignments that take a debt of a count on, or pay it.
use distro.Common.{ℕ, ◌<◌, ◌≡◌, refl, false, ◌==◌, arith, if_false}
use distro.Virtio.Fs.{NodeRecord, FsState, assign, add_child, drop_child, add_open, drop_open}
use distro.Virtio.Fs.Balance.{kids, Debts, only, settled, IsCounted, IsBalanced, assign-IsCounted}

-- A debt of one child, or one handle, at an id.
abbrev pub short_child : ℕ → Debts
short_child key = record settled { missing_children = only key }

abbrev pub long_child : ℕ → Debts
long_child key = record settled { extra_children = only key }

abbrev pub short_open : ℕ → Debts
short_open key = record settled { missing_handles = only key }

abbrev pub long_open : ℕ → Debts
long_open key = record settled { extra_handles = only key }

pub only_same : (key : ℕ) → only key key ≡ 1
only_same key = ground arith

pub only_other : (key id : ℕ) → (id == key) ≡ false → only key id ≡ 0
only_other key id e = if_false (id == key) 1 0 e

module _ (s : FsState) (key : ℕ) where
  pub set_lookups-IsBalanced :
      (f : NodeRecord → NodeRecord)
      → ((r : NodeRecord) → ((f r).parent ≡ r.parent) × ((f r).node ≡ r.node))
      → ((r : NodeRecord) → ((f r).children ≡ r.children) × ((f r).handles ≡ r.handles))
      → IsBalanced s
      → IsBalanced (assign key f s)
  set_lookups-IsBalanced f keeps same h =
      assign-IsCounted settled settled s key f keeps
        (λ r e. (omega (arith, (same r).0), omega (arith, (same r).1))) (λ id e. (refl, refl)) h

  pub add_child-IsBalanced : IsCounted (short_child key) s → IsBalanced (assign key add_child s)
  add_child-IsBalanced h =
      assign-IsCounted (short_child key) settled s key add_child (λ r. (refl, refl))
        (λ r e. (omega (arith, only_same key), omega arith))
        (λ id e. (omega (arith, only_other key id e), refl)) h

  pub drop_child-IsBalanced : IsCounted (long_child key) s → IsBalanced (assign key drop_child s)
  drop_child-IsBalanced h =
      assign-IsCounted (long_child key) settled s key drop_child (λ r. (refl, refl))
        (λ r e. (omega (arith, only_same key, (h.counts key r e).0), omega arith))
        (λ id e. (omega (arith, only_other key id e), refl)) h

  pub drop_child-IsCounted :
      0 < kids key s → IsBalanced s → IsCounted (short_child key) (assign key drop_child s)
  drop_child-IsCounted l h =
      assign-IsCounted settled (short_child key) s key drop_child (λ r. (refl, refl))
        (λ r e. (omega (arith, only_same key, (h.counts key r e).0), omega arith))
        (λ id e. (omega (arith, only_other key id e), refl)) h

  pub add_open-IsBalanced : IsCounted (short_open key) s → IsBalanced (assign key add_open s)
  add_open-IsBalanced h =
      assign-IsCounted (short_open key) settled s key add_open (λ r. (refl, refl))
        (λ r e. (omega arith, omega (arith, only_same key)))
        (λ id e. (refl, omega (arith, only_other key id e))) h

  pub drop_open-IsBalanced : IsCounted (long_open key) s → IsBalanced (assign key drop_open s)
  drop_open-IsBalanced h =
      assign-IsCounted (long_open key) settled s key drop_open (λ r. (refl, refl))
        (λ r e. (omega arith, omega (arith, only_same key, (h.counts key r e).1)))
        (λ id e. (refl, omega (arith, only_other key id e))) h
