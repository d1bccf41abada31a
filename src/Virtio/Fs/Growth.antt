-- ===== src/Virtio/Fs/Growth.antt =====
-- packages/kernel/src/virtio/fs.ts: new records and new handles keep the counts.
use distro.Common.{
  ℕ, zero, suc, ◌+◌, ◌≤◌, ◌≡◌, ◌⊎◌, refl, sym, ap, ◌∙◌, Bool, true, false, Option, none, some, ◌==◌,
  if◌then◌else◌, arith, Bool-cases, inl, inr,
}
use distro.Virtio.Fs.{
  NodeRecord, HandleRecord, FsState, put, fresh_record, add_child, add_handle, record_found,
  record_for_node, by_node, is_node, looked_up, add_lookup,
}
use distro.Virtio.Fs.Counting.{total, total_above, put_same, put_other}
use distro.Virtio.Fs.Balance.{
  is_present, held, opens, only, IsCounted, IsBalanced, same_ids, assign-present, some-injective,
}
use distro.Virtio.Fs.Debts.{
  short_open, add_child-IsBalanced, add_open-IsBalanced, set_lookups-IsBalanced,
}
use distro.Virtio.Fs.Presence.{put-present, with_fresh, with_fresh-IsCounted}

-- What `by_node` finds is there.
abbrev pub IsThere : FsState → Option ℕ → Type 0
IsThere s none = Unit {0}
IsThere s (some id) = is_present (s.records id) ≡ true

by_node-IsThere : (n node : ℕ) (s : FsState) → IsThere s (by_node n node s)
unfolding by_node
by_node-IsThere zero node s = tt
by_node-IsThere (suc n) node s = elim (Bool-cases (is_node node (s.records n))) [
  | inl q ↦ rw q (there (s.records n) q)
  | inr q ↦ rw q (by_node-IsThere n node s)
]
  where
    there : (o : Option NodeRecord) → is_node node o ≡ true → is_present o ≡ true
    there none e = cc
    there (some r) e = refl

-- A step to a balanced table, and an id that is in it.
abbrev pub IsAdded : FsState × ℕ → Type 0
IsAdded step = IsBalanced step.0 × (is_present (step.0.records step.1) ≡ true)

pub record_for_node-IsAdded :
    (s : FsState) (node parent : ℕ)
    → IsBalanced s
    → is_present (s.records parent) ≡ true
    → IsAdded (record_for_node node parent s)
unfolding record_for_node record_found with_fresh
record_for_node-IsAdded s node parent h known =
    by_found (by_node s.next_nodeid node s) (by_node-IsThere s.next_nodeid node s)
  where
    by_found : (found : Option ℕ) → IsThere s found → IsAdded (record_found found node parent s)
    by_found (some id) there = (h, there)
    by_found none there = (
      add_child-IsBalanced (with_fresh s node parent h known) parent
          (with_fresh-IsCounted s node parent h known),
      assign-present (with_fresh s node parent h known) parent add_child s.next_nodeid
          ∙ ap is_present (put_same s.next_nodeid (some (fresh_record node parent)) s.records),
    )

-- What is there stays there.
pub record_for_node-keeps :
    (s : FsState) (node parent id : ℕ)
    → is_present (s.records id) ≡ true
    → is_present ((record_for_node node parent s).0.records id) ≡ true
unfolding record_for_node record_found
record_for_node-keeps s node parent id e = by_found (by_node s.next_nodeid node s)
  where
    by_found :
        (found : Option ℕ) → is_present ((record_found found node parent s).0.records id) ≡ true
    by_found (some other) = e
    by_found none =
        assign-present
          (record s {
            records = put s.next_nodeid (some (fresh_record node parent)) s.records;
            next_nodeid = suc s.next_nodeid;
          })
          parent add_child id
        ∙ put-present s.next_nodeid (fresh_record node parent) s.records id e

pub looked_up-IsAdded :
    (s : FsState) (node parent : ℕ)
    → IsBalanced s
    → is_present (s.records parent) ≡ true
    → IsAdded (looked_up node parent s)
unfolding looked_up
looked_up-IsAdded s node parent h known =
    let found = record_for_node node parent s in
    let (b, p) = record_for_node-IsAdded s node parent h known in
    (
      set_lookups-IsBalanced found.0 found.1 add_lookup (λ r. (refl, refl)) (λ r. (refl, refl)) b,
      assign-present found.0 found.1 add_lookup found.1 ∙ p,
    )

module _ (s : FsState) (id handle : ℕ) (directory : Bool) (h : IsBalanced s)
    (known : is_present (s.records id) ≡ true) where
  with_handle : FsState
  with_handle = record s {
    handles =
        put s.next_handle (some (record { node = id; handle = handle; directory = directory }))
          s.handles;
    next_handle = suc s.next_handle;
  }

  opens-with_handle : (other : ℕ) → opens other with_handle ≡ only id other + opens other s
  unfolding total with_handle
  opens-with_handle other = omega (
    arith,
    ap (held other s.next_handle) (
        put_same s.next_handle (some (record { node = id; handle = handle; directory = directory }))
          s.handles),
    flip id other,
    total_above (held other) (some (record { node = id; handle = handle; directory = directory }))
        s.handles s.next_handle s.next_handle (omega arith),
  )
    where
      flip : (a b : ℕ) → (if a == b then 1 else 0) ≡ only a b
      flip a b = ground arith

  with_handle-IsCounted : IsCounted (short_open id) with_handle
  unfolding with_handle
  with_handle-IsCounted = record {
    rooted = h.rooted;
    numbered = h.numbered;
    unborn = h.unborn;
    unopened = λ fh l.
        put_other s.next_handle fh _ s.handles (after fh s.next_handle l)
        ∙ h.unopened fh (omega arith);
    counts = λ other r e.
        (let (c, o, p) = h.counts other r e in (c, omega (arith, o, opens-with_handle other), p));
    nodes = λ fh o e. by_handle fh o e (Bool-cases (fh == s.next_handle));
  }
    where
      after : (fh n : ℕ) → suc n ≤ fh → (fh == n) ≡ false
      after fh n l = ground arith

      by_handle :
          (fh : ℕ) (o : HandleRecord)
          → with_handle.handles fh ≡ some o
          → ((fh == s.next_handle) ≡ true) ⊎ ((fh == s.next_handle) ≡ false)
          → is_present (s.records o.node) ≡ true
      by_handle fh o e (inl q) =
          let w = some-injective _ _ (
            sym (
              ap with_handle.handles (same_ids fh s.next_handle q)
              ∙ put_same s.next_handle _ s.handles)
            ∙ e) in
          ap (λ x. is_present (s.records x.node)) (sym w) ∙ known
      by_handle fh o e (inr q) = h.nodes fh o (sym (put_other s.next_handle fh _ s.handles q) ∙ e)

  pub add_handle-IsBalanced : IsBalanced (add_handle id handle directory s)
  unfolding add_handle with_handle
  add_handle-IsBalanced = add_open-IsBalanced with_handle id with_handle-IsCounted
