-- ===== src/Virtio/Fs/Moving.antt =====
-- packages/kernel/src/virtio/fs.ts: a record that a rename moves to another parent keeps the counts.
use distro.Common.{
  ℕ, ◌+◌, ◌<◌, ◌≤◌, ◌≡◌, refl, sym, ap, ◌∙◌, true, false, some, ◌==◌, arith, Bool-cases, inl, inr,
}
use mathlib.Core.Path.{subst}
use distro.Virtio.Fs.{NodeRecord, FsState, assign, option_map, drop_child, move_record, add_child}
use distro.Virtio.Fs.Counting.{total-put, measure≤total, put_same, put_other}
use distro.Virtio.Fs.Balance.{
  is_present, child, kids, opens, only, IsCounted, IsBalanced, same_ids, assign-present,
  assign-some, Assigned,
}
use distro.Virtio.Fs.Debts.{short_child, only_same, drop_child-IsCounted, add_child-IsBalanced}
use distro.Virtio.Fs.Collection.{below, child-parent, collect_record-IsBalanced}

abbrev pub set_parent : ℕ → NodeRecord → NodeRecord
set_parent parent r = record r { parent = parent }

module _ (s : FsState) (id parent : ℕ) (r : NodeRecord) (h : IsCounted (short_child r.parent) s)
    (e : s.records id ≡ some r) (other : (id == 1) ≡ false)
    (known : is_present (s.records parent) ≡ true) where
  kids-set_parent :
      (j : ℕ)
      → kids j (assign id (set_parent parent) s) + only r.parent j ≡ kids j s + only parent j
  kids-set_parent j = omega (
    arith,
    total-put (child j) (option_map (set_parent parent) (s.records id)) s.records id s.next_nodeid
        (below s.records s.next_nodeid id r h.unborn e),
    ap (child j id) e,
    ap (λ o. child j id (option_map (set_parent parent) o)) e,
    child-parent j id r other,
    child-parent j id (set_parent parent r) other,
  )

  set_parent-IsCounted : IsCounted (short_child parent) (assign id (set_parent parent) s)
  set_parent-IsCounted = record {
    rooted =
        (let (root, a, n, b) = h.rooted in
          (root, put_other id 1 _ s.records (flip id other) ∙ a, n, b));
    numbered = h.numbered;
    unborn = λ j l. put_other id j _ s.records (above j l) ∙ h.unborn j l;
    unopened = h.unopened;
    counts = λ j q p. by_id j q (assign-some s id (set_parent parent) j q p);
    nodes = λ fh o p. assign-present s id (set_parent parent) o.node ∙ h.nodes fh o p;
  }
    where
      flip : (a : ℕ) → (a == 1) ≡ false → (1 == a) ≡ false
      flip a x = ground arith

      above : (j : ℕ) → s.next_nodeid ≤ j → (j == id) ≡ false
      above j l = apart j id (omega (arith, below s.records s.next_nodeid id r h.unborn e))
        where
          apart : (a b : ℕ) → b < a → (a == b) ≡ false
          apart a b x = ground arith

      by_id :
          (j : ℕ) (q' : NodeRecord)
          → (q : NodeRecord) × Assigned s id (set_parent parent) j q' q
          → (q'.children + only parent j ≡ kids j (assign id (set_parent parent) s) + 0)
            × (q'.handles + 0 ≡ opens j s + 0)
            × (is_present ((assign id (set_parent parent) s).records q'.parent) ≡ true)
      by_id j q' (q, (p, inl (same, w))) =
          let (c, o, there) = h.counts j q p in
          (
            omega (arith, ap (λ x. x.children) w, c, kids-set_parent j),
            omega (arith, ap (λ x. x.handles) w, o),
            ap (λ x. is_present ((assign id (set_parent parent) s).records x.parent)) w
                ∙ (assign-present s id (set_parent parent) parent ∙ known),
          )
      by_id j q' (q, (p, inr (apart, w))) =
          let (c, o, there) = h.counts j q p in
          (
            omega (arith, ap (λ x. x.children) w, c, kids-set_parent j),
            omega (arith, ap (λ x. x.handles) w, o),
            ap (λ x. is_present ((assign id (set_parent parent) s).records x.parent)) w
                ∙ (assign-present s id (set_parent parent) q.parent ∙ there),
          )

-- The record under the id after the old parent's count has changed.
after_drop :
    (s : FsState) (id : ℕ) (r : NodeRecord)
    → s.records id ≡ some r
    → (r' : NodeRecord) × ((assign r.parent drop_child s).records id ≡ some r')
      × (r'.parent ≡ r.parent)
after_drop s id r e = elim (Bool-cases (id == r.parent)) [
  | inl q ↦
      (let same = same_ids id r.parent q in
        (
          drop_child r,
          ap (assign r.parent drop_child s).records same
              ∙ (put_same r.parent _ s.records
                  ∙ ap (option_map drop_child) (ap s.records (sym same) ∙ e)),
          refl,
        ))
  | inr q ↦ (r, put_other r.parent id _ s.records q ∙ e, refl)
]

-- The move, before the old parent is collected.
abbrev pub moved_to : ℕ → ℕ → NodeRecord → FsState → FsState
moved_to id parent r s =
    assign parent add_child (assign id (set_parent parent) (assign r.parent drop_child s))

module _ (s : FsState) (id parent : ℕ) (r : NodeRecord) (h : IsBalanced s)
    (e : s.records id ≡ some r) (other : (id == 1) ≡ false)
    (known : is_present (s.records parent) ≡ true) where
  pub moved_to-IsBalanced : IsBalanced (moved_to id parent r s)
  moved_to-IsBalanced =
      let first = assign r.parent drop_child s in
      let (r', e', same) = after_drop s id r e in
      let l =
        measure≤total (child r.parent) s.records id s.next_nodeid
          (below s.records s.next_nodeid id r h.unborn e) in
      let some_kid : 0 < kids r.parent s = omega (
        arith,
        l,
        ap (child r.parent id) e,
        child-parent r.parent id r other,
        only_same r.parent,
      ) in
      let h' : IsCounted (short_child r'.parent) first =
        subst (λ p. IsCounted (short_child p) first) (sym same)
          (drop_child-IsCounted s r.parent some_kid h) in
      let known' = assign-present s r.parent drop_child parent ∙ known in
      add_child-IsBalanced (assign id (set_parent parent) first) parent
        (set_parent-IsCounted first id parent r' h' e' other known')

  pub move_record-IsBalanced : IsBalanced (move_record id parent r s)
  move_record-IsBalanced =
      collect_record-IsBalanced r.parent (moved_to id parent r s) moved_to-IsBalanced
