-- ===== src/Virtio/Fs/Collection.antt =====
-- packages/kernel/src/virtio/fs.ts: `collect_record`, `remove_handle` and the move of a record keep the
-- counts.
use distro.Common.{
  ℕ, zero, suc, ◌+◌, ◌<◌, ◌≤◌, ◌≡◌, refl, sym, ap, ◌∙◌, Bool, true, false, ◌&&◌, Option, none, some,
  ◌==◌, if◌then◌else◌, arith, Bool-cases, inl, inr, ltb, Option-cases,
}
use distro.Virtio.Fs.{
  drop_open, NodeRecord, HandleRecord, FsState, put, assign, drop_lookups, is_unused, delete_record,
  collect_loop, collect_record, forget, remove_handle,
}
use distro.Virtio.Fs.Counting.{total-put, measure≤total, put_same, put_other}
use distro.Virtio.Fs.Balance.{
  is_present, child, kids, held, opens, only, IsCounted, IsBalanced, same_ids, some-injective,
}
use distro.Virtio.Fs.Debts.{
  long_child, long_open, drop_child-IsBalanced, drop_open-IsBalanced, set_lookups-IsBalanced,
}

-- A present key is below the bound, above which there are none.
pub below :
    {A : Type 0} (m : ℕ → Option A) (n key : ℕ) (a : A)
    → ((k : ℕ) → n ≤ k → m k ≡ none)
    → m key ≡ some a
    → key < n
below m n key a above e = elim (Bool-cases (ltb key n)) [
  | inl l ↦ ground arith
  | inr l ↦ (let e' : m key ≡ none = above key (ground arith) in let no : ⊥ = cc in absurd no)
]

pub put-none :
    {A : Type 0} (key id : ℕ) (m : ℕ → Option A) (a : A)
    → put key none m id ≡ some a
    → ((id == key) ≡ false) × (m id ≡ some a)
put-none key id m a e = elim (Bool-cases (id == key)) [
  | inl q ↦
      (let gone : put key none m id ≡ none =
          ap (put key none m) (same_ids id key q) ∙ put_same key none m in
        let no : ⊥ = cc in absurd no)
  | inr q ↦ (q, sym (put_other key id none m q) ∙ e)
]

pub child-parent :
    (j id : ℕ) (r : NodeRecord) → (id == 1) ≡ false → child j id (some r) ≡ only r.parent j
child-parent j id r e = rw e (flip r.parent j)
  where
    flip : (a b : ℕ) → (if (a == b) && true then 1 else 0) ≡ only a b
    flip a b = ground arith

not_first : (id : ℕ) (r : NodeRecord) → is_unused id r ≡ true → (id == 1) ≡ false
not_first id r u = ground arith

no_children : (id : ℕ) (r : NodeRecord) → is_unused id r ≡ true → r.children ≡ 0
no_children id r u = ground arith

no_handles : (id : ℕ) (r : NodeRecord) → is_unused id r ≡ true → r.handles ≡ 0
no_handles id r u = ground arith

module _ (s : FsState) (id : ℕ) (r : NodeRecord) (h : IsBalanced s) (e : s.records id ≡ some r)
    (u : is_unused id r ≡ true) where
  without : FsState
  without = record s { records = put id none s.records }

  kids-without : (j : ℕ) → kids j without + only r.parent j ≡ kids j s
  unfolding without
  kids-without j = omega (
    arith,
    total-put (child j) none s.records id s.next_nodeid
        (below s.records s.next_nodeid id r h.unborn e),
    ap (child j id) e,
    child-parent j id r (not_first id r u),
  )

  no_kids : kids id s ≡ 0
  no_kids = omega (arith, (h.counts id r e).0, no_children id r u)

  no_opens : opens id s ≡ 0
  no_opens = omega (arith, (h.counts id r e).1, no_handles id r u)

  -- No other record has it as its parent.
  other_parent : (j : ℕ) (q : NodeRecord) → s.records j ≡ some q → (q.parent == id) ≡ false
  other_parent j q p = elim (Bool-cases (j == 1)) [
    | inl f ↦
        (let (root, a, n, b) = h.rooted in
          let w : root ≡ q =
            some-injective root q (sym a ∙ (ap s.records (sym (same_ids j 1 f)) ∙ p)) in
          let first : q.parent ≡ 1 = ap (λ x. x.parent) (sym w) ∙ b in
          parent_1 q.parent id first (not_first id r u))
    | inr f ↦
        (let l =
            measure≤total (child id) s.records j s.next_nodeid
              (below s.records s.next_nodeid j q h.unborn p) in
          let one_kid : only q.parent id ≤ 0 =
            omega (arith, l, ap (child id j) p, child-parent id j q f, no_kids) in
          not_only q.parent id one_kid)
  ]
    where
      parent_1 : (a b : ℕ) → a ≡ 1 → (b == 1) ≡ false → (a == b) ≡ false
      parent_1 a b x y = ground arith

      not_only : (a b : ℕ) → only a b ≤ 0 → (a == b) ≡ false
      not_only a b x = ground arith

  without-IsCounted : IsCounted (long_child r.parent) without
  unfolding without
  without-IsCounted = record {
    rooted =
        (let (root, a, n, b) = h.rooted in
          (root, put_other id 1 none s.records (flip id (not_first id r u)) ∙ a, n, b));
    numbered = h.numbered;
    unborn = λ j l. gone j (h.unborn j l);
    unopened = h.unopened;
    counts = λ j q p.
        (let (x, p') = put-none id j s.records q p in
          let (c, o, there) = h.counts j q p' in
          (
            omega (arith, c, kids-without j),
            o,
            ap is_present (put_other id q.parent none s.records (other_parent j q p')) ∙ there,
          ));
    nodes = λ fh o p.
        ap is_present (put_other id o.node none s.records (other_node fh o p)) ∙ h.nodes fh o p;
  }
    where
      flip : (a : ℕ) → (a == 1) ≡ false → (1 == a) ≡ false
      flip a x = ground arith

      gone : (j : ℕ) → s.records j ≡ none → put id none s.records j ≡ none
      gone j p = elim (Bool-cases (j == id)) [
        | inl q ↦ ap (put id none s.records) (same_ids j id q) ∙ put_same id none s.records
        | inr q ↦ put_other id j none s.records q ∙ p
      ]

      other_node : (fh : ℕ) (o : HandleRecord) → s.handles fh ≡ some o → (o.node == id) ≡ false
      other_node fh o p =
          let l =
            measure≤total (held id) s.handles fh s.next_handle
              (below s.handles s.next_handle fh o h.unopened p) in
          let one_open : held id fh (some o) ≤ 0 = omega (arith, l, ap (held id fh) p, no_opens) in
          not_held o.node one_open
        where
          not_held : (a : ℕ) → (if a == id then 1 else 0) ≤ 0 → (a == id) ≡ false
          not_held a x = ground arith

  pub delete_record-IsBalanced : IsBalanced (delete_record id r s)
  unfolding without
  delete_record-IsBalanced = drop_child-IsBalanced without r.parent without-IsCounted

pub if-IsBalanced :
    (b : Bool) (x y : FsState)
    → (b ≡ true → IsBalanced x)
    → IsBalanced y
    → IsBalanced (if b then x else y)
if-IsBalanced true x y p q = p refl
if-IsBalanced false x y p q = q

collect_loop-IsBalanced :
    (fuel id : ℕ) (s : FsState) → IsBalanced s → IsBalanced (collect_loop fuel id s)
unfolding collect_loop
collect_loop-IsBalanced zero id s h = h
collect_loop-IsBalanced (suc fuel) id s h = elim (Option-cases (s.records id)) [
  | inl e ↦ rw (e, collect_loop) h
  | inr (r, e) ↦
      rw (e, collect_loop)
        (if-IsBalanced (is_unused id r) _ _
          (λ u.
            collect_loop-IsBalanced fuel r.parent (delete_record id r s)
              (delete_record-IsBalanced s id r h e u))
          h)
]

pub collect_record-IsBalanced :
    (id : ℕ) (s : FsState) → IsBalanced s → IsBalanced (collect_record id s)
unfolding collect_record
collect_record-IsBalanced id s h = collect_loop-IsBalanced s.next_nodeid id s h

pub forget-IsBalanced : (id count : ℕ) (s : FsState) → IsBalanced s → IsBalanced (forget id count s)
unfolding forget
forget-IsBalanced id count s h =
    collect_record-IsBalanced id (assign id (drop_lookups count) s)
      (set_lookups-IsBalanced s id (drop_lookups count) (λ r. (refl, refl)) (λ r. (refl, refl)) h)

module _ (s : FsState) (fh : ℕ) (o : HandleRecord) (h : IsBalanced s)
    (e : s.handles fh ≡ some o) where
  without_handle : FsState
  without_handle = record s { handles = put fh none s.handles }

  opens-without_handle : (id : ℕ) → opens id without_handle + only o.node id ≡ opens id s
  unfolding without_handle
  opens-without_handle id = omega (
    arith,
    total-put (held id) none s.handles fh s.next_handle
        (below s.handles s.next_handle fh o h.unopened e),
    ap (held id fh) e,
    flip o.node id,
  )
    where
      flip : (a b : ℕ) → (if a == b then 1 else 0) ≡ only a b
      flip a b = ground arith

  without_handle-IsCounted : IsCounted (long_open o.node) without_handle
  unfolding without_handle
  without_handle-IsCounted = record {
    rooted = h.rooted;
    numbered = h.numbered;
    unborn = h.unborn;
    unopened = λ other l. gone other (h.unopened other l);
    counts = λ id r p.
        (let (c, k, there) = h.counts id r p in
          (c, omega (arith, k, opens-without_handle id), there));
    nodes = λ other q p. h.nodes other q (put-none fh other s.handles q p).1;
  }
    where
      gone : (j : ℕ) → s.handles j ≡ none → put fh none s.handles j ≡ none
      gone j p = elim (Bool-cases (j == fh)) [
        | inl q ↦ ap (put fh none s.handles) (same_ids j fh q) ∙ put_same fh none s.handles
        | inr q ↦ put_other fh j none s.handles q ∙ p
      ]

  pub drop_handle-IsBalanced :
      IsBalanced (assign o.node drop_open (record s { handles = put fh none s.handles }))
  unfolding without_handle
  drop_handle-IsBalanced = drop_open-IsBalanced without_handle o.node without_handle-IsCounted

  pub remove_handle-IsBalanced : IsBalanced (remove_handle fh o s)
  unfolding remove_handle
  remove_handle-IsBalanced = collect_record-IsBalanced o.node _ drop_handle-IsBalanced
