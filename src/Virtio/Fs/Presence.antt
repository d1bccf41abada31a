-- ===== src/Virtio/Fs/Presence.antt =====
-- packages/kernel/src/virtio/fs.ts: a new record, and ids that have none.
use distro.Common.{
  ℕ, suc, ◌+◌, ◌≤◌, ◌≡◌, ◌≢◌, ◌⊎◌, refl, sym, ap, ◌∙◌, true, false, not, ◌&&◌, Option, none, some,
  ◌==◌, if◌then◌else◌, arith, Bool-cases, inl, inr,
}
use distro.Virtio.Fs.{NodeRecord, HandleRecord, FsState, put, fresh_record}
use distro.Virtio.Fs.Counting.{total, total_above, total-none, put_same, put_other}
use distro.Virtio.Fs.Balance.{
  is_present, child, kids, held, opens, only, IsCounted, IsBalanced, same_ids, some-injective,
}
use distro.Virtio.Fs.Debts.{short_child}

absent : {A : Type 0} (o : Option A) → is_present o ≡ true → o ≢ none
absent none e q = cc
absent (some r) e q = cc

-- An id that is not there has no children and no handles.
pub kids-absent : (s : FsState) (id : ℕ) → IsBalanced s → s.records id ≡ none → kids id s ≡ 0
kids-absent s id h e =
    total-none (child id) s.records s.next_nodeid (λ key. no_child key (s.records key) refl)
  where
    no_child : (key : ℕ) (o : Option NodeRecord) → s.records key ≡ o → child id key o ≡ 0
    no_child key none p = refl
    no_child key (some r) p = elim (Bool-cases (r.parent == id)) [
      | inl q ↦ absurd (
          absent (s.records r.parent) (h.counts key r p).2
            (ap s.records (same_ids r.parent id q) ∙ e))
      | inr q ↦ rw q refl
    ]

pub opens-absent : (s : FsState) (id : ℕ) → IsBalanced s → s.records id ≡ none → opens id s ≡ 0
opens-absent s id h e =
    total-none (held id) s.handles s.next_handle (λ fh. no_handle fh (s.handles fh) refl)
  where
    no_handle : (fh : ℕ) (o : Option HandleRecord) → s.handles fh ≡ o → held id fh o ≡ 0
    no_handle fh none p = refl
    no_handle fh (some o) p = elim (Bool-cases (o.node == id)) [
      | inl q ↦
          absurd
            (absent (s.records o.node) (h.nodes fh o p) (ap s.records (same_ids o.node id q) ∙ e))
      | inr q ↦ rw q refl
    ]

pub put-present :
    {A : Type 0} (key : ℕ) (value : A) (m : ℕ → Option A) (id : ℕ)
    → is_present (m id) ≡ true
    → is_present (put key (some value) m id) ≡ true
put-present key value m id e = elim (Bool-cases (id == key)) [
  | inl q ↦
      ap (λ k. is_present (put key (some value) m k)) (same_ids id key q)
      ∙ ap is_present (put_same key (some value) m)
  | inr q ↦ ap is_present (put_other key id (some value) m q) ∙ e
]

module _ (s : FsState) (node parent : ℕ) (h : IsBalanced s)
    (known : is_present (s.records parent) ≡ true) where
  unfoldable pub with_fresh : FsState
  with_fresh = record s {
    records = put s.next_nodeid (some (fresh_record node parent)) s.records;
    next_nodeid = suc s.next_nodeid;
  }

  no_next : s.records s.next_nodeid ≡ none
  no_next = h.unborn s.next_nodeid (omega arith)

  parent_before : (parent == s.next_nodeid) ≡ false
  parent_before = elim (Bool-cases (parent == s.next_nodeid)) [
    | inl q ↦
        absurd (
          absent (s.records parent) known
            (ap s.records (same_ids parent s.next_nodeid q) ∙ no_next))
    | inr q ↦ q
  ]

  child-fresh : (id : ℕ) → child id s.next_nodeid (some (fresh_record node parent)) ≡ only parent id
  child-fresh id =
      let later : not (s.next_nodeid == 1) ≡ true = later_than_1 s.next_nodeid h.numbered in
      rw later (flip parent id)
    where
      later_than_1 : (n : ℕ) → 2 ≤ n → not (n == 1) ≡ true
      later_than_1 n l = ground arith

      flip : (a b : ℕ) → (if (a == b) && true then 1 else 0) ≡ only a b
      flip a b = ground arith

  kids-fresh : (id : ℕ) → kids id with_fresh ≡ only parent id + kids id s
  unfolding total with_fresh
  kids-fresh id = omega (
    arith,
    ap (child id s.next_nodeid)
        (put_same s.next_nodeid (some (fresh_record node parent)) s.records),
    child-fresh id,
    total_above (child id) (some (fresh_record node parent)) s.records s.next_nodeid s.next_nodeid
        (omega arith),
  )

  pub with_fresh-IsCounted : IsCounted (short_child parent) with_fresh
  unfolding with_fresh
  with_fresh-IsCounted = record {
    rooted =
        (let (r, e, n, p) = h.rooted in
          (r, put_other s.next_nodeid 1 _ s.records (before s.next_nodeid h.numbered) ∙ e, n, p));
    numbered = omega (arith, h.numbered);
    unborn = λ id l.
        put_other s.next_nodeid id _ s.records (after id s.next_nodeid l)
        ∙ h.unborn id (omega arith);
    unopened = h.unopened;
    counts = λ id r e. by_id id r e (Bool-cases (id == s.next_nodeid));
    nodes = λ fh o e. put-present s.next_nodeid _ s.records o.node (h.nodes fh o e);
  }
    where
      before : (n : ℕ) → 2 ≤ n → (1 == n) ≡ false
      before n l = ground arith

      after : (id n : ℕ) → suc n ≤ id → (id == n) ≡ false
      after id n l = ground arith

      by_id :
          (id : ℕ) (r : NodeRecord)
          → with_fresh.records id ≡ some r
          → ((id == s.next_nodeid) ≡ true) ⊎ ((id == s.next_nodeid) ≡ false)
          → (r.children + only parent id ≡ kids id with_fresh + 0)
            × (r.handles + 0 ≡ opens id s + 0)
            × (is_present (with_fresh.records r.parent) ≡ true)
      by_id id r e (inl q) =
          let same = same_ids id s.next_nodeid q in
          let w : fresh_record node parent ≡ r =
            some-injective _ _
              (sym (ap with_fresh.records same ∙ put_same s.next_nodeid _ s.records) ∙ e) in
          let k0 = kids-absent s s.next_nodeid h no_next in
          let o0 = opens-absent s s.next_nodeid h no_next in
          (
            omega (arith, ap (λ x. x.children) w, kids-fresh id, ap (λ i. kids i s) same, k0),
            omega (arith, ap (λ x. x.handles) w, ap (λ i. opens i s) same, o0),
            ap (λ x. is_present (with_fresh.records x.parent)) (sym w)
                ∙ put-present s.next_nodeid _ s.records parent known,
          )
      by_id id r e (inr q) =
          let e' = sym (put_other s.next_nodeid id _ s.records q) ∙ e in
          let (c, o, p) = h.counts id r e' in
          (omega (arith, kids-fresh id, c), o, put-present s.next_nodeid _ s.records r.parent p)
