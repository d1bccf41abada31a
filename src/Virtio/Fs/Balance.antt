-- ===== src/Virtio/Fs/Balance.antt =====
-- packages/kernel/src/virtio/fs.ts: the counts of the records agree with the table.
use distro.Common.{
  ℕ, ◌+◌, ◌≤◌, ◌≡◌, ◌⊎◌, refl, sym, ap, ◌∙◌, Bool, true, false, not, ◌&&◌, Option, none, some, ◌==◌,
  if◌then◌else◌, arith, Bool-cases, inl, inr,
}
use distro.Virtio.Fs.{NodeRecord, HandleRecord, FsState, option_map, assign}
use distro.Virtio.Fs.Counting.{total, total_kept, put_same, put_other}

abbrev pub is_present {ℓ} : {A : Type ℓ} → Option A → Bool
is_present none = false
is_present (some r) = true

-- Whether a record is a child of a node; the root is no child.
abbrev pub child : ℕ → ℕ → Option NodeRecord → ℕ
child parent id none = 0
child parent id (some r) = if (r.parent == parent) && not (id == 1) then 1 else 0

abbrev pub kids : ℕ → FsState → ℕ
kids parent s = total (child parent) s.records s.next_nodeid

abbrev pub held : ℕ → ℕ → Option HandleRecord → ℕ
held id fh none = 0
held id fh (some h) = if h.node == id then 1 else 0

abbrev pub opens : ℕ → FsState → ℕ
opens id s = total (held id) s.handles s.next_handle

-- What the two counts are off by, at each id: too small by the first, too large by the second.
pub record Debts : Type 0 where
  pub missing_children : ℕ → ℕ
  pub extra_children : ℕ → ℕ
  pub missing_handles : ℕ → ℕ
  pub extra_handles : ℕ → ℕ

abbrev pub nothing : ℕ → ℕ
nothing id = 0

abbrev pub only : ℕ → ℕ → ℕ
only key id = if id == key then 1 else 0

abbrev pub settled : Debts
settled = record {
  missing_children = nothing;
  extra_children = nothing;
  missing_handles = nothing;
  extra_handles = nothing;
}

-- The root is there; ids and handles are below the next ones; a record counts its children and its
-- handles, but for the debts; and the parent of a record, and the node of a handle, are there.
pub record IsCounted (d : Debts) (s : FsState) : Type 0 where
  pub rooted : (r : NodeRecord) × (s.records 1 ≡ some r) × (r.node ≡ 0) × (r.parent ≡ 1)
  pub numbered : 2 ≤ s.next_nodeid
  pub unborn : (id : ℕ) → s.next_nodeid ≤ id → s.records id ≡ none
  pub unopened : (fh : ℕ) → s.next_handle ≤ fh → s.handles fh ≡ none
  pub counts :
      (id : ℕ) (r : NodeRecord)
      → s.records id ≡ some r
      → (r.children + d.missing_children id ≡ kids id s + d.extra_children id)
        × (r.handles + d.missing_handles id ≡ opens id s + d.extra_handles id)
        × (is_present (s.records r.parent) ≡ true)
  pub nodes :
      (fh : ℕ) (h : HandleRecord) → s.handles fh ≡ some h → is_present (s.records h.node) ≡ true

abbrev pub IsBalanced : FsState → Type 0
IsBalanced s = IsCounted settled s

pub some-injective : {A : Type 0} (a b : A) → some a ≡ some b → a ≡ b
some-injective a b e = cc

-- Assignments to the counts of a record.
option_map-some :
    (f : NodeRecord → NodeRecord) (o : Option NodeRecord) (r' : NodeRecord)
    → option_map f o ≡ some r'
    → (r : NodeRecord) × (o ≡ some r) × (r' ≡ f r)
option_map-some f none r' e = absurd (let no : ⊥ = cc in no)
option_map-some f (some r) r' e = (r, refl, sym (some-injective (f r) r' e))

option_map-present :
    (f : NodeRecord → NodeRecord) (o : Option NodeRecord)
    → is_present (option_map f o) ≡ is_present o
option_map-present f none = refl
option_map-present f (some r) = refl

pub same_ids : (id key : ℕ) → (id == key) ≡ true → id ≡ key
same_ids id key e = ground arith

-- The record at an id is the assigned one, or as before.
abbrev pub Assigned : FsState → ℕ → (NodeRecord → NodeRecord) → ℕ → NodeRecord → NodeRecord → Type 0
Assigned s key f id r' r =
    (s.records id ≡ some r) × (((id ≡ key) × (r' ≡ f r)) ⊎ (((id == key) ≡ false) × (r' ≡ r)))

module _ (s : FsState) (key : ℕ) (f : NodeRecord → NodeRecord) where
  here : (id : ℕ) → id ≡ key → (assign key f s).records id ≡ option_map f (s.records id)
  here id q =
      ap (assign key f s).records q
      ∙ (put_same key (option_map f (s.records key)) s.records
          ∙ ap (λ k. option_map f (s.records k)) (sym q))

  pub assign-some :
      (id : ℕ) (r' : NodeRecord)
      → (assign key f s).records id ≡ some r'
      → (r : NodeRecord) × Assigned s key f id r' r
  assign-some id r' e = elim (Bool-cases (id == key)) [
    | inl q ↦
        (let same = same_ids id key q in
          let (r, p, w) = option_map-some f (s.records id) r' (sym (here id same) ∙ e) in
          (r, (p, inl (same, w))))
    | inr q ↦
        (r', (sym (put_other key id (option_map f (s.records key)) s.records q) ∙ e, inr (q, refl)))
  ]

  pub assign-present :
      (id : ℕ) → is_present ((assign key f s).records id) ≡ is_present (s.records id)
  assign-present id = elim (Bool-cases (id == key)) [
    | inl q ↦ ap is_present (here id (same_ids id key q)) ∙ option_map-present f (s.records id)
    | inr q ↦ ap is_present (put_other key id (option_map f (s.records key)) s.records q)
  ]

-- An assignment that keeps the parent: what it changes in the counts is a change of the debts.
module _ (d d' : Debts) (s : FsState) (key : ℕ) (f : NodeRecord → NodeRecord) where
  child-option_map :
      ((r : NodeRecord) → (f r).parent ≡ r.parent)
      → (parent id : ℕ) (o : Option NodeRecord)
      → child parent id (option_map f o) ≡ child parent id o
  child-option_map p parent id none = refl
  child-option_map p parent id (some r) = rw (p r) refl

  kids-assign :
      ((r : NodeRecord) → (f r).parent ≡ r.parent)
      → (parent : ℕ) → kids parent (assign key f s) ≡ kids parent s
  kids-assign p parent =
      total_kept (child parent) (option_map f (s.records key)) s.records key s.next_nodeid
        (child-option_map p parent key (s.records key))

  pub assign-IsCounted :
      ((r : NodeRecord) → ((f r).parent ≡ r.parent) × ((f r).node ≡ r.node))
      → ((r : NodeRecord)
          → s.records key ≡ some r
          → ((f r).children + d'.missing_children key + d.extra_children key
              ≡ r.children + d.missing_children key + d'.extra_children key)
            × ((f r).handles + d'.missing_handles key + d.extra_handles key
                ≡ r.handles + d.missing_handles key + d'.extra_handles key))
      → ((id : ℕ)
          → (id == key) ≡ false
          → (d'.missing_children id + d.extra_children id
              ≡ d.missing_children id + d'.extra_children id)
            × (d'.missing_handles id + d.extra_handles id
                ≡ d.missing_handles id + d'.extra_handles id))
      → IsCounted d s
      → IsCounted d' (assign key f s)
  assign-IsCounted keeps hit miss h = record {
    rooted = root_kept;
    numbered = h.numbered;
    unborn = λ id l. none_kept id (h.unborn id l);
    unopened = h.unopened;
    counts = λ id r' e. count_kept id r' (assign-some s key f id r' e);
    nodes = λ fh o e. assign-present s key f o.node ∙ h.nodes fh o e;
  }
    where
      none_kept : (id : ℕ) → s.records id ≡ none → (assign key f s).records id ≡ none
      none_kept id e = elim (Bool-cases (id == key)) [
        | inl q ↦ here s key f id (same_ids id key q) ∙ ap (option_map f) e
        | inr q ↦ put_other key id (option_map f (s.records key)) s.records q ∙ e
      ]

      root_kept :
          (r : NodeRecord) × ((assign key f s).records 1 ≡ some r) × (r.node ≡ 0) × (r.parent ≡ 1)
      root_kept =
          let (r, e, n, p) = h.rooted in
          elim (Bool-cases (1 == key)) [
            | inl q ↦ (
              f r,
              here s key f 1 (same_ids 1 key q) ∙ ap (option_map f) e,
              (keeps r).1 ∙ n,
              (keeps r).0 ∙ p,
            )
            | inr q ↦ (r, put_other key 1 (option_map f (s.records key)) s.records q ∙ e, n, p)
          ]

      count_kept :
          (id : ℕ) (r' : NodeRecord)
          → (r : NodeRecord) × Assigned s key f id r' r
          → (r'.children + d'.missing_children id ≡ kids id (assign key f s) + d'.extra_children id)
            × (r'.handles + d'.missing_handles id ≡ opens id s + d'.extra_handles id)
            × (is_present ((assign key f s).records r'.parent) ≡ true)
      count_kept id r' (r, (e, inl (q, w))) =
          let (c, o, p) = h.counts id r e in
          let (cs, os) = hit r (ap s.records (sym q) ∙ e) in
          let k = kids-assign (λ x. (keeps x).0) id in
          (
            omega (
              arith,
              k,
              c,
              cs,
              ap (λ x. x.children) w,
              ap d.missing_children q,
              ap d.extra_children q,
              ap d'.missing_children q,
              ap d'.extra_children q,
            ),
            omega (
              arith,
              o,
              os,
              ap (λ x. x.handles) w,
              ap d.missing_handles q,
              ap d.extra_handles q,
              ap d'.missing_handles q,
              ap d'.extra_handles q,
            ),
            ap (λ i. is_present ((assign key f s).records i)) (ap (λ x. x.parent) w ∙ (keeps r).0)
                ∙ (assign-present s key f r.parent ∙ p),
          )
      count_kept id r' (r, (e, inr (q, w))) =
          let (c, o, p) = h.counts id r e in
          let (cs, os) = miss id q in
          let k = kids-assign (λ x. (keeps x).0) id in
          (
            omega (arith, k, c, cs, ap (λ x. x.children) w),
            omega (arith, o, os, ap (λ x. x.handles) w),
            ap (λ i. is_present ((assign key f s).records i)) (ap (λ x. x.parent) w)
                ∙ (assign-present s key f r.parent ∙ p),
          )
