-- ===== src/Virtio/Fs/Effects.antt =====
-- packages/kernel/src/virtio/fs.ts: what each kind of request does keeps the table in order.
use distro.Common.{
  ℕ, zero, suc, ◌+◌, ◌≤◌, ◌≡◌, ◌≢◌, refl, sym, ap, ◌∙◌, Bool, true, false, List, [], ◌∷◌, Option,
  none, some, ◌==◌, if◌then◌else◌, arith, Bool-cases, inl, inr, if_true, if_false, Option-cases,
}
use distro.Virtio.Fs.{
  NodeRecord, HandleRecord, FsState, FsError, FsRequest, lookup, forget_node, batch_forget,
  make_node, open_node, create, rename, release, readdir, destroy, new_state, root, node_record,
  header_node, node_found, ebadf, handle_record, handle_found, is_right, required, serve, process,
  looked_up, forget, forget_all, keep_known, add_handle, moved_from, moved_record, collect_record,
  remove_handle, remove_found, list_nodes, record_for_node, collect_all, finalize, finalize_loop,
  by_node, is_node, move_record, notify, state_after, is_unused,
}
use distro.Virtio.Fs.Balance.{is_present, kids, IsBalanced, some-injective, same_ids}
use distro.Virtio.Fs.Growth.{record_for_node-IsAdded, record_for_node-keeps}
use distro.Virtio.Fs.Collection.{
  collect_record-IsBalanced, forget-IsBalanced, remove_handle-IsBalanced,
}
use distro.Virtio.Fs.Moving.{move_record-IsBalanced}
use distro.Virtio.Fs.Leaks.{IsUsed}
use distro.Virtio.Fs.Tidy.{remove_handle-IsUsed, move_record-IsUsed}

no_kids : (id : ℕ) → kids id new_state ≡ 0
unfolding distro.Virtio.Fs.Counting.total
no_kids id = ground arith

new_state-IsBalanced : IsBalanced new_state
unfolding distro.Virtio.Fs.Counting.total
new_state-IsBalanced = record {
  rooted = (root, refl, refl, refl);
  numbered = omega arith;
  unborn = λ id l. above id l;
  unopened = λ fh l. refl;
  counts = λ id r e. only_root id r e;
  nodes = λ fh o e. (let no : ⊥ = cc in absurd no);
}
  where
    above : (id : ℕ) → 2 ≤ id → (if id == 1 then some root else none) ≡ none
    above id l = if_false (id == 1) (some root) none (ground arith)

    only_root :
        (id : ℕ) (r : NodeRecord)
        → (if id == 1 then some root else none) ≡ some r
        → (r.children + 0 ≡ kids id new_state + 0)
          × (r.handles + 0 ≡ 0 + 0)
          × (is_present (new_state.records r.parent) ≡ true)
    only_root id r e = elim (Bool-cases (id == 1)) [
      | inl q ↦
          (let w = some-injective root r (sym (if_true (id == 1) (some root) none q) ∙ e) in
            (
              omega (arith, no_kids id, ap (λ x. x.children) w),
              omega (arith, ap (λ x. x.handles) w),
              ap (λ x. is_present (new_state.records x.parent)) (sym w),
            ))
      | inr q ↦
          (let e' : none ≡ some r = sym (if_false (id == 1) (some root) none q) ∙ e in
            let no : ⊥ = cc in absurd no)
    ]

-- The counts are right, and no record but the root's is unused.
abbrev pub IsTidy : FsState → Type 0
IsTidy s = IsBalanced s × IsUsed s

pub new_state-IsTidy : IsTidy new_state
new_state-IsTidy = (new_state-IsBalanced, record { law = λ id r e. inl (only_first id r e) })
  where
    only_first :
        (id : ℕ) (r : NodeRecord)
        → (if id == 1 then some root else none) ≡ some r
        → is_unused id r ≡ false
    only_first id r e = elim (Bool-cases (id == 1)) [
      | inl q ↦ ground arith
      | inr q ↦
          (let e' : none ≡ some r = sym (if_false (id == 1) (some root) none q) ∙ e in
            let no : ⊥ = cc in absurd no)
    ]

if-IsTidy : (b : Bool) (x y : FsState) → IsTidy x → IsTidy y → IsTidy (if b then x else y)
if-IsTidy true x y p q = p
if-IsTidy false x y p q = q

pub forget_all-IsBalanced :
    (entries : List (ℕ × ℕ)) (s : FsState) → IsBalanced s → IsBalanced (forget_all entries s)
forget_all-IsBalanced [] s h = h
forget_all-IsBalanced (entry ∷ entries) s h =
    forget_all-IsBalanced entries (forget entry.0 entry.1 s) (forget-IsBalanced entry.0 entry.1 s h)

pub list_nodes-IsBalanced :
    (nodes : List ℕ) (parent : ℕ) (s : FsState)
    → is_present (s.records parent) ≡ true
    → IsBalanced s
    → IsBalanced (list_nodes nodes parent s).0
list_nodes-IsBalanced [] parent s p h = h
list_nodes-IsBalanced (node ∷ nodes) parent s p h =
    list_nodes-IsBalanced nodes parent (record_for_node node parent s).0
      (record_for_node-keeps s node parent parent p) (record_for_node-IsAdded s node parent h p).0

pub collect_all-IsBalanced :
    (ids : List ℕ) (s : FsState) → IsBalanced s → IsBalanced (collect_all ids s)
collect_all-IsBalanced [] s h = h
collect_all-IsBalanced (id ∷ ids) s h =
    collect_all-IsBalanced ids (collect_record id s) (collect_record-IsBalanced id s h)

remove_found-IsTidy :
    (fh : ℕ) (o : Option HandleRecord) (s : FsState)
    → s.handles fh ≡ o
    → IsTidy s
    → IsTidy (remove_found fh o s)
remove_found-IsTidy fh none s e h = h
remove_found-IsTidy fh (some o) s e (b, u) =
    (remove_handle-IsBalanced s fh o b e, remove_handle-IsUsed s fh o b e u)

finalize_loop-IsTidy : (n : ℕ) (s : FsState) → IsTidy s → IsTidy (finalize_loop n s)
finalize_loop-IsTidy zero s h = h
finalize_loop-IsTidy (suc n) s h =
    let rest = finalize_loop n s in
    remove_found-IsTidy n (rest.handles n) rest refl (finalize_loop-IsTidy n s h)

pub finalize-IsTidy : (s : FsState) → IsTidy s → IsTidy (finalize s)
unfolding finalize
finalize-IsTidy s (b, u) =
    if-IsTidy s.finalized s _ (b, u)
      (finalize_loop-IsTidy s.next_handle (record s { finalized = true })
        (
          record {
            rooted = b.rooted;
            numbered = b.numbered;
            unborn = b.unborn;
            unopened = b.unopened;
            counts = b.counts;
            nodes = b.nodes;
          },
          record { law = u.law },
        ))

-- A node that is not the root's has another id than the root.
pub by_node-first :
    (n moved id : ℕ) (s : FsState)
    → by_node n moved s ≡ some id
    → is_node moved (s.records id) ≡ true
unfolding by_node
by_node-first zero moved id s e = absurd (let no : ⊥ = cc in no)
by_node-first (suc n) moved id s e = elim (Bool-cases (is_node moved (s.records n))) [
  | inl q ↦
      (let chosen =
          sym (if_true (is_node moved (s.records n)) (some n) (by_node n moved s) q) ∙ e in
        ap (λ k. is_node moved (s.records k)) (sym (id_of n id chosen)) ∙ q)
  | inr q ↦
      (by_node-first n moved id s
        (sym (if_false (is_node moved (s.records n)) (some n) (by_node n moved s) q) ∙ e))
]
  where
    id_of : (a b : ℕ) → ◌≡◌ {A = Option ℕ} (some a) (some b) → a ≡ b
    id_of a b e = cc

-- Which node a record has that is not the root's.
not_root :
    (s : FsState) (moved id : ℕ)
    → IsBalanced s
    → moved ≢ 0
    → is_node moved (s.records id) ≡ true
    → (id == 1) ≡ false
not_root s moved id h m e = elim (Bool-cases (id == 1)) [
  | inl q ↦
      (let (r, a, n, p) = h.rooted in
        let found : is_node moved (some r) ≡ true =
          ap (is_node moved) (sym (ap s.records (same_ids id 1 q) ∙ a)) ∙ e in
        let same : r.node ≡ moved = same_ids r.node moved found in absurd (m (sym same ∙ n)))
  | inr q ↦ q
]

pub moved_from-IsTidy :
    (s : FsState) (parent moved : ℕ) (found : Option ℕ)
    → IsTidy s
    → moved ≢ 0
    → ((id : ℕ) → found ≡ some id → is_node moved (s.records id) ≡ true)
    → is_present (s.records parent) ≡ true
    → IsTidy (moved_from found parent s)
unfolding moved_from
moved_from-IsTidy s parent moved none h m f known = h
moved_from-IsTidy s parent moved (some id) (b, u) m f known = elim (Option-cases (s.records id)) [
  | inl e ↦ rw (e, moved_from) (b, u)
  | inr (r, e) ↦
      (let other = not_root s moved id b m (f id refl) in
        rw (e, moved_from)
          (if-IsTidy (r.parent == parent) s _ (b, u)
            (
              move_record-IsBalanced s id parent r b e other known,
              move_record-IsUsed s id parent r b e other known u,
            )))
]
