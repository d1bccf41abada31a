-- ===== src/Virtio/Fs/Tidy.antt =====
-- packages/kernel/src/virtio/fs.ts: the operations leave no record unused.
use distro.Common.{
  ℕ, suc, ◌≡◌, ◌⊎◌, refl, sym, ◌∙◌, Bool, true, false, List, [], ◌∷◌, ◌++◌, Option, none, some,
  ◌==◌, arith, Bool-cases, inl, inr, append-nil,
}
use mathlib.Core.Path.{subst}
use distro.Virtio.Fs.{
  NodeRecord, HandleRecord, FsState, put, assign, fresh_record, is_unused, record_found,
  record_for_node, by_node, looked_up, add_handle, collect_record, collect_all, forget,
  remove_handle, list_nodes, move_record, add_child, add_lookup, add_open, drop_open, drop_child,
  drop_lookups, forget_all,
}
use distro.Virtio.Fs.Counting.{put_other}
use distro.Virtio.Fs.Balance.{is_present, IsBalanced, same_ids}
use distro.Virtio.Fs.Debts.{set_lookups-IsBalanced}
use distro.Virtio.Fs.Collection.{
  collect_record-IsBalanced, drop_handle-IsBalanced, forget-IsBalanced,
}
use distro.Virtio.Fs.Moving.{set_parent, moved_to, moved_to-IsBalanced}
use distro.Virtio.Fs.Leaks.{
  IsListed, IsUsedBut, IsUsed, assign-IsUsedBut, assign-keeps, assign-settles,
  collect_record-IsUsedBut,
}

-- A longer list excuses more.
IsUsedBut-more :
    (ids more : List ℕ) (s : FsState)
    → ((id : ℕ) → IsListed id ids → IsListed id more)
    → IsUsedBut ids s
    → IsUsedBut more s
IsUsedBut-more ids more s k h = record {
  law = λ id r e. elim (h.law id r e) [ inl u ↦ inl u | inr l ↦ inr (k id l) ];
}

used_child : (id : ℕ) (r : NodeRecord) → is_unused id (add_child r) ≡ false
used_child id r = ground arith

used_lookup : (id : ℕ) (r : NodeRecord) → is_unused id (add_lookup r) ≡ false
used_lookup id r = ground arith

used_open : (id : ℕ) (r : NodeRecord) → is_unused id (add_open r) ≡ false
used_open id r = ground arith

fresh-IsUsedBut :
    (s : FsState) (node parent : ℕ) (ids : List ℕ)
    → IsUsedBut ids s
    → IsUsedBut (s.next_nodeid ∷ ids) (record s {
      records = put s.next_nodeid (some (fresh_record node parent)) s.records;
      next_nodeid = suc s.next_nodeid;
    })
fresh-IsUsedBut s node parent ids h = record {
  law = λ id r e. by_id id r e (Bool-cases (id == s.next_nodeid));
}
  where
    by_id :
        (id : ℕ) (r : NodeRecord)
        → put s.next_nodeid (some (fresh_record node parent)) s.records id ≡ some r
        → ((id == s.next_nodeid) ≡ true) ⊎ ((id == s.next_nodeid) ≡ false)
        → (is_unused id r ≡ false) ⊎ IsListed id (s.next_nodeid ∷ ids)
    by_id id r e (inl q) = inr (inl (same_ids id s.next_nodeid q))
    by_id id r e (inr q) = elim (h.law id r (sym (put_other s.next_nodeid id _ s.records q) ∙ e)) [
      | inl u ↦ inl u
      | inr l ↦ inr (inr l)
    ]

-- The record of a node may be new, and unused.
record_for_node-IsUsedBut :
    (s : FsState) (node parent : ℕ) (ids : List ℕ)
    → IsUsedBut ids s
    → IsUsedBut ((record_for_node node parent s).1 ∷ ids) (record_for_node node parent s).0
unfolding record_for_node record_found
record_for_node-IsUsedBut s node parent ids h = by_found (by_node s.next_nodeid node s)
  where
    by_found :
        (found : Option ℕ)
        → IsUsedBut
            ((record_found found node parent s).1 ∷ ids)
            (record_found found node parent s).0
    by_found (some id) = IsUsedBut-more ids (id ∷ ids) s (λ other l. inr l) h
    by_found none =
        assign-keeps _ parent add_child (s.next_nodeid ∷ ids) (λ id r u. used_child id r)
          (fresh-IsUsedBut s node parent ids h)

pub looked_up-IsUsed :
    (s : FsState) (node parent : ℕ) → IsUsed s → IsUsed (looked_up node parent s).0
unfolding looked_up
looked_up-IsUsed s node parent h =
    let found = record_for_node node parent s in
    assign-settles found.0 found.1 add_lookup [] used_lookup
      (record_for_node-IsUsedBut s node parent [] h)

pub add_handle-IsUsed :
    (s : FsState) (id handle : ℕ) (directory : Bool)
    → IsUsed s
    → IsUsed (add_handle id handle directory s)
unfolding add_handle
add_handle-IsUsed s id handle directory h =
    assign-keeps _ id add_open [] (λ other r u. used_open other r) (record { law = h.law })

pub forget-IsUsed :
    (s : FsState) (id count : ℕ) → IsBalanced s → IsUsed s → IsUsed (forget id count s)
unfolding forget
forget-IsUsed s id count b h =
    collect_record-IsUsedBut id [] (assign id (drop_lookups count) s)
      (set_lookups-IsBalanced s id (drop_lookups count) (λ r. (refl, refl)) (λ r. (refl, refl)) b)
      (assign-IsUsedBut s id (drop_lookups count) [] h)

pub remove_handle-IsUsed :
    (s : FsState) (fh : ℕ) (o : HandleRecord)
    → IsBalanced s
    → s.handles fh ≡ some o
    → IsUsed s
    → IsUsed (remove_handle fh o s)
unfolding remove_handle
remove_handle-IsUsed s fh o b e h =
    collect_record-IsUsedBut o.node [] _ (drop_handle-IsBalanced s fh o b e)
      (assign-IsUsedBut _ o.node drop_open [] (record { law = h.law }))

pub move_record-IsUsed :
    (s : FsState) (id parent : ℕ) (r : NodeRecord)
    → IsBalanced s
    → s.records id ≡ some r
    → (id == 1) ≡ false
    → is_present (s.records parent) ≡ true
    → IsUsed s
    → IsUsed (move_record id parent r s)
move_record-IsUsed s id parent r b e other known h =
    let dropped = assign-IsUsedBut s r.parent drop_child [] h in
    let turned = assign-keeps _ id (set_parent parent) (r.parent ∷ []) (λ j q u. u) dropped in
    collect_record-IsUsedBut r.parent [] (moved_to id parent r s)
      (moved_to-IsBalanced s id parent r b e other known)
      (assign-keeps _ parent add_child (r.parent ∷ []) (λ j q u. used_child j q) turned)

-- The records of a directory's entries may be unused until they are collected.
IsListed-behind :
    (id first : ℕ) (rest ids : List ℕ)
    → IsListed id (rest ++ first ∷ ids)
    → IsListed id (first ∷ (rest ++ ids))
IsListed-behind id first [] ids l = l
IsListed-behind id first (other ∷ rest) ids (inl e) = inr (inl e)
IsListed-behind id first (other ∷ rest) ids (inr l) = elim (IsListed-behind id first rest ids l) [
  | inl e ↦ inl e
  | inr k ↦ inr (inr k)
]

list_nodes-IsUsedBut :
    (nodes : List ℕ) (parent : ℕ) (s : FsState) (ids : List ℕ)
    → IsUsedBut ids s
    → IsUsedBut ((list_nodes nodes parent s).1 ++ ids) (list_nodes nodes parent s).0
list_nodes-IsUsedBut [] parent s ids h = h
list_nodes-IsUsedBut (node ∷ nodes) parent s ids h =
    let first = record_for_node node parent s in
    let rest = list_nodes nodes parent first.0 in
    IsUsedBut-more (rest.1 ++ first.1 ∷ ids) (first.1 ∷ (rest.1 ++ ids)) rest.0
      (λ id l. IsListed-behind id first.1 rest.1 ids l)
      (list_nodes-IsUsedBut nodes parent first.0 (first.1 ∷ ids)
        (record_for_node-IsUsedBut s node parent ids h))

collect_all-IsUsed :
    (ids : List ℕ) (s : FsState) → IsBalanced s → IsUsedBut ids s → IsUsed (collect_all ids s)
collect_all-IsUsed [] s b h = h
collect_all-IsUsed (id ∷ ids) s b h =
    collect_all-IsUsed ids (collect_record id s) (collect_record-IsBalanced id s b)
      (collect_record-IsUsedBut id ids s b h)

pub list_nodes-IsUsed :
    (nodes : List ℕ) (parent : ℕ) (s : FsState)
    → IsBalanced (list_nodes nodes parent s).0
    → IsUsed s
    → IsUsed (collect_all (list_nodes nodes parent s).1 (list_nodes nodes parent s).0)
list_nodes-IsUsed nodes parent s b h =
    collect_all-IsUsed (list_nodes nodes parent s).1 (list_nodes nodes parent s).0 b (
      subst (λ ids. IsUsedBut ids (list_nodes nodes parent s).0)
        (append-nil (list_nodes nodes parent s).1) (list_nodes-IsUsedBut nodes parent s [] h))

pub forget_all-IsUsed :
    (entries : List (ℕ × ℕ)) (s : FsState) → IsBalanced s → IsUsed s → IsUsed (forget_all entries s)
forget_all-IsUsed [] s b h = h
forget_all-IsUsed (entry ∷ entries) s b h =
    forget_all-IsUsed entries (forget entry.0 entry.1 s) (forget-IsBalanced entry.0 entry.1 s b)
      (forget-IsUsed s entry.0 entry.1 b h)
