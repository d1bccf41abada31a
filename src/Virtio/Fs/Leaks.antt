-- ===== src/Virtio/Fs/Leaks.antt =====
-- packages/kernel/src/virtio/fs.ts: no record is kept that the guest has no more use for.
use distro.Common.{
  ℕ, zero, suc, ◌+◌, ◌≤◌, ◌≡◌, ◌≢◌, ◌⊎◌, refl, sym, ap, ◌∙◌, Bool, true, false, List, [], ◌∷◌,
  Option, none, some, ◌==◌, if◌then◌else◌, arith, inl, inr, Option-cases,
}
use distro.Virtio.Fs.{
  NodeRecord, FsState, put, assign, option_map, drop_child, is_unused, delete_record, collect_loop,
  collect_record,
}
use distro.Virtio.Fs.Counting.{total, total-put, total_kept, measure≤total}
use distro.Virtio.Fs.Balance.{IsBalanced, assign-some, Assigned, some-injective}
use distro.Virtio.Fs.Collection.{below, put-none, delete_record-IsBalanced}

abbrev pub IsListed : ℕ → List ℕ → Type 0
IsListed id [] = ⊥
IsListed id (other ∷ ids) = (id ≡ other) ⊎ IsListed id ids

-- Every record but the root has a lookup, an open handle or a child, except perhaps those listed.
pub record IsUsedBut (ids : List ℕ) (s : FsState) : Type 0 where
  pub law :
      (id : ℕ) (r : NodeRecord) → s.records id ≡ some r → (is_unused id r ≡ false) ⊎ IsListed id ids

abbrev pub IsUsed : FsState → Type 0
IsUsed s = IsUsedBut [] s

-- How many records there are.
abbrev present : ℕ → Option NodeRecord → ℕ
present id none = 0
present id (some r) = 1

abbrev population : FsState → ℕ
population s = total present s.records s.next_nodeid

population-bound : (m : ℕ → Option NodeRecord) (n : ℕ) → total present m n ≤ n
unfolding total
population-bound m zero = omega arith
population-bound m (suc n) = omega (arith, population-bound m n, one_most (m n))
  where
    one_most : (o : Option NodeRecord) → present n o ≤ 1
    one_most none = omega arith
    one_most (some r) = omega arith

-- An assignment that makes no record unused, but perhaps the assigned one.
pub assign-IsUsedBut :
    (s : FsState) (key : ℕ) (f : NodeRecord → NodeRecord) (ids : List ℕ)
    → IsUsedBut ids s
    → IsUsedBut (key ∷ ids) (assign key f s)
assign-IsUsedBut s key f ids h = record {
  law = λ id r' e. by_record id r' (assign-some s key f id r' e);
}
  where
    by_record :
        (id : ℕ) (r' : NodeRecord)
        → (r : NodeRecord) × Assigned s key f id r' r
        → (is_unused id r' ≡ false) ⊎ IsListed id (key ∷ ids)
    by_record id r' (r, (e, inl (q, w))) = inr (inl q)
    by_record id r' (r, (e, inr (q, w))) = elim (h.law id r e) [
      | inl u ↦ inl (ap (is_unused id) w ∙ u)
      | inr l ↦ inr (inr l)
    ]

-- One that keeps a record used.
pub assign-keeps :
    (s : FsState) (key : ℕ) (f : NodeRecord → NodeRecord) (ids : List ℕ)
    → ((id : ℕ) (r : NodeRecord) → is_unused id r ≡ false → is_unused id (f r) ≡ false)
    → IsUsedBut ids s
    → IsUsedBut ids (assign key f s)
assign-keeps s key f ids k h = record {
  law = λ id r' e. by_record id r' (assign-some s key f id r' e);
}
  where
    by_record :
        (id : ℕ) (r' : NodeRecord)
        → (r : NodeRecord) × Assigned s key f id r' r
        → (is_unused id r' ≡ false) ⊎ IsListed id ids
    by_record id r' (r, (e, inl (q, w))) = elim (h.law id r e) [
      | inl u ↦ inl (ap (is_unused id) w ∙ k id r u)
      | inr l ↦ inr l
    ]
    by_record id r' (r, (e, inr (q, w))) = elim (h.law id r e) [
      | inl u ↦ inl (ap (is_unused id) w ∙ u)
      | inr l ↦ inr l
    ]

-- One that makes the assigned record used.
pub assign-settles :
    (s : FsState) (key : ℕ) (f : NodeRecord → NodeRecord) (ids : List ℕ)
    → ((id : ℕ) (r : NodeRecord) → is_unused id (f r) ≡ false)
    → IsUsedBut (key ∷ ids) s
    → IsUsedBut ids (assign key f s)
assign-settles s key f ids k h = record {
  law = λ id r' e. by_record id r' (assign-some s key f id r' e);
}
  where
    by_record :
        (id : ℕ) (r' : NodeRecord)
        → (r : NodeRecord) × Assigned s key f id r' r
        → (is_unused id r' ≡ false) ⊎ IsListed id ids
    by_record id r' (r, (e, inl (q, w))) = inl (ap (is_unused id) w ∙ k id r)
    by_record id r' (r, (e, inr (q, w))) = elim (h.law id r e) [
      | inl u ↦ inl (ap (is_unused id) w ∙ u)
      | inr (inl same) ↦ absurd (apart id key q same)
      | inr (inr l) ↦ inr l
    ]
      where
        apart : (a b : ℕ) → (a == b) ≡ false → a ≢ b
        apart a b x y = ground arith

-- A record that is used is off the list.
used_off :
    (s : FsState) (key : ℕ) (ids : List ℕ)
    → ((r : NodeRecord) → s.records key ≡ some r → is_unused key r ≡ false)
    → IsUsedBut (key ∷ ids) s
    → IsUsedBut ids s
used_off s key ids k h = record { law = λ id r e. by_list id r e (h.law id r e) }
  where
    by_list :
        (id : ℕ) (r : NodeRecord)
        → s.records id ≡ some r
        → (is_unused id r ≡ false) ⊎ IsListed id (key ∷ ids)
        → (is_unused id r ≡ false) ⊎ IsListed id ids
    by_list id r e (inl u) = inl u
    by_list id r e (inr (inl same)) =
        inl (ap (λ i. is_unused i r) same ∙ k r (ap s.records (sym same) ∙ e))
    by_list id r e (inr (inr l)) = inr l

delete-IsUsedBut :
    (s : FsState) (id : ℕ) (r : NodeRecord) (ids : List ℕ)
    → IsUsedBut (id ∷ ids) s
    → IsUsedBut (r.parent ∷ ids) (delete_record id r s)
delete-IsUsedBut s id r ids h =
    assign-IsUsedBut (record s { records = put id none s.records }) r.parent drop_child ids
      (record { law = λ j q e. kept j q (put-none id j s.records q e) })
  where
    kept :
        (j : ℕ) (q : NodeRecord)
        → ((j == id) ≡ false) × (s.records j ≡ some q)
        → (is_unused j q ≡ false) ⊎ IsListed j ids
    kept j q (apart, e) = elim (h.law j q e) [
      | inl u ↦ inl u
      | inr (inl same) ↦ absurd (differs j id apart same)
      | inr (inr l) ↦ inr l
    ]
      where
        differs : (a b : ℕ) → (a == b) ≡ false → a ≢ b
        differs a b x y = ground arith

population-assign :
    (s : FsState) (key : ℕ) (f : NodeRecord → NodeRecord)
    → population (assign key f s) ≡ population s
population-assign s key f = total_kept present _ s.records key s.next_nodeid (same (s.records key))
  where
    same : (o : Option NodeRecord) → present key (option_map f o) ≡ present key o
    same none = refl
    same (some r) = refl

population-delete :
    (s : FsState) (id : ℕ) (r : NodeRecord)
    → IsBalanced s
    → s.records id ≡ some r
    → population (delete_record id r s) + 1 ≡ population s
population-delete s id r h e = omega (
  arith,
  population-assign (record s { records = put id none s.records }) r.parent drop_child,
  total-put present none s.records id s.next_nodeid (below s.records s.next_nodeid id r h.unborn e),
  ap (present id) e,
)

pub if-IsUsedBut :
    (ids : List ℕ) (b : Bool) (x y : FsState)
    → (b ≡ true → IsUsedBut ids x)
    → (b ≡ false → IsUsedBut ids y)
    → IsUsedBut ids (if b then x else y)
if-IsUsedBut ids true x y p q = p refl
if-IsUsedBut ids false x y p q = q refl

-- With a round for each record there is, the loop ends with no record unused that was not before.
collect_loop-IsUsedBut :
    (fuel id : ℕ) (ids : List ℕ) (s : FsState)
    → population s ≤ fuel
    → IsBalanced s
    → IsUsedBut (id ∷ ids) s
    → IsUsedBut ids (collect_loop fuel id s)
unfolding collect_loop
collect_loop-IsUsedBut zero id ids s l b h =
    used_off s id ids
      (λ r e.
        (let one =
            measure≤total present s.records id s.next_nodeid
              (below s.records s.next_nodeid id r b.unborn e) in
          absurd (omega (arith, one, ap (present id) e))))
      h
collect_loop-IsUsedBut (suc fuel) id ids s l b h = elim (Option-cases (s.records id)) [
  | inl e ↦ rw (e, collect_loop) (used_off s id ids (λ r f. (let no : ⊥ = cc in absurd no)) h)
  | inr (r, e) ↦
      rw (e, collect_loop)
        (if-IsUsedBut ids (is_unused id r) _ _
          (λ u.
            collect_loop-IsUsedBut fuel r.parent ids (delete_record id r s)
              (omega (arith, population-delete s id r b e)) (delete_record-IsBalanced s id r b e u)
              (delete-IsUsedBut s id r ids h))
          (λ u.
            used_off s id ids (λ r' f. ap (is_unused id) (some-injective r' r (sym f ∙ e)) ∙ u) h))
]

pub collect_record-IsUsedBut :
    (id : ℕ) (ids : List ℕ) (s : FsState)
    → IsBalanced s
    → IsUsedBut (id ∷ ids) s
    → IsUsedBut ids (collect_record id s)
unfolding collect_record
collect_record-IsUsedBut id ids s b h =
    collect_loop-IsUsedBut s.next_nodeid id ids s (population-bound s.records s.next_nodeid) b h
