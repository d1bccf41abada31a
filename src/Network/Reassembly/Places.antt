-- ===== src/Network/Reassembly/Places.antt =====
-- packages/linux-guest/src/network.ts, `reassemble_ip`: what the searches through an entry's
-- fragments find.
use distro.Common.{
  ℕ, ◌≤◌, ◌<◌, ◌≡◌, ◌≢◌, refl, ap, sym, ◌∙◌, Bool, true, false, ◌&&◌, ◌||◌, List, [], ◌∷◌, ◌++◌,
  Option, none, some, ltb, leb, ◌==◌, length, arith, Bool-cases, inl, inr, ==_iff,
}
use distro.Network.Reassembly.{
  IpFragment, end_of, split_at_insertion, overlaps_next, overlaps_previous, duplicate_of,
  same_bytes, reaches,
}

-- In order, apart and not empty, from `lo` on.
abbrev pub Ordered : ℕ → List IpFragment → Type 0
Ordered lo [] = Unit
Ordered lo (c ∷ cs) = (lo ≤ c.offset) × (0 < length c.payload) × Ordered (end_of c) cs

-- A fragment among others.
abbrev pub Held : IpFragment → List IpFragment → Type 0
Held c fs = (before : List IpFragment) × (after : List IpFragment) × (fs ≡ before ++ c ∷ after)

Held-cons : (d c : IpFragment) (fs : List IpFragment) → Held c fs → Held c (d ∷ fs)
Held-cons d c fs (before, after, e) = (d ∷ before, after, ap (λ r. d ∷ r) e)

-- A fragment held that shares a place with `p` and is another one.
abbrev pub Clashes : IpFragment → List IpFragment → Type 0
Clashes p fs =
    (c : IpFragment) × Held c fs × (c.offset < end_of p) × (p.offset < end_of c) × (c ≢ p)

pub split_at_insertion-append :
    (offset : ℕ) (fs : List IpFragment)
    → fs ≡ (split_at_insertion offset fs).0 ++ (split_at_insertion offset fs).1
unfolding split_at_insertion
split_at_insertion-append offset [] = refl
split_at_insertion-append offset (c ∷ cs) = elim (Bool-cases (ltb offset (end_of c))) [
  | inl e ↦ rw e refl
  | inr e ↦ rw e (ap (λ r. c ∷ r) (split_at_insertion-append offset cs))
]

same_bytes_refl : (xs : List ℕ) → same_bytes xs xs ≡ true
unfolding same_bytes
same_bytes_refl [] = refl
same_bytes_refl (x ∷ xs) =
    let e : (x == x) ≡ true = (==_iff x x).1 refl in rw (e, same_bytes_refl xs) refl

same_bytes_equal : (xs ys : List ℕ) → same_bytes xs ys ≡ true → xs ≡ ys
unfolding same_bytes
same_bytes_equal [] [] e = refl
same_bytes_equal [] (y ∷ ys) e = cc
same_bytes_equal (x ∷ xs) [] e = cc
same_bytes_equal (x ∷ xs) (y ∷ ys) e =
    let (p, q) = both (x == y) (same_bytes xs ys) e in
    let head : x ≡ y = (==_iff x y).0 p in let tail : xs ≡ ys = same_bytes_equal xs ys q in cc
  where
    both : (a b : Bool) → (a && b) ≡ true → (a ≡ true) × (b ≡ true)
    both a b e = (ground arith, ground arith)

-- Whether the fragment found at the same place has the same bytes.
abbrev pub is_same : IpFragment → Option IpFragment → Bool
is_same p none = false
is_same p (some c) = same_bytes c.payload p.payload

abbrev same_place : IpFragment → IpFragment → Bool
same_place c p = c.offset == p.offset && length c.payload == length p.payload

pub is_same-Held :
    (p : IpFragment) (fs : List IpFragment) → is_same p (duplicate_of p fs) ≡ true → Held p fs
unfolding duplicate_of
is_same-Held p [] e = absurd (let no : ⊥ = cc in no)
is_same-Held p (c ∷ cs) e = elim (Bool-cases (same_place c p)) [
  | inl h ↦
      let bytes : c.payload ≡ p.payload = same_bytes_equal c.payload p.payload (rw h at e) in
      let place : c.offset ≡ p.offset = at_place h in
      let same : c ≡ p = same_record c p place bytes in ([], cs, ap (λ x. x ∷ cs) same)
  | inr h ↦ Held-cons c p cs (is_same-Held p cs (rw h at e))
]
  where
    at_place : same_place c p ≡ true → c.offset ≡ p.offset
    at_place h = ground arith

    same_record : (c p : IpFragment) → c.offset ≡ p.offset → c.payload ≡ p.payload → c ≡ p
    same_record c p a b i = record { offset = a i; payload = b i }

same_found : (p : IpFragment) (cs : List IpFragment) → is_same p (duplicate_of p (p ∷ cs)) ≡ true
unfolding duplicate_of
same_found p cs =
    let place : (p.offset == p.offset) ≡ true = (==_iff p.offset p.offset).1 refl in
    let size : (length p.payload == length p.payload) ≡ true =
      (==_iff (length p.payload) (length p.payload)).1 refl in
    rw (place, size) (same_bytes_refl p.payload)

-- The first fragment that ends behind the piece clashes with it, where it begins before its end and
-- is not the same.
pub overlaps_next-Clashes :
    (p : IpFragment) (lo : ℕ) (fs : List IpFragment)
    → Ordered lo fs
    → overlaps_next (end_of p) (split_at_insertion p.offset fs).1 ≡ true
    → is_same p (duplicate_of p fs) ≡ false
    → Clashes p fs
unfolding split_at_insertion overlaps_next duplicate_of
overlaps_next-Clashes p lo [] o n d = absurd (let no : ⊥ = cc in no)
overlaps_next-Clashes p lo (c ∷ cs) (l, s, o) n d = elim (Bool-cases (ltb p.offset (end_of c))) [
  | inl e ↦
      let m : ltb c.offset (end_of p) ≡ true = rw e at n in
      (c, ([], cs, refl), ground arith, ground arith, λ same. other same)
  | inr e ↦
      let skip : same_place c p ≡ false = ground arith in
      let (x, held, before_end, behind, differs) =
        overlaps_next-Clashes p (end_of c) cs o (rw e at n) (rw skip at d) in
      (x, Held-cons c x cs held, before_end, behind, differs)
]
  where
    other : c ≢ p
    other same = let no : true ≡ false = sym (same_found p cs) ∙ (rw same at d) in cc

pub overlaps_previous-split :
    (offset : ℕ) (fs : List IpFragment)
    → overlaps_previous offset (split_at_insertion offset fs).0 ≡ false
unfolding split_at_insertion
overlaps_previous-split offset [] = unfold overlaps_previous in refl
overlaps_previous-split offset (c ∷ cs) = elim (Bool-cases (ltb offset (end_of c))) [
  | inl e ↦ rw e (unfold overlaps_previous in refl)
  | inr e ↦ rw e (before c _ e (overlaps_previous-split offset cs))
]
  where
    before :
        (c : IpFragment) (cs : List IpFragment)
        → ltb offset (end_of c) ≡ false
        → overlaps_previous offset cs ≡ false
        → overlaps_previous offset (c ∷ cs) ≡ false
    before c [] e h = unfold overlaps_previous in e
    before c (d ∷ cs) e h = unfold overlaps_previous in h

-- A fragment from `end` on, where the piece that ends there is not counted.
pub reaches-Held :
    (p : IpFragment) (before after : List IpFragment)
    → 0 < length p.payload
    → reaches (end_of p) (before ++ p ∷ after) ≡ true
    → (c : IpFragment) × Held c (before ++ after) × (end_of p ≤ c.offset)
unfolding reaches
reaches-Held p [] after s e = later after (skipped (leb (end_of p) p.offset) _ (ground arith) e)
  where
    skipped : (a b : Bool) → a ≡ false → (a || b) ≡ true → b ≡ true
    skipped a b n e = ground arith

    later :
        (fs : List IpFragment)
        → reaches (end_of p) fs ≡ true
        → (c : IpFragment) × Held c fs × (end_of p ≤ c.offset)
    later [] e = absurd (let no : ⊥ = cc in no)
    later (c ∷ cs) e = elim (Bool-cases (leb (end_of p) c.offset)) [
      | inl h ↦ (c, ([], cs, refl), ground arith)
      | inr h ↦ let (x, held, l) = later cs (rw h at e) in (x, Held-cons c x cs held, l)
    ]
reaches-Held p (b ∷ before) after s e = elim (Bool-cases (leb (end_of p) b.offset)) [
  | inl h ↦ (b, ([], before ++ after, refl), ground arith)
  | inr h ↦
      let (x, held, l) = reaches-Held p before after s (rw h at e) in
      (x, Held-cons b x (before ++ after) held, l)
]
