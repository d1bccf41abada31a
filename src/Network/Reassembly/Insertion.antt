-- ===== src/Network/Reassembly/Insertion.antt =====
-- packages/linux-guest/src/network.ts, `reassemble_ip`: what a fragment makes of its entry.
use distro.Common.{
  ℕ, ◌+◌, ◌≤◌, ◌<◌, ◌≡◌, refl, ap, sym, ◌∙◌, Bool, true, false, List, ◌∷◌, ◌++◌, Option, none, some,
  ltb, ◌==◌, if◌then◌else◌, ◌||◌, length, arith, Bool-cases, ◌≢◌, inl, inr, replicate, ==_iff, not,
  ◌⊎◌, ◌&&◌,
}
use distro.Network.Reassembly.Places.{
  Ordered, Held, Clashes, split_at_insertion-append, is_same, is_same-Held, overlaps_next-Clashes,
  overlaps_previous-split, reaches-Held,
}
use distro.Network.Reassembly.Payloads.{
  joined, insert-Ordered, whole_payload, contiguous_lem, length-insert,
}
use mathlib.Core.Path.{subst}
use distro.Network.Packet.{ParsedIpFragment}
use distro.Network.Reassembly.{
  IpFragment, IpReassembly, end_of, piece_of, max_ip_fragments, split_at_insertion, overlaps_next,
  overlaps_previous, contiguous, write_fragments, Effect, discarded, kept, completed, try_complete,
  fix_total, insert_fragment, add_fragment, reaches, differs, misfits, overlaps, is_duplicate,
  duplicate_of, same_bytes, below,
}

pub record IsSound (r : IpReassembly) : Type 0 where
  pub ordered : Ordered 0 r.fragments
  pub few : length r.fragments ≤ max_ip_fragments

-- The total length that is known once a fragment is in place.
abbrev pub total_with : ParsedIpFragment → IpReassembly → Option ℕ
total_with f r = if f.more_fragments then r.total_length else some (end_of (piece_of f))

-- `r'` is `r` with the fragment's piece among the others.
pub record IsInserted (f : ParsedIpFragment) (r r' : IpReassembly) : Type 0 where
  pub before : List IpFragment
  pub after : List IpFragment
  pub held : r.fragments ≡ before ++ after
  pub now : r'.fragments ≡ before ++ piece_of f ∷ after
  pub total : r'.total_length ≡ total_with f r

-- Why a fragment and its entry are given up.
pub data Conflict (f : ParsedIpFragment) (r : IpReassembly) : Type 0 where
  too_long : f.offset ≡ 0 → 0xffff < end_of (piece_of f) + f.header_length → Conflict f r
  behind_total :
      (total : ℕ) → r.total_length ≡ some total → total < end_of (piece_of f) → Conflict f r
  clashing : Clashes (piece_of f) r.fragments → Conflict f r
  full : length r.fragments ≡ max_ip_fragments → Conflict f r
  other_total :
      (total : ℕ)
      → f.more_fragments ≡ false
      → r.total_length ≡ some total
      → total ≢ end_of (piece_of f)
      → Conflict f r
  held_behind :
      (c : IpFragment)
      → f.more_fragments ≡ false
      → Held c r.fragments
      → end_of (piece_of f) ≤ c.offset
      → Conflict f r

-- What a fragment makes of its entry: nothing, on a conflict; a sound entry, which is the same where
-- it holds the fragment already and otherwise has the piece inserted; or the payload, of the total
-- length, that the fragments with the piece inserted make up, in order and without a gap.
abbrev pub Lands : ParsedIpFragment → IpReassembly → Effect → Type 0
Lands f r discarded = Conflict f r
Lands f r (kept r') = IsSound r' × (((r' ≡ r) × Held (piece_of f) r.fragments) ⊎ IsInserted f r r')
Lands f r (completed payload) =
    (r' : IpReassembly) × IsInserted f r r'
    × Ordered 0 r'.fragments
    × (contiguous 0 r'.fragments ≡ some (length payload))
    × (payload ≡ joined r'.fragments)
    × (r'.total_length ≡ some (length payload))

-- The same, as a record, whose index the checker reads off a goal.
record Landed (f : ParsedIpFragment) (r : IpReassembly) (e : Effect) : Type 0 where
  landing : Lands f r e

if-Landed :
    (f : ParsedIpFragment) (r : IpReassembly) (b : Bool) (x y : Effect)
    → (b ≡ true → Landed f r x)
    → (b ≡ false → Landed f r y)
    → Landed f r (if b then x else y)
if-Landed f r true x y p q = p refl
if-Landed f r false x y p q = q refl

try_complete-Landed :
    (f : ParsedIpFragment) (r q : IpReassembly)
    → IsSound q
    → IsInserted f r q
    → Landed f r (try_complete q)
unfolding try_complete
try_complete-Landed f r q v i = from_total q.total_length refl
  where
    still : Landed f r (kept q)
    still = record { landing = (v, inr i) }

    from_length :
        (total : ℕ) (n : Option ℕ)
        → q.total_length ≡ some total
        → contiguous 0 q.fragments ≡ n
        → Landed f r (elim n [
          | none ↦ kept q
          | some len ↦
              if len == total
              then completed (write_fragments (replicate len 0) q.fragments)
              else kept q
        ])
    from_length total none t g = still
    from_length total (some len) t g =
        let w = whole_payload q.fragments len g in
        let size : length (write_fragments (replicate len 0) q.fragments) ≡ len =
          omega (arith, contiguous_lem 0 len q.fragments g, ap length w) in
        if-Landed f r (len == total) (completed (write_fragments (replicate len 0) q.fragments))
          (kept q)
          (λ e. record {
            landing = (
              q,
              i,
              v.ordered,
              g ∙ ap some (sym size),
              w,
              t ∙ ap some (sym ((==_iff len total).0 e) ∙ sym size),
            );
          })
          (λ _. still)

    from_total :
        (t : Option ℕ)
        → q.total_length ≡ t
        → Landed f r (elim t [
          | none ↦ kept q
          | some total ↦ elim (contiguous 0 q.fragments) [
            | none ↦ kept q
            | some len ↦
                if len == total
                then completed (write_fragments (replicate len 0) q.fragments)
                else kept q
          ]
        ])
    from_total none t = still
    from_total (some total) t = from_length total (contiguous 0 q.fragments) t refl

-- The entry with the piece put between two lists of fragments.
abbrev put_between :
    ParsedIpFragment → IpReassembly → List IpFragment → List IpFragment → IpReassembly
put_between f r before after = record r { fragments = before ++ piece_of f ∷ after }

differs-Conflict :
    (f : ParsedIpFragment) (r : IpReassembly) (total : Option ℕ)
    → f.more_fragments ≡ false
    → r.total_length ≡ total
    → differs total (end_of (piece_of f)) ≡ true
    → Conflict f r
unfolding differs
differs-Conflict f r none m e d = absurd (let no : ⊥ = cc in no)
differs-Conflict f r (some total) m e d =
    other_total total m e (unequal total (end_of (piece_of f)) d)
  where
    unequal : (a b : ℕ) → not (a == b) ≡ true → a ≢ b
    unequal a b d = ground arith

fix_total-Landed :
    (f : ParsedIpFragment) (r : IpReassembly) (before after : List IpFragment) (more : Bool)
    → f.more_fragments ≡ more
    → 0 < length f.packet.payload
    → r.fragments ≡ before ++ after
    → IsSound (put_between f r before after)
    → Landed f r (fix_total more (end_of (piece_of f)) (put_between f r before after))
unfolding fix_total
fix_total-Landed f r before after true m p e v =
    try_complete-Landed f r (put_between f r before after) v
      (record { before = before; after = after; held = e; now = refl; total = rw m refl })
fix_total-Landed f r before after false m p e v =
    let end = end_of (piece_of f) in
    let q = put_between f r before after in
    let closed : IpReassembly = record q { total_length = some end } in
    if-Landed f r (differs r.total_length end) discarded
      (if reaches end q.fragments then discarded else try_complete closed)
      (λ d. record { landing = differs-Conflict f r r.total_length m refl d })
      (λ _.
        if-Landed f r (reaches end q.fragments) discarded (try_complete closed)
          (λ d.
            let (c, held, l) = reaches-Held (piece_of f) before after p d in
            record { landing = held_behind c m (subst (λ fs. Held c fs) (sym e) held) l })
          (λ _.
            try_complete-Landed f r closed (record { ordered = v.ordered; few = v.few })
              (record { before = before; after = after; held = e; now = refl; total = rw m refl })))

insert_fragment-Landed :
    (f : ParsedIpFragment) (r : IpReassembly)
    → 0 < length f.packet.payload
    → IsSound r
    → overlaps_next (end_of (piece_of f)) (split_at_insertion f.offset r.fragments).1 ≡ false
    → Landed f r (insert_fragment f r)
unfolding insert_fragment
insert_fragment-Landed f r p v n =
    let split = split_at_insertion f.offset r.fragments in
    if-Landed f r (length r.fragments == max_ip_fragments) discarded _
      (λ e. record { landing = full ((==_iff (length r.fragments) max_ip_fragments).0 e) })
      (λ e.
        fix_total-Landed f r split.0 split.1 f.more_fragments refl p
          (split_at_insertion-append f.offset r.fragments)
          (record {
            ordered = insert-Ordered 0 (piece_of f) r.fragments (omega arith) p v.ordered n;
            few =
                omega
                  (arith, length-insert (piece_of f) r.fragments, v.few, ne (length r.fragments) e);
          }))
  where
    ne : (k : ℕ) → (k == max_ip_fragments) ≡ false → k ≢ max_ip_fragments
    ne k e = ground arith

misfits-Conflict :
    (f : ParsedIpFragment) (r : IpReassembly) (total : Option ℕ)
    → r.total_length ≡ total
    → ((f.offset == 0 && ltb 0xffff (end_of (piece_of f) + f.header_length))
        || below total (end_of (piece_of f)))
      ≡ true
    → Conflict f r
unfolding below
misfits-Conflict f r total e m =
    elim (Bool-cases (f.offset == 0 && ltb 0xffff (end_of (piece_of f) + f.header_length))) [
      | inl h ↦ too_long (at_start h) (over h)
      | inr h ↦ behind total e (rw h at m)
    ]
  where
    at_start :
        (f.offset == 0 && ltb 0xffff (end_of (piece_of f) + f.header_length)) ≡ true → f.offset ≡ 0
    at_start h = ground arith

    over :
        (f.offset == 0 && ltb 0xffff (end_of (piece_of f) + f.header_length)) ≡ true
        → 0xffff < end_of (piece_of f) + f.header_length
    over h = ground arith

    behind :
        (t : Option ℕ) → r.total_length ≡ t → below t (end_of (piece_of f)) ≡ true → Conflict f r
    behind none e b = absurd (let no : ⊥ = cc in no)
    behind (some t) e b = behind_total t e (ground arith)

is_duplicate-is_same :
    (f : ParsedIpFragment) (r : IpReassembly)
    → is_duplicate f r ≡ is_same (piece_of f) (duplicate_of (piece_of f) r.fragments)
unfolding is_duplicate
is_duplicate-is_same f r = by_found (duplicate_of (piece_of f) r.fragments)
  where
    by_found :
        (o : Option IpFragment)
        → (elim o [ none ↦ false | some c ↦ same_bytes c.payload f.packet.payload ])
          ≡ is_same (piece_of f) o
    by_found none = refl
    by_found (some c) = refl

-- A fragment with a payload, on a sound entry. The entry is given up only on a conflict: the packet
-- would be too long, the fragment ends behind the known total length, another fragment held has a
-- place in common with it, 64 are held, or it is the last one and the total length or a fragment
-- held contradicts it. Else the entry stays sound, unchanged where it holds the same fragment already
-- and otherwise with the fragment inserted, the total length being fixed by a last fragment; or the
-- payload is completed, of the total length: the join of the fragments held and the new one, which are
-- in order, do not overlap and leave no gap.
pub add_fragment-Lands :
    (f : ParsedIpFragment) (r : IpReassembly)
    → 0 < length f.packet.payload
    → IsSound r
    → Lands f r (add_fragment f r)
unfolding add_fragment overlaps misfits
add_fragment-Lands f r p v = landed.landing
  where
    either : (a b : Bool) → a ≡ false → (a || b) ≡ true → b ≡ true
    either a b n e = ground arith

    right_of : (a b : Bool) → (a || b) ≡ false → b ≡ false
    right_of a b e = ground arith

    landed : Landed f r (add_fragment f r)
    landed =
        if-Landed f r (misfits f r) discarded
          (if overlaps f r
            then (if is_duplicate f r then kept r else discarded)
            else insert_fragment f r)
          (λ m. record { landing = misfits-Conflict f r r.total_length refl m })
          (λ _.
            if-Landed f r (overlaps f r) (if is_duplicate f r then kept r else discarded)
              (insert_fragment f r)
              (λ o.
                if-Landed f r (is_duplicate f r) (kept r) discarded
                  (λ d. record {
                    landing = (
                      v,
                      inl (
                        refl,
                        is_same-Held (piece_of f) r.fragments (sym (is_duplicate-is_same f r) ∙ d),
                      ),
                    );
                  })
                  (λ d. record {
                    landing = clashing (
                        overlaps_next-Clashes (piece_of f) 0 r.fragments v.ordered
                          (either
                            (overlaps_previous f.offset (split_at_insertion f.offset r.fragments).0)
                            (overlaps_next (end_of (piece_of f))
                              (split_at_insertion f.offset r.fragments).1)
                            (overlaps_previous-split f.offset r.fragments) o)
                          (sym (is_duplicate-is_same f r) ∙ d));
                  }))
              (λ e. insert_fragment-Landed f r p v (
                right_of (overlaps_previous f.offset (split_at_insertion f.offset r.fragments).0)
                  (overlaps_next (end_of (piece_of f)) (split_at_insertion f.offset r.fragments).1)
                  e)))
