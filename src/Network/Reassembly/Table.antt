-- ===== src/Network/Reassembly/Table.antt =====
-- packages/linux-guest/src/network.ts: the table of reassemblies stays small and sound.
use distro.Common.{
  ℕ, ◌≤◌, ◌<◌, ◌≡◌, refl, false, not, ◌&&◌, [], ◌∷◌, ◌++◌, Option, none, some, ◌==◌, if◌then◌else◌,
  length, All, arith, Bool-cases, inl, inr, length-append, All-append,
}
use mathlib.Core.Path.{subst}
use distro.Network.Packet.{ParsedIpFragment}
use distro.Network.Reassembly.{
  ReassemblyKey, IpReassembly, Reassemblies, same_key, ip_reassembly_key, max_ip_reassemblies,
  lookup, discard_ip_reassembly, update, drop_oldest, fresh_reassembly, find_or_create, settle,
  reassemble_ip, Effect, discarded, kept, completed,
}
use distro.Network.Reassembly.Insertion.{IsSound, Lands, add_fragment-Lands}

-- Every entry is sound, and there are at most 64.
pub record IsTable (m : Reassemblies) : Type 0 where
  pub sound : All (λ e. IsSound (e.1)) m
  pub few : length m ≤ max_ip_reassemblies

abbrev AllSound : Reassemblies → Type 0
AllSound m = All (λ e. IsSound (e.1)) m

discard_sound :
    (key : ReassemblyKey) (m : Reassemblies) → AllSound m → AllSound (discard_ip_reassembly key m)
unfolding discard_ip_reassembly
discard_sound key [] v = v
discard_sound key ((k, r) ∷ m) (s, v) = elim (Bool-cases (same_key k key)) [
  | inl e ↦ rw e (discard_sound key m v)
  | inr e ↦ rw e (s, discard_sound key m v)
]

discard_few :
    (key : ReassemblyKey) (m : Reassemblies) → length (discard_ip_reassembly key m) ≤ length m
unfolding discard_ip_reassembly
discard_few key [] = omega arith
discard_few key ((k, r) ∷ m) = elim (Bool-cases (same_key k key)) [
  | inl e ↦ rw e (omega (arith, discard_few key m))
  | inr e ↦ rw e (omega (arith, discard_few key m))
]

-- The timer's event, and every other discard.
pub discard-IsTable :
    (key : ReassemblyKey) (m : Reassemblies) → IsTable m → IsTable (discard_ip_reassembly key m)
discard-IsTable key m v = record {
  sound = discard_sound key m v.sound;
  few = omega (arith, discard_few key m, v.few);
}

update_sound :
    (key : ReassemblyKey) (r : IpReassembly) (m : Reassemblies)
    → IsSound r
    → AllSound m
    → AllSound (update key r m)
unfolding update
update_sound key r [] s v = v
update_sound key r ((k, q) ∷ m) s (t, v) = elim (Bool-cases (same_key k key)) [
  | inl e ↦ rw e (s, update_sound key r m s v)
  | inr e ↦ rw e (t, update_sound key r m s v)
]

length-update :
    (key : ReassemblyKey) (r : IpReassembly) (m : Reassemblies) → length (update key r m) ≡ length m
unfolding update
length-update key r [] = refl
length-update key r ((k, q) ∷ m) = omega (arith, length-update key r m)

lookup-IsSound :
    (key : ReassemblyKey) (m : Reassemblies) (r : IpReassembly)
    → AllSound m
    → lookup key m ≡ some r
    → IsSound r
unfolding lookup
lookup-IsSound key [] r v e = cc
lookup-IsSound key ((k, q) ∷ m) r (s, v) e = elim (Bool-cases (same_key k key)) [
  | inl t ↦
      (let h : some q ≡ some r = rw t at e in
        let same : q ≡ r = cc in subst (λ x. IsSound x) same s)
  | inr t ↦ lookup-IsSound key m r v (rw t at e)
]

room : Reassemblies → Reassemblies
unfolding drop_oldest
room m = if length m == max_ip_reassemblies then drop_oldest m else m

below_limit : (n : ℕ) → n ≤ 64 → (n == 64) ≡ false → n < 64
below_limit n h e = ground arith

room-IsTable : (m : Reassemblies) → IsTable m → AllSound (room m) × (length (room m) < 64)
unfolding room
room-IsTable [] v = (tt, omega arith)
room-IsTable (x ∷ m) v = elim (Bool-cases (length (x ∷ m) == max_ip_reassemblies)) [
  | inl e ↦ rw e (v.sound.1, omega (arith, v.few))
  | inr e ↦ rw e (v.sound, below_limit _ v.few e)
]

-- What `find_or_create` hands on.
record IsFound (p : Reassemblies × IpReassembly) : Type 0 where
  table : IsTable p.0
  entry : IsSound p.1

find_or_create-IsFound :
    (f : ParsedIpFragment) (m : Reassemblies) → IsTable m → IsFound (find_or_create f m)
unfolding find_or_create fresh_reassembly room
find_or_create-IsFound f m v = from_entry (lookup (ip_reassembly_key f) m) refl
  where
    fresh : IsSound (fresh_reassembly f)
    fresh = record { ordered = tt; few = omega arith }

    from_entry :
        (o : Option IpReassembly)
        → lookup (ip_reassembly_key f) m ≡ o
        → IsFound (elim o [
          | some r ↦ (m, r)
          | none ↦ (room m ++ (ip_reassembly_key f, fresh_reassembly f) ∷ [], fresh_reassembly f)
        ])
    from_entry (some r) e = record { table = v; entry = lookup-IsSound _ m r v.sound e }
    from_entry none e =
        let (s, l) = room-IsTable m v in
        record {
          table = record {
            sound = All-append (λ x. IsSound (x.1)) (room m) _ s (fresh, tt);
            few =
                omega
                  (arith, length-append (room m) ((ip_reassembly_key f, fresh_reassembly f) ∷ []));
          };
          entry = fresh;
        }

settle-IsTable :
    (f : ParsedIpFragment) (key : ReassemblyKey) (r : IpReassembly) (e : Effect) (m : Reassemblies)
    → IsTable m
    → Lands f r e
    → IsTable (settle key r e m).0
unfolding settle
settle-IsTable f key r discarded m v l = discard-IsTable key m v
settle-IsTable f key r (kept r') m v l = record {
  sound = update_sound key r' m l.0 v.sound;
  few = omega (arith, length-update key r' m, v.few);
}
settle-IsTable f key r (completed payload) m v l = discard-IsTable key m v

-- Every fragment with a payload leaves the table sound and with at most 64 entries, whatever it
-- does: start an entry, drop the oldest, extend, complete or discard one.
pub reassemble_ip-IsTable :
    (f : ParsedIpFragment) (m : Reassemblies)
    → 0 < length f.packet.payload
    → IsTable m
    → IsTable (reassemble_ip f m).0
unfolding reassemble_ip
reassemble_ip-IsTable f m p v = elim (Bool-cases (f.offset == 0 && not f.more_fragments)) [
  | inl e ↦ rw e (discard-IsTable (ip_reassembly_key f) m v)
  | inr e ↦ rw e (
      let found = find_or_create-IsFound f m v in
      settle-IsTable f (ip_reassembly_key f) _ _ _ found.table
        (add_fragment-Lands f (find_or_create f m).1 p found.entry))
]
