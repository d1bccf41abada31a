-- ===== src/Guest/Examples.antt =====
-- packages/linux-guest/src: the session and the decoders at concrete inputs.
use distro.Common.{
  List, ok, ◌++◌, ℕ, zero, suc, ◌+◌, ◌≡◌, ◌≤◌, refl, ap, [], ◌∷◌, ◌++◌, none, some, true, false,
  All, inl, throw, replicate, ltb, if_true, arith,
}
use mathlib.Core.Path.{subst}
use distro.Guest.Session.{acquire, acquire_from, pop_last}
use distro.Guest.Session.Steps.{
  Pool, Reachable, at_first, after_step, starts, Step, start, start_with,
}
use distro.Guest.Session.Pooling.{IsPooled, Reachable-IsPooled}
use distro.Guest.Session.Stranding.{IsStranded, fail_lanes-IsStranded}
use distro.Guest.Status.{named, command_status, killed, sigkill, command_status-wait_status}
use distro.Guest.Dirents.{DirectoryEntry, parse_dirents, malformed_record}
use distro.Guest.Dirents.Records.{
  DirentRecord, IsDirent, write_dirents, Listed, parse_dirents-write_dirents,
  parse_dirents-malformed,
}

-- So many calls of `exchange`, of which none is connected.
abbrev opening : ℕ → Pool
opening n = record {
  session = record { dead = none; free = []; lane_count = n; waiters = [] };
  held = [];
  opening = n;
  next_lane = 0;
}

opening-suc : (n : ℕ) → suc n ≤ 64 → start 0 (opening n) ≡ opening (suc n)
unfolding start_with acquire acquire_from pop_last
opening-suc n l =
    let grown : n + 1 ≡ suc n = omega arith in
    rw (if_true (ltb n 64) _ _ (ground arith)) (
      ap (λ k. record (opening (suc n)) { session = record (opening 0).session { lane_count = k } })
        grown)

opening-Reachable : (n : ℕ) → n ≤ 64 → Reachable (opening n)
opening-Reachable zero l = at_first
opening-Reachable (suc n) l =
    after_step (opening n) (opening (suc n)) (opening-Reachable n (omega arith))
      (subst (λ p. Step (opening n) p) (opening-suc n l) (starts (opening n) 0))

-- The 65th call waits, while the others are being connected.
abbrev full : Pool
full = record (opening 64) { session = record (opening 64).session { waiters = 7 ∷ [] } }

full-Reachable : Reachable full
unfolding start_with acquire acquire_from pop_last
full-Reachable =
    after_step (opening 64) full (opening-Reachable 64 (omega arith)) (starts (opening 64) 7)

Reachable-IsPooled_example : IsPooled full
Reachable-IsPooled_example = Reachable-IsPooled full full-Reachable

fail_lanes-IsStranded_example : (q : Pool) × Reachable q × IsStranded (7 ∷ []) q
fail_lanes-IsStranded_example = fail_lanes-IsStranded full full-Reachable refl refl (omega arith)

-- Killed with a core dumped.
command_status-wait_status_example :
    command_status 137 ≡ record { success = false; code = 0; signal = named sigkill }
command_status-wait_status_example = command_status-wait_status (killed sigkill true) tt

-- "." and "a.b".
abbrev dot : DirentRecord
dot = record {
  d_ino = 2;
  d_off = 1;
  d_type = 4;
  name_bytes = 46 ∷ [];
  text = 46 ∷ [];
  padding = 0 ∷ 0 ∷ 0 ∷ [];
}

abbrev file : DirentRecord
file = record {
  d_ino = 3;
  d_off = 2;
  d_type = 8;
  name_bytes = 97 ∷ 46 ∷ 98 ∷ [];
  text = 97 ∷ 46 ∷ 98 ∷ [];
  padding = 0 ∷ [];
}

two_records-IsDirent : All (IsDirent some) (dot ∷ file ∷ [])
two_records-IsDirent = (
  record {
    fits = omega arith;
    byte = omega arith;
    without_nul = (omega arith, tt);
    decodes = refl;
  },
  (
    record {
      fits = omega arith;
      byte = omega arith;
      without_nul = (omega arith, (omega arith, (omega arith, tt)));
      decodes = refl;
    },
    tt,
  ),
)

parse_dirents-write_dirents_example :
    (entries : List DirectoryEntry) × Listed (dot ∷ file ∷ []) entries
    × (parse_dirents some (write_dirents (dot ∷ file ∷ []) ++ 0 ∷ []) ≡ ok (entries ++ []))
unfolding distro.Guest.Dirents.parse_dirents_loop parse_dirents
parse_dirents-write_dirents_example =
    parse_dirents-write_dirents some (dot ∷ file ∷ []) (0 ∷ []) [] two_records-IsDirent refl

-- A record that claims 18 bytes.
parse_dirents-malformed_example :
    parse_dirents some (write_dirents (dot ∷ file ∷ []) ++ (replicate 16 0 ++ (18 ∷ 0 ∷ 8 ∷ [])))
    ≡ throw malformed_record
unfolding distro.Guest.Dirents.read_dirent distro.Bytes.Ints.decode distro.Bytes.Ints.of_low_bytes
parse_dirents-malformed_example =
    parse_dirents-malformed some (dot ∷ file ∷ []) (replicate 16 0 ++ (18 ∷ 0 ∷ 8 ∷ []))
      two_records-IsDirent (omega arith) (inl (omega arith))
