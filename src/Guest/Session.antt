-- ===== src/Guest/Session.antt =====
-- packages/linux-guest/src/conn.ts, the class GuestSession: a session with its pool of lanes. A lane
-- is the number of its connection. A promise is settled by an action, and what happens while one
-- is awaited is a step of its own.
pub mod Steps
pub mod Pooling
pub mod Stranding
use distro.Common.{
  ℕ, suc, ◌+◌, ◌-◌, Bool, true, false, List, [], ◌∷◌, ◌++◌, Option, none, some, ltb, ◌==◌,
  if◌then◌else◌, length, map, take, drop, not, ◌||◌,
}
use distro.Bytes.Ints.{uint16_le, uint32_le, decode, encode}

pub data GuestError : Type 0 where
  session_closed unexpected_data closed_during_handshake echo_mismatch connect_error
        exchange_error :
      GuestError

abbrev pub max_lanes : ℕ
max_lanes = 64

abbrev pub handshake_magic : ℕ
handshake_magic = 1481526356

abbrev pub protocol_version : ℕ
protocol_version = 3

-- The message that `handshake` writes.
abbrev pub hello : List ℕ
hello =
    encode uint32_le handshake_magic ++ (encode uint16_le protocol_version ++ encode uint16_le 0)

-- What `handshake` makes of the echo.
unfoldable pub check_echo : List ℕ → Option GuestError
check_echo echo =
    if not (length echo == 8)
    then some closed_during_handshake
    else if not (decode uint32_le (take 4 echo) == handshake_magic)
        || not (decode uint16_le (take 2 (drop 4 echo)) == protocol_version)
    then some echo_mismatch
    else none

-- `waiters` are the exchanges that wait for a lane.
pub record GuestSession : Type 0 where
  pub dead : Option GuestError
  pub free : List ℕ
  pub lane_count : ℕ
  pub waiters : List ℕ

pub data SessionAction : Type 0 where
  rejected : GuestError → ℕ → SessionAction
  lane_closed : ℕ → SessionAction
  connection_closed : SessionAction

unfoldable pub die_with :
    Option GuestError → GuestError → GuestSession → GuestSession × List SessionAction
die_with (some first) error s = (s, [])
die_with none error s = (
  record s { dead = some error; waiters = []; free = [] },
  map (rejected error) s.waiters ++ (map lane_closed s.free ++ connection_closed ∷ []),
)

-- `#die`.
unfoldable pub die : GuestError → GuestSession → GuestSession × List SessionAction
die error s = die_with s.dead error s

-- `free.pop()`.
unfoldable pub pop_last : List ℕ → Option (List ℕ × ℕ)
pop_last [] = none
pop_last (lane ∷ lanes) =
    let rest = pop_last lanes in
    elim rest [ none ↦ some ([], lane) | some (front, last) ↦ some (lane ∷ front, last) ]

-- What a call of `#acquire` comes to before it first awaits.
pub data Acquired : Type 0 where
  failed : GuestError → Acquired
  given : ℕ → Acquired
  connecting : Acquired
  waiting : Acquired

unfoldable pub acquire_from :
    Option GuestError → Option (List ℕ × ℕ) → ℕ → GuestSession → GuestSession × Acquired
acquire_from (some error) popped caller s = (s, failed error)
acquire_from none (some (front, lane)) caller s = (record s { free = front }, given lane)
acquire_from none none caller s =
    if ltb s.lane_count max_lanes
    then (record s { lane_count = s.lane_count + 1 }, connecting)
    else (record s { waiters = s.waiters ++ caller ∷ [] }, waiting)

unfoldable pub acquire : ℕ → GuestSession → GuestSession × Acquired
acquire caller s = acquire_from s.dead (pop_last s.free) caller s

-- The catch blocks of `#acquire`.
abbrev pub give_up : GuestSession → GuestSession
give_up s = record s { lane_count = s.lane_count - 1 }

-- The lane is connected and has shaken hands.
unfoldable pub connected : Option GuestError → ℕ → GuestSession → GuestSession × Acquired
connected (some error) lane s = (give_up s, failed error)
connected none lane s = (s, given lane)

-- What `#release` does with the lane.
pub data Released : Type 0 where
  closed : Released
  handed_to : ℕ → Released
  pooled : Released

unfoldable pub release_to : Option GuestError → List ℕ → ℕ → GuestSession → GuestSession × Released
release_to (some error) waiters lane s = (s, closed)
release_to none (waiter ∷ waiters) lane s = (record s { waiters = waiters }, handed_to waiter)
release_to none [] lane s = (record s { free = s.free ++ lane ∷ [] }, pooled)

unfoldable pub release : ℕ → GuestSession → GuestSession × Released
release lane s = release_to s.dead s.waiters lane s

-- The catch block of `exchange`.
unfoldable pub poison : GuestError → ℕ → GuestSession → GuestSession × List SessionAction
poison error lane s = let step = die error s in (give_up step.0, step.1 ++ lane_closed lane ∷ [])

-- The session that `connect` returns.
abbrev pub guest_session : GuestSession
guest_session = record { dead = none; free = []; lane_count = 0; waiters = [] }
