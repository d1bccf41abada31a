-- ===== src/Guest/Session/Steps.antt =====
-- packages/linux-guest/src/conn.ts: the session together with the exchanges in flight, and the steps
-- it takes.
use distro.Common.{ℕ, suc, ◌-◌, ◌≡◌, ◌<◌, List, [], ◌∷◌, ◌++◌}
use distro.Guest.Session.{
  GuestSession, GuestError, Acquired, failed, given, connecting, waiting, acquire, connected,
  give_up, Released, closed, handed_to, pooled, release, poison, die, guest_session,
}

-- `held` are the lanes of the exchanges that run, `opening` the calls of `device.connect` in flight.
-- A connection is a new object: its number is none given before.
pub record Pool : Type 0 where
  pub session : GuestSession
  pub held : List ℕ
  pub opening : ℕ
  pub next_lane : ℕ

unfoldable pub start_with : Pool → GuestSession × Acquired → Pool
start_with p (s, failed error) = record p { session = s }
start_with p (s, given lane) = record p { session = s; held = lane ∷ p.held }
start_with p (s, connecting) = record p { session = s; opening = suc p.opening }
start_with p (s, waiting) = record p { session = s }

-- `exchange` is called.
abbrev pub start : ℕ → Pool → Pool
start caller p = start_with p (acquire caller p.session)

-- A connection is made, and the call goes on with a new lane, or fails with the session.
abbrev pub open_lane : Pool → Pool
open_lane p =
    start_with (record p { opening = p.opening - 1; next_lane = suc p.next_lane })
      (connected p.session.dead p.next_lane p.session)

-- No connection is made, or its handshake fails.
abbrev pub fail_lane : Pool → Pool
fail_lane p = record p { opening = p.opening - 1; session = give_up p.session }

unfoldable pub finish_with : Pool → ℕ → GuestSession × Released → Pool
finish_with p lane (s, closed) = record p { session = s }
finish_with p lane (s, handed_to waiter) = record p { session = s; held = lane ∷ p.held }
finish_with p lane (s, pooled) = record p { session = s }

-- The exchange that held the lane ends well; `p` has what the others hold.
abbrev pub finish : ℕ → Pool → Pool
finish lane p = finish_with p lane (release lane p.session)

-- It throws.
abbrev pub break_off : GuestError → ℕ → Pool → Pool
break_off error lane p = record p { session = (poison error lane p.session).0 }

-- The watched connection ends, or `close` is called.
abbrev pub end_session : GuestError → Pool → Pool
end_session error p = record p { session = (die error p.session).0 }

pub data Step : Pool → Pool → Type 0 where
  starts : (p : Pool) (caller : ℕ) → Step p (start caller p)
  opens : (p : Pool) → 0 < p.opening → Step p (open_lane p)
  fails : (p : Pool) → 0 < p.opening → Step p (fail_lane p)
  finishes :
      (p : Pool) (lane : ℕ) (before after : List ℕ)
      → p.held ≡ before ++ lane ∷ after
      → Step p (finish lane (record p { held = before ++ after }))
  breaks :
      (p : Pool) (error : GuestError) (lane : ℕ) (before after : List ℕ)
      → p.held ≡ before ++ lane ∷ after
      → Step p (break_off error lane (record p { held = before ++ after }))
  ends : (p : Pool) (error : GuestError) → Step p (end_session error p)

abbrev pub new_pool : Pool
new_pool = record { session = guest_session; held = []; opening = 0; next_lane = 0 }

pub data Reachable : Pool → Type 0 where
  at_first : Reachable new_pool
  after_step : (p q : Pool) → Reachable p → Step p q → Reachable q
