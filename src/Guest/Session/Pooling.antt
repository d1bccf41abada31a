-- ===== src/Guest/Session/Pooling.antt =====
-- packages/linux-guest/src/conn.ts: the lanes of a session are at most MAX_LANES and never shared.
use distro.Common.{
  ℕ, suc, ◌+◌, ◌-◌, ◌≡◌, ◌<◌, ◌≤◌, ◌⊎◌, inl, inr, refl, ap, sym, ◌∙◌, Bool, true, false, List, [],
  ◌∷◌, ◌++◌, Option, none, some, ltb, ◌==◌, if◌then◌else◌, length, arith, length-append, Bool-cases,
}
use distro.Guest.Session.{
  GuestError, max_lanes, pop_last, acquire_from, acquire, connected, give_up, release_to, release,
  poison, die_with, die,
}
use distro.Guest.Session.Steps.{
  Pool, start_with, start, fail_lane, finish_with, finish, break_off, end_session, Step, starts,
  opens, fails, finishes, breaks, ends, Reachable, at_first, after_step, new_pool,
}

-- How often a lane stands in a list.
abbrev pub one : ℕ → ℕ → ℕ
one lane other = if lane == other then 1 else 0

abbrev pub times : ℕ → List ℕ → ℕ
times lane [] = 0
times lane (other ∷ lanes) = one lane other + times lane lanes

times-append : (lane : ℕ) (xs ys : List ℕ) → times lane (xs ++ ys) ≡ times lane xs + times lane ys
times-append lane [] ys = omega arith
times-append lane (x ∷ xs) ys = omega (arith, times-append lane xs ys)

abbrev pub is_alive : Option GuestError → Bool
is_alive none = true
is_alive (some error) = false

-- What holds of a session and the exchanges in flight: the lanes are counted, and at most 64; none
-- is idle while an exchange waits; a dead session has neither; and no lane is in two places.
pub record IsPooled (p : Pool) : Type 0 where
  pub bounded : p.session.lane_count ≤ max_lanes
  pub counted : length p.session.free + length p.held + p.opening ≤ p.session.lane_count
  pub exact :
      (is_alive p.session.dead ≡ false)
      ⊎ (length p.session.free + length p.held + p.opening ≡ p.session.lane_count)
  pub unwaited : (p.session.free ≡ []) ⊎ (p.session.waiters ≡ [])
  pub released :
      (is_alive p.session.dead ≡ true) ⊎ ((p.session.free ≡ []) × (p.session.waiters ≡ []))
  pub unshared : (lane : ℕ) → times lane p.session.free + times lane p.held ≤ 1
  pub known : (lane : ℕ) → p.next_lane ≤ lane → times lane p.session.free + times lane p.held ≡ 0

-- What `pop_last` takes off.
abbrev IsPopped : List ℕ → Option (List ℕ × ℕ) → Type 0
IsPopped lanes none = lanes ≡ []
IsPopped lanes (some popped) =
    (length lanes ≡ suc (length popped.0))
    × ((lane : ℕ) → times lane lanes ≡ times lane popped.0 + one lane popped.1)

pop_last-IsPopped : (lanes : List ℕ) → IsPopped lanes (pop_last lanes)
unfolding pop_last
pop_last-IsPopped [] = refl
pop_last-IsPopped (first ∷ lanes) = after (pop_last lanes) (pop_last-IsPopped lanes)
  where
    after :
        (popped : Option (List ℕ × ℕ))
        → IsPopped lanes popped
        → IsPopped (first ∷ lanes) (elim popped [
          | none ↦ some ([], first)
          | some (front, last) ↦ some (first ∷ front, last)
        ])
    after none e = (ap (λ ls. suc (length ls)) e, λ lane. omega (arith, ap (λ ls. times lane ls) e))
    after (some (front, last)) (l, t) = (ap suc l, λ lane. omega (arith, t lane))

one_most : (lane other : ℕ) → one lane other ≤ 1
one_most lane other = ground arith

module _ (p : Pool) (h : IsPooled p) where
  start_with-IsPooled :
      (caller : ℕ) (dead : Option GuestError)
      → p.session.dead ≡ dead
      → (popped : Option (List ℕ × ℕ)) → IsPopped p.session.free popped
      → IsPooled (start_with p (acquire_from dead popped caller p.session))
  unfolding start_with acquire_from
  start_with-IsPooled caller (some error) d popped f = record {
    bounded = h.bounded;
    counted = h.counted;
    exact = h.exact;
    unwaited = h.unwaited;
    released = h.released;
    unshared = h.unshared;
    known = h.known;
  }
  start_with-IsPooled caller none d (some (front, lane)) (l, t) = record {
    bounded = h.bounded;
    counted = omega (arith, h.counted);
    exact = elim h.exact [ inl e ↦ inl e | inr e ↦ inr (omega arith) ];
    unwaited = elim h.unwaited [ inl e ↦ absurd (omega (arith, ap length e)) | inr e ↦ inr e ];
    released = elim h.released [ inl e ↦ inl e | inr (e, w) ↦ absurd (omega (arith, ap length e)) ];
    unshared = λ other. omega (arith, t other, h.unshared other);
    known = λ other l. omega (arith, t other, h.known other l);
  }
  start_with-IsPooled caller none d none f =
      elim (Bool-cases (ltb p.session.lane_count max_lanes)) [
        | inl e ↦ rw e (record {
          bounded = ground arith;
          counted = omega (arith, h.counted);
          exact = elim h.exact [ inl x ↦ inl x | inr x ↦ inr (omega arith) ];
          unwaited = h.unwaited;
          released = h.released;
          unshared = h.unshared;
          known = h.known;
        })
        | inr e ↦ rw e (record {
          bounded = h.bounded;
          counted = h.counted;
          exact = h.exact;
          unwaited = inl f;
          released = inl (ap is_alive d);
          unshared = h.unshared;
          known = h.known;
        })
      ]

  start-IsPooled : (caller : ℕ) → IsPooled (start caller p)
  unfolding acquire
  start-IsPooled caller =
      start_with-IsPooled caller p.session.dead refl (pop_last p.session.free)
        (pop_last-IsPopped p.session.free)

  fail_lane-IsPooled : 0 < p.opening → IsPooled (fail_lane p)
  fail_lane-IsPooled l = record {
    bounded = omega (arith, h.bounded);
    counted = omega (arith, h.counted);
    exact = elim h.exact [ inl x ↦ inl x | inr x ↦ inr (omega arith) ];
    unwaited = h.unwaited;
    released = h.released;
    unshared = h.unshared;
    known = h.known;
  }

  open_lane-IsPooled :
      0 < p.opening
      → (dead : Option GuestError)
      → IsPooled (
          start_with
            (record p { opening = p.opening - 1; next_lane = suc p.next_lane })
            (connected dead p.next_lane p.session))
  unfolding start_with connected
  open_lane-IsPooled l (some error) = record {
    bounded = omega (arith, h.bounded);
    counted = omega (arith, h.counted);
    exact = elim h.exact [ inl x ↦ inl x | inr x ↦ inr (omega arith) ];
    unwaited = h.unwaited;
    released = h.released;
    unshared = h.unshared;
    known = λ lane k. h.known lane (omega arith);
  }
  open_lane-IsPooled l none = record {
    bounded = h.bounded;
    counted = omega (arith, h.counted);
    exact = elim h.exact [ inl x ↦ inl x | inr x ↦ inr (omega arith) ];
    unwaited = h.unwaited;
    released = h.released;
    unshared = λ lane. elim (Bool-cases (lane == p.next_lane)) [
      | inl e ↦ (let k = h.known lane (ground arith) in omega (arith, k, one_most lane p.next_lane))
      | inr e ↦ rw e (omega (arith, h.unshared lane))
    ];
    known = λ lane k.
        (let e : (lane == p.next_lane) ≡ false = ground arith in
          rw e (omega (arith, h.known lane (omega arith))));
  }

  die_with-IsPooled :
      (error : GuestError) (dead : Option GuestError)
      → p.session.dead ≡ dead
      → IsPooled (record p { session = (die_with dead error p.session).0 })
  unfolding die_with
  die_with-IsPooled error (some first) d = record {
    bounded = h.bounded;
    counted = h.counted;
    exact = h.exact;
    unwaited = h.unwaited;
    released = h.released;
    unshared = h.unshared;
    known = h.known;
  }
  die_with-IsPooled error none d = record {
    bounded = h.bounded;
    counted = omega (arith, h.counted);
    exact = inl refl;
    unwaited = inl refl;
    released = inr (refl, refl);
    unshared = λ lane. omega (arith, h.unshared lane);
    known = λ lane k. omega (arith, h.known lane k);
  }

  end_session-IsPooled : (error : GuestError) → IsPooled (end_session error p)
  unfolding die
  end_session-IsPooled error = die_with-IsPooled error p.session.dead refl

-- A lane that is taken out of the held ones.
IsTaken : List ℕ → List ℕ → ℕ → Type 0
IsTaken held others lane =
    (length held ≡ suc (length others))
    × ((other : ℕ) → times other held ≡ times other others + one other lane)

append-IsTaken :
    (held before after : List ℕ) (lane : ℕ)
    → held ≡ before ++ lane ∷ after
    → IsTaken held (before ++ after) lane
unfolding IsTaken
append-IsTaken held before after lane e = (
  omega (arith, ap length e, length-append before (lane ∷ after), length-append before after),
  λ other. omega (
    arith,
    ap (λ ls. times other ls) e,
    times-append other before (lane ∷ after),
    times-append other before after,
  ),
)

module _ (p : Pool) (h : IsPooled p) (others : List ℕ) (lane : ℕ)
    (taken : IsTaken p.held others lane) where
  finish_with-IsPooled :
      (dead : Option GuestError) (waiters : List ℕ)
      → p.session.dead ≡ dead
      → p.session.waiters ≡ waiters
      → IsPooled
          (finish_with (record p { held = others }) lane (release_to dead waiters lane p.session))
  unfolding finish_with release_to IsTaken
  finish_with-IsPooled (some error) waiters d w = record {
    bounded = h.bounded;
    counted = omega (arith, h.counted, taken.0);
    exact = inl (ap is_alive d);
    unwaited = h.unwaited;
    released = h.released;
    unshared = λ other. omega (arith, h.unshared other, taken.1 other);
    known = λ other k. omega (arith, h.known other k, taken.1 other);
  }
  finish_with-IsPooled none (waiter ∷ waiters) d w = record {
    bounded = h.bounded;
    counted = omega (arith, h.counted, taken.0);
    exact = elim h.exact [ inl x ↦ inl x | inr x ↦ inr (omega (arith, taken.0)) ];
    unwaited = elim h.unwaited [
      | inl x ↦ inl x
      | inr x ↦ absurd (omega (arith, ap length (sym w ∙ x)))
    ];
    released = inl (ap is_alive d);
    unshared = λ other. omega (arith, h.unshared other, taken.1 other);
    known = λ other k. omega (arith, h.known other k, taken.1 other);
  }
  finish_with-IsPooled none [] d w = record {
    bounded = h.bounded;
    counted = omega (arith, h.counted, taken.0, length-append p.session.free (lane ∷ []));
    exact = elim h.exact [
      | inl x ↦ inl x
      | inr x ↦ inr (omega (arith, taken.0, length-append p.session.free (lane ∷ [])))
    ];
    unwaited = inr w;
    released = inl (ap is_alive d);
    unshared = λ other.
        omega
          (arith, h.unshared other, taken.1 other, times-append other p.session.free (lane ∷ []));
    known = λ other k.
        omega
          (arith, h.known other k, taken.1 other, times-append other p.session.free (lane ∷ []));
  }

  finish-IsPooled : IsPooled (finish lane (record p { held = others }))
  unfolding release
  finish-IsPooled = finish_with-IsPooled p.session.dead p.session.waiters refl refl

  poison_with-IsPooled :
      (error : GuestError) (dead : Option GuestError)
      → p.session.dead ≡ dead
      → IsPooled (record p { held = others; session = give_up (die_with dead error p.session).0 })
  unfolding die_with IsTaken
  poison_with-IsPooled error (some first) d = record {
    bounded = omega (arith, h.bounded);
    counted = omega (arith, h.counted, taken.0);
    exact = inl (ap is_alive d);
    unwaited = h.unwaited;
    released = h.released;
    unshared = λ other. omega (arith, h.unshared other, taken.1 other);
    known = λ other k. omega (arith, h.known other k, taken.1 other);
  }
  poison_with-IsPooled error none d = record {
    bounded = omega (arith, h.bounded);
    counted = omega (arith, h.counted, taken.0);
    exact = inl refl;
    unwaited = inl refl;
    released = inr (refl, refl);
    unshared = λ other. omega (arith, h.unshared other, taken.1 other);
    known = λ other k. omega (arith, h.known other k, taken.1 other);
  }

  break_off-IsPooled :
      (error : GuestError) → IsPooled (break_off error lane (record p { held = others }))
  unfolding poison die
  break_off-IsPooled error = poison_with-IsPooled error p.session.dead refl

Step-IsPooled : (p q : Pool) → Step p q → IsPooled p → IsPooled q
Step-IsPooled p q (starts _ caller) h = start-IsPooled p h caller
Step-IsPooled p q (opens _ l) h = open_lane-IsPooled p h l p.session.dead
Step-IsPooled p q (fails _ l) h = fail_lane-IsPooled p h l
Step-IsPooled p q (finishes _ lane before after e) h =
    finish-IsPooled p h (before ++ after) lane (append-IsTaken p.held before after lane e)
Step-IsPooled p q (breaks _ error lane before after e) h =
    break_off-IsPooled p h (before ++ after) lane (append-IsTaken p.held before after lane e) error
Step-IsPooled p q (ends _ error) h = end_session-IsPooled p h error

new_pool-IsPooled : IsPooled new_pool
new_pool-IsPooled = record {
  bounded = omega arith;
  counted = omega arith;
  exact = inr refl;
  unwaited = inl refl;
  released = inl refl;
  unshared = λ lane. omega arith;
  known = λ lane k. refl;
}

-- In every state that a session reaches, by any order of calls, connections, failures and ends: at
-- most 64 lanes are free, held by an exchange, or being opened, and while the session lives, its
-- count is their number; no lane is free while an exchange waits; a dead session has no free lane
-- and no waiting exchange; and no lane is held by two exchanges, or held and free.
pub Reachable-IsPooled : (p : Pool) → Reachable p → IsPooled p
Reachable-IsPooled p at_first = new_pool-IsPooled
Reachable-IsPooled p (after_step q _ r s) = Step-IsPooled q p s (Reachable-IsPooled q r)
