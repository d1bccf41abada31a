-- ===== src/Guest/Session/Stranding.antt =====
-- packages/linux-guest/src/conn.ts: an exchange that waits for a lane when the lanes being opened
-- fail.
use distro.Common.{
  ℕ, zero, suc, ◌≡◌, ◌<◌, inl, inr, refl, ap, sym, ◌∙◌, true, false, List, [], length, arith,
}
use distro.Guest.Session.Steps.{Pool, fail_lane, fails, Reachable, after_step}
use distro.Guest.Session.Pooling.{is_alive, Reachable-IsPooled}

-- So many connections that fail.
abbrev pub fail_lanes : ℕ → Pool → Pool
fail_lanes zero p = p
fail_lanes (suc n) p = fail_lanes n (fail_lane p)

fail_lanes-Reachable : (n : ℕ) (p : Pool) → p.opening ≡ n → Reachable p → Reachable (fail_lanes n p)
fail_lanes-Reachable zero p e r = r
fail_lanes-Reachable (suc n) p e r =
    fail_lanes-Reachable n (fail_lane p) (omega arith)
      (after_step p (fail_lane p) r (fails p (omega arith)))

-- What the failures leave as it was.
fail_lanes_lem :
    (n : ℕ) (p : Pool)
    → (p.opening ≡ n)
    → ((fail_lanes n p).opening ≡ 0)
      × ((fail_lanes n p).held ≡ p.held)
      × ((fail_lanes n p).session.waiters ≡ p.session.waiters)
      × ((fail_lanes n p).session.free ≡ p.session.free)
      × ((fail_lanes n p).session.dead ≡ p.session.dead)
fail_lanes_lem zero p e = (e, refl, refl, refl, refl)
fail_lanes_lem (suc n) p e = fail_lanes_lem n (fail_lane p) (omega arith)

-- An exchange waits for a lane that nothing is about to give it: the session lives and has room for
-- 64 lanes, but none is held or being opened.
abbrev pub IsStranded : List ℕ → Pool → Type 0
IsStranded waiters q =
    (q.session.waiters ≡ waiters)
    × (is_alive q.session.dead ≡ true)
    × (q.held ≡ [])
    × (q.session.free ≡ [])
    × (q.opening ≡ 0)
    × (q.session.lane_count ≡ 0)

-- From every state that a living session reaches in which exchanges wait and no lane is held, it
-- reaches one in which the same exchanges still wait, and no lane is held, free or being opened.
pub fail_lanes-IsStranded :
    (p : Pool)
    → Reachable p
    → is_alive p.session.dead ≡ true
    → p.held ≡ []
    → 0 < length p.session.waiters
    → (q : Pool) × Reachable q × IsStranded p.session.waiters q
fail_lanes-IsStranded p r alive idle waits =
    let n = p.opening in
    let (opening, held, waiters, free, dead) = fail_lanes_lem n p refl in
    let reached = fail_lanes-Reachable n p refl r in
    let before = Reachable-IsPooled p r in
    let after = Reachable-IsPooled (fail_lanes n p) reached in
    let living : is_alive (fail_lanes n p).session.dead ≡ true = ap is_alive dead ∙ alive in
    let no_free : (fail_lanes n p).session.free ≡ [] =
      free ∙ elim before.unwaited [ inl e ↦ e | inr e ↦ absurd (omega (arith, ap length e)) ] in
    let no_held : (fail_lanes n p).held ≡ [] = held ∙ idle in
    let none_left : (fail_lanes n p).session.lane_count ≡ 0 = elim after.exact [
      | inl e ↦ (let no : true ≡ false = sym living ∙ e in cc)
      | inr e ↦ omega (arith, ap length no_free, ap length no_held)
    ] in
    (fail_lanes n p, reached, (waiters, living, no_held, no_free, opening, none_left))
