-- ===== src/Virtio/Fs/Counting.antt =====
-- packages/kernel/src/virtio/fs.ts: sums over the keys of a map.
use distro.Common.{
  ℕ, zero, suc, ◌+◌, ◌<◌, ◌≤◌, ◌≡◌, refl, ap, Option, ◌==◌, arith, Bool-cases, inl, inr, true,
  false, ltb,
}
use distro.Virtio.Fs.{put}

-- The sum of a measure over the keys below `n`.
unfoldable pub total {ℓ} : {A : Type ℓ} → (ℕ → Option A → ℕ) → (ℕ → Option A) → ℕ → ℕ
total measure m zero = 0
total measure m (suc n) = measure n (m n) + total measure m n

-- A change at one key changes the sum by the difference of its measures.
pub total_above :
    {A : Type 0} (measure : ℕ → Option A → ℕ) (value : Option A) (m : ℕ → Option A) (key n : ℕ)
    → n ≤ key
    → total measure (put key value m) n ≡ total measure m n
unfolding total put
total_above measure value m key zero l = refl
total_above measure value m key (suc n) l =
    let e : (n == key) ≡ false = ground arith in
    rw e (ap (λ t. measure n (m n) + t) (total_above measure value m key n (omega arith)))

pub total-put :
    {A : Type 0} (measure : ℕ → Option A → ℕ) (value : Option A) (m : ℕ → Option A) (key n : ℕ)
    → key < n
    → total measure (put key value m) n + measure key (m key)
      ≡ total measure m n + measure key value
unfolding total put
total-put measure value m key zero l = absurd (omega arith)
total-put measure value m key (suc n) l = elim (Bool-cases (n == key)) [
  | inl e ↦
      (let same : n ≡ key = ground arith in
        let rest = total_above measure value m key n (omega arith) in
        rw e (omega (arith, ap (λ k. measure k (m k)) same, ap (λ k. measure k value) same, rest)))
  | inr e ↦ rw e (omega (arith, total-put measure value m key n (apart n key l e)))
]
  where
    apart : (n key : ℕ) → key < suc n → (n == key) ≡ false → key < n
    apart n key l e = ground arith

pub measure≤total :
    {A : Type 0} (measure : ℕ → Option A → ℕ) (m : ℕ → Option A) (key n : ℕ)
    → key < n
    → measure key (m key) ≤ total measure m n
unfolding total
measure≤total measure m key zero l = absurd (omega arith)
measure≤total measure m key (suc n) l = elim (Bool-cases (n == key)) [
  | inl e ↦ (let same : n ≡ key = ground arith in omega (arith, ap (λ k. measure k (m k)) same))
  | inr e ↦ (let l' : key < n = ground arith in omega (arith, measure≤total measure m key n l'))
]

pub put_same :
    {A : Type 0} (key : ℕ) (value : Option A) (m : ℕ → Option A) → put key value m key ≡ value
unfolding put
put_same key value m = let e : (key == key) ≡ true = ground arith in rw e refl

pub put_other :
    {A : Type 0} (key other : ℕ) (value : Option A) (m : ℕ → Option A)
    → (other == key) ≡ false
    → put key value m other ≡ m other
unfolding put
put_other key other value m e = rw e refl

pub total_kept :
    {A : Type 0} (measure : ℕ → Option A → ℕ) (value : Option A) (m : ℕ → Option A) (key n : ℕ)
    → measure key value ≡ measure key (m key)
    → total measure (put key value m) n ≡ total measure m n
total_kept measure value m key n e = elim (Bool-cases (ltb key n)) [
  | inl l ↦ (let l' : key < n = ground arith in omega (arith, total-put measure value m key n l'))
  | inr l ↦ total_above measure value m key n (ground arith)
]

pub total-none :
    {A : Type 0} (measure : ℕ → Option A → ℕ) (m : ℕ → Option A) (n : ℕ)
    → ((key : ℕ) → measure key (m key) ≡ 0)
    → total measure m n ≡ 0
unfolding total
total-none measure m zero h = refl
total-none measure m (suc n) h = omega (arith, h n, total-none measure m n h)
