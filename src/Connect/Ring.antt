-- ===== src/Connect/Ring.antt =====
-- The endpoints as a ring: indices that advance modulo the number of endpoints.
use native.Mathlib.Nat.{mod-eq_of_lt, mod-eq-sub-mod, mod-add-mod, add-mod-mod, add-mod_right}
use native.Mathlib.Decide.{dec_lt}
use hiredispool.Base.{ℕ, suc, ◌+◌, ◌-◌, ◌%◌, ◌<◌, ◌≤◌, ◌≡◌, ◌≢◌, ◌∙◌, ap, arith}

-- Steps of one add up.
pub ring_step : (b d n : ℕ) → ((b + 1) % n + d) % n ≡ (b + suc d) % n
ring_step b d n = mod-add-mod (b + 1) n d ∙ ap (λ x. x % n) (omega arith)

pub ring_stay : (b n : ℕ) → b < n → (b + 0) % n ≡ b
ring_stay b n h = ap (λ x. x % n) (omega arith) ∙ mod-eq_of_lt h

-- One round ends where it began.
pub ring_round : (b m : ℕ) → b < suc m → ((b + m) % suc m + 1) % suc m ≡ b
ring_round b m h =
    mod-add-mod (b + m) (suc m) 1
    ∙ ap (λ x. x % suc m) (omega arith)
    ∙ add-mod_right b (suc m)
    ∙ mod-eq_of_lt h

-- Every index is reached, in fewer steps than there are indices.
pub ring_reach : (b i n : ℕ) → b < n → i < n → (b + (i + n - b) % n) % n ≡ i
ring_reach b i n hb hi =
    add-mod-mod b (i + n - b) n
    ∙ ap (λ x. x % n) (omega arith)
    ∙ add-mod_right i n
    ∙ mod-eq_of_lt hi

-- A step of at least one and less than the whole ring leads to another index.
pub ring_other : (b e n : ℕ) → b < n → 0 < e → e < n → (b + e) % n ≢ b
ring_other b e n hb he hn = elim (dec_lt (b + e) n) [
  | yes low ↦ omega (arith, mod-eq_of_lt low)
  | no high ↦ omega (
    arith,
    mod-eq-sub-mod (let f : n ≤ b + e = omega arith in f),
    mod-eq_of_lt (let f : b + e - n < n = omega arith in f),
  )
]
