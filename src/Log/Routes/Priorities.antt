-- ===== src/Log/Routes/Priorities.antt =====
-- The priorities of the system log.
use hiredispool.Base.{ℕ, ◌<◌, ◌≤◌, ◌≡◌, ◌⊎◌, arith}
use hiredispool.Log.Routes.{priority}

-- The bands of the levels: up to DEBUG, INFO, WARN, ERROR and FATAL, and above.
abbrev Bands : ℕ → ℕ → Type 0
Bands a n =
    ((a ≤ 1024) × (n ≡ 7))
    ⊎ ((1024 < a) × (a ≤ 2048) × (n ≡ 5))
    ⊎ ((2048 < a) × (a ≤ 4096) × (n ≡ 4))
    ⊎ ((4096 < a) × (a ≤ 8192) × (n ≡ 3))
    ⊎ ((8192 < a) × (a ≤ 16384) × (n ≡ 2))
    ⊎ ((16384 < a) × (n ≡ 1))

priority-Bands : (a : ℕ) → 0 < a → Bands a (priority a)
unfolding priority
priority-Bands a h = ground arith

-- A higher level is never less urgent in the system log: its priority number is no greater. This is
-- for levels other than 0.
pub priority_antitone : (a b : ℕ) → 0 < a → a ≤ b → priority b ≤ priority a
priority_antitone a b h k = omega (arith, priority-Bands a h, priority-Bands b (omega arith))
