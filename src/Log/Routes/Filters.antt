-- ===== src/Log/Routes/Filters.antt =====
-- Which messages vlog throws away, and which ones the macros of log.h do.
use hiredispool.Base.{
  ℕ, ◌<◌, ◌≤◌, ◌≡◌, ◌≢◌, ◌⊎◌, ◌↔◌, inl, inr, refl, ap, Bool, true, false, ◌&&◌, Bool-cases, List,
  [], leb, if◌then◌else◌, arith, ℤ, pos, negsuc, ltb_ℤ, leb_ℤ, ◌<ℤ◌, ◌≤ℤ◌, is_zero, is_zero-true,
  is_zero-false,
}
use hiredispool.Log.{
  LogDest, log_dest_files, log_dest_syslog, log_dest_stdout, log_dest_stderr, log_dest_null,
  LogState, LogEnv, plain, l_debug, l_trace, log_get_verbose,
}
use hiredispool.Log.Routes.{
  Event, print, to_file, deliver, vlog, log_debug, log_trace, debug, trace,
}

-- The level is below the one that is held back, or debugging is off and the level is no higher than
-- DEBUG, or there is no destination.
abbrev pub Filtered : LogState → ℕ → Type 0
Filtered s lvl =
    (pos (plain lvl) <ℤ s.level_hold)
    ⊎ (((s.verbose ≡ pos 0) × (plain lvl ≤ l_debug)) ⊎ (s.dest ≡ log_dest_null))

pub null_cases : (d : LogDest) → (d ≡ log_dest_null) ⊎ (d ≢ log_dest_null)
null_cases log_dest_null = inl refl
null_cases log_dest_files = inr (λ e. cc)
null_cases log_dest_syslog = inr (λ e. cc)
null_cases log_dest_stdout = inr (λ e. cc)
null_cases log_dest_stderr = inr (λ e. cc)

module _ (env : LogEnv) (s : LogState) (lvl : ℕ) (text : List ℕ) where
  -- The filters: a message that they let pass is delivered.
  pub vlog_passes :
      ((vlog env s lvl text ≡ (pos 0, [])) × Filtered s lvl)
      ⊎ ((vlog env s lvl text ≡ deliver env s lvl text)
          × (s.level_hold ≤ℤ pos (plain lvl))
          × ((s.verbose ≢ pos 0) ⊎ (l_debug < plain lvl)))
  unfolding vlog
  vlog_passes = elim (Bool-cases (ltb_ℤ (pos (plain lvl)) s.level_hold)) [
    | inl e ↦ inl (ground arith, inl (ground arith))
    | inr e ↦ elim (Bool-cases (is_zero s.verbose)) [
      | inl z ↦ elim (Bool-cases (leb (plain lvl) l_debug)) [
        | inl f ↦ inl (ground arith, inr (inl (is_zero-true s.verbose z, ground arith)))
        | inr f ↦ inr (ground arith, ground arith, inr (ground arith))
      ]
      | inr z ↦ inr (ground arith, ground arith, inl (is_zero-false s.verbose z))
    ]
  ]

  pub Filtered-cases : Filtered s lvl ⊎ ¬ Filtered s lvl
  Filtered-cases = elim vlog_passes [
    | inl (_, f) ↦ inl f
    | inr (_, low, on) ↦ elim (null_cases s.dest) [
      | inl d ↦ inl (inr (inr d))
      | inr n ↦ inr (λ f. elim f [
        | inl h ↦ omega arith
        | inr g ↦ elim g [
          | inl (z, h) ↦ elim on [ inl m ↦ m z | inr m ↦ omega arith ]
          | inr d ↦ n d
        ]
      ])
    ]
  ]

  pub vlog_passed : ¬ Filtered s lvl → vlog env s lvl text ≡ deliver env s lvl text
  vlog_passed n = elim vlog_passes [ inl (_, f) ↦ absurd (n f) | inr (p, _, _) ↦ p ]

  to_file_writes : (to_file env s lvl text).1 ≢ []
  unfolding to_file print
  to_file_writes = λ e. ground arith

  deliver_writes : s.dest ≢ log_dest_null → (deliver env s lvl text).1 ≢ []
  unfolding deliver print
  deliver_writes h = λ e. ground (arith, to_file_writes)

  pub vlog-Filtered : Filtered s lvl → vlog env s lvl text ≡ (pos 0, [])
  unfolding vlog deliver
  vlog-Filtered (inl h) = ground arith
  vlog-Filtered (inr (inl (z, h))) = ground arith
  vlog-Filtered (inr (inr d)) = ground arith

  -- vlog writes nothing exactly for the messages that are filtered out: those below the level that
  -- is held back, those no higher than DEBUG with debugging off, and all without a destination.
  pub vlog_silent_iff : ((vlog env s lvl text).1 ≡ []) ↔ Filtered s lvl
  vlog_silent_iff = (
    λ e. elim vlog_passes [
      | inl (_, f) ↦ f
      | inr (p, _, _) ↦ elim (null_cases s.dest) [
        | inl n ↦ inr (inr n)
        | inr n ↦ absurd (deliver_writes n (ground (arith, ap (λ r. r.1) p)))
      ]
    ],
    λ f. ap (λ r. r.1) (vlog-Filtered f),
  )

-- A call that is made unless `c` holds.
unless_silent :
    (c : Bool) (call : ℤ × List Event) (P Q : Type 0)
    → (c ≡ true) ↔ P
    → (call.1 ≡ []) ↔ Q
    → ((if c then (pos 0, []) else call).1 ≡ []) ↔ (P ⊎ Q)
unless_silent true call P Q f g = (λ e. inl (f.0 refl), λ h. refl)
unless_silent false call P Q f g =
    (λ e. inr (g.0 e), λ h. elim h [ inl p ↦ cc (f.1 p) | inr q ↦ g.1 q ])

-- DEBUG and DEBUG2 to DEBUG5 print nothing exactly where `verbose` is in the range from 0 up to their
-- bound, or vlog filters out messages of the level DEBUG.
pub debug_silent_iff :
    (n : ℕ) (env : LogEnv) (s : LogState) (text : List ℕ)
    → ((debug n env s text).1 ≡ [])
      ↔ (((pos 0 ≤ℤ s.verbose) × (s.verbose ≤ℤ pos n)) ⊎ Filtered s l_debug)
unfolding debug log_debug log_get_verbose
debug_silent_iff n env s text =
    unless_silent (leb_ℤ (pos 0) s.verbose && leb_ℤ s.verbose (pos n)) (vlog env s l_debug text) _ _
      (λ e. ground arith, λ h. ground arith) (vlog_silent_iff env s l_debug text)

-- TRACE and TRACE2 to TRACE5 print nothing exactly where `verbose` is not below their bound, or vlog
-- filters out messages of the level TRACE.
pub trace_silent_iff :
    (n : ℕ) (env : LogEnv) (s : LogState) (text : List ℕ)
    → ((trace n env s text).1 ≡ []) ↔ ((negsuc n ≤ℤ s.verbose) ⊎ Filtered s l_trace)
unfolding trace log_trace log_get_verbose
trace_silent_iff n env s text =
    unless_silent (leb_ℤ (negsuc n) s.verbose) (vlog env s l_trace text) _ _
      (λ e. ground arith, λ h. ground arith) (vlog_silent_iff env s l_trace text)
