-- ===== src/Log/Routes/Outcomes.antt =====
-- What vlog returns and what it writes.
use hiredispool.Base.{
  ℕ, ◌≤◌, ◌≡◌, ◌≢◌, ◌⊎◌, inl, inr, refl, sym, subst, true, false, Bool-cases, List, [], ◌∷◌, length,
  arith, ltb, ℤ, pos, negsuc, is_zero, All, List-cases,
}
use hiredispool.Log.{
  LogDest, log_dest_files, log_dest_syslog, log_dest_stdout, log_dest_stderr, log_dest_null,
  LogState, LogEnv, plain, has_cons, l_warn,
}
use hiredispool.Log.Names.{convert_logfilename}
use hiredispool.Log.Lines.{head_of, line_of, shown}
use hiredispool.Log.Lines.Shape.{IsLine, shown-IsLine}
use hiredispool.Log.Routes.{
  Stream, stdout, stderr, log_file, Event, fputs, fflush, fclose, syslog, complain, console,
  priority, print, console_stream, to_file, deliver, vlog,
}
use hiredispool.Log.Routes.Filters.{Filtered, Filtered-cases, vlog_passed, vlog-Filtered}

-- A stream gets the text `t`, and the system log gets none.
abbrev pub Says : List ℕ → Event → Type 0
Says t (fputs out u) = u ≡ t
Says t (fflush out) = Unit
Says t (fclose out) = Unit
Says t (syslog n u) = ⊥
Says t (complain who name u) = ⊥

-- The copy on the console: there is one where the level or `verbose` asks for it, and it goes to stdout
-- below L_WARN and to stderr from there.
abbrev pub Copied : LogState → ℕ → List ℕ → List Event → Type 0
Copied s lvl t events =
    (((has_cons lvl ≡ true) ⊎ (is_zero s.verbose ≡ false))
      × (out : Stream) × (rest : List Event) × (((ltb (plain lvl) l_warn ≡ true) × (out ≡ stdout))
          ⊎ ((ltb (plain lvl) l_warn ≡ false) × (out ≡ stderr)))
      × (events ≡ fputs out t ∷ rest)
      × All (Says t) rest)
    ⊎ (((has_cons lvl ≡ false) × (is_zero s.verbose ≡ true)) × (events ≡ []))

console_stream_cases :
    (lvl : ℕ)
    → ((ltb (plain lvl) l_warn ≡ true) × (console_stream lvl ≡ stdout))
      ⊎ ((ltb (plain lvl) l_warn ≡ false) × (console_stream lvl ≡ stderr))
unfolding console_stream
console_stream_cases lvl = elim (Bool-cases (ltb (plain lvl) l_warn)) [
  | inl e ↦ rw e (inl (refl, refl))
  | inr e ↦ rw e (inr (refl, refl))
]

console-Copied : (s : LogState) (lvl : ℕ) (t : List ℕ) → Copied s lvl t (console s lvl t)
unfolding console
console-Copied s lvl t = elim (Bool-cases (has_cons lvl)) [
  | inl c ↦
      rw (console, c)
        (inl (inl refl, console_stream lvl, _, console_stream_cases lvl, refl, (tt, tt)))
  | inr c ↦ elim (Bool-cases (is_zero s.verbose)) [
    | inl z ↦ rw (console, c, z) (inr ((refl, refl), refl))
    | inr z ↦
        rw (console, c, z)
          (inl (inr refl, console_stream lvl, _, console_stream_cases lvl, refl, tt))
  ]
]

module _ (env : LogEnv) (s : LogState) (lvl : ℕ) (text : List ℕ) where
  -- The log file cannot be opened.
  abbrev pub Refused : Type 0
  Refused =
      (s.dest ≡ log_dest_files)
      × (s.file ≢ [])
      × (env.fopen (convert_logfilename env s.file 1024) ≡ false)

  -- Where the message goes, with what is written after it.
  abbrev pub Goes : List ℕ → Stream → List Event → Type 0
  Goes t stdout rest =
      ((s.dest ≡ log_dest_stdout) ⊎ ((s.dest ≡ log_dest_files) × (s.file ≡ [])))
      × (rest ≡ fflush stdout ∷ [])
  Goes t stderr rest = (s.dest ≡ log_dest_stderr) × (rest ≡ fflush stderr ∷ [])
  Goes t (log_file name) rest =
      (s.dest ≡ log_dest_files)
      × (s.file ≢ [])
      × (name ≡ convert_logfilename env s.file 1024)
      × (copy : List Event) × (rest ≡ fclose (log_file name) ∷ copy)
      × Copied s lvl t copy

  -- The line is written first, to where the destination says, and 0 is returned.
  abbrev pub Logged : ℤ × List Event → Type 0
  Logged (rc, events) =
      let t = shown env s lvl text in
      let whole = line_of env s lvl text in
      (rc ≡ pos 0)
      × (((out : Stream) × (rest : List Event) × (events ≡ fputs out t ∷ rest)
            × Goes t out rest
            × IsLine t)
          ⊎ ((s.dest ≡ log_dest_syslog)
              × (events ≡ syslog (priority (plain lvl)) whole ∷ [])
              × IsLine whole))

  -- Only the complaint is written, and -1 is returned.
  abbrev pub Complained : ℤ × List Event → Type 0
  Complained r = r ≡ (negsuc 0, complain s.progname (convert_logfilename env s.file 1024) text ∷ [])

  stdout-Logged :
      (s.dest ≡ log_dest_stdout) ⊎ ((s.dest ≡ log_dest_files) × (s.file ≡ []))
      → IsLine (shown env s lvl text)
      → Logged (pos 0, print s lvl (shown env s lvl text) stdout)
  unfolding print
  stdout-Logged d l = (refl, inl (stdout, _, refl, (d, refl), l))

  stderr-Logged :
      s.dest ≡ log_dest_stderr
      → IsLine (shown env s lvl text)
      → Logged (pos 0, print s lvl (shown env s lvl text) stderr)
  unfolding print
  stderr-Logged d l = (refl, inl (stderr, _, refl, (d, refl), l))

  file-Logged :
      s.dest ≡ log_dest_files
      → s.file ≢ []
      → IsLine (shown env s lvl text)
      → Logged (
        pos 0,
        print s lvl (shown env s lvl text) (log_file (convert_logfilename env s.file 1024)),
      )
  unfolding print
  file-Logged d n l = (
    refl,
    inl (
      log_file (convert_logfilename env s.file 1024),
      _,
      refl,
      (d, n, refl, _, refl, console-Copied s lvl (shown env s lvl text)),
      l,
    ),
  )

  to_file-unnamed :
      s.file ≡ [] → to_file env s lvl text ≡ (pos 0, print s lvl (shown env s lvl text) stdout)
  unfolding to_file
  to_file-unnamed e = ground arith

  to_file-opened :
      s.file ≢ []
      → env.fopen (convert_logfilename env s.file 1024) ≡ true
      → to_file env s lvl text ≡ (
        pos 0,
        print s lvl (shown env s lvl text) (log_file (convert_logfilename env s.file 1024)),
      )
  unfolding to_file
  to_file-opened n o = ground (arith, List-cases s.file)

  to_file-refused :
      s.file ≢ []
      → env.fopen (convert_logfilename env s.file 1024) ≡ false
      → Complained (to_file env s lvl text)
  unfolding to_file
  to_file-refused n o = ground (arith, List-cases s.file)

  -- What becomes of a message that passes the filters.
  abbrev Passed : ℤ × List Event → Type 0
  Passed r = (Refused × Complained r) ⊎ (¬ Refused × Logged r)

  to_file_cases :
      s.dest ≡ log_dest_files → IsLine (shown env s lvl text) → Passed (to_file env s lvl text)
  to_file_cases d l = elim (List-cases s.file) [
    | inl e ↦
        inr (λ r. r.1 e, subst Logged (sym (to_file-unnamed e)) (stdout-Logged (inr (d, e)) l))
    | inr (c, cs, e) ↦
        let n : s.file ≢ [] = λ f. ground arith in
        let name = convert_logfilename env s.file 1024 in
        elim (Bool-cases (env.fopen name)) [
          | inl o ↦
              inr (λ r. ground arith, subst Logged (sym (to_file-opened n o)) (file-Logged d n l))
          | inr o ↦ inl ((d, n, o), to_file-refused n o)
        ]
  ]

  deliver_at :
      (d : LogDest)
      → s.dest ≡ d
      → d ≢ log_dest_null
      → IsLine (shown env s lvl text)
      → IsLine (line_of env s lvl text)
      → Passed (deliver env s lvl text)
  unfolding deliver
  deliver_at log_dest_files e n l k = subst Passed (ground arith) (to_file_cases e l)
  deliver_at log_dest_stdout e n l k =
      inr (λ r. ground arith, subst Logged (ground arith) (stdout-Logged (inl e) l))
  deliver_at log_dest_stderr e n l k =
      inr (λ r. ground arith, subst Logged (ground arith) (stderr-Logged e l))
  deliver_at log_dest_syslog e n l k =
      let r : ℤ × List Event =
        (pos 0, syslog (priority (plain lvl)) (line_of env s lvl text) ∷ []) in
      inr (λ r. ground arith, subst Logged {x = r} (ground arith) (refl, inr (e, refl, k)))
  deliver_at log_dest_null e n l k = absurd (n refl)

  -- Where time stamp and level fill at most 8190 bytes: a message is filtered out, and nothing is
  -- written; or it passes while the log file cannot be opened, and -1 is returned and only the
  -- complaint with the message is written; or it passes, and its line is written, which is one whole line of
  -- bytes from 32 to 127 that the buffer holds. The line goes to the stream that the destination says, which
  -- is flushed, or, where it is the log file, closed; then a copy of it goes to the console, if the level or
  -- `verbose` asks for that. Or it goes to the system log. In the first and in the last case 0 is returned.
  pub vlog_outcomes :
      length (head_of env s lvl) ≤ 8190
      → (Filtered s lvl × (vlog env s lvl text ≡ (pos 0, [])))
        ⊎ ((¬ Filtered s lvl)
            × ((Refused × Complained (vlog env s lvl text))
                ⊎ (¬ Refused × Logged (vlog env s lvl text))))
  vlog_outcomes h =
      let (whole, cut) = shown-IsLine env s lvl text h in
      elim (Filtered-cases env s lvl text) [
        | inl f ↦ inl (f, vlog-Filtered env s lvl text f)
        | inr f ↦
            let e = sym (vlog_passed env s lvl text f) in
            let n : s.dest ≢ log_dest_null = λ d. f (inr (inr d)) in
            inr (f, subst Passed e (deliver_at s.dest refl n cut whole))
      ]
