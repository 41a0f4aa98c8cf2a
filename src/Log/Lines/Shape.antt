-- ===== src/Log/Lines/Shape.antt =====
-- The lines that the logger writes: one line each, of bytes from 32 to 127, within the buffer.
use hiredispool.Base.{
  ℕ, suc, ◌+◌, ◌-◌, ◌<◌, ◌≤◌, ◌≡◌, ◌⊎◌, inl, inr, ◌∙◌, refl, sym, ap, subst, List, [], ◌∷◌, ◌++◌,
  map, take, drop, length, length-take, arith, All, length-append, take-all, All-append, All-drop,
  drop-append, length-drop,
}
use hiredispool.Log.{LogState, LogEnv, log_dest_syslog}
use hiredispool.Log.Lines.{stamp_of, head_of, level_text, clean_byte, line_of, shown}

-- What the loop lets through: the printable characters of ASCII, and DEL.
abbrev pub IsPrintable : ℕ → Type 0
IsPrintable x = (32 ≤ x) × (x < 128)

-- Such bytes and a newline, which the buffer holds.
abbrev pub IsLine : List ℕ → Type 0
IsLine s = (b : List ℕ) × (s ≡ b ++ b'\n' ∷ []) × All IsPrintable b × (length s < 8192)

clean_byte-IsPrintable : (x : ℕ) → IsPrintable (clean_byte x)
unfolding clean_byte
clean_byte-IsPrintable x = ground arith

clean_byte-printable : (x : ℕ) → IsPrintable x → clean_byte x ≡ x
unfolding clean_byte
clean_byte-printable x h = ground arith

map-IsPrintable : (s : List ℕ) → All IsPrintable (map clean_byte s)
map-IsPrintable [] = tt
map-IsPrintable (x ∷ s) = (clean_byte-IsPrintable x, map-IsPrintable s)

map-printable : (s : List ℕ) → All IsPrintable s → map clean_byte s ≡ s
map-printable [] h = refl
map-printable (x ∷ s) h = ground (arith, clean_byte-printable x h.0, map-printable s h.1)

length-map : (f : ℕ → ℕ) (s : List ℕ) → length (map f s) ≡ length s
length-map f [] = refl
length-map f (x ∷ s) = ap suc (length-map f s)

-- The bytes of the buffer in front of the newline.
module _ (env : LogEnv) (s : LogState) (lvl : ℕ) (text : List ℕ) where
  abbrev body : List ℕ
  body = map clean_byte (head_of env s lvl ++ take (8192 - length (head_of env s lvl) - 1 - 1) text)

  length-body : length (head_of env s lvl) ≤ 8190 → length body ≤ 8190
  length-body h =
      let head = head_of env s lvl in
      let rest = take (8192 - length head - 1 - 1) text in
      omega (
        arith,
        length-map clean_byte (head ++ rest),
        length-append head rest,
        length-take (8192 - length head - 1 - 1) text,
      )

  stamp_of-syslog : s.dest ≡ log_dest_syslog → stamp_of env s ≡ []
  unfolding stamp_of
  stamp_of-syslog e = ground arith

  length-stamp_of : length (stamp_of env s) ≤ length (head_of env s lvl)
  unfolding head_of
  length-stamp_of =
      grind (arith, length-append (stamp_of env s) (level_text env lvl), stamp_of-syslog)

  stamp-body : length (stamp_of env s) ≤ length body
  stamp-body =
      let head = head_of env s lvl in
      let rest = take (8192 - length head - 1 - 1) text in
      omega (arith, length-map clean_byte (head ++ rest), length-append head rest, length-stamp_of)

  line_of-IsLine : length (head_of env s lvl) ≤ 8190 → IsLine (line_of env s lvl text)
  unfolding line_of
  line_of-IsLine h =
      (body, refl, map-IsPrintable _, omega (arith, length-append body (b'\n' ∷ []), length-body h))

  drop-IsLine :
      length (head_of env s lvl) ≤ 8190
      → IsLine (drop (length (stamp_of env s)) (line_of env s lvl text))
  unfolding line_of
  drop-IsLine h =
      let n = length (stamp_of env s) in
      (
        drop n body,
        drop-append n body (b'\n' ∷ []) stamp-body,
        All-drop IsPrintable n body (map-IsPrintable _),
        omega (
          arith,
          length-append body (b'\n' ∷ []),
          length-body h,
          length-drop n (body ++ b'\n' ∷ []),
        ),
      )

  shown_cases :
      (shown env s lvl text ≡ line_of env s lvl text)
      ⊎ (shown env s lvl text ≡ drop (length (stamp_of env s)) (line_of env s lvl text))
  unfolding shown
  shown_cases = ground arith

  -- Whatever the message is, a line comes out that the buffer holds, with or without its time stamp:
  -- a message cannot begin a line of its own.
  pub shown-IsLine :
      length (head_of env s lvl) ≤ 8190
      → IsLine (line_of env s lvl text) × IsLine (shown env s lvl text)
  shown-IsLine h = (
    line_of-IsLine h,
    elim shown_cases [
      | inl e ↦ subst IsLine (sym e) (line_of-IsLine h)
      | inr e ↦ subst IsLine (sym e) (drop-IsLine h)
    ],
  )

  -- A message of such bytes that fits is not changed: the line is the time stamp, the level,
  -- the message and a newline.
  pub line_of_exact :
      All IsPrintable (head_of env s lvl)
      → All IsPrintable text
      → length (head_of env s lvl) + length text ≤ 8190
      → line_of env s lvl text ≡ head_of env s lvl ++ text ++ b'\n' ∷ []
  unfolding line_of
  line_of_exact h k l =
      let head = head_of env s lvl in
      let n = 8192 - length head - 1 - 1 in
      ap (λ t. map clean_byte (head ++ t) ++ b'\n' ∷ []) (take-all n text (omega arith))
      ∙ ap (λ t. t ++ b'\n' ∷ [])
          (map-printable (head ++ text) (All-append IsPrintable head text h k))
