-- ===== src/Log/Names/Laws.antt =====
-- The names of log files: where the date goes, and that the buffers hold them.
use hiredispool.Base.{
  ℕ, ◌+◌, ◌-◌, ◌<◌, ◌≤◌, ◌≡◌, ◌≢◌, ◌⊎◌, inl, inr, ◌∙◌, refl, sym, ap, subst, Option-cases,
  Bool-cases, none, some, List, [], ◌∷◌, ◌++◌, take, length, length-take, ltb, arith, All,
  length-append, eq_cases,
}
use hiredispool.Log.{LogEnv}
use hiredispool.Log.Names.{split_last, insert_date, convert_logfilename}

-- No byte of `s` is `c`.
abbrev pub Lacks : ℕ → List ℕ → Type 0
Lacks c s = All (λ x. x ≢ c) s

pub split_last-lacking : (c : ℕ) (s : List ℕ) → Lacks c s → split_last c s ≡ none
unfolding split_last
split_last-lacking c [] h = refl
split_last-lacking c (x ∷ xs) h = ground (arith, split_last-lacking c xs h.1, h.0)

pub split_last-append :
    (c : ℕ) (a b : List ℕ) → Lacks c b → split_last c (a ++ c ∷ b) ≡ some (a, c ∷ b)
unfolding split_last
split_last-append c [] b h = ground (arith, split_last-lacking c b h)
split_last-append c (x ∷ a) b h = ground (arith, split_last-append c a b h)

-- The string is what precedes its last `c`, that `c`, and bytes that are not `c`.
pub split_last-Parts :
    (c : ℕ) (s : List ℕ) → Lacks c s ⊎ ((a : List ℕ) × (b : List ℕ) × (s ≡ a ++ c ∷ b) × Lacks c b)
split_last-Parts c [] = inl tt
split_last-Parts c (x ∷ xs) = elim (split_last-Parts c xs) [
  | inr (a, b, e, l) ↦ inr (x ∷ a, b, ap (◌∷◌ x) e, l)
  | inl l ↦ elim (eq_cases x c) [ inl e ↦ inr ([], xs, ap (λ y. y ∷ xs) e, l) | inr n ↦ inl (n, l) ]
]

-- What is opened for the name `origin` on a given date: the date stands before the last dot, or at
-- the end of a name without one.
abbrev pub Dated : List ℕ → List ℕ → List ℕ → Type 0
Dated origin date name =
    (Lacks b'.' origin × (name ≡ origin ++ b'.' ∷ date))
    ⊎ ((a : List ℕ) × (b : List ℕ) × (origin ≡ a ++ b'.' ∷ b)
        × Lacks b'.' b
        × (name ≡ a ++ b'.' ∷ (date ++ b'.' ∷ b)))

pub insert_date-append :
    (a b d : List ℕ) → Lacks b'.' b → insert_date (a ++ b'.' ∷ b) d ≡ a ++ b'.' ∷ (d ++ b'.' ∷ b)
unfolding insert_date
insert_date-append a b d l = ground (arith, split_last-append b'.' a b l)

insert_date-Dated : (origin date : List ℕ) → Dated origin date (insert_date origin date)
unfolding insert_date
insert_date-Dated origin date = elim (split_last-Parts b'.' origin) [
  | inl l ↦ inl (l, ground (arith, split_last-lacking b'.' origin l))
  | inr (a, b, e, l) ↦
      inr (a, b, e, l, ap (λ o. insert_date o date) e ∙ insert_date-append a b date l)
]

length-Dated :
    (origin date name : List ℕ)
    → Dated origin date name
    → length name ≡ length origin + 1 + length date
length-Dated origin date name (inl (l, e)) =
    omega (arith, ap length e, length-append origin (b'.' ∷ date))
length-Dated origin date name (inr (a, b, e, l, f)) = omega (
  arith,
  ap length e,
  ap length f,
  length-append a (b'.' ∷ b),
  length-append a (b'.' ∷ date ++ b'.' ∷ b),
  length-append date (b'.' ∷ b),
)

-- `n` bytes hold the string `s` and its NUL.
abbrev pub Fits : ℕ → List ℕ → Type 0
Fits n s = length s < n

convert_cut :
    (env : LogEnv) (origin : List ℕ) (n : ℕ)
    → (n < length origin + 10) ⊎ (env.date ≡ none)
    → convert_logfilename env origin n ≡ take (n - 1) origin
unfolding convert_logfilename
convert_cut env origin n (inl h) = ground arith
convert_cut env origin n (inr h) = ground arith

pub convert_dated :
    (env : LogEnv) (origin d : List ℕ) (n : ℕ)
    → length origin + 10 ≤ n
    → env.date ≡ some d
    → convert_logfilename env origin n ≡ insert_date origin d
unfolding convert_logfilename
convert_dated env origin d n h e = ground arith

Fits-take : (n : ℕ) (s : List ℕ) → 0 < n → Fits n (take (n - 1) s)
Fits-take n s h = omega (arith, length-take (n - 1) s)

-- What `converted` holds after convert_logfilename: the start of `origin`, or the dated name.
abbrev pub Named : LogEnv → List ℕ → ℕ → List ℕ → Type 0
Named env origin n name =
    ((name ≡ take (n - 1) origin) × ((n < length origin + 10) ⊎ (env.date ≡ none)))
    ⊎ ((d : List ℕ) × (env.date ≡ some d) × Dated origin d name)

Named-cut :
    (env : LogEnv) (origin : List ℕ) (n : ℕ)
    → 0 < n
    → (n < length origin + 10) ⊎ (env.date ≡ none)
    → Fits n (convert_logfilename env origin n)
      × Named env origin n (convert_logfilename env origin n)
Named-cut env origin n h c =
    let e = convert_cut env origin n c in
    (subst (Fits n) (sym e) (Fits-take n origin h), inl (e, c))

Named-dated :
    (env : LogEnv) (origin d : List ℕ) (n : ℕ)
    → length origin + 10 ≤ n
    → env.date ≡ some d
    → length d ≡ 8
    → Fits n (convert_logfilename env origin n)
      × Named env origin n (convert_logfilename env origin n)
Named-dated env origin d n h f l =
    let e = convert_dated env origin d n h f in
    let k = insert_date-Dated origin d in
    (
      omega (arith, ap length e, length-Dated origin d (insert_date origin d) k),
      inr (d, f, subst (Dated origin d) (sym e) k),
    )

-- With a buffer that is not empty and a date of eight bytes, the name is the one given, cut off at
-- the size of the buffer, where there is no room for a date or there is no date, and else it has
-- the date before its last dot, or at its end if it has no dot. It fits the buffer with its NUL.
pub convert_cases :
    (env : LogEnv) (origin : List ℕ) (n : ℕ)
    → 0 < n
    → ((d : List ℕ) → env.date ≡ some d → length d ≡ 8)
    → Fits n (convert_logfilename env origin n)
      × Named env origin n (convert_logfilename env origin n)
convert_cases env origin n h g = elim (Bool-cases (ltb n (length origin + 10))) [
  | inl e ↦ Named-cut env origin n h (inl (ground arith))
  | inr e ↦ elim (Option-cases env.date) [
    | inl f ↦ Named-cut env origin n h (inr f)
    | inr (d, f) ↦ Named-dated env origin d n (ground arith) f (g d f)
  ]
]
