-- ===== src/Log/Names/Folders.antt =====
-- The directory of the log file: which directories _set_logfile makes, and the one that
-- convert_logfilename ends up in.
use mathlib.Core.List.{append-nil, append_assoc}
use hiredispool.Base.{
  ℕ, suc, ◌+◌, ◌<◌, ◌≤◌, ◌≡◌, ◌≢◌, ◌∙◌, refl, sym, ap, subst, Bool, true, false, some, List, [],
  ◌∷◌, ◌++◌, length, ◌==◌, if◌then◌else◌, arith, All, length-append, All-append, take-all,
}
use hiredispool.Log.{LogState, LogEnv}
use hiredispool.Log.Names.{make_dirs, log_dir, set_logfile, convert_logfilename}
use hiredispool.Log.Names.Laws.{Lacks, split_last-append, convert_dated, insert_date-append}

make_dirs-lacking : (before s : List ℕ) → Lacks b'/' s → make_dirs before s ≡ []
unfolding make_dirs
make_dirs-lacking before [] h = refl
make_dirs-lacking before (x ∷ s) h = ground (arith, make_dirs-lacking (before ++ x ∷ []) s h.1, h.0)

if_append :
    (c : Bool) (x : List ℕ) (p q r : List (List ℕ))
    → p ≡ q ++ r
    → (if c then x ∷ p else p) ≡ (if c then x ∷ q else q) ++ r
if_append true x p q r e = ap (◌∷◌ x) e
if_append false x p q r e = e

make_dirs-append :
    (before a b : List ℕ)
    → make_dirs before (a ++ b) ≡ make_dirs before a ++ make_dirs (before ++ a) b
unfolding make_dirs
make_dirs-append before [] b = ap (λ x. make_dirs x b) (sym (append-nil before))
make_dirs-append before (x ∷ a) b =
    let e = make_dirs-append (before ++ x ∷ []) a b in
    let f = append_assoc before (x ∷ []) a in
    if_append (x == b'/') before _ _ _
      (e ∙ ap (λ t. make_dirs (before ++ x ∷ []) a ++ make_dirs t b) f)

make_dirs-file :
    (a b : List ℕ) → Lacks b'/' b → make_dirs [] (a ++ b'/' ∷ b) ≡ make_dirs [] a ++ a ∷ []
unfolding make_dirs
make_dirs-file a b l =
    make_dirs-append [] a (b'/' ∷ b)
    ∙ ap (λ t. make_dirs [] a ++ a ∷ t) (make_dirs-lacking (a ++ b'/' ∷ []) b l)

log_dir-file : (old a b : List ℕ) → Lacks b'/' b → length a < 1024 → log_dir old (a ++ b'/' ∷ b) ≡ a
unfolding log_dir
log_dir-file old a b l h =
    ground (arith, split_last-append b'/' a b l, take-all 1023 a (omega arith))

-- A log file in a directory, with a path that fits the buffer: the loop makes the directories
-- above that directory, and then the directory itself, and the directory and the path are kept.
pub set_logfile_lem :
    (s : LogState) (a b : List ℕ)
    → Lacks b'/' b
    → length (a ++ b'/' ∷ b) < 1024
    → set_logfile s (some (a ++ b'/' ∷ b))
      ≡ (record s { dir = a; file = a ++ b'/' ∷ b }, make_dirs [] a ++ a ∷ [])
unfolding set_logfile
set_logfile_lem s a b l h =
    let name = a ++ b'/' ∷ b in
    let short = take-all 1023 name (omega arith) in
    let dir = log_dir-file s.dir a b l (omega (arith, length-append a (b'/' ∷ b))) in
    ap (λ n. (record s { dir = log_dir s.dir n; file = n }, make_dirs [] n)) short
    ∙ ap (λ d. (record s { dir = d; file = name }, make_dirs [] name)) dir
    ∙ ap (λ m. (record s { dir = a; file = name }, m)) (make_dirs-file a b l)

if_All :
    (P : List ℕ → Type 0) (c : Bool) (x : List ℕ) (xs : List (List ℕ))
    → P x
    → All P xs
    → All P (if c then x ∷ xs else xs)
if_All P true x xs p h = (p, h)
if_All P false x xs p h = h

-- The directories that the loop makes are at most as long as the string up to its last separator.
make_dirs-bounds :
    (before a b : List ℕ)
    → Lacks b'/' b
    → All (λ d. length d ≤ length before + length a) (make_dirs before (a ++ b'/' ∷ b))
unfolding make_dirs
make_dirs-bounds before [] b l = (
  omega arith,
  subst (All (λ d. length d ≤ length before + 0))
      (sym (make_dirs-lacking (before ++ b'/' ∷ []) b l)) tt,
)
make_dirs-bounds before (x ∷ a) b l =
    let e : length (before ++ x ∷ []) + length a ≡ length before + suc (length a) =
      omega (arith, length-append before (x ∷ [])) in
    let path = before ++ x ∷ [] in
    let rest = make_dirs-bounds (before ++ x ∷ []) a b l in
    if_All _ (x == b'/') before _ (omega arith)
      (subst (λ m. All (λ d. length d ≤ m) (make_dirs path (a ++ b'/' ∷ b))) e rest)

All-weaken :
    (P Q : List ℕ → Type 0) (f : (d : List ℕ) → P d → Q d) (xs : List (List ℕ))
    → All P xs
    → All Q xs
All-weaken P Q f [] h = tt
All-weaken P Q f (x ∷ xs) h = (f x h.0, All-weaken P Q f xs h.1)

-- A file without a dot in a directory with one, `a.b/c`: the date goes into the name of the
-- directory, and none of the directories that _set_logfile makes is the one that the file is
-- looked for in.
pub dotted_directory :
    (env : LogEnv) (a b c d : List ℕ) (n : ℕ)
    → Lacks b'.' b
    → Lacks b'.' c
    → Lacks b'/' c
    → env.date ≡ some d
    → length d ≡ 8
    → length (a ++ b'.' ∷ (b ++ b'/' ∷ c)) + 10 ≤ n
    → let made = make_dirs [] (a ++ b'.' ∷ (b ++ b'/' ∷ c)) in
      let folder = a ++ b'.' ∷ (d ++ b'.' ∷ b) in
      (convert_logfilename env (a ++ b'.' ∷ (b ++ b'/' ∷ c)) n ≡ folder ++ b'/' ∷ c)
      × All (λ x. x ≢ folder) made
dotted_directory env a b c d n lb lc lc' f g h =
    let slash = b'/' ∷ c in
    let lacks = All-append (λ x. x ≢ b'.') b slash lb (λ e. ground arith, lc) in
    let e =
      convert_dated env (a ++ b'.' ∷ (b ++ slash)) d n h f
      ∙ insert_date-append a (b ++ slash) d lacks in
    let bounds = make_dirs-bounds [] (a ++ b'.' ∷ b) c lc' in
    let folder = a ++ b'.' ∷ (d ++ b'.' ∷ b) in
    let longer : length (a ++ b'.' ∷ b) < length folder = omega (
      arith,
      length-append a (b'.' ∷ b),
      length-append a (b'.' ∷ (d ++ b'.' ∷ b)),
      length-append d (b'.' ∷ b),
    ) in
    (
      e
          ∙ ap (λ t. a ++ b'.' ∷ t) (sym (append_assoc d (b'.' ∷ b) slash))
          ∙ sym (append_assoc a (b'.' ∷ (d ++ b'.' ∷ b)) slash),
      subst (λ t. All (λ x. x ≢ folder) (make_dirs [] t)) (append_assoc a (b'.' ∷ b) slash)
          (All-weaken _ _ (λ x k q. omega (arith, ap length q)) _ bounds),
    )
