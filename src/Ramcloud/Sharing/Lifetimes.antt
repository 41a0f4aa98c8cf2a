-- ===== src/Ramcloud/Sharing/Lifetimes.antt =====
-- Whether a client can be deleted while a thread is in one of its methods.
use hiredispool.Base.{
  ℕ, suc, ◌<◌, ◌≡◌, ◌≢◌, inl, inr, ◌∙◌, refl, sym, ap, subst, none, some, set, length-set,
  get_or-set_ne, get_or-set_same, eq_cases, arith,
}
use hiredispool.Client.Replies.Ownership.{times_freed}
use hiredispool.Ramcloud.Pointers.{Pointers, counter, add_ref, drop_ref, destroy, assign}
use hiredispool.Ramcloud.Pointers.Counting.{lt-counter, owners-counter, destroy_at, assign_at}
use hiredispool.Ramcloud.Sharing.{
  Doing, outside, ready, within, Usage, renew, turns, Turn, deletes, finds, creates, fails, calls,
  gives_up, returns, unused, Reached, starts, turn,
}
use hiredispool.Threads.Ownership.{update_same, update_other}
use hiredispool.Ramcloud.Sharing.Counters.{
  fresh, renew_empty, OnlyAt, renew-OnlyAt, destroy-OnlyAt, assign-OnlyAt,
}
use hiredispool.Ramcloud.Sharing.Whole.{Reached-IsWhole}

module _ (n : ℕ) (object : ℕ → ℕ) (apart : (a b : ℕ) → object a ≡ object b → a ≡ b) where
  -- A thread that is in a method of a client holds it by the member of its object.
  abbrev IsHeld : Usage → Type 0
  IsHeld s = (a c : ℕ) → s.doing a ≡ within c → counter s.refs (suc (object a)) ≡ some c

  -- Thread `a` changes no pointer but the first and that of its object.
  turns-IsHeld :
      (s : Usage) (a : ℕ) (refs : Pointers) (d : Doing)
      → IsHeld s
      → ((j : ℕ) → j ≢ object a → counter refs (suc j) ≡ counter s.refs (suc j))
      → ((c : ℕ) → d ≡ within c → counter refs (suc (object a)) ≡ some c)
      → IsHeld (turns s a refs d)
  turns-IsHeld s a refs d h kept mine b c e = elim (eq_cases b a) [
    | inl same ↦
        subst (λ x. counter refs (suc (object x)) ≡ some c) (sym same)
          (mine c (sym (update_same s.doing a b d same) ∙ e))
    | inr other ↦
        kept (object b) (λ f. other (apart b a f))
        ∙ h b c (sym (update_other s.doing a b d other) ∙ e)
  ]

  -- `_init` with a client from instMap, where `refs` differs at most there.
  assigned-IsHeld :
      (s : Usage) (a : ℕ) (refs : Pointers)
      → IsHeld s
      → OnlyAt 0 s.refs refs
      → IsHeld (turns s a (assign (suc (object a)) 0 refs) ready)
  assigned-IsHeld s a refs h only =
      let to = assign-OnlyAt (suc (object a)) 0 refs in
      turns-IsHeld s a (assign (suc (object a)) 0 refs) ready h
        (λ j ne.
          to.elsewhere (suc j) (λ e. ne (omega (arith, e))) ∙ only.elsewhere (suc j) (omega arith))
        (λ c e. cc)

  Turn-IsHeld : (s t : Usage) → Turn n object s t → IsHeld s → IsHeld t
  Turn-IsHeld s t (deletes _) h =
      λ a c e. (destroy-OnlyAt 0 s.refs).elsewhere (suc (object a)) (omega arith) ∙ h a c e
  Turn-IsHeld s t (finds _ a c e i f) h =
      assigned-IsHeld s a s.refs h (record { long = refl; elsewhere = λ j ne. refl })
  Turn-IsHeld s t (creates _ a e i f) h =
      assigned-IsHeld s a (renew 0 s.refs) h (renew-OnlyAt 0 s.refs)
  Turn-IsHeld s t (fails _ a e i f) h =
      let only = renew-OnlyAt (suc (object a)) s.refs in
      turns-IsHeld s a (renew (suc (object a)) s.refs) ready h
        (λ j ne. only.elsewhere (suc j) (λ e. ne (omega (arith, e)))) (λ c e. cc)
  Turn-IsHeld s t (calls _ a c e f g) h =
      turns-IsHeld s a s.refs (within c) h (λ j ne. refl) (λ d k. cc (f, k))
  Turn-IsHeld s t (gives_up _ a c e f g) h =
      turns-IsHeld s a s.refs outside h (λ j ne. refl) (λ c e. cc)
  Turn-IsHeld s t (returns _ a c e) h = turns-IsHeld s a s.refs outside h (λ j ne. refl) (λ c e. cc)

  Reached-IsHeld : (s : Usage) → Reached n object s → IsHeld s
  unfolding unused
  Reached-IsHeld _ starts = λ a c e. cc
  Reached-IsHeld t (turn s _ r step) = Turn-IsHeld s t step (Reached-IsHeld s r)

-- `n` objects, none of which is used by two threads: while a thread is in a method of a client, there is a
-- pointer to that client, and it has not been deleted, whatever the others do, and however often the
-- clients are taken out of the map and made again.
pub own_client_alive :
    (n : ℕ) (object : ℕ → ℕ) (s : Usage) (a c : ℕ)
    → ((x y : ℕ) → object x ≡ object y → x ≡ y)
    → Reached n object s
    → s.doing a ≡ within c
    → (0 < s.refs.counts c) × (times_freed s.refs.deleted c ≡ 0)
own_client_alive n object s a c apart r e =
    let h = (Reached-IsWhole n object s r).counted in
    let one = owners-counter s.refs (suc (object a)) (Reached-IsHeld n object apart s r a c e) in
    (omega (arith, h.counted c), ground (arith, h.counted c, h.once c))

-- Client `c` is taken out of the map, and a new one made for the next command on an object that has `c`,
-- where nothing else refers to `c`.
module _ (s : Pointers) (i c : ℕ) (listed : counter s 0 ≡ some c)
    (member : counter s (suc i) ≡ some c) (two : s.counts c ≡ 2) (old : c ≢ s.made) where
  abbrev dropped : Pointers
  dropped = drop_ref c (record s { pointers = set s.pointers 0 none })

  dropped_empty : counter dropped 0 ≡ none
  unfolding drop_ref
  dropped_empty = get_or-set_same s.pointers 0 none none (lt-counter s.pointers 0 listed)

  dropped_counts : (dropped.counts c ≡ 1) × (dropped.made ≡ s.made)
  unfolding drop_ref
  dropped_counts = (ground arith, refl)

  abbrev newly_made : Pointers
  newly_made = fresh 0 dropped

  assign-newly_made :
      assign (suc i) 0 (renew 0 (destroy 0 s))
      ≡ drop_ref c (record (add_ref s.made newly_made) {
        pointers = set newly_made.pointers (suc i) (some s.made);
      })
  unfolding drop_ref
  assign-newly_made =
      let lt = lt-counter s.pointers 0 listed in
      let on : counter newly_made (suc i) ≡ some c =
        get_or-set_ne dropped.pointers 0 (suc i) (some s.made) none (omega arith)
        ∙ get_or-set_ne s.pointers 0 (suc i) none none (omega arith)
        ∙ member in
      let first : counter newly_made 0 ≡ some s.made =
        get_or-set_same dropped.pointers 0 (some s.made) none
          (omega (arith, length-set s.pointers 0 none)) in
      ap (λ x. assign (suc i) 0 (renew 0 x)) (destroy_at s 0 listed)
      ∙ ap (assign (suc i) 0) (renew_empty dropped 0 dropped_empty)
      ∙ assign_at newly_made (suc i) 0 on first

  assigned-deleted : 0 < times_freed (assign (suc i) 0 (renew 0 (destroy 0 s))).deleted c
  unfolding drop_ref add_ref times_freed
  assigned-deleted = rw assign-newly_made (ground (arith, dropped_counts))

-- Two threads give commands through one object. The first is in a method of the client of the object, to
-- which only the map and the object refer; the second is in no command. Then it can happen that the client
-- is taken out of the map, that the second thread begins a command, which makes a new client for the map
-- and the object, and that the client is thereby deleted while the first thread is in its method.
pub shared_client_deleted :
    (n : ℕ) (object : ℕ → ℕ) (s : Usage) (a b c : ℕ)
    → Reached n object s
    → object b ≡ object a
    → object a < n
    → s.doing a ≡ within c
    → s.doing b ≡ outside
    → counter s.refs 0 ≡ some c
    → counter s.refs (suc (object a)) ≡ some c
    → s.refs.counts c ≡ 2
    → (t : Usage) × Reached n object t × (t.doing a ≡ within c) × (0 < times_freed t.refs.deleted c)
shared_client_deleted n object s a b c r same inside first second listed member two =
    let gone : Usage = record s { refs = destroy 0 s.refs } in
    let whole = Reached-IsWhole n object s r in
    let old : c ≢ s.refs.made = λ e. ground (arith, two, whole.counted.once c, e) in
    let empty : counter gone.refs 0 ≡ none =
      ap (λ x. counter x 0) (destroy_at s.refs 0 listed)
      ∙ dropped_empty s.refs (object a) c listed member two old in
    let step = creates gone b second (subst (λ x. x < n) (sym same) inside) empty in
    (
      _,
      turn gone _ (turn s gone r (deletes s)) step,
      update_other s.doing b a ready (λ e. absurd (cc (ap s.doing e, first, second))) ∙ first,
      subst (λ x. 0 < times_freed (assign (suc x) 0 (renew 0 gone.refs)).deleted c) (sym same)
          (assigned-deleted s.refs (object a) c listed member two old),
    )
