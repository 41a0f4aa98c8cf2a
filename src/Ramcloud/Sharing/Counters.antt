-- ===== src/Ramcloud/Sharing/Counters.antt =====
-- What the steps of Sharing do to the pointers of RedisClientPtr and to their counters.
use hiredispool.Base.{
  ℕ, suc, ◌+◌, ◌<◌, ◌≡◌, ◌≢◌, inl, inr, ◌∙◌, ap, Option, none, some, Option-cases, get_or, set,
  length, length-set, get_or-set_ne, ◌==◌, ltb, if◌then◌else◌, arith,
}
use hiredispool.Platform.Laws.{at_address}
use hiredispool.Client.Replies.Ownership.{owners, times_freed, owners-set}
use hiredispool.Ramcloud.Pointers.{
  Pointers, counter, set_count, add_ref, drop_ref, destroy, assign, destroying, assigning, perform,
}
use hiredispool.Ramcloud.Pointers.Counting.{
  IsCounted, drop_ref-IsCounted, destroy_at, destroy_missing, assign_at, assign_to_none,
  assign_from_none, perform-IsCounted,
}
use hiredispool.Ramcloud.Sharing.{renew}

-- The pointers after `renew`, before what pointer `i` had is given up.
abbrev pub fresh : ℕ → Pointers → Pointers
fresh i s = record s {
  counts = set_count s.counts s.made 1;
  made = suc s.made;
  pointers = set s.pointers i (some s.made);
}

pub renew_empty : (s : Pointers) (i : ℕ) → counter s i ≡ none → renew i s ≡ fresh i s
unfolding renew
renew_empty s i e = ground arith

renew_at :
    (s : Pointers) (i : ℕ) {a : ℕ} → counter s i ≡ some a → renew i s ≡ drop_ref a (fresh i s)
unfolding renew
renew_at s i e = ground arith

fresh-counted :
    (s : Pointers) (i : ℕ)
    → IsCounted s
    → i < length s.pointers
    → (c : ℕ)
    → set_count s.counts s.made 1 c
      ≡ owners (set s.pointers i (some s.made)) c + at_address (counter s i) c
fresh-counted s i h lt c = ground (
  arith,
  h.counted c,
  h.counted s.made,
  h.once s.made,
  owners-set s.pointers i (some s.made) c lt,
)

fresh-once :
    (s : Pointers) (i c : ℕ)
    → IsCounted s
    → times_freed s.deleted c + (if (fresh i s).counts c == 0 then 0 else 1)
      ≡ (if ltb c (fresh i s).made then 1 else 0)
fresh-once s i c h = ground (arith, h.once c, h.once s.made)

pub renew-IsCounted :
    (s : Pointers) (i : ℕ) → IsCounted s → i < length s.pointers → IsCounted (renew i s)
renew-IsCounted s i h lt = elim (Option-cases (counter s i)) [
  | inl e ↦ rw (renew_empty s i e) (record {
    counted = λ c. omega (arith, fresh-counted s i h lt c, ap (λ q. at_address q c) e);
    once = λ c. fresh-once s i c h;
  })
  | inr (a, e) ↦ rw (renew_at s i e) (
      drop_ref-IsCounted (fresh i s) a (record {
        counted = λ c.
            fresh-counted s i h lt c ∙ ap (λ q. owners (fresh i s).pointers c + at_address q c) e;
        once = λ c. fresh-once s i c h;
      }))
]

-- The list of the pointers has its length still, and only pointer `i` may be another.
pub record OnlyAt (i : ℕ) (s t : Pointers) : Type 0 where
  pub long : length t.pointers ≡ length s.pointers
  pub elsewhere : (j : ℕ) → i ≢ j → counter t j ≡ counter s j

set-OnlyAt :
    (i : ℕ) (s t : Pointers) (q : Option ℕ) → t.pointers ≡ set s.pointers i q → OnlyAt i s t
set-OnlyAt i s t q e = record {
  long = ap length e ∙ length-set s.pointers i q;
  elsewhere = λ j other. ap (λ ps. get_or ps j none) e ∙ get_or-set_ne s.pointers i j q none other;
}

none-OnlyAt : (i : ℕ) (s t : Pointers) → t ≡ s → OnlyAt i s t
none-OnlyAt i s t e = record {
  long = ap (λ u. length u.pointers) e;
  elsewhere = λ j other. ap (λ u. counter u j) e;
}

pub renew-OnlyAt : (i : ℕ) (s : Pointers) → OnlyAt i s (renew i s)
unfolding drop_ref
renew-OnlyAt i s = elim (Option-cases (counter s i)) [
  | inl e ↦ set-OnlyAt i s _ (some s.made) (ap (λ t. t.pointers) (renew_empty s i e))
  | inr (a, e) ↦ set-OnlyAt i s _ (some s.made) (ap (λ t. t.pointers) (renew_at s i e))
]

pub destroy-OnlyAt : (i : ℕ) (s : Pointers) → OnlyAt i s (destroy i s)
unfolding drop_ref
destroy-OnlyAt i s = elim (Option-cases (counter s i)) [
  | inl e ↦ none-OnlyAt i s _ (destroy_missing s i e)
  | inr (a, e) ↦ set-OnlyAt i s _ none (ap (λ t. t.pointers) (destroy_at s i e))
]

pub assign-OnlyAt : (i j : ℕ) (s : Pointers) → OnlyAt i s (assign i j s)
unfolding drop_ref add_ref
assign-OnlyAt i j s = elim (Option-cases (counter s i)) [
  | inl e ↦ none-OnlyAt i s _ (assign_to_none s i j e)
  | inr (a, e) ↦ elim (Option-cases (counter s j)) [
    | inl f ↦ none-OnlyAt i s _ (assign_from_none s i j e f)
    | inr (b, f) ↦ set-OnlyAt i s _ (some b) (ap (λ t. t.pointers) (assign_at s i j e f))
  ]
]

pub destroy-IsCounted : (i : ℕ) (s : Pointers) → IsCounted s → IsCounted (destroy i s)
unfolding perform
destroy-IsCounted i s h = perform-IsCounted (destroying i) s h

pub assign-IsCounted : (i j : ℕ) (s : Pointers) → IsCounted s → IsCounted (assign i j s)
unfolding perform
assign-IsCounted i j s h = perform-IsCounted (assigning i j) s h
