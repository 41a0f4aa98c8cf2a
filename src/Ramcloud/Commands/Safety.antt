-- ===== src/Ramcloud/Commands/Safety.antt =====
-- What reading the elements of a reply can end in, command by command.
use hiredispool.Base.{
  ℕ, ◌+◌, ◌*◌, ◌/◌, length, ◌≡◌, ◌≢◌, ◌⊎◌, inl, inr, refl, Bool-cases, Option, none, some, List, [],
  ◌∷◌, ℤ, arith,
}
use hiredispool.Ramcloud.{
  Reply, string, status, error, array, integer, nil, insert, Pack, Server, Access, reads,
  null_pointer, past_end, ok, reply_of, elements_of,
}
use hiredispool.Ramcloud.Replies.{reply2status, array_of}
use hiredispool.Ramcloud.Replies.Laws.{ok-reply, array_of-safe, array_of-inside}
use hiredispool.Ramcloud.Strings.{fill, fill_from, mget}
use hiredispool.Ramcloud.Indices.{Reads, and_then-Reads, element_at-Reads, for_elements-Reads}
use hiredispool.Ramcloud.Sets.{insert_all, members_from, smembers}
use hiredispool.Ramcloud.Hashes.{insert_pairs, pairs_from, hgetall, hmget}
use hiredispool.Ramcloud.Ranges.{
  push_all, push_scores, pushed, pushed_scores, zrange_impl, zrange_with_scores_impl,
  zrangbyscore_impl, zrangbyscore_with_scores_impl,
}

Access-cases {ℓ} : {A : Type ℓ} (a : Access A) → Reads a ⊎ (a ≡ null_pointer) ⊎ (a ≡ past_end)
Access-cases (reads v) = inl (v, refl)
Access-cases null_pointer = inr (inl refl)
Access-cases past_end = inr (inr refl)

array_of-Reads : (p : Option Pack) → Reads (array_of (reply2status p) (reply_of p))
array_of-Reads p = elim (Access-cases (array_of (reply2status p) (reply_of p))) [
  | inl r ↦ r
  | inr (inl n) ↦ absurd (array_of-safe p n)
  | inr (inr n) ↦ absurd (array_of-inside _ _ n)
]

fill-safe :
    (ks : List (List ℕ)) (es : List Reply) (d : List (List ℕ × List ℕ))
    → fill ks es d ≢ null_pointer
unfolding fill
fill-safe [] es d e = cc
fill-safe (k ∷ ks) [] d e = cc
fill-safe (k ∷ ks) (string s ∷ es) d e = fill-safe ks es (insert k s d) e
fill-safe (k ∷ ks) (status s ∷ es) d e = fill-safe ks es d e
fill-safe (k ∷ ks) (error s ∷ es) d e = fill-safe ks es d e
fill-safe (k ∷ ks) (array xs ∷ es) d e = fill-safe ks es d e
fill-safe (k ∷ ks) (integer z ∷ es) d e = fill-safe ks es d e
fill-safe (k ∷ ks) (nil ∷ es) d e = fill-safe ks es d e

fill_from-safe :
    (ks : List (List ℕ)) (a : Access (Option (List Reply))) (d : List (List ℕ × List ℕ))
    → Reads a
    → fill_from ks a d ≢ null_pointer
unfolding fill_from
fill_from-safe ks (reads (some es)) d r = fill-safe ks es d
fill_from-safe ks (reads none) d r = λ e. cc
fill_from-safe ks null_pointer d (v, r) = absurd (cc r)
fill_from-safe ks past_end d (v, r) = absurd (cc r)

-- The loops of the commands stay within the elements: to the last one, or to the last pair.
insert_all-Reads : (es : List Reply) (members : List (List ℕ)) → Reads (insert_all es members)
unfolding insert_all
insert_all-Reads es members =
    for_elements-Reads _ (length es) (length es) 0 members
      (λ j t h. and_then-Reads _ _ (element_at-Reads es j h) (λ e. (_, refl))) (omega arith)

insert_pairs-Reads : (es : List Reply) (d : List (List ℕ × List ℕ)) → Reads (insert_pairs es d)
unfolding insert_pairs
insert_pairs-Reads es d =
    for_elements-Reads _ (length es / 2) (length es / 2) 0 d
      (λ j t h.
        and_then-Reads _ _ (element_at-Reads es (j * 2) (omega arith)) (λ f.
          and_then-Reads _ _ (element_at-Reads es (j * 2 + 1) (omega arith)) (λ v. (_, refl))))
      (omega arith)

push_all-Reads : (es : List Reply) (members : List (List ℕ)) → Reads (push_all es members)
unfolding push_all
push_all-Reads es members =
    for_elements-Reads _ (length es) (length es) 0 members
      (λ j t h. and_then-Reads _ _ (element_at-Reads es j h) (λ e. (_, refl))) (omega arith)

members_from-Reads :
    (p : Option Pack) (o : Option Reply) (members : List (List ℕ))
    → o ≡ reply_of p
    → Reads (members_from (reply2status p) o members)
unfolding members_from
members_from-Reads p (some r) members e = elim (Bool-cases (ok (reply2status p))) [
  | inl success ↦ rw success (insert_all-Reads (elements_of r) members)
  | inr no_success ↦ rw no_success (members, refl)
]
members_from-Reads p none members e = elim (Bool-cases (ok (reply2status p))) [
  | inr no_success ↦ (members, ground arith)
  | inl success ↦ let (r, f) = ok-reply p success in absurd (cc (e, f))
]

pairs_from-Reads :
    (a : Access (Option (List Reply))) (d : List (List ℕ × List ℕ))
    → Reads a
    → Reads (pairs_from a d)
unfolding pairs_from
pairs_from-Reads (reads (some es)) d r = insert_pairs-Reads es d
pairs_from-Reads (reads none) d r = (d, refl)
pairs_from-Reads null_pointer d (v, r) = absurd (cc r)
pairs_from-Reads past_end d (v, r) = absurd (cc r)

pushed-Reads :
    (a : Access (Option (List Reply))) (members : List (List ℕ))
    → Reads a
    → Reads (pushed a members)
unfolding pushed
pushed-Reads (reads (some es)) members r = push_all-Reads es members
pushed-Reads (reads none) members r = (members, refl)
pushed-Reads null_pointer members (v, r) = absurd (cc r)
pushed-Reads past_end members (v, r) = absurd (cc r)

module _ {W D : Type 0} (t : Server W D) where
  push_scores-Reads :
      (es : List Reply) (members : List (List ℕ × D)) → Reads (push_scores t es members)
  unfolding push_scores
  push_scores-Reads es members =
      for_elements-Reads _ (length es / 2) (length es / 2) 0 members
        (λ j s h. and_then-Reads _ _ (element_at-Reads es (j * 2) (omega arith)) (λ m.
          and_then-Reads _ _ (element_at-Reads es (j * 2 + 1) (omega arith)) (λ e. (_, refl))))
        (omega arith)

  pushed_scores-Reads :
      (a : Access (Option (List Reply))) (members : List (List ℕ × D))
      → Reads a
      → Reads (pushed_scores t a members)
  unfolding pushed_scores
  pushed_scores-Reads (reads (some es)) members r = push_scores-Reads es members
  pushed_scores-Reads (reads none) members r = (members, refl)
  pushed_scores-Reads null_pointer members (v, r) = absurd (cc r)
  pushed_scores-Reads past_end members (v, r) = absurd (cc r)

  -- Whatever the server answers, and where it does not answer: the commands that read the elements of a
  -- reply read no NULL; SMEMBERS, HGETALL and the four ways to read a range read nothing behind the
  -- elements either.
  pub commands_safe :
      (key cmd score1 score2 : List ℕ) (keys members : List (List ℕ)) (i j : ℤ)
      (d : List (List ℕ × List ℕ)) (scores : List (List ℕ × D)) (w : W)
      → ((mget t keys d w).1 ≢ null_pointer)
        × ((hmget t key keys d w).1 ≢ null_pointer)
        × Reads (smembers t key members w).1
        × Reads (hgetall t key d w).1
        × Reads (zrange_impl t cmd key i j members w).1
        × Reads (zrange_with_scores_impl t cmd key i j scores w).1
        × Reads (zrangbyscore_impl t cmd key score1 score2 members w).1
        × Reads (zrangbyscore_with_scores_impl t cmd key score1 score2 scores w).1
  unfolding mget hmget smembers hgetall zrange_impl zrange_with_scores_impl zrangbyscore_impl
      zrangbyscore_with_scores_impl
  commands_safe key cmd score1 score2 keys members i j d scores w = (
    fill_from-safe keys _ d (array_of-Reads _),
    fill_from-safe keys _ d (array_of-Reads _),
    members_from-Reads _ _ members refl,
    pairs_from-Reads _ d (array_of-Reads _),
    pushed-Reads _ members (array_of-Reads _),
    pushed_scores-Reads _ scores (array_of-Reads _),
    pushed-Reads _ members (array_of-Reads _),
    pushed_scores-Reads _ scores (array_of-Reads _),
  )
