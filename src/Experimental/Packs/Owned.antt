-- ===== src/Experimental/Packs/Owned.antt =====
-- The packs of the later client are owned like the replies of the first one, and their replies are freed
-- with them.
use hiredispool.Base.{
  ℕ, ◌+◌, ◌≤◌, ◌≡◌, ◌≢◌, ◌∙◌, inl, inr, refl, ap, Option, none, some, Option-cases, List, [], ◌∷◌,
  get_or, set, ◌==◌, if◌then◌else◌, Bool, true, false, eq_cases, arith,
}
use hiredispool.Platform.Laws.{at_address}
use hiredispool.Client.Replies
use hiredispool.Client.Replies.{
  Replies, free_reply_object, same_reply, Move, copying, destroying, assigning, assigning_ref,
  member,
}
use hiredispool.Client.Replies.Ownership.{
  owners, times_freed, claims, Exclusive, AllInScope, claims-perform_all,
}
use hiredispool.Experimental.Packs.{
  Packs, delete_pack, pack_at, construct, release, destroy, copy, assign, assign_ref, perform,
  perform_all,
}

-- The packs as if they were the replies of the first client.
abbrev pub packs_of : Packs → Replies
packs_of s = record { pointers = s.pointers; freed = s.deleted }

packs_of-delete_pack :
    (q : Option ℕ) (s : Packs)
    → packs_of (delete_pack q s)
      ≡ record { pointers = s.pointers; freed = free_reply_object q s.deleted }
unfolding delete_pack free_reply_object
packs_of-delete_pack none s = refl
packs_of-delete_pack (some b) s = refl

packs_of_branch :
    (b : Bool) (s t : Packs)
    → packs_of (if b then s else t) ≡ (if b then packs_of s else packs_of t)
packs_of_branch true s t = refl
packs_of_branch false s t = refl

packs_of-perform : (m : Move) (s : Packs) → packs_of (perform m s) ≡ Replies.perform m (packs_of s)
unfolding perform copy destroy assign assign_ref release construct pack_at Replies.perform
    Replies.copy Replies.destroy Replies.assign Replies.assign_ref Replies.release Replies.construct
    Replies.member
packs_of-perform (copying i) s = refl
packs_of-perform (destroying i) s = packs_of-delete_pack _ _
packs_of-perform (assigning i j) s =
    packs_of_branch (i == j) s _
    ∙ ap (λ t. if i == j then packs_of s else t) (packs_of-delete_pack _ _)
packs_of-perform (assigning_ref i j) s =
    let mid = set s.pointers j none in
    let b = same_reply (get_or mid i none) (get_or s.pointers j none) in
    packs_of_branch b _ _
    ∙ ap (λ t. if b then packs_of (record s { pointers = mid }) else t) (packs_of-delete_pack _ _)

packs_of-perform_all :
    (ms : List Move) (s : Packs) → packs_of (perform_all ms s) ≡ Replies.perform_all ms (packs_of s)
unfolding perform_all Replies.perform_all
packs_of-perform_all [] s = refl
packs_of-perform_all (m ∷ ms) s =
    packs_of-perform_all ms (perform m s) ∙ ap (Replies.perform_all ms) (packs_of-perform m s)

-- Each reply of a pack has been freed as often as the pack has been deleted.
pub record IsFreed (reply : ℕ → Option ℕ) (s : Packs) : Type 0 where
  pub same : s.reply ≡ reply
  pub as_often : (b r : ℕ) → reply b ≡ some r → times_freed s.freed r ≡ times_freed s.deleted b

module _ (reply : ℕ → Option ℕ)
    (apart : (b c r : ℕ) → reply b ≡ some r → reply c ≡ some r → b ≡ c) where
  -- The reply of pack `c` is that of pack `b` exactly if the packs are the same.
  reply_address : (b c r : ℕ) → reply b ≡ some r → at_address (reply c) r ≡ at_address (some c) b
  reply_address b c r e = elim (eq_cases c b) [
    | inl same ↦ ground (arith, ap reply same, e, ap (λ q. at_address q r) (ap reply same ∙ e))
    | inr other ↦ elim (Option-cases (reply c)) [
      | inl f ↦ ground (arith, ap (λ q. at_address q r) f)
      | inr (u, f) ↦
          let ne : u ≢ r = λ g. other (apart c b r (f ∙ ap some g) e) in
          ground (arith, ap (λ q. at_address q r) f)
    ]
  ]

  free_count :
      (q : Option ℕ) (fs : List ℕ) (r : ℕ)
      → times_freed (free_reply_object q fs) r ≡ at_address q r + times_freed fs r
  unfolding free_reply_object times_freed
  free_count none fs r = omega arith
  free_count (some b) fs r = refl

  delete_pack-IsFreed :
      (q : Option ℕ) (s : Packs) → IsFreed reply s → IsFreed reply (delete_pack q s)
  unfolding delete_pack times_freed
  delete_pack-IsFreed none s h = h
  delete_pack-IsFreed (some c) s h = record {
    same = h.same;
    as_often = λ b r e. omega (
      arith,
      free_count (s.reply c) s.freed r,
      ap (λ f. at_address (f c) r) h.same,
      reply_address b c r e,
      h.as_often b r e,
    );
  }

  pointed-IsFreed :
      (s : Packs) (qs : List (Option ℕ))
      → IsFreed reply s
      → IsFreed reply (record s { pointers = qs })
  pointed-IsFreed s qs h = record { same = h.same; as_often = h.as_often }

  branch-IsFreed :
      (b : Bool) (s t : Packs)
      → IsFreed reply s
      → IsFreed reply t
      → IsFreed reply (if b then s else t)
  branch-IsFreed true s t h k = h
  branch-IsFreed false s t h k = k

  perform-IsFreed : (m : Move) (s : Packs) → IsFreed reply s → IsFreed reply (perform m s)
  unfolding perform copy destroy assign assign_ref release construct
  perform-IsFreed (copying i) s h = pointed-IsFreed s _ h
  perform-IsFreed (destroying i) s h = delete_pack-IsFreed _ _ (pointed-IsFreed s _ h)
  perform-IsFreed (assigning i j) s h =
      branch-IsFreed (i == j) s _ h (delete_pack-IsFreed _ _ (pointed-IsFreed s _ h))
  perform-IsFreed (assigning_ref i j) s h =
      branch-IsFreed _ _ _ (pointed-IsFreed s _ h) (delete_pack-IsFreed _ _ (pointed-IsFreed s _ h))

  perform_all-IsFreed :
      (ms : List Move) (s : Packs) → IsFreed reply s → IsFreed reply (perform_all ms s)
  unfolding perform_all
  perform_all-IsFreed [] s h = h
  perform_all-IsFreed (m ∷ ms) s h = perform_all-IsFreed ms (perform m s) (perform-IsFreed m s h)

  -- Where packs share no reply, no pack has two owners or an owner after it has been deleted, each reply has
  -- been freed as often as its pack has been deleted, and every pointer that is assigned to is in scope: any
  -- moves keep the number of the owners of a pack and of the frees of its reply, taken together, and that is
  -- at most one. So the reply of a pack that is owned is freed once, with the pack, or not yet.
  pub replies_freed_once :
      (ms : List Move) (s : Packs) (b r : ℕ)
      → IsFreed reply s
      → Exclusive (packs_of s)
      → AllInScope ms (packs_of s)
      → reply b ≡ some r
      → let t = perform_all ms s in
        (owners t.pointers b + times_freed t.freed r ≡ owners s.pointers b + times_freed s.freed r)
        × (owners t.pointers b + times_freed t.freed r ≤ 1)
  replies_freed_once ms s b r h x inside e =
      let t = perform_all ms s in
      let after = (perform_all-IsFreed ms s h).as_often b r e in
      let (kept, most) = claims-perform_all ms (packs_of s) x inside b in
      let back = ap (λ u. claims u b) (packs_of-perform_all ms s) in
      (omega (arith, after, h.as_often b r e, kept, back), omega (arith, after, most, back))
