-- ===== src/Ramcloud/Replies/Laws.antt =====
-- What a status says of the reply that it was made from.
use hiredispool.Base.{
  ℕ, ◌≡◌, ◌≢◌, ◌⊎◌, ◌↔◌, inl, inr, ◌∙◌, refl, sym, ap, true, false, Bool-cases, Option, none, some,
  Option-cases, List, ℤ, pos, negsuc, codes, text_eq-true, c_str, arith,
}
use hiredispool.Ramcloud.{
  Reply, string, array, integer, nil, status, error, Pack, Status, reads, null_pointer, past_end,
  ok, reply_of,
}
use hiredispool.Ramcloud.Replies.{error_text, reply2status, array_of}

-- The status of an error without a reply.
pub error_text-not_ok : (z : ℤ) (s : List ℕ) → ok (record { code = error_text z s }) ≡ false
unfolding ok error_text
error_text-not_ok (pos n) s = ground arith
error_text-not_ok (negsuc n) s = refl

reply2status-missing :
    (p : Pack)
    → p.reply ≡ none
    → reply2status (some p) ≡ record { code = error_text p.info.err p.info.errstr }
unfolding reply2status
reply2status-missing p e = ground arith

-- A command is taken to have succeeded only if there is a reply.
pub ok-reply : (p : Option Pack) → ok (reply2status p) ≡ true → (r : Reply) × (reply_of p ≡ some r)
unfolding reply2status reply_of ok
ok-reply none e = absurd (cc e)
ok-reply (some p) e = elim (Option-cases p.reply) [
  | inr found ↦ found
  | inl n ↦
      absurd
        (cc (sym e ∙ ap ok (reply2status-missing p n) ∙ error_text-not_ok p.info.err p.info.errstr))
]

array_of-found : (s : Status) (r : Reply) → array_of s (some r) ≢ null_pointer
unfolding array_of
array_of-found s r e = ground arith

array_of-failed : (s : Status) (o : Option Reply) → ok s ≡ false → array_of s o ≡ reads none
unfolding array_of
array_of-failed s o e = ground arith

pub array_of-safe : (p : Option Pack) → array_of (reply2status p) (reply_of p) ≢ null_pointer
array_of-safe p e = elim (Bool-cases (ok (reply2status p))) [
  | inl h ↦
      let (r, q) = ok-reply p h in
      array_of-found (reply2status p) r (sym (ap (array_of (reply2status p)) q) ∙ e)
  | inr h ↦ cc (array_of-failed (reply2status p) (reply_of p) h, e)
]

-- The array of a reply is read in one step: it never ends behind the elements.
pub array_of-inside : (s : Status) (o : Option Reply) → array_of s o ≢ past_end
unfolding array_of
array_of-inside s o e = ground arith

-- A reply counts as a success, unless it is an error with another text than those of a success.
abbrev pub Succeeds : Reply → Type 0
Succeeds (error s) = (c_str s ≡ codes "ok") ⊎ (c_str s ≡ codes "not_found")
Succeeds _ = Unit

error_ok : (s : List ℕ) → (ok (record { code = c_str s }) ≡ true) ↔ Succeeds (error s)
unfolding ok
error_ok s = (
  λ e.
      ground
        (arith, text_eq-true (c_str s) (codes "ok"), text_eq-true (c_str s) (codes "not_found")),
  λ h. elim h [ inl e ↦ rw e refl | inr e ↦ rw e refl ],
)

status_iff :
    (p : Pack) (r : Reply) → p.reply ≡ some r → (ok (reply2status (some p)) ≡ true) ↔ Succeeds r
unfolding reply2status ok
status_iff p (string s) e = (λ h. tt, λ h. ground arith)
status_iff p (status s) e = (λ h. tt, λ h. ground arith)
status_iff p (array es) e = (λ h. tt, λ h. ground arith)
status_iff p (integer z) e = (λ h. tt, λ h. ground arith)
status_iff p nil e = (λ h. tt, λ h. ground arith)
status_iff p (error s) e = rw e (error_ok s)

unknown : ok (reply2status none) ≡ false
unfolding ok reply2status
unknown = refl

-- A command is taken to have succeeded exactly if there is a reply that counts as a success: not where
-- the database is unknown, not after a failure to connect or to talk to the server, and not on an error
-- of the server, but for the errors "ok" and "not_found".
pub ok_iff :
    (p : Option Pack)
    → (ok (reply2status p) ≡ true) ↔ ((r : Reply) × (reply_of p ≡ some r) × Succeeds r)
unfolding reply_of
ok_iff none = (λ h. absurd (cc (h, unknown)), λ (r, e, _). cc)
ok_iff (some p) = (
  λ h. let (r, e) = ok-reply (some p) h in (r, e, (status_iff p r e).0 h),
  λ (r, e, g). (status_iff p r e).1 g,
)
