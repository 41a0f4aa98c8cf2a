-- ===== src/Ramcloud/Commands/Storing.antt =====
-- Values under a key, stored and read, as a text and as a map.
use hiredispool.Base.{
  ℕ, ◌≡◌, ◌∙◌, sym, ap, subst, true, false, Bool-cases, inl, inr, Option, none, some, List, [], ◌∷◌,
  ℤ, pos, negsuc, codes, arith,
}
use hiredispool.Ramcloud.{
  Reply, string, Pack, Status, formatted, word, str, bin, num, Server, unpacked, ok, reply_of,
  not_found,
}
use hiredispool.Ramcloud.Replies.{reply2status, reply2string}
use hiredispool.Ramcloud.Replies.Laws.{ok-reply}
use hiredispool.Ramcloud.Strings.{set, get, set_map_value, get_map_value, unpack}

module _ {W D : Type 0} (t : Server W D) where
  -- A server that keeps strings under keys: SET and SETEX store the value if they succeed, and GET answers
  -- with what is stored, as long as it has not expired.
  pub record KeepsStrings : Type 0 where
    pub stored : W → List ℕ → Option (List ℕ)
    pub set_stores :
        (key val : List ℕ) (w : W)
        → let (p, v) = t.command (formatted (word (codes "SET") ∷ str key ∷ bin val ∷ [])) w in
          ok (reply2status p) ≡ true → stored v key ≡ some val
    pub setex_stores :
        (key val : List ℕ) (ttl : ℕ) (w : W)
        → let (p, v) =
            t.command
              (formatted (word (codes "SETEX") ∷ str key ∷ num (pos ttl) ∷ bin val ∷ []))
              w in
          ok (reply2status p) ≡ true → stored v key ≡ some val
    pub get_answers :
        (key val : List ℕ) (w : W)
        → stored w key ≡ some val
        → reply_of (t.command (formatted (word (codes "GET") ∷ str key ∷ [])) w).0
          ≡ some (string val)

  -- unmarshal_container undoes marshal_container on an empty map.
  abbrev pub Unmarshals : Type 0
  Unmarshals =
      (m : List (ℕ × List ℕ)) (b : List ℕ) → t.marshal m ≡ some b → t.unmarshal b [] ≡ unpacked m

  reply2status-string :
      (p : Option Pack) (s : List ℕ)
      → reply_of p ≡ some (string s)
      → reply2status p ≡ record { code = codes "ok" }
  unfolding reply2status reply_of
  reply2status-string none s e = cc
  reply2status-string (some p) s e = ground arith

  module _ (k : KeepsStrings) where
    -- What SET has stored is what GET returns.
    pub get-set :
        (key val : List ℕ) (w : W)
        → ok (set t key val w).0 ≡ true
        → let (s, found, _) = get t key (set t key val w).1 in
          (s ≡ record { code = codes "ok" }) × (found ≡ val)
    unfolding set get reply2string
    get-set key val w h =
        let answer = k.get_answers key val _ (k.set_stores key val w h) in
        (reply2status-string _ val answer, ap reply2string answer)

    -- The packed map is stored, for some time or for good.
    set_map_value_stores :
        (key b : List ℕ) (m : List (ℕ × List ℕ)) (ttl : ℤ) (w : W)
        → t.marshal m ≡ some b
        → ok (set_map_value t key m ttl w).0 ≡ true
        → k.stored (set_map_value t key m ttl w).1 key ≡ some b
    unfolding set_map_value
    set_map_value_stores key b m (pos n) w e =
        let r =
          t.command (formatted (word (codes "SETEX") ∷ str key ∷ num (pos n) ∷ bin b ∷ [])) w in
        let q : set_map_value t key m (pos n) w ≡ (reply2status r.0, r.1) = ground arith in
        subst (λ o. ok o.0 ≡ true → k.stored o.1 key ≡ some b) (sym q) (k.setex_stores key b n w)
    set_map_value_stores key b m (negsuc n) w e =
        let r = t.command (formatted (word (codes "SET") ∷ str key ∷ bin b ∷ [])) w in
        let q : set_map_value t key m (negsuc n) w ≡ (reply2status r.0, r.1) = ground arith in
        subst (λ o. ok o.0 ≡ true → k.stored o.1 key ≡ some b) (sym q) (k.set_stores key b w)

    unpack-string :
        (s : Status) (o : Option Reply) (b : List ℕ) (m : List (ℕ × List ℕ))
        → o ≡ some (string b)
        → t.unmarshal b [] ≡ unpacked m
        → unpack t s o [] ≡ (s, m, true)
    unfolding unpack
    unpack-string s o b m e u = ground arith

    -- On a server that keeps strings, where unmarshalling undoes marshalling, into an empty map: a map that
    -- has been stored with success, with or without an expiry, is read back whole into a map that is empty
    -- before the call. What a map that is not empty comes to is not said.
    pub get_map_value-set_map_value :
        Unmarshals
        → (key b : List ℕ) (m : List (ℕ × List ℕ)) (ttl : ℤ) (w : W) → t.marshal m ≡ some b
        → ok (set_map_value t key m ttl w).0 ≡ true
        → let (s, value, key_exist, _) = get_map_value t key [] (set_map_value t key m ttl w).1 in
          (s ≡ record { code = codes "ok" }) × (value ≡ m) × (key_exist ≡ true)
    unfolding get_map_value
    get_map_value-set_map_value u key b m ttl w e h =
        let answer = k.get_answers key b _ (set_map_value_stores key b m ttl w e h) in
        let q = unpack-string _ _ b m answer (u m b e) in
        (ap (λ r. r.0) q ∙ reply2status-string _ b answer, ap (λ r. r.1) q, ap (λ r. r.2) q)

  unpack-missing :
      (s : Status) (o : Option Reply) (value : List (ℕ × List ℕ))
      → o ≡ none
      → ok s ≡ false
      → unpack t s o value ≡ (s, value, true)
  unfolding unpack ok not_found
  unpack-missing s o value e h = ground arith

  -- Where there is no reply at all, getMapValue fails and leaves the map alone, but says that the key
  -- exists.
  pub get_map_value_lost :
      (key : List ℕ) (value : List (ℕ × List ℕ)) (w : W)
      → reply_of (t.command (formatted (word (codes "GET") ∷ str key ∷ [])) w).0 ≡ none
      → let (s, v, key_exist, _) = get_map_value t key value w in
        (ok s ≡ false) × (v ≡ value) × (key_exist ≡ true)
  unfolding get_map_value
  get_map_value_lost key value w e =
      let failed : ok (reply2status (t.command (formatted (word (codes "GET") ∷ str key ∷ [])) w).0)
          ≡ false =
        elim (Bool-cases
          (ok (reply2status (t.command (formatted (word (codes "GET") ∷ str key ∷ [])) w).0))) [
            | inr f ↦ f
            | inl s ↦ let (r, q) = ok-reply _ s in absurd (cc (e, q))
          ] in
      let q = unpack-missing _ _ value e failed in
      (ap (λ r. ok r.0) q ∙ failed, ap (λ r. r.1) q, ap (λ r. r.2) q)
