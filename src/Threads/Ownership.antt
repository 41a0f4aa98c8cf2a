-- ===== src/Threads/Ownership.antt =====
-- Who has locked a socket, and that an access of a thread keeps to it.
use hiredispool.Base.{
  ℕ, ◌≡◌, ◌≢◌, ◌⊎◌, inl, inr, ◌∙◌, refl, sym, ap, Bool, true, false, Option, none, some, eq_cases,
  arith,
}
use hiredispool.Threads.{
  Cell, Phase, idle, trying, locked, claimed, checking, leaving, holding, releasing, Shared, update,
  goes, writes,
}

-- The socket whose mutex a thread has locked.
unfoldable pub socket_of : Phase → Option ℕ
socket_of idle = none
socket_of (trying start cur) = none
socket_of (locked start cur) = some cur
socket_of (claimed start cur) = some cur
socket_of (checking start cur) = some cur
socket_of (leaving start cur) = some cur
socket_of (holding cur) = some cur
socket_of (releasing cur) = some cur

-- The thread has set `inuse`.
unfoldable pub uses : Phase → Bool
uses (claimed start cur) = true
uses (checking start cur) = true
uses (holding cur) = true
uses _ = false

pub record IsSound (s : Shared) : Type 0 where
  pub owned : (a i : ℕ) → socket_of (s.phases a) ≡ some i → (s.cells i).owner ≡ some a
  pub used :
      (a i : ℕ)
      → socket_of (s.phases a) ≡ some i
      → uses (s.phases a) ≡ true
      → (s.cells i).inuse ≡ true
  pub unused :
      (i : ℕ)
      → (s.cells i).inuse ≡ true
      → (a : ℕ) × (socket_of (s.phases a) ≡ some i) × (uses (s.phases a) ≡ true)
  pub held : (i a : ℕ) → (s.cells i).owner ≡ some a → socket_of (s.phases a) ≡ some i

pub update_same {ℓ} : {A : Type ℓ} (f : ℕ → A) (i j : ℕ) (v : A) → j ≡ i → update f i v j ≡ v
update_same f i j v e = ground arith

pub update_other {ℓ} : {A : Type ℓ} (f : ℕ → A) (i j : ℕ) (v : A) → j ≢ i → update f i v j ≡ f j
update_other f i j v e = ground arith

uses-socket_of : (q : Phase) → uses q ≡ true → socket_of q ≢ none
unfolding uses socket_of
uses-socket_of idle e f = cc
uses-socket_of (trying x y) e f = cc
uses-socket_of (locked x y) e f = cc
uses-socket_of (claimed x y) e f = cc
uses-socket_of (checking x y) e f = cc
uses-socket_of (leaving x y) e f = cc
uses-socket_of (holding x) e f = cc
uses-socket_of (releasing x) e f = cc

-- A thread that has nothing locked goes on without a lock.
pub goes-IsSound :
    (s : Shared) (a : ℕ) (q : Phase)
    → IsSound s
    → socket_of (s.phases a) ≡ none
    → socket_of q ≡ none
    → IsSound (goes s a q)
goes-IsSound s a q h e f = record {
  owned = λ b i g. elim (eq_cases b a) [
    | inl same ↦ absurd (cc (ap socket_of (update_same s.phases a b q same), f, g))
    | inr other ↦ h.owned b i (ap socket_of (sym (update_other s.phases a b q other)) ∙ g)
  ];
  used = λ b i g u. elim (eq_cases b a) [
    | inl same ↦ absurd (cc (ap socket_of (update_same s.phases a b q same), f, g))
    | inr other ↦
        let back = sym (update_other s.phases a b q other) in
        h.used b i (ap socket_of back ∙ g) (ap uses back ∙ u)
  ];
  unused = λ i g.
      let (b, k, u) = h.unused i g in
      elim (eq_cases b a) [
        | inl same ↦ absurd (cc (ap (λ c. socket_of (s.phases c)) same, e, k))
        | inr other ↦
            let on = update_other s.phases a b q other in (b, ap socket_of on ∙ k, ap uses on ∙ u)
      ];
  held = λ i b g. elim (eq_cases b a) [
    | inl same ↦ absurd (cc (ap (λ c. socket_of (s.phases c)) same, e, h.held i b g))
    | inr other ↦ ap socket_of (update_other s.phases a b q other) ∙ h.held i b g
  ];
}

-- What a thread that writes socket `i` has to keep to: nobody else has locked it, the thread has locked no
-- other, and afterwards it has locked this one or none, as `owner` says, and uses it exactly if `inuse` is
-- set.
pub record Allowed (s : Shared) (a i : ℕ) (d : Cell) (q : Phase) : Type 0 where
  pub nobody_else : ((s.cells i).owner ≡ none) ⊎ ((s.cells i).owner ≡ some a)
  pub before : (socket_of (s.phases a) ≡ none) ⊎ (socket_of (s.phases a) ≡ some i)
  pub after : (socket_of q ≡ none) × (d.owner ≡ none) ⊎ (socket_of q ≡ some i) × (d.owner ≡ some a)
  pub in_use : d.inuse ≡ uses q

module _ (s : Shared) (a i : ℕ) (d : Cell) (q : Phase) (h : IsSound s) (m : Allowed s a i d q) where
  stranger : (b : ℕ) → b ≢ a → socket_of (s.phases b) ≢ some i
  stranger b other e = elim m.nobody_else [
    | inl free ↦ absurd (cc (sym free ∙ h.owned b i e))
    | inr mine ↦ other (ground (arith, sym mine ∙ h.owned b i e))
  ]

  this_socket : (j : ℕ) → socket_of q ≡ some j → (j ≡ i) × (d.owner ≡ some a)
  this_socket j e = elim m.after [
    | inl (free, _) ↦ absurd (cc (sym free ∙ e))
    | inr (mine, owner) ↦ (ground (arith, sym e ∙ mine), owner)
  ]

  writes_owned :
      (b j : ℕ) → socket_of (update s.phases a q b) ≡ some j → (update s.cells i d j).owner ≡ some b
  writes_owned b j g = elim (eq_cases b a) [
    | inl same ↦
        let (here, owner) =
          this_socket j (ap socket_of (sym (update_same s.phases a b q same)) ∙ g) in
        ap (λ c. c.owner) (update_same s.cells i j d here) ∙ owner ∙ ap some (sym same)
    | inr other ↦
        let e = ap socket_of (sym (update_other s.phases a b q other)) ∙ g in
        elim (eq_cases j i) [
          | inl here ↦ absurd (stranger b other (e ∙ ap some here))
          | inr there ↦ ap (λ c. c.owner) (update_other s.cells i j d there) ∙ h.owned b j e
        ]
  ]

  writes_used :
      (b j : ℕ)
      → socket_of (update s.phases a q b) ≡ some j
      → uses (update s.phases a q b) ≡ true
      → (update s.cells i d j).inuse ≡ true
  writes_used b j g u = elim (eq_cases b a) [
    | inl same ↦
        let on = sym (update_same s.phases a b q same) in
        let (here, _) = this_socket j (ap socket_of on ∙ g) in
        ap (λ c. c.inuse) (update_same s.cells i j d here) ∙ m.in_use ∙ ap uses on ∙ u
    | inr other ↦
        let on = sym (update_other s.phases a b q other) in
        elim (eq_cases j i) [
          | inl here ↦ absurd (stranger b other (ap socket_of on ∙ g ∙ ap some here))
          | inr there ↦
              ap (λ c. c.inuse) (update_other s.cells i j d there)
              ∙ h.used b j (ap socket_of on ∙ g) (ap uses on ∙ u)
        ]
  ]

  writes_unused :
      (j : ℕ)
      → (update s.cells i d j).inuse ≡ true
      → (b : ℕ) × (socket_of (update s.phases a q b) ≡ some j)
        × (uses (update s.phases a q b) ≡ true)
  writes_unused j g = elim (eq_cases j i) [
    | inl here ↦
        let set : uses q ≡ true =
          sym m.in_use ∙ ap (λ c. c.inuse) (sym (update_same s.cells i j d here)) ∙ g in
        let on = update_same s.phases a a q refl in
        elim m.after [
          | inl (free, _) ↦ absurd (uses-socket_of q set free)
          | inr (mine, _) ↦ (a, ap socket_of on ∙ mine ∙ ap some (sym here), ap uses on ∙ set)
        ]
    | inr there ↦
        let (b, k, u) =
          h.unused j (ap (λ c. c.inuse) (sym (update_other s.cells i j d there)) ∙ g) in
        elim (eq_cases b a) [
          | inl same ↦
              let e = ap (λ c. socket_of (s.phases c)) (sym same) ∙ k in
              elim m.before [
                | inl free ↦ absurd (cc (sym free ∙ e))
                | inr mine ↦ absurd (there (ground (arith, sym e ∙ mine)))
              ]
          | inr other ↦
              let on = update_other s.phases a b q other in (b, ap socket_of on ∙ k, ap uses on ∙ u)
        ]
  ]

  writes_held :
      (j b : ℕ) → (update s.cells i d j).owner ≡ some b → socket_of (update s.phases a q b) ≡ some j
  writes_held j b g = elim (eq_cases j i) [
    | inl here ↦
        let now = ap (λ c. c.owner) (sym (update_same s.cells i j d here)) ∙ g in
        elim m.after [
          | inl (_, nobody) ↦ absurd (cc (sym nobody ∙ now))
          | inr (mine, me) ↦
              let same : b ≡ a = ground (arith, sym now ∙ me) in
              ap socket_of (update_same s.phases a b q same) ∙ mine ∙ ap some (sym here)
        ]
    | inr there ↦
        let k = h.held j b (ap (λ c. c.owner) (sym (update_other s.cells i j d there)) ∙ g) in
        elim (eq_cases b a) [
          | inl same ↦
              let e = ap (λ c. socket_of (s.phases c)) (sym same) ∙ k in
              elim m.before [
                | inl free ↦ absurd (cc (sym free ∙ e))
                | inr mine ↦ absurd (there (ground (arith, sym e ∙ mine)))
              ]
          | inr other ↦ ap socket_of (update_other s.phases a b q other) ∙ k
        ]
  ]

  pub writes-IsSound : IsSound (writes s a i d q)
  writes-IsSound = record {
    owned = writes_owned;
    used = writes_used;
    unused = writes_unused;
    held = writes_held;
  }
