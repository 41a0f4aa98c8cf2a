-- ===== src/Ramcloud/Dicts.antt =====
-- The laws of maps from strings.
use hiredispool.Base.{
  ℕ, ◌≡◌, ◌⊎◌, inl, inr, refl, ap, false, Bool-cases, none, some, List, [], ◌∷◌, if◌then◌else◌,
  text_eq, text_eq-true, text_eq_self, arith,
}
use hiredispool.Ramcloud.{insert, lookup, erase}

pub texts_cases : (a b : List ℕ) → (a ≡ b) ⊎ (text_eq a b ≡ false)
texts_cases a b = elim (Bool-cases (text_eq a b)) [
  | inl e ↦ inl (text_eq-true a b e)
  | inr e ↦ inr e
]

pub text_eq-sym : (a b : List ℕ) → text_eq a b ≡ text_eq b a
text_eq-sym [] [] = refl
text_eq-sym [] (y ∷ b) = refl
text_eq-sym (x ∷ a) [] = refl
text_eq-sym (x ∷ a) (y ∷ b) = ground (arith, text_eq-sym a b)

module _ {ℓ} {V : Type ℓ} where
  pub lookup-insert :
      (k j : List ℕ) (v : V) (d : List (List ℕ × V))
      → lookup j (insert k v d) ≡ (if text_eq k j then some v else lookup j d)
  unfolding lookup insert
  lookup-insert k j v [] = refl
  lookup-insert k j v ((i, u) ∷ d) = elim (texts_cases i k) [
    | inl e ↦ ground (arith, text_eq_self k, ap (λ x. text_eq x k) e, ap (λ x. text_eq x j) e)
    | inr ne ↦ elim (texts_cases i j) [
      | inl e ↦
          ground (arith, ap (text_eq k) e, text_eq-sym k i, text_eq_self j, ap (λ x. text_eq x j) e)
      | inr m ↦ ground (arith, lookup-insert k j v d)
    ]
  ]

  pub lookup-erase :
      (k j : List ℕ) (d : List (List ℕ × V))
      → lookup j (erase k d) ≡ (if text_eq k j then none else lookup j d)
  unfolding lookup erase
  lookup-erase k j [] = ground arith
  lookup-erase k j ((i, u) ∷ d) = elim (texts_cases i k) [
    | inl e ↦ ground (
      arith,
      text_eq_self k,
      ap (λ x. text_eq x k) e,
      ap (λ x. text_eq x j) e,
      lookup-erase k j d,
    )
    | inr ne ↦ elim (texts_cases i j) [
      | inl e ↦
          ground (arith, ap (text_eq k) e, text_eq-sym k i, text_eq_self j, ap (λ x. text_eq x j) e)
      | inr m ↦ ground (arith, lookup-erase k j d)
    ]
  ]

  pub lookup-insert_self :
      (k : List ℕ) (v : V) (d : List (List ℕ × V)) → lookup k (insert k v d) ≡ some v
  lookup-insert_self k v d = ground (arith, lookup-insert k k v d, text_eq_self k)
