-- ===== src/Base/Sort.antt =====
-- `sort.Slice` and `sort.Strings`: the ascending arrangement by a test. The source's tests are
-- strict total orders, for which every sorting algorithm returns one and the same list.
use mathlib.Core.List.{Permᴰ}
use mathlib.Core.List.Permᴰ
use cote_ai_simulation.Base.{
  ◌≡◌, refl, ◌∙◌, Bool, true, false, List, [], ◌∷◌, arith, if◌then◌else◌, Bool-cases, inl, inr,
  subst,
}

pub record IsStrictOrder {ℓ} {A : Type ℓ} (less : A → A → Bool) : Type ℓ where
  pub asymm : (a b : A) → less a b ≡ true → less b a ≡ false
  pub trans : (a b c : A) → less a b ≡ true → less b c ≡ true → less a c ≡ true
  pub antisymm : (a b : A) → less a b ≡ false → less b a ≡ false → a ≡ b

module _ {ℓ} {A : Type ℓ} (less : A → A → Bool) where
  unfoldable pub insert : A → List A → List A
  insert a [] = a ∷ []
  insert a (x ∷ xs) = if less x a then x ∷ insert a xs else a ∷ x ∷ xs

  unfoldable pub sort : List A → List A
  unfolding insert
  sort [] = []
  sort (x ∷ xs) = insert x (sort xs)

  -- No entry is followed by a smaller one.
  abbrev pub IsAscending : List A → Type 0
  IsAscending [] = Unit
  IsAscending (x ∷ []) = Unit
  IsAscending (x ∷ y ∷ xs) = (less y x ≡ false) × IsAscending (y ∷ xs)

  insert-IsAscending_cons :
      (a x : A) (xs : List A)
      → less a x ≡ false
      → IsAscending (x ∷ xs)
      → IsAscending (insert a xs)
      → IsAscending (x ∷ insert a xs)
  unfolding insert
  insert-IsAscending_cons a x [] h s i = (h, tt)
  insert-IsAscending_cons a x (y ∷ ys) h s i = elim (Bool-cases (less y a)) [
    | inl e ↦ rw e (s.0, (rw e at i))
    | inr e ↦ rw e (h, (rw e at i))
  ]

  insert-IsAscending :
      ((a b : A) → less a b ≡ true → less b a ≡ false)
      → (a : A) (xs : List A) → IsAscending xs
      → IsAscending (insert a xs)
  unfolding insert
  insert-IsAscending asymm a [] s = tt
  insert-IsAscending asymm a (x ∷ []) s = elim (Bool-cases (less x a)) [
    | inl e ↦ rw e (asymm x a e, tt)
    | inr e ↦ rw e (e, tt)
  ]
  insert-IsAscending asymm a (x ∷ y ∷ ys) s = elim (Bool-cases (less x a)) [
    | inl e ↦ rw e (
        insert-IsAscending_cons a x (y ∷ ys) (asymm x a e) s
          (insert-IsAscending asymm a (y ∷ ys) s.1))
    | inr e ↦ rw e (e, s)
  ]

  -- For a test that is only asymmetric.
  pub sort-IsAscending :
      ((a b : A) → less a b ≡ true → less b a ≡ false) → (xs : List A) → IsAscending (sort xs)
  unfolding sort
  sort-IsAscending asymm [] = tt
  sort-IsAscending asymm (x ∷ xs) = insert-IsAscending asymm x (sort xs) (sort-IsAscending asymm xs)

  insert-perm : (a : A) (xs : List A) → Permᴰ (insert a xs) (a ∷ xs)
  unfolding insert
  insert-perm a [] = Permᴰ.cons refl Permᴰ.nil
  insert-perm a (x ∷ xs) = elim (Bool-cases (less x a)) [
    | inl e ↦ rw e (Permᴰ.trans (Permᴰ.cons refl (insert-perm a xs)) (Permᴰ.swap refl refl))
    | inr e ↦ rw e (Permᴰ.refl (a ∷ x ∷ xs))
  ]

  pub sort-perm : (xs : List A) → Permᴰ (sort xs) xs
  unfolding sort
  sort-perm [] = Permᴰ.nil
  sort-perm (x ∷ xs) = Permᴰ.trans (insert-perm x (sort xs)) (Permᴰ.cons refl (sort-perm xs))

  -- What stands below what stands strictly below `a` stands strictly below `a`.
  mixed_trans :
      IsStrictOrder less → (a b x : A) → less x b ≡ false → less x a ≡ true → less b a ≡ true
  mixed_trans o a b x h k = elim (Bool-cases (less b x)) [
    | inl e ↦ o.trans b x a e k
    | inr e ↦ subst (λ z. less z a ≡ true) (o.antisymm x b h e) k
  ]

  insert_comm :
      IsStrictOrder less → (a b : A) (xs : List A) → insert a (insert b xs) ≡ insert b (insert a xs)
  unfolding insert
  insert_comm o a b [] = ground (arith, o.asymm a b, o.antisymm a b)
  insert_comm o a b (x ∷ xs) = ground (
    arith,
    o.asymm a b,
    o.asymm b a,
    o.antisymm a b,
    mixed_trans o a b x,
    mixed_trans o b a x,
    o.asymm x a,
    o.asymm x b,
    insert_comm o a b xs,
  )

  -- The arrangement does not depend on the order in which the entries arrive.
  pub sort-eq_of_perm : IsStrictOrder less → {xs ys : List A} → Permᴰ xs ys → sort xs ≡ sort ys
  unfolding sort
  sort-eq_of_perm o Permᴰ.nil = refl
  sort-eq_of_perm o (Permᴰ.cons {a} {b} {l₁} {l₂} e d) = rw (e, sort-eq_of_perm o d)
  sort-eq_of_perm o (Permᴰ.swap {a} {b} {a'} {b'} {l} e f) =
      rw (e, f) (insert_comm o b' a' (sort l))
  sort-eq_of_perm o (Permᴰ.trans d e) = sort-eq_of_perm o d ∙ sort-eq_of_perm o e
