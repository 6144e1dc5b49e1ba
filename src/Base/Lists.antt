-- ===== src/Base/Lists.antt =====
-- Lists measured and indexed by native numbers, and a predicate on every entry.
use Prim.Native.Nat.{ℕ, zero, suc, ◌+◌}
use mathlib.Core.Path.{◌≡◌, refl, sym, ap₂, ◌∙◌, subst, subst₂}
use mathlib.Core.List.{List, [], ◌∷◌, ◌++◌, Permᴰ}
use mathlib.Core.Logic.{◌⊎◌, inl, inr}
use mathlib.Core.Option.{Option, none, some}
use native.Mathlib.Omega.{arith}

module _ {ℓ} {A : Type ℓ} where
  abbrev pub length : List A → ℕ
  length [] = 0
  length (x ∷ xs) = suc (length xs)

  abbrev pub get_elem? : List A → ℕ → Option A
  get_elem? [] i = none
  get_elem? (x ∷ xs) zero = some x
  get_elem? (x ∷ xs) (suc i) = get_elem? xs i

  pub length-append : (xs ys : List A) → length (xs ++ ys) ≡ length xs + length ys
  length-append [] ys = omega arith
  length-append (x ∷ xs) ys = omega (arith, length-append xs ys)

  -- Every entry satisfies the predicate.
  abbrev pub All {κ} : (A → Type κ) → List A → Type κ
  All P [] = Unit
  All P (x ∷ xs) = P x × All P xs

-- Some entry is the value: a position, kept as data.
abbrev pub Among : {A : Type 0} → A → List A → Type 0
Among a [] = ⊥
Among a (x ∷ xs) = (a ≡ x) ⊎ Among a xs

pub All-among {κ} :
    {A : Type 0} (P : A → Type κ) {a : A} (xs : List A) → All P xs → Among a xs → P a
All-among P [] h m = absurd m
All-among P (x ∷ xs) h (inl e) = subst P (sym e) h.0
All-among P (x ∷ xs) h (inr m) = All-among P xs h.1 m

module _ {ℓ} {A : Type ℓ} where
  pub All-map {κ μ} :
      {P : A → Type κ} {Q : A → Type μ}
      → ((x : A) → P x → Q x)
      → (xs : List A) → All P xs
      → All Q xs
  All-map f [] h = tt
  All-map f (x ∷ xs) h = (f x h.0, All-map f xs h.1)

  pub All-zip {κ μ ν} :
      {P : A → Type κ} {Q : A → Type μ} {R : A → Type ν}
      → ((x : A) → P x → Q x → R x)
      → (xs : List A) → All P xs
      → All Q xs
      → All R xs
  All-zip f [] h k = tt
  All-zip f (x ∷ xs) h k = (f x h.0 k.0, All-zip f xs h.1 k.1)

  pub All-perm {κ} : (P : A → Type κ) {xs ys : List A} → Permᴰ xs ys → All P xs → All P ys
  All-perm P Permᴰ.nil h = tt
  All-perm P (Permᴰ.cons e d) h = (subst P e h.0, All-perm P d h.1)
  All-perm P (Permᴰ.swap e f) h = (subst P f h.1.0, (subst P e h.0, h.1.1))
  All-perm P (Permᴰ.trans d e) h = All-perm P e (All-perm P d h)

  -- Every entry stands in the relation with every later one.
  abbrev pub Pairs {κ} : (A → A → Type κ) → List A → Type κ
  Pairs R [] = Unit
  Pairs R (x ∷ xs) = All (R x) xs × Pairs R xs

  -- Every entry stands in the relation with the next one.
  abbrev pub Neighbours {κ} : (A → A → Type κ) → List A → Type κ
  Neighbours R [] = Unit
  Neighbours R (x ∷ []) = Unit
  Neighbours R (x ∷ y ∷ xs) = R x y × Neighbours R (y ∷ xs)

  pub Neighbours-Pairs {κ} :
      (R : A → A → Type κ)
      → ((x y z : A) → R x y → R y z → R x z)
      → (xs : List A) → Neighbours R xs
      → Pairs R xs
  Neighbours-Pairs R trans [] h = tt
  Neighbours-Pairs R trans (x ∷ []) h = (tt, tt)
  Neighbours-Pairs R trans (x ∷ y ∷ xs) h =
      let rest = Neighbours-Pairs R trans (y ∷ xs) h.1 in
      ((h.0, All-map (λ z k. trans x y z h.0 k) xs rest.0), rest)

  pub Pairs-perm {κ} :
      (R : A → A → Type κ)
      → ((x y : A) → R x y → R y x)
      → {xs ys : List A} → Permᴰ xs ys
      → Pairs R xs
      → Pairs R ys
  Pairs-perm R s Permᴰ.nil h = tt
  Pairs-perm R s (Permᴰ.cons {l₂ = l} e d) h =
      (subst (λ z. All (R z) l) e (All-perm (R _) d h.0), Pairs-perm R s d h.1)
  Pairs-perm R s (Permᴰ.swap {l = l} e f) h = (
    (subst₂ R f e (s _ _ h.0.0), subst (λ z. All (R z) l) f h.1.0),
    (subst (λ z. All (R z) l) e h.0.1, h.1.1),
  )
  Pairs-perm R s (Permᴰ.trans d e) h = Pairs-perm R s e (Pairs-perm R s d h)

module _ {A : Type 0} (a : A) where
  pub Among-append : (xs ys : List A) → Among a xs → Among a (xs ++ ys)
  Among-append [] ys m = absurd m
  Among-append (x ∷ xs) ys (inl e) = inl e
  Among-append (x ∷ xs) ys (inr m) = inr (Among-append xs ys m)

  pub Among-append_right : (xs ys : List A) → Among a ys → Among a (xs ++ ys)
  Among-append_right [] ys m = m
  Among-append_right (x ∷ xs) ys m = inr (Among-append_right xs ys m)

  pub Among-append_cases : (xs ys : List A) → Among a (xs ++ ys) → Among a xs ⊎ Among a ys
  Among-append_cases [] ys m = inr m
  Among-append_cases (x ∷ xs) ys (inl e) = inl (inl e)
  Among-append_cases (x ∷ xs) ys (inr m) = elim (Among-append_cases xs ys m) [
    | inl k ↦ inl (inr k)
    | inr k ↦ inr k
  ]

  pub Among-perm : {xs ys : List A} → Permᴰ xs ys → Among a xs → Among a ys
  Among-perm Permᴰ.nil m = m
  Among-perm (Permᴰ.cons e d) (inl x) = inl (x ∙ e)
  Among-perm (Permᴰ.cons e d) (inr m) = inr (Among-perm d m)
  Among-perm (Permᴰ.swap e f) (inl x) = inr (inl (x ∙ e))
  Among-perm (Permᴰ.swap e f) (inr (inl x)) = inl (x ∙ f)
  Among-perm (Permᴰ.swap e f) (inr (inr m)) = inr (inr m)
  Among-perm (Permᴰ.trans d e) m = Among-perm e (Among-perm d m)

-- Two lists with the same entries, both arranged by an asymmetric relation, are the same.
pub Pairs-unique {κ} :
    {A : Type 0} (R : A → A → Type κ)
    → ((x y : A) → R x y → R y x → ⊥)
    → (xs ys : List A) → ((a : A) → Among a xs → Among a ys)
    → ((a : A) → Among a ys → Among a xs)
    → Pairs R xs
    → Pairs R ys
    → xs ≡ ys
Pairs-unique R asymm [] [] f g h k = refl
Pairs-unique R asymm [] (y ∷ ys) f g h k = absurd (g y (inl refl))
Pairs-unique R asymm (x ∷ xs) [] f g h k = absurd (f x (inl refl))
Pairs-unique R asymm (x ∷ xs) (y ∷ ys) f g h k =
    ap₂ (λ a as'. a ∷ as') head
      (Pairs-unique R asymm xs ys (tail x xs y ys h.0 head f) (tail y ys x xs k.0 (sym head) g) h.1
        k.1)
  where
    head : x ≡ y
    head = elim (f x (inl refl)) [
      | inl e ↦ e
      | inr m ↦ elim (g y (inl refl)) [
        | inl e ↦ sym e
        | inr n ↦ absurd (asymm x y (All-among (R x) xs h.0 n) (All-among (R y) ys k.0 m))
      ]
    ]

    tail :
        (u : _) (us : List _) (v : _) (vs : List _)
        → All (R u) us
        → u ≡ v
        → ((a : _) → Among a (u ∷ us) → Among a (v ∷ vs))
        → (a : _) → Among a us
        → Among a vs
    tail u us v vs all e into a m = elim (into a (inr m)) [
      | inr n ↦ n
      | inl q ↦
          let r = All-among (R u) us all m in
          let s = subst (R u) (q ∙ sym e) r in absurd (asymm u u s s)
    ]
