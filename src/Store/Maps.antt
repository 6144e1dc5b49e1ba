-- ===== src/Store/Maps.antt =====
-- The Go maps of the stores as association lists: an assignment puts the entry in front, and a
-- read takes the first entry of the key.
use cote_ai_simulation.Base.{◌≡◌, refl, arith, if◌then◌else◌, List, [], ◌∷◌, Option, some, none}
use cote_ai_simulation.Base.Bytes.{Bytes, bytes_equal, bytes_equal_refl, bytes_equal-eq}

module _ {ℓ} {V : Type ℓ} where
  unfoldable pub lookup : Bytes → List (Bytes × V) → Option V
  lookup k [] = none
  lookup k ((j, v) ∷ m) = if bytes_equal j k then some v else lookup k m

  abbrev pub put : Bytes → V → List (Bytes × V) → List (Bytes × V)
  put k v m = (k, v) ∷ m

  pub lookup-put :
      (k j : Bytes) (v : V) (m : List (Bytes × V))
      → lookup j (put k v m) ≡ (if bytes_equal k j then some v else lookup j m)
  unfolding lookup
  lookup-put k j v m = refl

  pub lookup-put_self : (k : Bytes) (v : V) (m : List (Bytes × V)) → lookup k (put k v m) ≡ some v
  unfolding lookup
  lookup-put_self k v m = rw (bytes_equal_refl k) refl

  pub lookup-put_other :
      (k j : Bytes) (v w : V) (m : List (Bytes × V))
      → lookup k m ≡ none
      → lookup j m ≡ some w
      → lookup j (put k v m) ≡ some w
  unfolding lookup
  lookup-put_other k j v w m h e = ground (arith, bytes_equal-eq k j)

  unfoldable pub without : Bytes → List (Bytes × V) → List (Bytes × V)
  without k [] = []
  without k ((j, v) ∷ m) = if bytes_equal j k then without k m else (j, v) ∷ without k m

  -- The entries that a `range` over the map visits: for each key the one that a read takes.
  unfoldable pub entries : List (Bytes × V) → List (Bytes × V)
  unfolding without
  entries [] = []
  entries ((k, v) ∷ m) = (k, v) ∷ without k (entries m)
