-- ===== src/Store/Listing.antt =====
-- The in-memory store only grows (internal/csf/persistence/memory/store.go): what a method has
-- stored stays under its key, and `Records` only gets longer at its end.
use mathlib.Core.List.{append_assoc, append-nil, map-append}
use cote_ai_simulation.Base.{
  ℕ, ◌≡◌, refl, sym, ap, ap₂, ◌∙◌, arith, List, [], ◌∷◌, ◌++◌, some, none, All, All-map, map,
}
use cote_ai_simulation.Base.Bytes.{Bytes}
use cote_ai_simulation.IngressGuard.{CanonicalRecord}
use cote_ai_simulation.Store.Maps.{lookup, put, lookup-put_self, lookup-put_other}
use cote_ai_simulation.Store.{Store, AdmissionSeal}
use cote_ai_simulation.Store.Methods.{bytes_of, records_of}

abbrev pub Has : Store → Bytes → Type 0
Has s id = (b : Bytes) × (lookup id s.records ≡ some b)

-- The second store holds all that the first one holds, in the same order.
pub record Grows (s t : Store) : Type 0 where
  pub keeps_records : (id b : Bytes) → lookup id s.records ≡ some b → lookup id t.records ≡ some b
  pub keeps_conditional :
      (key : Bytes) (r : CanonicalRecord)
      → lookup key s.conditional ≡ some r
      → lookup key t.conditional ≡ some r
  pub keeps_fences : (id b : Bytes) → lookup id s.fences ≡ some b → lookup id t.fences ≡ some b
  pub added : List Bytes
  pub order_grows : t.order ≡ s.order ++ added
  pub added_present : All (Has t) added
  pub added_seals : List AdmissionSeal
  pub seals_grow : t.seals ≡ s.seals ++ added_seals

pub Grows-refl : (s : Store) → Grows s s
Grows-refl s = record {
  keeps_records = λ id b h. h;
  keeps_conditional = λ key r h. h;
  keeps_fences = λ id b h. h;
  added = [];
  order_grows = sym (append-nil s.order);
  added_present = tt;
  added_seals = [];
  seals_grow = sym (append-nil s.seals);
}

pub All-append {ℓ κ} :
    {A : Type ℓ} (P : A → Type κ) (xs ys : List A) → All P xs → All P ys → All P (xs ++ ys)
All-append P [] ys h k = k
All-append P (x ∷ xs) ys h k = (h.0, All-append P xs ys h.1 k)

pub Grows-trans : (s t u : Store) → Grows s t → Grows t u → Grows s u
Grows-trans s t u g h = record {
  keeps_records = λ id b e. h.keeps_records id b (g.keeps_records id b e);
  keeps_conditional = λ key r e. h.keeps_conditional key r (g.keeps_conditional key r e);
  keeps_fences = λ id b e. h.keeps_fences id b (g.keeps_fences id b e);
  added = g.added ++ h.added;
  order_grows =
      h.order_grows ∙ ap (λ l. l ++ h.added) g.order_grows ∙ append_assoc s.order g.added h.added;
  added_present =
      All-append (Has u) g.added h.added
        (All-map (λ id x. (x.0, h.keeps_records id x.0 x.1)) g.added g.added_present)
        h.added_present;
  added_seals = g.added_seals ++ h.added_seals;
  seals_grow =
      h.seals_grow
      ∙ ap (λ l. l ++ h.added_seals) g.seals_grow
      ∙ append_assoc s.seals g.added_seals h.added_seals;
}

-- A record is put under a new identity.
abbrev pub with_record : Store → CanonicalRecord → Store
with_record s r = record s {
  records = put r.identity r.canonical s.records;
  order = s.order ++ r.identity ∷ [];
}

pub with_record-Grows :
    (s : Store) (r : CanonicalRecord)
    → lookup r.identity s.records ≡ none
    → Grows s (with_record s r)
with_record-Grows s r e = record {
  keeps_records = λ id b h. lookup-put_other r.identity id r.canonical b s.records e h;
  keeps_conditional = λ key c h. h;
  keeps_fences = λ id b h. h;
  added = r.identity ∷ [];
  order_grows = refl;
  added_present = ((r.canonical, lookup-put_self r.identity r.canonical s.records), tt);
  added_seals = [];
  seals_grow = sym (append-nil s.seals);
}

-- A fence is put under a new identity, with its seal.
abbrev pub with_fence : Store → CanonicalRecord → AdmissionSeal → Store
with_fence s fence seal = record s {
  fences = put fence.identity fence.canonical s.fences;
  seals = s.seals ++ seal ∷ [];
}

pub with_fence-Grows :
    (s : Store) (fence : CanonicalRecord) (seal : AdmissionSeal)
    → lookup fence.identity s.fences ≡ none
    → Grows s (with_fence s fence seal)
with_fence-Grows s fence seal e = record {
  keeps_records = λ id b h. h;
  keeps_conditional = λ key c h. h;
  keeps_fences = λ id b h. lookup-put_other fence.identity id fence.canonical b s.fences e h;
  added = [];
  order_grows = sym (append-nil s.order);
  added_present = tt;
  added_seals = seal ∷ [];
  seals_grow = refl;
}

-- A conditional key is bound.
abbrev pub with_conditional : Store → Bytes → CanonicalRecord → Store
with_conditional s key r = record s { conditional = put key r s.conditional }

pub with_conditional-Grows :
    (s : Store) (key : Bytes) (r : CanonicalRecord)
    → lookup key s.conditional ≡ none
    → Grows s (with_conditional s key r)
with_conditional-Grows s key r e = record {
  keeps_records = λ id b h. h;
  keeps_conditional = λ k c h. lookup-put_other key k r c s.conditional e h;
  keeps_fences = λ id b h. h;
  added = [];
  order_grows = sym (append-nil s.order);
  added_present = tt;
  added_seals = [];
  seals_grow = sym (append-nil s.seals);
}

-- The cursors are replaced.
abbrev pub with_cursor : Store → List (Bytes × ℕ) → Store
with_cursor s cursor = record s { ingress_cursor = cursor }

pub with_cursor-Grows : (s : Store) (cursor : List (Bytes × ℕ)) → Grows s (with_cursor s cursor)
with_cursor-Grows s cursor = record {
  keeps_records = λ id b h. h;
  keeps_conditional = λ key c h. h;
  keeps_fences = λ id b h. h;
  added = [];
  order_grows = sym (append-nil s.order);
  added_present = tt;
  added_seals = [];
  seals_grow = sym (append-nil s.seals);
}

-- Every listed identity has a record.
abbrev pub IsStore : Store → Type 0
IsStore s = All (Has s) s.order

pub Grows-IsStore : (s t : Store) → Grows s t → IsStore s → IsStore t
Grows-IsStore s t g v = rw (g.order_grows) (
    All-append (Has t) s.order g.added
      (All-map (λ id x. (x.0, g.keeps_records id x.0 x.1)) s.order v) g.added_present)

abbrev pub entry_of : Store → Bytes → CanonicalRecord
entry_of s id = record { identity = id; canonical = bytes_of s id }

bytes_of_found : (s : Store) (id b : Bytes) → lookup id s.records ≡ some b → bytes_of s id ≡ b
bytes_of_found s id b e = ground arith

map_same :
    (s t : Store) (ids : List Bytes)
    → Grows s t
    → All (Has s) ids
    → map (entry_of t) ids ≡ map (entry_of s) ids
map_same s t [] g v = refl
map_same s t (id ∷ ids) g ((b, e), v) =
    ap₂ ◌∷◌
      (ap (λ c. record { identity = id; canonical = c })
        (bytes_of_found t id b (g.keeps_records id b e) ∙ sym (bytes_of_found s id b e)))
      (map_same s t ids g v)

-- The listing of a store that has grown begins with the old listing.
pub Grows-records_of :
    (s t : Store)
    → Grows s t
    → IsStore s
    → (new : List CanonicalRecord) × (records_of t ≡ records_of s ++ new)
unfolding records_of
Grows-records_of s t g v = (
  map (entry_of t) g.added,
  ap (map (entry_of t)) g.order_grows
      ∙ map-append (entry_of t) s.order g.added
      ∙ ap (λ l. l ++ map (entry_of t) g.added) (map_same s t s.order g v),
)
