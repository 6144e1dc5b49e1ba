-- ===== src/Ledger/RoundSlots.antt =====
-- The slots of a declared round (internal/csf/inputledger/ledger.go, `DeclareRound`).
use mathlib.Core.List.{Permᴰ}
use cote_ai_simulation.Base.{
  ◌≡◌, ◌≤◌, refl, sym, ◌&&◌, true, false, arith, List, [], ◌∷◌, some, none, ok, bind-eq_ok,
  guard-then-eq_ok, ok-injective, subst, Pairs, Neighbours, Neighbours-Pairs, Ordering, length, leb,
}
use cote_ai_simulation.Base.Bytes.{
  Bytes, bytes_equal, bytes_compare, bytes_equal_refl, bytes_compare-eq, bytes_compare-flip,
  bytes_compare-unflip, bytes_compare_trans,
}
use cote_ai_simulation.Base.Sort.{sort, IsStrictOrder, IsAscending, sort-IsAscending, sort-perm}
use cote_ai_simulation.Domain.Patterns.{validate_machine_id}
use cote_ai_simulation.Store.Maps.{lookup, lookup-put_self}
use cote_ai_simulation.Ledger.{
  Ledger, Round, invalid_machine_id, slot_count, duplicate_slot, round_origin, round_lifecycle,
}
use cote_ai_simulation.Ledger.Sources.{canonical_fields}
use cote_ai_simulation.Ledger.Rounds.{
  RoundRequest, slot_less, valid_slots, no_duplicate, valid_round_origin, round_id, round_digest,
  round_fields, store_round, keep_round, declare_round,
}

slot_less-IsStrictOrder : IsStrictOrder slot_less
slot_less-IsStrictOrder = record {
  asymm = λ a b h. ground (arith, bytes_compare-flip a b);
  trans = λ a b c h k. ground (arith, bytes_compare_trans a b c);
  antisymm = λ a b h k. ground (arith, bytes_compare-eq a b, bytes_compare-unflip a b);
}

-- Earlier in the order of strings.
abbrev pub IsBefore : Bytes → Bytes → Type 0
IsBefore a b = bytes_compare a b ≡ Ordering.lt

neighbours_apart : (a b : Bytes) → slot_less b a ≡ false → bytes_equal a b ≡ false → IsBefore a b
neighbours_apart a b h e =
    ground (arith, bytes_compare-eq a b, bytes_compare-unflip a b, bytes_equal_refl a)

IsAscending-Neighbours :
    (ss : List Bytes) → IsAscending slot_less ss → no_duplicate ss ≡ true → Neighbours IsBefore ss
unfolding no_duplicate
IsAscending-Neighbours [] s d = tt
IsAscending-Neighbours (a ∷ []) s d = tt
IsAscending-Neighbours (a ∷ b ∷ ss) s d =
    (neighbours_apart a b s.0 (ground arith), IsAscending-Neighbours (b ∷ ss) s.1 (ground arith))

keep_round-new :
    (l : Ledger) (q : RoundRequest) (id digest canonical : Bytes) (m : Ledger) (r : Round)
    → lookup id l.rounds ≡ none
    → keep_round l q id digest canonical ≡ ok (m, r)
    → (r.slots ≡ sort slot_less q.slots) × (lookup id m.rounds ≡ some r)
unfolding keep_round
keep_round-new l q id digest canonical m r n h =
    let (store, s, h₁) = bind-eq_ok (store_round l q id canonical) _ (rw (n, keep_round) at h) in
    subst (λ z. (z.1.slots ≡ sort slot_less q.slots) × (lookup id z.0.rounds ≡ some z.1))
      (ok-injective h₁) (refl, lookup-put_self id _ l.rounds)

-- A round that is declared under a new ID is found under it, with the slots of the request in the
-- order of strings: each before all later ones, so no two are the same, and 1 to 1024 of them.
pub declare_round_slots :
    (l m : Ledger) (q : RoundRequest) (id : Bytes) (r : Round)
    → round_id l q ≡ ok id
    → lookup id l.rounds ≡ none
    → declare_round l q ≡ ok (m, r)
    → (lookup id m.rounds ≡ some r)
      × Permᴰ r.slots q.slots
      × Pairs IsBefore r.slots
      × (1 ≤ length q.slots)
      × (length q.slots ≤ 1024)
unfolding declare_round
declare_round_slots l m q id r i n h =
    let (a, h₁) = guard-then-eq_ok (validate_machine_id q.source_id) invalid_machine_id _ h in
    let (b, h₂) =
      guard-then-eq_ok (validate_machine_id q.actor.namespace) invalid_machine_id _ h₁ in
    let (c, h₃) = guard-then-eq_ok (validate_machine_id q.actor.actor_id) invalid_machine_id _ h₂ in
    let (d, h₄) =
      guard-then-eq_ok (leb 1 (length q.slots) && leb (length q.slots) 1024) slot_count _ h₃ in
    let (e, h₅) = guard-then-eq_ok (valid_slots q.slots) invalid_machine_id _ h₄ in
    let (f, h₆) = guard-then-eq_ok (no_duplicate (sort slot_less q.slots)) duplicate_slot _ h₅ in
    let (g, h₇) = guard-then-eq_ok (valid_round_origin q.created_by) round_origin _ h₆ in
    let (k, h₈) = guard-then-eq_ok (leb q.lifecycle 2) round_lifecycle _ h₇ in
    let (id', j, h₉) = bind-eq_ok (round_id l q) _ h₈ in
    let (digest, t, h') = bind-eq_ok (round_digest l (round_fields l q id')) _ h₉ in
    let (canonical, u, h'') = bind-eq_ok (canonical_fields l (round_fields l q id')) _ h' in
    let same : id' ≡ id = cc in
    let (slots, kept) = keep_round-new l q id' digest canonical m r (rw same n) h'' in
    (
      rw (sym same) kept,
      rw slots (sort-perm slot_less q.slots),
      rw slots (
          Neighbours-Pairs IsBefore bytes_compare_trans (sort slot_less q.slots) (
            IsAscending-Neighbours (sort slot_less q.slots)
              (sort-IsAscending slot_less slot_less-IsStrictOrder.asymm q.slots) f)),
      ground arith,
      ground arith,
    )
