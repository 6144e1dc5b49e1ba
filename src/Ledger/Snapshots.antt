-- ===== src/Ledger/Snapshots.antt =====
-- The views of a ledger (internal/csf/inputledger/ledger.go): `Sources`, `Prefix`, `Snapshot`,
-- `SystemUnits`, and the projection of settled rounds.
use cote_ai_simulation.Base.{
  ℕ, ◌&&◌, not, ltb, ◌==◌, ◌||◌, length, Bool, true, false, if◌then◌else◌, List, [], ◌∷◌, ◌++◌,
  Option, some, none,
}
use cote_ai_simulation.Base.Bytes.{Bytes, bytes_equal, bytes_compare}
use cote_ai_simulation.Base.Sort.{sort}
use cote_ai_simulation.Domain.{EligibilityCoordinate, is_lt}
use cote_ai_simulation.Store.Maps.{lookup, entries}
use cote_ai_simulation.Ledger.{Ledger, Stored, Round, Response, SlotState, slots_of}
use cote_ai_simulation.Ledger.Sources.{listed}
use cote_ai_simulation.Ledger.Rounds.{slot_less}

-- `Sources`
unfoldable pub sources_of : Ledger → List Bytes
sources_of l = sort slot_less l.sources

-- `Prefix`
unfoldable pub prefix : Ledger → Bytes → List Stored × List Stored × ℕ
prefix l source = (
  listed source l.inputs,
  listed source l.closures,
  elim (lookup source l.cursors) [ none ↦ 0 | some n ↦ n ],
)

-- What `Snapshot` returns.
pub record Snapshot : Type 0 where
  pub sources : List Bytes
  pub inputs : List Stored
  pub closures : List Stored
  pub rounds : List Round
  pub slots : List (Bytes × List (Bytes × Response))
  pub run_id : Bytes

-- The lists of all sources, one after the other.
unfoldable pub all_listed : List (Bytes × List Stored) → List Stored
all_listed [] = []
all_listed ((source, xs) ∷ m) = xs ++ all_listed m

-- `bytes.Compare(a[:], b[:]) < 0`
abbrev pub before : Bytes → Bytes → Bool
before a b = is_lt (bytes_compare a b)

abbrev stored_before : Stored → Stored → Bool
stored_before a b = before a.id b.id

abbrev receipt_before : Stored → Stored → Bool
receipt_before a b =
    if bytes_equal a.receipt.source_id b.receipt.source_id
    then ltb a.receipt.sequence b.receipt.sequence
    else before a.receipt.source_id b.receipt.source_id

abbrev pub round_before : Round → Round → Bool
round_before a b = before a.id b.id

unfoldable pub rounds_of : List (Bytes × Round) → List Round
rounds_of [] = []
rounds_of ((id, round) ∷ m) = round ∷ rounds_of m

-- The responses of a round's slots.
unfoldable pub responses_of : List (Bytes × SlotState) → List (Bytes × Response)
responses_of [] = []
responses_of ((slot, state) ∷ m) = elim state.response [
  | none ↦ responses_of m
  | some response ↦ (slot, response) ∷ responses_of m
]

unfoldable pub known : List Round → Bytes → Bool
known [] id = false
known (r ∷ rs) id = bytes_equal r.id id || known rs id

-- `slots`: only the rounds that the ledger has.
unfoldable pub slots_in :
    List Round → List (Bytes × List (Bytes × SlotState)) → List (Bytes × List (Bytes × Response))
slots_in rounds [] = []
slots_in rounds ((id, by_slot) ∷ m) =
    let rest = slots_in rounds m in
    if known rounds id then (id, responses_of (entries by_slot)) ∷ rest else rest

-- `Snapshot`, which freezes the sources.
unfoldable pub snapshot : Ledger → Ledger × Snapshot
unfolding all_listed rounds_of slots_in
snapshot l = (
  record l { sources_frozen = true },
  record {
    sources = sort slot_less l.sources;
    inputs = sort stored_before (all_listed (entries l.inputs));
    closures = sort receipt_before (all_listed (entries l.closures));
    rounds = sort round_before (rounds_of (entries l.rounds));
    slots = slots_in (rounds_of (entries l.rounds)) (entries l.providers);
    run_id = l.run_id;
  },
)

-- The loop over a round's slots: every slot has a response that is settled.
unfoldable pub all_settled : (Bytes → Bool) → List (Bytes × SlotState) → List Bytes → Bool
all_settled settled providers [] = true
all_settled settled providers (slot ∷ slots) =
    let rest = all_settled settled providers slots in
    elim (lookup slot providers) [
      | none ↦ false
      | some state ↦ elim state.response [
        | none ↦ false
        | some response ↦ settled response.id && rest
      ]
    ]

abbrev settle_round : (Bytes → Bool) → Ledger → Bytes → Round → Round
settle_round settled l id round =
    if (round.lifecycle == 0)
      && (not (length round.slots == 0) && all_settled settled (slots_of l id) round.slots)
    then record round { lifecycle = 2 }
    else round

unfoldable pub settle_rounds : (Bytes → Bool) → Ledger → List (Bytes × Round) → List (Bytes × Round)
settle_rounds settled l [] = []
settle_rounds settled l ((id, round) ∷ m) =
    (id, settle_round settled l id round) ∷ settle_rounds settled l m

-- `projectSettledNoProposalRounds`; `none` is a store without a reader of settled units, such as
-- the in-memory store.
unfoldable pub project_settled_no_proposal_rounds : Option (Bytes → Bool) → Ledger → Ledger
project_settled_no_proposal_rounds none l = l
project_settled_no_proposal_rounds (some settled) l = record l {
  rounds = settle_rounds settled l l.rounds;
}

pub record SystemUnit : Type 0 where
  pub kind : ℕ
  pub source : Bytes
  pub id : Bytes
  pub digest : Bytes
  pub eligibility : EligibilityCoordinate
