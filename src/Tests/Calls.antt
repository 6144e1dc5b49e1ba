-- ===== src/Tests/Calls.antt =====
-- Data for the examples of the in-memory store: a fence, a source, an input, and stores with them.
use cote_ai_simulation.Base.{ℕ, zero, suc, List, [], ◌∷◌, ◌++◌}
use cote_ai_simulation.Base.Bytes.{Bytes, literal}
use cote_ai_simulation.Base.Int.{pos}
use cote_ai_simulation.Value.{Value, null, uint64, text, byte_string, list}
use cote_ai_simulation.Codec.{Library}
use cote_ai_simulation.IngressGuard.{CanonicalRecord}
use cote_ai_simulation.Store.{Store, AdmissionSeal}
use cote_ai_simulation.Store.Run.{Call, source_call}
use cote_ai_simulation.Tests.Toy.{toy, encode}

abbrev repeat : ℕ → ℕ → Bytes
repeat zero b = []
repeat (suc n) b = b ∷ repeat n b

abbrev pub nulls : ℕ → List Value
nulls zero = []
nulls (suc n) = null ∷ nulls n

-- The run of the examples.
abbrev pub run_seven : Bytes
run_seven = repeat 32 7

-- A CLOCK_ADVANCE fence from (5, 1) to (9, 0).
abbrev pub advance_fence : Value
advance_fence = list (
    byte_string run_seven
    ∷ null
    ∷ null
    ∷ null
    ∷ uint64 5
    ∷ uint64 1
    ∷ list (uint64 1 ∷ uint64 5 ∷ uint64 9 ∷ list (uint64 9 ∷ uint64 0 ∷ []) ∷ [])
    ∷ nulls 11)

abbrev pub source_value : Value
source_value =
    list (text (literal "source-declaration-v1") ∷ byte_string run_seven ∷ text (115 ∷ []) ∷ [])

-- An input of the source "s" that is eligible at (4, 0).
abbrev pub input_value : Value
input_value = list (
    byte_string (1 ∷ []) ∷ byte_string run_seven ∷ text (115 ∷ []) ∷ nulls 6
    ++ list (uint64 4 ∷ uint64 0 ∷ []) ∷ nulls 3)

abbrev pub lib : Library
lib = toy (advance_fence ∷ source_value ∷ input_value ∷ [])

abbrev pub same : Bytes → Bytes
same b = b

abbrev pub fence : CanonicalRecord
fence = record { identity = 3 ∷ []; canonical = encode advance_fence }

abbrev pub source_record : CanonicalRecord
source_record = record { identity = 2 ∷ []; canonical = encode source_value }

abbrev pub input_record : CanonicalRecord
input_record = record { identity = 1 ∷ []; canonical = encode input_value }

abbrev pub seal : AdmissionSeal
seal = record { run_id = run_seven; instant = pos 5; ordinal = 1 }

abbrev pub calls : List Call
calls = source_call run_seven source_record ∷ []

abbrev pub declared : Store
declared = record {
  records = (2 ∷ [], encode source_value) ∷ [];
  conditional = [];
  ingress_cursor = [];
  fences = [];
  seals = [];
  order = (2 ∷ []) ∷ [];
}

abbrev pub published : Store
published = record {
  records = (2 ∷ [], encode source_value) ∷ [];
  conditional = [];
  ingress_cursor = [];
  fences = (3 ∷ [], encode advance_fence) ∷ [];
  seals = seal ∷ [];
  order = (2 ∷ []) ∷ [];
}
