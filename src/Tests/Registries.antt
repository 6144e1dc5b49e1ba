-- ===== src/Tests/Registries.antt =====
-- Examples of the records of triggers (internal/csf/trigger/authority.go and runtime_codec.go).
use mathlib.Core.List.{Permᴰ}
use cote_ai_simulation.Base.{◌≡◌, ◌↔◌, refl, true, false, [], ◌∷◌, ok, arith, All, Pairs}
use cote_ai_simulation.Base.Bytes.{Bytes, bytes_equal, bytes_compare, zero_id}
use cote_ai_simulation.Base.Int.{ℤ, pos}
use cote_ai_simulation.Base.Sort.{sort}
use cote_ai_simulation.Codec.{canonical_payload, normalize}
use cote_ai_simulation.Trigger.Wire.Absent.{with_values, evaluate-absent}
use cote_ai_simulation.Trigger.{
  fires, after_policy, count_activation, Definition, Runtime, Evaluation, evaluate, validate,
  once_when_true, causes, causing, distinct_keys, valid_dependencies, sorted_after,
}
use cote_ai_simulation.Trigger.Wire.{runtime_bytes, decode_runtime, IsRuntime}
use cote_ai_simulation.Trigger.Wire.RoundTrip.{decode_runtime_iff}
use cote_ai_simulation.Trigger.Rearm.{rearm_pure, rearm_pure-fires, fires_rearmed}
use cote_ai_simulation.Trigger.Registry.{canonical_definitions, check_definitions, check_after}
use cote_ai_simulation.Trigger.Registry.Definitions.{IsValid, HasLaterId, canonical_definitions_iff}
use cote_ai_simulation.Value.{Value, byte_string, uint64, boolean, list}
use cote_ai_simulation.Codec.{Library}
use cote_ai_simulation.Codec.ReadBack.{read_back}
use cote_ai_simulation.Tests.Indexed.{indexed, indexed-ReadsPlain, place, same}

false_is_not : false ≡ true → ⊥
false_is_not h = cc

true_is_not : true ≡ false → ⊥
true_is_not h = cc

abbrev once : Bytes → Definition
once id = record {
  id = id;
  predicate_threshold = pos 5;
  version = 1;
  policy = once_when_true;
  fire_on_initial_true = false;
  repeat_every = pos 0;
  dependencies = (99 ∷ []) ∷ [];
}

abbrev spent : Runtime
spent = record {
  definition_id = 1 ∷ [];
  version = 1;
  has_last = true;
  last = true;
  armed = false;
  exhausted = true;
  activation_count = 1;
  has_next_repeat = false;
  next_repeat = pos 0;
  evaluated_through = 4;
}

armed_again :
    rearm_pure (once (1 ∷ [])) spent (7 ∷ [])
    ≡ ok (record spent {
      armed = true;
      exhausted = false;
      has_last = false;
      has_next_repeat = false;
    })
unfolding rearm_pure bytes_equal
armed_again = refl

once_valid : validate (once (1 ∷ [])) ≡ ok tt
unfolding validate valid_dependencies sorted_after
once_valid = refl

no_events : causes ((99 ∷ []) ∷ []) [] ≡ ok []
unfolding causes causing distinct_keys sort
no_events = refl

rearm_pure-fires_example :
    (e : Evaluation) × (evaluate
        (once (1 ∷ []))
        (record spent {
          armed = true;
          exhausted = false;
          has_last = false;
          has_next_repeat = false;
        })
        (pos 9)
        4
        true
        []
      ≡ ok e)
    × (e.fired ≡ fires_rearmed (once (1 ∷ [])) true)
rearm_pure-fires_example =
    rearm_pure-fires (once (1 ∷ [])) spent _ (7 ∷ []) (pos 9) 4 true [] [] once_valid armed_again
      (omega arith) no_events

canonical_definitions_iff_example :
    (canonical_definitions (once (2 ∷ []) ∷ once (1 ∷ []) ∷ [])
      ≡ ok (once (1 ∷ []) ∷ once (2 ∷ []) ∷ []))
    ↔ (All IsValid (once (1 ∷ []) ∷ once (2 ∷ []) ∷ [])
        × Permᴰ (once (1 ∷ []) ∷ once (2 ∷ []) ∷ []) (once (2 ∷ []) ∷ once (1 ∷ []) ∷ [])
        × Pairs HasLaterId (once (1 ∷ []) ∷ once (2 ∷ []) ∷ []))
canonical_definitions_iff_example =
    canonical_definitions_iff (once (2 ∷ []) ∷ once (1 ∷ []) ∷ [])
      (once (1 ∷ []) ∷ once (2 ∷ []) ∷ [])

both_registered :
    canonical_definitions (once (2 ∷ []) ∷ once (1 ∷ []) ∷ [])
    ≡ ok (once (1 ∷ []) ∷ once (2 ∷ []) ∷ [])
unfolding canonical_definitions check_definitions check_after sort bytes_compare bytes_equal
    validate valid_dependencies sorted_after
both_registered = refl

-- With a last predicate, and a next repetition.
abbrev stored : Runtime
stored = record spent { definition_id = zero_id; has_next_repeat = true; next_repeat = pos 12 }

abbrev stored_value : Value
stored_value = list (
    byte_string zero_id
    ∷ uint64 1
    ∷ list (uint64 1 ∷ boolean true ∷ [])
    ∷ boolean false
    ∷ boolean true
    ∷ uint64 1
    ∷ list (uint64 1 ∷ uint64 12 ∷ [])
    ∷ uint64 4
    ∷ [])

abbrev runtimes : Library
runtimes = indexed (stored_value ∷ [])

stored-IsRuntime : IsRuntime stored
stored-IsRuntime = record {
  id_fits = refl;
  version_fits = refl;
  count_fits = omega arith;
  revision_fits = omega arith;
  next_fits = (omega arith, omega arith);
  no_last = λ h. absurd (true_is_not h);
  no_next = λ h. absurd (true_is_not h);
}

decode_runtime_iff_example :
    (decode_runtime runtimes (0 ∷ []) ≡ ok stored) ↔ (runtime_bytes runtimes stored ≡ ok (0 ∷ []))
decode_runtime_iff_example =
    decode_runtime_iff runtimes stored (0 ∷ []) (indexed-ReadsPlain (stored_value ∷ []))
      stored-IsRuntime

stored_written : runtime_bytes runtimes stored ≡ ok (0 ∷ [])
unfolding runtime_bytes canonical_payload normalize place same read_back bytes_equal
stored_written = refl

stored_read : decode_runtime runtimes (0 ∷ []) ≡ ok stored
stored_read =
    (decode_runtime_iff runtimes stored (0 ∷ []) (indexed-ReadsPlain (stored_value ∷ []))
        stored-IsRuntime).1
      stored_written

abbrev armed : Runtime
armed = record spent { armed = true; exhausted = false; has_last = false; has_next_repeat = false }

abbrev fired_again : Evaluation
fired_again = record {
  runtime = record spent { activation_count = 2; evaluated_through = 6 };
  fired = true;
  causing_event_ids = [];
}

armed_evaluated : evaluate (once (1 ∷ [])) armed (pos 9) 6 true [] ≡ ok fired_again
unfolding evaluate validate valid_dependencies sorted_after bytes_equal fires after_policy
    count_activation causes distinct_keys causing sort
armed_evaluated = refl

evaluate-absent_example :
    (runtime_bytes runtimes (with_values armed false (pos 0)) ≡ runtime_bytes runtimes armed)
    × (m : ℤ) × (evaluate (once (1 ∷ [])) (with_values armed false (pos 0)) (pos 9) 6 true []
        ≡ ok (record fired_again { runtime = record fired_again.runtime { next_repeat = m } }))
    × (false ≡ true → m ≡ pos 0)
evaluate-absent_example =
    evaluate-absent (once (1 ∷ [])) armed false (pos 0) (λ h. absurd (false_is_not h)) (λ h. refl)
      runtimes (pos 9) 6 true [] fired_again armed_evaluated
