-- ===== src/Tests/Triggers.antt =====
-- Examples of triggers (internal/csf/trigger).
use cote_ai_simulation.Trigger.{
  after_policy, causes, causing, contains, count_activation, distinct_keys, fires, meets,
  sorted_after, valid_dependencies, validate,
}
use cote_ai_simulation.Base.Bytes.{bytes_equal}
use cote_ai_simulation.Base.Sort.{sort}
use cote_ai_simulation.Base.{◌≡◌, refl, true, false, [], ◌∷◌, ok}
use cote_ai_simulation.Base.Int.{pos}
use cote_ai_simulation.Trigger.{Definition, Runtime, Event, Evaluation, evaluate, once_when_true}
use cote_ai_simulation.Trigger.Firing.{now_on, once_fires_once}

abbrev once : Definition
once = record {
  id = 1 ∷ [];
  predicate_threshold = pos 5;
  version = 1;
  policy = once_when_true;
  fire_on_initial_true = false;
  repeat_every = pos 0;
  dependencies = (99 ∷ []) ∷ [];
}

abbrev fresh : Runtime
fresh = record {
  definition_id = 1 ∷ [];
  version = 1;
  has_last = false;
  last = false;
  armed = true;
  exhausted = false;
  activation_count = 0;
  has_next_repeat = false;
  next_repeat = pos 0;
  evaluated_through = 0;
}

abbrev clock_event : Event
clock_event = record { id = 2 ∷ []; order_key = 3 ∷ []; footprint = (99 ∷ []) ∷ [] }

abbrev spent : Runtime
spent = record {
  definition_id = 1 ∷ [];
  version = 1;
  has_last = true;
  last = true;
  armed = false;
  exhausted = true;
  activation_count = 1;
  has_next_repeat = false;
  next_repeat = pos 0;
  evaluated_through = 4;
}

abbrev fired_once : Evaluation
fired_once = record { runtime = spent; fired = true; causing_event_ids = (2 ∷ []) ∷ [] }

abbrev silent : Evaluation
silent = record {
  runtime = record spent { evaluated_through = 7 };
  fired = false;
  causing_event_ids = [];
}

once_evaluated : evaluate once fresh (pos 6) 4 true (clock_event ∷ []) ≡ ok fired_once
unfolding evaluate validate valid_dependencies sorted_after bytes_equal after_policy
    count_activation fires causes distinct_keys sort causing meets contains
once_evaluated = refl

spent_evaluated : evaluate once spent (pos 8) 7 true [] ≡ ok silent
unfolding evaluate validate valid_dependencies sorted_after bytes_equal after_policy
    count_activation fires causes distinct_keys sort causing
spent_evaluated = refl

once_fires_once_example : silent.fired ≡ false
once_fires_once_example =
    once_fires_once once fresh spent (pos 6) (pos 8) 4 7 true true (clock_event ∷ []) [] fired_once
      silent refl once_evaluated refl now_on spent_evaluated
