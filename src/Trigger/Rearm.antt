-- ===== src/Trigger/Rearm.antt =====
-- internal/csf/trigger/runtime_codec.go (RearmPure): a trigger is armed again, and what the next
-- evaluation then does.
use cote_ai_simulation.Base.{
  ℕ, ◌+◌, ◌<◌, ◌≡◌, refl, Bool, true, false, ◌&&◌, ◌||◌, not, arith, ◌==◌, leb, List, Result, ok,
  ◌>>◌, guard, guard-then-eq_ok, ok-injective, subst, Bool-cases, inl, inr,
}
use cote_ai_simulation.Base.Bytes.{Bytes, bytes_equal, zero_id}
use cote_ai_simulation.Base.Int.{ℤ, uint64_bound}
use cote_ai_simulation.Trigger.{
  Definition, Runtime, Event, Evaluation, once_when_true, rising_edge, falling_edge, validate,
  fires, after_policy, count_activation, causes, evaluate,
}
use cote_ai_simulation.Trigger.Firing.{evaluate_by_steps}

pub data RearmError : Type 0 where
  no_matching_cause unsupported_policy : RearmError

-- `RearmPure`
unfoldable pub rearm_pure : Definition → Runtime → Bytes → Result RearmError Runtime
rearm_pure d old causing_event = do
  guard
      (bytes_equal old.definition_id d.id
        && (old.version == d.version && not (bytes_equal causing_event zero_id)))
      no_matching_cause
  guard (d.policy == once_when_true || (d.policy == rising_edge || d.policy == falling_edge))
      unsupported_policy
  ok (record old { armed = true; exhausted = false; has_last = false; has_next_repeat = false })

-- Whether a trigger of a policy fires at the first evaluation after it was armed.
abbrev pub fires_rearmed : Definition → Bool → Bool
fires_rearmed d predicate =
    (d.policy == once_when_true && predicate)
    || (d.policy == rising_edge && (predicate && d.fire_on_initial_true))

abbrev can_rearm : Definition → Bool
can_rearm d = d.policy == once_when_true || (d.policy == rising_edge || d.policy == falling_edge)

after_policy-total :
    (d : Definition) (next : Runtime) (now : ℤ) (predicate fired : Bool)
    → can_rearm d ≡ true
    → (s : Runtime) × (after_policy d next now predicate fired ≡ ok s)
      × (s.activation_count ≡ next.activation_count)
unfolding after_policy
after_policy-total d next now predicate fired h = elim (Bool-cases (d.policy == rising_edge)) [
  | inl r ↦ rw r (_, refl, refl)
  | inr r ↦ elim (Bool-cases (d.policy == falling_edge)) [
    | inl f ↦ rw (r, f) (_, refl, refl)
    | inr f ↦ elim (Bool-cases (d.policy == once_when_true)) [
      | inl o ↦ rw (r, f, o) (_, refl, refl)
      | inr o ↦ absurd (ground arith)
    ]
  ]
]

count_activation-total :
    (next : Runtime) (fired : Bool)
    → next.activation_count + 1 < uint64_bound
    → (s : Runtime) × (count_activation next fired ≡ ok s)
unfolding count_activation
count_activation-total next true h =
    (record next { activation_count = next.activation_count + 1 }, ground arith)
count_activation-total next false h = (_, refl)

fires_armed :
    (d : Definition) (r : Runtime) (now : ℤ) (predicate : Bool)
    → can_rearm d ≡ true
    → r.has_last ≡ false
    → r.exhausted ≡ false
    → fires d r now predicate ≡ fires_rearmed d predicate
unfolding fires
fires_armed d r now predicate c l x = ground arith

accepts_armed :
    (d : Definition) (r : Runtime) (now : ℤ) (revision : ℕ) (predicate : Bool) (events : List Event)
    (ids : List Bytes)
    → validate d ≡ ok tt
    → (bytes_equal r.definition_id d.id && r.version == d.version) ≡ true
    → can_rearm d ≡ true
    → r.has_last ≡ false
    → r.exhausted ≡ false
    → r.activation_count + 1 < uint64_bound
    → causes d.dependencies events ≡ ok ids
    → (e : Evaluation) × (evaluate d r now revision predicate events ≡ ok e)
      × (e.fired ≡ fires_rearmed d predicate)
accepts_armed d r now revision predicate events ids v m c l x b k =
    let f = fires d r now predicate in
    let (s, a, p) =
      after_policy-total d (record r { evaluated_through = revision }) now predicate f c in
    let (t, n) =
      count_activation-total (record s { has_last = true; last = predicate }) f (omega arith) in
    let newer : not (leb revision r.evaluated_through && r.has_last) ≡ true = ground (arith, l) in
    let unspent : not (r.exhausted && not (d.policy == once_when_true)) ≡ true =
      ground (arith, x) in
    (
      record { runtime = t; fired = f; causing_event_ids = ids },
      evaluate_by_steps d r now revision predicate events f s t ids v m newer unspent refl a n k,
      fires_armed d r now predicate c l x,
    )

-- A trigger that was armed again, valid and with a count that may still grow, accepts the next
-- evaluation, at whatever revision, whose events have distinct order keys; it fires if the predicate
-- holds for a trigger that is to fire once, and where it may fire initially for a rising edge.
pub rearm_pure-fires :
    (d : Definition) (old r : Runtime) (causing : Bytes) (now : ℤ) (revision : ℕ) (predicate : Bool)
    (events : List Event) (ids : List Bytes)
    → validate d ≡ ok tt
    → rearm_pure d old causing ≡ ok r
    → old.activation_count + 1 < uint64_bound
    → causes d.dependencies events ≡ ok ids
    → (e : Evaluation) × (evaluate d r now revision predicate events ≡ ok e)
      × (e.fired ≡ fires_rearmed d predicate)
unfolding rearm_pure
rearm_pure-fires d old r causing now revision predicate events ids v h b k =
    let (m, h₁) =
      guard-then-eq_ok
        (bytes_equal old.definition_id d.id
          && (old.version == d.version && not (bytes_equal causing zero_id)))
        no_matching_cause _ h in
    let (c, h₂) = guard-then-eq_ok (can_rearm d) unsupported_policy _ h₁ in
    subst
      (λ (x : Runtime).
        (e : Evaluation) × (evaluate d x now revision predicate events ≡ ok e)
        × (e.fired ≡ fires_rearmed d predicate))
      (ok-injective h₂)
      (accepts_armed d _ now revision predicate events ids v (ground (arith, m)) c refl refl b k)
