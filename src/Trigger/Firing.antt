-- ===== src/Trigger/Firing.antt =====
-- When a trigger fires, and what an evaluation leaves (internal/csf/trigger/trigger.go).
use cote_ai_simulation.Base.{
  ℕ, ◌+◌, ◌<◌, ◌≡◌, refl, ap, ◌∙◌, Bool, true, false, ◌&&◌, ◌||◌, not, arith, leb, ◌==◌,
  if◌then◌else◌, List, ok, bind-eq_ok, then-eq_ok, guard-then-eq_ok, ok-injective, inl, inr, subst,
  ◌⊎◌,
}
use cote_ai_simulation.Base.Bytes.{Bytes, bytes_equal}
use cote_ai_simulation.Base.Int.{ℤ}
use cote_ai_simulation.Trigger.{
  Definition, Runtime, Event, Evaluation, version_mismatch, already_evaluated, unexpected_exhausted,
  validate, fires, after_policy, count_activation, causes, evaluate, once_when_true,
}

-- What an accepted evaluation leaves, and what it was accepted for.
pub record Evaluated (d : Definition) (old : Runtime) (now : ℤ) (revision : ℕ) (predicate : Bool)
    (r : Evaluation) : Type 0 where
  pub fired_by_policy : r.fired ≡ fires d old now predicate
  pub remembers : (r.runtime.has_last ≡ true) × (r.runtime.last ≡ predicate)
  pub through : r.runtime.evaluated_through ≡ revision
  pub newer : (old.has_last ≡ false) ⊎ (old.evaluated_through < revision)
  pub counted :
      r.runtime.activation_count
      ≡ (if r.fired then old.activation_count + 1 else old.activation_count)
  pub exhausted_once :
      r.runtime.exhausted
      ≡ (if d.policy == once_when_true then r.fired || old.exhausted else old.exhausted)

after_policy-frame :
    (d : Definition) (next : Runtime) (now : ℤ) (predicate fired : Bool) (r : Runtime)
    → after_policy d next now predicate fired ≡ ok r
    → (r.activation_count ≡ next.activation_count)
      × (r.evaluated_through ≡ next.evaluated_through)
      × (r.exhausted
          ≡ (if d.policy == once_when_true then fired || next.exhausted else next.exhausted))
unfolding after_policy
after_policy-frame d next now predicate fired r h = (ground arith, ground arith, ground arith)

count_activation-frame :
    (next : Runtime) (fired : Bool) (r : Runtime)
    → count_activation next fired ≡ ok r
    → (r.activation_count ≡ (if fired then next.activation_count + 1 else next.activation_count))
      × (r.evaluated_through ≡ next.evaluated_through)
      × (r.exhausted ≡ next.exhausted)
      × (r.has_last ≡ next.has_last)
      × (r.last ≡ next.last)
unfolding count_activation
count_activation-frame next fired r h =
    (ground arith, ground arith, ground arith, ground arith, ground arith)

newer_revision :
    (revision through : ℕ) (b : Bool)
    → not (leb revision through && b) ≡ true
    → (b ≡ false) ⊎ (through < revision)
newer_revision revision through true h = inr (ground arith)
newer_revision revision through false h = inl refl

-- An accepted evaluation is of a newer revision, or the first one; it fires as the policy says,
-- remembers the predicate and the revision, counts each firing once, and exhausts a trigger that
-- is to fire once exactly when it has fired.
pub evaluate-Evaluated :
    (d : Definition) (old : Runtime) (now : ℤ) (revision : ℕ) (predicate : Bool)
    (events : List Event) (r : Evaluation)
    → evaluate d old now revision predicate events ≡ ok r
    → Evaluated d old now revision predicate r
unfolding evaluate
evaluate-Evaluated d old now revision predicate events r h =
    let f = fires d old now predicate in
    let (v, h₁) = then-eq_ok (validate d) _ h in
    let (m, h₂) =
      guard-then-eq_ok (bytes_equal old.definition_id d.id && old.version == d.version)
        version_mismatch _ h₁ in
    let (n, h₃) =
      guard-then-eq_ok (not (leb revision old.evaluated_through && old.has_last)) already_evaluated
        _ h₂ in
    let (u, h₄) =
      guard-then-eq_ok (not (old.exhausted && not (d.policy == once_when_true)))
        unexpected_exhausted _ h₃ in
    let (s, a, h₅) =
      bind-eq_ok (after_policy d (record old { evaluated_through = revision }) now predicate f) _
        h₄ in
    let (c, b, h₆) =
      bind-eq_ok (count_activation (record s { has_last = true; last = predicate }) f) _ h₅ in
    let (ids, k, h₇) = bind-eq_ok (causes d.dependencies events) _ h₆ in
    let (p, q, x) = after_policy-frame d _ now predicate f s a in
    let (p', q', x', y, z) = count_activation-frame _ f c b in
    subst (Evaluated d old now revision predicate) (ok-injective h₇) (record {
      fired_by_policy = refl;
      remembers = (y, z);
      through = q' ∙ q;
      newer = newer_revision revision old.evaluated_through old.has_last n;
      counted = p' ∙ ap (λ t. if f then t + 1 else t) p;
      exhausted_once = x' ∙ x;
    })

-- An evaluation of which every step is accepted.
pub evaluate_by_steps :
    (d : Definition) (old : Runtime) (now : ℤ) (revision : ℕ) (predicate : Bool)
    (events : List Event) (f : Bool) (s c : Runtime) (ids : List Bytes)
    → validate d ≡ ok tt
    → (bytes_equal old.definition_id d.id && old.version == d.version) ≡ true
    → not (leb revision old.evaluated_through && old.has_last) ≡ true
    → not (old.exhausted && not (d.policy == once_when_true)) ≡ true
    → fires d old now predicate ≡ f
    → after_policy d (record old { evaluated_through = revision }) now predicate f ≡ ok s
    → count_activation (record s { has_last = true; last = predicate }) f ≡ ok c
    → causes d.dependencies events ≡ ok ids
    → evaluate d old now revision predicate events
      ≡ ok (record { runtime = c; fired = f; causing_event_ids = ids })
unfolding evaluate
evaluate_by_steps d old now revision predicate events f s c ids v m n u e a b k =
    rw (v, m, n, u, e, a, b, k) refl

-- The runtimes that accepted evaluations lead to, with no call of `RearmPure` among them.
pub data Later (d : Definition) (r : Runtime) : Runtime → Type 0 where
  now_on : Later d r r
  evaluated :
      {m : Runtime} (now : ℤ) (revision : ℕ) (predicate : Bool) (events : List Event)
      (e : Evaluation)
      → Later d r m
      → evaluate d m now revision predicate events ≡ ok e
      → Later d r e.runtime

stays_exhausted :
    (d : Definition) (old : Runtime) (now : ℤ) (revision : ℕ) (predicate : Bool)
    (events : List Event) (r : Evaluation)
    → d.policy ≡ once_when_true
    → old.exhausted ≡ true
    → evaluate d old now revision predicate events ≡ ok r
    → (r.fired ≡ false) × (r.runtime.exhausted ≡ true)
unfolding fires
stays_exhausted d old now revision predicate events r o x h =
    let e = evaluate-Evaluated d old now revision predicate events r h in
    let f : r.fired ≡ false = ground (arith, e.fired_by_policy) in
    (f, ground (arith, e.exhausted_once))

Later-exhausted :
    (d : Definition) (r : Runtime) {m : Runtime}
    → d.policy ≡ once_when_true
    → r.exhausted ≡ true
    → Later d r m
    → m.exhausted ≡ true
Later-exhausted d r o x now_on = x
Later-exhausted d r o x (evaluated {m} now revision predicate events e l h) =
    (stays_exhausted d m now revision predicate events e o (Later-exhausted d r o x l) h).1

-- A trigger that is to fire once, and has fired, does not fire in an evaluation that only further
-- evaluations lead to: it is not armed again (`RearmPure`) in between.
pub once_fires_once :
    (d : Definition) (old m : Runtime) (now now' : ℤ) (revision revision' : ℕ) (p p' : Bool)
    (events events' : List Event) (r s : Evaluation)
    → d.policy ≡ once_when_true
    → evaluate d old now revision p events ≡ ok r
    → r.fired ≡ true
    → Later d r.runtime m
    → evaluate d m now' revision' p' events' ≡ ok s
    → s.fired ≡ false
once_fires_once d old m now now' revision revision' p p' events events' r s o h f l k =
    let e = evaluate-Evaluated d old now revision p events r h in
    let x : r.runtime.exhausted ≡ true = ground (arith, e.exhausted_once) in
    (stays_exhausted d m now' revision' p' events' s o (Later-exhausted d r.runtime o x l) k).0
