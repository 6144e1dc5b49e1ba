-- ===== src/Trigger/Wire/Absent.antt =====
-- What the record of a runtime leaves out has no effect on an evaluation (RuntimeBytes in
-- internal/csf/trigger/runtime_codec.go, Evaluate in trigger.go).
use cote_ai_simulation.Base.{
  ℕ, ◌≡◌, refl, ap, subst, Bool, true, false, ◌&&◌, not, leb, ◌==◌, ◌-◌, List, Result, ok, err,
  if◌then◌else◌, bind-eq_ok, then-eq_ok, guard-then-eq_ok, ok-injective, Bool-cases, inl, inr,
}
use cote_ai_simulation.Base.Bytes.{bytes_equal}
use cote_ai_simulation.Base.Int.{ℤ, ltb_ℤ, max_int64, ◌+ℤ◌, ◌-ℤ◌, uint64_bound}
use cote_ai_simulation.Codec.{Library}
use cote_ai_simulation.Trigger.{
  Definition, Runtime, Event, Evaluation, TriggerError, rising_edge, falling_edge, once_when_true,
  version_mismatch, already_evaluated, unexpected_exhausted, cadence_overflow, validate, fires,
  after_policy, count_activation, causes, evaluate,
}
use cote_ai_simulation.Trigger.Firing.{evaluate_by_steps}
use cote_ai_simulation.Trigger.Wire.{last_value, next_value, runtime_bytes}

-- The runtime with another last predicate and another next repetition.
abbrev pub with_values : Runtime → Bool → ℤ → Runtime
with_values r last next = record r { last = last; next_repeat = next }

last_value-absent :
    (has last l : Bool) → (has ≡ true → l ≡ last) → last_value has l ≡ last_value has last
last_value-absent true last l h = rw (h refl) refl
last_value-absent false last l h = refl

next_value-absent :
    (has : Bool) (next n : ℤ) → (has ≡ true → n ≡ next) → next_value has n ≡ next_value has next
next_value-absent true next n h = rw (h refl) refl
next_value-absent false next n h = refl

fires-absent :
    (d : Definition) (r : Runtime) (l : Bool) (n now : ℤ) (predicate : Bool)
    → (r.has_last ≡ true → l ≡ r.last)
    → (r.has_next_repeat ≡ true → n ≡ r.next_repeat)
    → fires d (with_values r l n) now predicate ≡ fires d r now predicate
unfolding fires
fires-absent d r l n now predicate hl hn = elim (Bool-cases r.has_last) [
  | inl e ↦ elim (Bool-cases r.has_next_repeat) [
    | inl f ↦ rw (hl e, hn f) refl
    | inr f ↦ rw (hl e, f) refl
  ]
  | inr e ↦ rw e refl
]

left_as :
    (t s : Runtime) (l : Bool) (m : ℤ) (a : Runtime)
    → t ≡ s
    → a ≡ with_values t l m
    → (t.has_next_repeat ≡ true → m ≡ t.next_repeat)
    → (x : ℤ) × (◌≡◌ {A = Result TriggerError Runtime} (ok a) (ok (with_values s l x)))
      × (s.has_next_repeat ≡ true → x ≡ s.next_repeat)
left_as t s l m a e f h =
    subst
      (λ (z : Runtime).
        (x : ℤ) × (◌≡◌ {A = Result TriggerError Runtime} (ok a) (ok (with_values z l x)))
        × (z.has_next_repeat ≡ true → x ≡ z.next_repeat))
      e (m, ap ok f, h)

-- The last branch of the `switch`.
abbrev repeating : Definition → Runtime → ℤ → Bool → Bool → Result TriggerError Runtime
repeating d next now predicate fired =
    if fired
    then (if ltb_ℤ (max_int64 -ℤ d.repeat_every) now
        then err cadence_overflow
        else ok (record next { next_repeat = now +ℤ d.repeat_every; has_next_repeat = true }))
    else ok (if predicate then next else record next { has_next_repeat = false; armed = true })

repeating-absent :
    (d : Definition) (next : Runtime) (l : Bool) (n now : ℤ) (predicate fired : Bool) (s : Runtime)
    → (next.has_next_repeat ≡ true → n ≡ next.next_repeat)
    → repeating d next now predicate fired ≡ ok s
    → (m : ℤ) × (repeating d (with_values next l n) now predicate fired ≡ ok (with_values s l m))
      × (s.has_next_repeat ≡ true → m ≡ s.next_repeat)
repeating-absent d next l n now predicate true s hn h =
    elim (Bool-cases (ltb_ℤ (max_int64 -ℤ d.repeat_every) now)) [
      | inl o ↦ absurd (cc (rw o at h))
      | inr o ↦
          rw o (left_as _ s l (now +ℤ d.repeat_every) _ (ok-injective (rw o at h)) refl (λ _. refl))
    ]
repeating-absent d next l n now true false s hn h = left_as _ s l n _ (ok-injective h) refl hn
repeating-absent d next l n now false false s hn h =
    left_as _ s l n _ (ok-injective h) refl (λ e. cc e)

after_policy-absent :
    (d : Definition) (next : Runtime) (l : Bool) (n now : ℤ) (predicate fired : Bool) (s : Runtime)
    → (next.has_next_repeat ≡ true → n ≡ next.next_repeat)
    → after_policy d next now predicate fired ≡ ok s
    → (m : ℤ) × (after_policy d (with_values next l n) now predicate fired ≡ ok (with_values s l m))
      × (s.has_next_repeat ≡ true → m ≡ s.next_repeat)
unfolding after_policy
after_policy-absent d next l n now predicate fired s hn h =
    elim (Bool-cases (d.policy == rising_edge)) [
      | inl r ↦ rw r (left_as _ s l n _ (ok-injective (rw (r, after_policy) at h)) refl hn)
      | inr r ↦ elim (Bool-cases (d.policy == falling_edge)) [
        | inl f ↦
            rw (r, f) (left_as _ s l n _ (ok-injective (rw (r, f, after_policy) at h)) refl hn)
        | inr f ↦ elim (Bool-cases (d.policy == once_when_true)) [
          | inl o ↦
              rw (r, f, o)
                (left_as _ s l n _ (ok-injective (rw (r, f, o, after_policy) at h)) refl hn)
          | inr o ↦
              rw (r, f, o)
                (repeating-absent d next l n now predicate fired s hn
                  (rw (r, f, o, after_policy) at h))
        ]
      ]
    ]

counted_as :
    (t c : Runtime) (m : ℤ)
    → t ≡ c
    → (t.has_next_repeat ≡ true → m ≡ t.next_repeat)
    → (◌≡◌ {A = Result TriggerError Runtime}
        (ok (record t { next_repeat = m }))
        (ok (record c { next_repeat = m })))
      × (c.has_next_repeat ≡ true → m ≡ c.next_repeat)
counted_as t c m e h = (
  ap (λ (z : Runtime). ok (record z { next_repeat = m })) e,
  subst (λ (z : Runtime). z.has_next_repeat ≡ true → m ≡ z.next_repeat) e h,
)

count_activation-absent :
    (next : Runtime) (m : ℤ) (fired : Bool) (c : Runtime)
    → (next.has_next_repeat ≡ true → m ≡ next.next_repeat)
    → count_activation next fired ≡ ok c
    → (count_activation (record next { next_repeat = m }) fired ≡ ok (record c { next_repeat = m }))
      × (c.has_next_repeat ≡ true → m ≡ c.next_repeat)
unfolding count_activation
count_activation-absent next m true c hm h =
    elim (Bool-cases (next.activation_count == (uint64_bound - 1))) [
      | inl o ↦ absurd (cc (rw (o, count_activation) at h))
      | inr o ↦ rw o (counted_as _ c m (ok-injective (rw (o, count_activation) at h)) hm)
    ]
count_activation-absent next m false c hm h = counted_as next c m (ok-injective h) hm

module _ (d : Definition) (r : Runtime) (l : Bool) (n : ℤ) (hl : r.has_last ≡ true → l ≡ r.last)
    (hn : r.has_next_repeat ≡ true → n ≡ r.next_repeat) where
  -- Two runtimes that differ only in a last predicate or a next repetition that is absent have one
  -- record, and an evaluation that the one accepts the other accepts, with the same firing and the
  -- same causes, and leaves it a runtime that again differs at most in an absent next repetition.
  pub evaluate-absent :
      (lib : Library) (now : ℤ) (revision : ℕ) (predicate : Bool) (events : List Event)
      (e : Evaluation)
      → evaluate d r now revision predicate events ≡ ok e
      → (runtime_bytes lib (with_values r l n) ≡ runtime_bytes lib r)
        × (m : ℤ) × (evaluate d (with_values r l n) now revision predicate events
            ≡ ok (record e { runtime = record e.runtime { next_repeat = m } }))
        × (e.runtime.has_next_repeat ≡ true → m ≡ e.runtime.next_repeat)
  unfolding evaluate runtime_bytes
  evaluate-absent lib now revision predicate events e h =
      let f = fires d r now predicate in
      let (v, h₁) = then-eq_ok (validate d) _ h in
      let (w, h₂) =
        guard-then-eq_ok (bytes_equal r.definition_id d.id && r.version == d.version)
          version_mismatch _ h₁ in
      let (u, h₃) =
        guard-then-eq_ok (not (leb revision r.evaluated_through && r.has_last)) already_evaluated _
          h₂ in
      let (x, h₄) =
        guard-then-eq_ok (not (r.exhausted && not (d.policy == once_when_true)))
          unexpected_exhausted _ h₃ in
      let (s, a, h₅) =
        bind-eq_ok (after_policy d (record r { evaluated_through = revision }) now predicate f) _
          h₄ in
      let (c, b, h₆) =
        bind-eq_ok (count_activation (record s { has_last = true; last = predicate }) f) _ h₅ in
      let (ids, k, h₇) = bind-eq_ok (causes d.dependencies events) _ h₆ in
      let (m, a', hm) =
        after_policy-absent d (record r { evaluated_through = revision }) l n now predicate f s hn
          a in
      let (b', hc) =
        count_activation-absent (record s { has_last = true; last = predicate }) m f c hm b in
      let record_same : runtime_bytes lib (with_values r l n) ≡ runtime_bytes lib r =
        rw
          (
            last_value-absent r.has_last r.last l hl,
            next_value-absent r.has_next_repeat r.next_repeat n hn,
          )
          refl in
      subst
        (λ (z : Evaluation).
          (runtime_bytes lib (with_values r l n) ≡ runtime_bytes lib r)
          × (m : ℤ) × (evaluate d (with_values r l n) now revision predicate events
              ≡ ok (record z { runtime = record z.runtime { next_repeat = m } }))
          × (z.runtime.has_next_repeat ≡ true → m ≡ z.runtime.next_repeat))
        (ok-injective h₇)
        (
          record_same,
          m,
          evaluate_by_steps d (with_values r l n) now revision predicate events f _ _ ids v w u x
              (fires-absent d r l n now predicate hl hn) a' b' k,
          hc,
        )
