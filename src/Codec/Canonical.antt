-- ===== src/Codec/Canonical.antt =====
-- Normal forms and the strict decoder (internal/csf/codec/codec.go).
use cote_ai_simulation.Base.{
  ℕ, ◌≡◌, refl, sym, ap, ◌∙◌, subst, Bool, true, false, not, arith, List, some, Result, ok, or_fail,
  ◌↔◌, Option-cases, bind-eq_ok, guard-then-eq_ok, Bool-cases, leb, length, inl, inr, ok-injective,
  or_fail-eq_ok,
}
use cote_ai_simulation.Base.Bytes.{Bytes, bytes_equal, bytes_equal-eq, bytes_equal_refl}
use cote_ai_simulation.Value.{
  Value, Values, Entries, null, boolean, byte_string, text, float64, int64, uint64, uint32, array,
  mapping, nil, cons, empty, entry,
}
use cote_ai_simulation.Codec.{
  Library, CodecError, complex_map_key, duplicate_map_key, decode_failed, non_canonical,
  contains_unassigned, normalize_text, normalize, normalize_items, normalize_entries, has_key,
  append_entry, canonical_payload, strict_decode_payload, runes, is_finite, is_zero, is_comparable,
}

-- What the codec relies on in the Unicode normaliser: it keeps UTF-8 text UTF-8, and a normal form
-- is its own.
pub record IsNormalizer (lib : Library) : Type 0 where
  pub keeps_utf8 :
      (s : Bytes) (cs : List ℕ)
      → lib.code_points s ≡ some cs
      → (ds : List ℕ) × (lib.code_points (lib.nfc s) ≡ some ds)
  pub stable : (s : Bytes) → lib.nfc (lib.nfc s) ≡ lib.nfc s

pub join : Entries → Entries → Entries
join empty es = es
join (entry k v ds) es = entry k v (join ds es)

join-empty : (es : Entries) → join es empty ≡ es
unfolding join
join-empty empty = refl
join-empty (entry k v es) = ap (entry k v) (join-empty es)

join-append_entry :
    (acc es : Entries) (k i : Value) → join (append_entry acc k i) es ≡ join acc (entry k i es)
unfolding join append_entry
join-append_entry empty es k i = refl
join-append_entry (entry k' v acc) es k i = ap (entry k' v) (join-append_entry acc es k i)

not-false : (b : Bool) → not b ≡ true → b ≡ false
not-false b h = ground arith

module _ (lib : Library) where
  -- The strict decoder accepts exactly the bytes that the library decodes to a value whose
  -- canonical payload they are.
  pub strict_decode_iff :
      (b : Bytes) (v : Value)
      → (strict_decode_payload lib b ≡ ok v)
        ↔ ((lib.unmarshal b ≡ some v) × (canonical_payload lib v ≡ ok b))
  unfolding strict_decode_payload
  strict_decode_iff b v = (forth, back)
    where
      forth :
          strict_decode_payload lib b ≡ ok v
          → (lib.unmarshal b ≡ some v) × (canonical_payload lib v ≡ ok b)
      forth h =
          let (w, u, h₁) = bind-eq_ok (or_fail (lib.unmarshal b) decode_failed) _ h in
          let (r, c, h₂) = bind-eq_ok (canonical_payload lib w) _ h₁ in
          let (e, h₃) = guard-then-eq_ok (bytes_equal b r) non_canonical _ h₂ in
          (cc (or_fail-eq_ok (lib.unmarshal b) decode_failed u), cc (bytes_equal-eq b r e))

      back :
          (lib.unmarshal b ≡ some v) × (canonical_payload lib v ≡ ok b)
          → strict_decode_payload lib b ≡ ok v
      back h = rw (h.0, h.1, bytes_equal_refl b) refl

  -- No two byte strings decode strictly to one value.
  pub strict_decode_injective :
      (a b : Bytes) (v : Value)
      → strict_decode_payload lib a ≡ ok v
      → strict_decode_payload lib b ≡ ok v
      → a ≡ b
  strict_decode_injective a b v h k =
      let x = ((strict_decode_iff a v).0 h).1 in let y = ((strict_decode_iff b v).0 k).1 in cc

  module _ (n : IsNormalizer lib) where
    -- What a normalised string has passed.
    record Normalized (s : Bytes) (w : Value) : Type 0 where
      cs : List ℕ
      decodes : lib.code_points s ≡ some cs
      clean_after : contains_unassigned lib.unassigned (runes lib (lib.nfc s)) ≡ false
      short : leb (length (lib.nfc s)) 1_048_576 ≡ true
      result : w ≡ text (lib.nfc s)

    normalize_text-Normalized :
        (s : Bytes) (w : Value) → normalize_text lib s ≡ ok w → Normalized s w
    unfolding normalize_text
    normalize_text-Normalized s w h = elim (Option-cases (lib.code_points s)) [
      | inl e ↦ absurd (ground arith)
      | inr (cs, e) ↦ record {
        cs = cs;
        decodes = e;
        clean_after = ground arith;
        short = ground arith;
        result = ground arith;
      }
    ]

    normalize_text-stable : (s : Bytes) (w : Value) → Normalized s w → normalize lib w ≡ ok w
    unfolding normalize normalize_text
    normalize_text-stable s w z =
        let (ds, u) = n.keeps_utf8 s z.cs z.decodes in
        rw (z.result, n.stable s) (ground (arith, z.clean_after, z.short))

    normalize_float-stable :
        (bits : ℕ) (w : Value) → normalize lib (float64 bits) ≡ ok w → normalize lib w ≡ ok w
    unfolding normalize
    normalize_float-stable bits w h = elim (Bool-cases (is_finite bits)) [
      | inr f ↦ absurd (ground arith)
      | inl f ↦ elim (Bool-cases (is_zero bits)) [
        | inl z ↦ let e : float64 0 ≡ w = ground arith in subst (λ x. normalize lib x ≡ ok x) e refl
        | inr z ↦
            let e : float64 bits ≡ w = ground arith in
            subst (λ x. normalize lib x ≡ ok x) e (rw (f, z) refl)
      ]
    ]

    -- The two tests of a key, and the entry that is then appended.
    normalize_entries-step :
        (k i : Value) (es acc : Entries)
        → normalize lib k ≡ ok k
        → normalize lib i ≡ ok i
        → is_comparable k ≡ true
        → has_key k acc ≡ false
        → normalize_entries lib (entry k i es) acc ≡ normalize_entries lib es (append_entry acc k i)
    unfolding normalize
    normalize_entries-step k i es acc nk ni c d = rw (nk, c, d, ni) refl

    -- The entries that are left of a map, normalised behind those at hand.
    record Rest (acc r : Entries) : Type 0 where
      rest : Entries
      again : normalize_entries lib rest acc ≡ ok r
      is_suffix : join acc rest ≡ r

    again_at :
        (v w : Value)
        → ◌≡◌ {A = Result CodecError Value} (ok v) (ok w)
        → normalize lib v ≡ ok v
        → normalize lib w ≡ ok w
    again_at v w h e = subst (λ x. normalize lib x ≡ ok x) (ok-injective h) e

    whole : (r : Entries) → Rest empty r → normalize_entries lib r empty ≡ ok r
    unfolding join
    whole r z = subst (λ x. normalize_entries lib x empty ≡ ok r) z.is_suffix z.again

    extend :
        (k i : Value) (acc r : Entries)
        → normalize lib k ≡ ok k
        → normalize lib i ≡ ok i
        → is_comparable k ≡ true
        → not (has_key k acc) ≡ true
        → Rest (append_entry acc k i) r
        → Rest acc r
    extend k i acc r nk ni c d z = record {
      rest = entry k i z.rest;
      again = normalize_entries-step k i z.rest acc nk ni c (not-false _ d) ∙ z.again;
      is_suffix = sym (join-append_entry acc z.rest k i) ∙ z.is_suffix;
    }

    mutual
      unfolding normalize

      normalize-again : (v w : Value) → normalize lib v ≡ ok w → normalize lib w ≡ ok w
      normalize-again null w h = again_at null w h refl
      normalize-again (boolean b) w h = again_at (boolean b) w h refl
      normalize-again (byte_string b) w h = again_at (byte_string b) w h refl
      normalize-again (text s) w h = normalize_text-stable s w (normalize_text-Normalized s w h)
      normalize-again (float64 bits) w h = normalize_float-stable bits w h
      normalize-again (int64 n) w h = again_at (int64 n) w h refl
      normalize-again (uint64 n) w h = again_at (uint64 n) w h refl
      normalize-again (uint32 n) w h = again_at (uint32 n) w h refl
      normalize-again (array vs) w h =
          let (r, e, h₁) = bind-eq_ok (normalize_items lib vs) _ h in
          again_at (array r) w h₁ (rw (normalize_items-again vs r e) refl)
      normalize-again (mapping es) w h =
          let (r, e, h₁) = bind-eq_ok (normalize_entries lib es empty) _ h in
          again_at (mapping r) w h₁ (rw (whole r (normalize_entries-again es empty r e)) refl)

      normalize_items-again :
          (vs ws : Values) → normalize_items lib vs ≡ ok ws → normalize_items lib ws ≡ ok ws
      normalize_items-again nil ws h =
          subst (λ x. normalize_items lib x ≡ ok x) (ok-injective h) refl
      normalize_items-again (cons v vs) ws h =
          let (x, e, h₁) = bind-eq_ok (normalize lib v) _ h in
          let (xs, f, h₂) = bind-eq_ok (normalize_items lib vs) _ h₁ in
          subst (λ z. normalize_items lib z ≡ ok z) (ok-injective h₂)
            (rw (normalize-again v x e, normalize_items-again vs xs f) refl)

      normalize_entries-again :
          (es acc r : Entries) → normalize_entries lib es acc ≡ ok r → Rest acc r
      normalize_entries-again empty acc r h = record {
        rest = empty;
        again = h;
        is_suffix = join-empty acc ∙ ok-injective h;
      }
      normalize_entries-again (entry k i es) acc r h =
          let (k', e, h₁) = bind-eq_ok (normalize lib k) _ h in
          let (c, h₂) = guard-then-eq_ok (is_comparable k') complex_map_key _ h₁ in
          let (d, h₃) = guard-then-eq_ok (not (has_key k' acc)) duplicate_map_key _ h₂ in
          let (i', f, h₄) = bind-eq_ok (normalize lib i) _ h₃ in
          extend k' i' acc r (normalize-again k k' e) (normalize-again i i' f) c d
            (normalize_entries-again es (append_entry acc k' i') r h₄)

    -- A normal form is its own normal form, maps and their order included.
    pub normalize_idempotent : (v w : Value) → normalize lib v ≡ ok w → normalize lib w ≡ ok w
    normalize_idempotent v w h = normalize-again v w h
