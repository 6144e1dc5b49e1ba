-- ===== src/Domain/Patterns.antt =====
-- The patterns of internal/csf/domain/types.go, and `MatchString` of Go's regexp on them. Each
-- pattern is anchored at both ends, so a match is of the whole string.
use cote_ai_simulation.Base.{
  ℕ, Bool, true, false, ◌&&◌, ◌||◌, leb, if◌then◌else◌, List, [], ◌∷◌, length,
}
use cote_ai_simulation.Base.Bytes.{Bytes}

pub data Regex : Type 0 where
  never : Regex
  nothing : Regex
  one_of : List (ℕ × ℕ) → Regex
  seq : Regex → Regex → Regex
  alt : Regex → Regex → Regex
  star : Regex → Regex

-- `r+`
abbrev plus : Regex → Regex
plus r = seq r (star r)

abbrev in_class : List (ℕ × ℕ) → ℕ → Bool
in_class [] c = false
in_class ((low, high) ∷ rs) c = (leb low c && leb c high) || in_class rs c

pub nullable : Regex → Bool
nullable never = false
nullable nothing = true
nullable (one_of rs) = false
nullable (seq r s) = nullable r && nullable s
nullable (alt r s) = nullable r || nullable s
nullable (star r) = true

-- Sequence and choice, with what cannot match left out.
abbrev seq_of : Regex → Regex → Regex
seq_of never s = never
seq_of nothing s = s
seq_of r s = seq r s

abbrev alt_of : Regex → Regex → Regex
alt_of never s = s
alt_of r never = r
alt_of r s = alt r s

-- What is left to match after one byte.
pub derivative : ℕ → Regex → Regex
unfolding nullable
derivative c never = never
derivative c nothing = never
derivative c (one_of rs) = if in_class rs c then nothing else never
derivative c (seq r s) =
    let here = seq_of (derivative c r) s in
    let next = derivative c s in if nullable r then alt_of here next else here
derivative c (alt r s) = alt_of (derivative c r) (derivative c s)
derivative c (star r) = seq_of (derivative c r) (star r)

unfoldable pub match_string : Regex → Bytes → Bool
unfolding nullable derivative
match_string r [] = nullable r
match_string r (c ∷ cs) = match_string (derivative c r) cs

abbrev lower : ℕ × ℕ
lower = (b'a', b'z')

abbrev upper : ℕ × ℕ
upper = (b'A', b'Z')

abbrev digit : ℕ × ℕ
digit = (b'0', b'9')

abbrev byte : ℕ → ℕ × ℕ
byte b = (b, b)

-- [a-z0-9]
abbrev word : Regex
word = one_of (lower ∷ digit ∷ [])

-- [a-z][a-z0-9]*(?:[._:/-][a-z0-9]+)*
abbrev pub machine_id_pattern : Regex
machine_id_pattern = seq (one_of (lower ∷ [])) (
    seq (star word) (
      star (
        seq (one_of (byte b'.' ∷ byte b'_' ∷ byte b':' ∷ byte b'/' ∷ byte b'-' ∷ [])) (plus word))))

-- [a-z][a-z0-9]*(?:-[a-z0-9]+)*
abbrev label : Regex
label =
    seq (one_of (lower ∷ [])) (seq (star word) (star (seq (one_of (byte b'-' ∷ [])) (plus word))))

-- label(?:\.label)+
abbrev pub tag_pattern : Regex
tag_pattern = seq label (plus (seq (one_of (byte b'.' ∷ [])) label))

-- [A-Za-z]+(?:[_-][A-Za-z]+)*
abbrev zone_part : Regex
zone_part =
    let letters = plus (one_of (upper ∷ lower ∷ [])) in
    seq letters (star (seq (one_of (byte b'_' ∷ byte b'-' ∷ [])) letters))

-- zone_part(?:/zone_part)+
abbrev pub timezone_pattern : Regex
timezone_pattern = seq zone_part (plus (seq (one_of (byte b'/' ∷ [])) zone_part))

-- Each is true where the Go function returns no error.
unfoldable pub validate_machine_id : Bytes → Bool
unfolding match_string
validate_machine_id value =
    leb 1 (length value) && (leb (length value) 128 && match_string machine_id_pattern value)

unfoldable pub validate_domain_tag : Bytes → Bool
unfolding match_string
validate_domain_tag value = leb (length value) 128 && match_string tag_pattern value

unfoldable pub validate_timezone : Bytes → Bool
unfolding match_string
validate_timezone value = match_string timezone_pattern value
