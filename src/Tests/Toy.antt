-- ===== src/Tests/Toy.antt =====
-- A codec for the examples: a value is written with a tag and its length, and is read back where it
-- is in a table.
use cote_ai_simulation.Base.{
  ℕ, Bool, true, false, List, [], ◌∷◌, ◌++◌, Option, some, none, length, if◌then◌else◌,
}
use cote_ai_simulation.Base.Bytes.{Bytes, bytes_equal}
use cote_ai_simulation.Base.Int.{pos, negsuc}
use cote_ai_simulation.Value.{
  Value, Values, Entries, null, boolean, byte_string, text, float64, int64, uint64, uint32, array,
  mapping, nil, cons, empty, entry,
}
use cote_ai_simulation.Codec.{Library}

abbrev flag : Bool → ℕ
flag true = 1
flag false = 0

unfoldable mutual
  pub encode : Value → Bytes
  encode null = 0 ∷ []
  encode (boolean b) = 1 ∷ flag b ∷ []
  encode (byte_string b) = 2 ∷ length b ∷ b
  encode (text s) = 3 ∷ length s ∷ s
  encode (float64 n) = 4 ∷ n ∷ []
  encode (int64 (pos n)) = 5 ∷ n ∷ []
  encode (int64 (negsuc n)) = 6 ∷ n ∷ []
  encode (uint64 n) = 5 ∷ n ∷ []
  encode (uint32 n) = 5 ∷ n ∷ []
  encode (array vs) = 7 ∷ encode_values vs
  encode (mapping es) = 8 ∷ encode_entries es

  pub encode_values : Values → Bytes
  encode_values nil = 9 ∷ []
  encode_values (cons v vs) = encode v ++ encode_values vs

  pub encode_entries : Entries → Bytes
  encode_entries empty = 9 ∷ []
  encode_entries (entry k v es) = encode k ++ (encode v ++ encode_entries es)

unfoldable pub read : List Value → Bytes → Option Value
unfolding encode
read [] b = none
read (v ∷ vs) b = let rest = read vs b in if bytes_equal (encode v) b then some v else rest

-- A codec that reads the values of a table.
abbrev pub toy : List Value → Library
toy table = record {
  unmarshal = read table;
  marshal = λ v. some (encode v);
  nfc = λ s. s;
  code_points = some;
  unassigned = (888, 889) ∷ (1000, 1002) ∷ [];
}
