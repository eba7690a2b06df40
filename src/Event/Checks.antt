-- ===== src/Event/Checks.antt =====
-- internal/event/payload.go, vocabulary.go, payload_*.go: the tests that the validators share.
use Prim.Native.String.{len}
use Prim.Native.String as Text
use Prim.Native.Char.{code}
use native.Mathlib.Omega.{arith}
use assaio.Prelude.{
  String, ◌≡◌, Bool, true, false, ◌&&◌, ◌||◌, Option, none, some, List, [], ◌∷◌, leb, ltb, ◌==◌,
  not, str_eq, str_ltb, sort_by, All, All-of_sort_by,
}
use assaio.Prelude.Int.{ℤ, pos, negsuc, ltb_ℤ}

-- valid
unfoldable pub valid : List String → String → Bool
valid [] v = false
valid (allowed ∷ rest) v = str_eq allowed v || valid rest v

-- The first negative count of a list, by name.
first_negative : List (String × ℤ) → Option String
first_negative [] = none
first_negative ((name, pos n) ∷ rest) = first_negative rest
first_negative ((name, negsuc n) ∷ rest) = some name

abbrev by_name : String × ℤ → String × ℤ → Bool
by_name a b = str_ltb a.0 b.0

-- nonNegative: the fields in the order of their names.
unfoldable pub non_negative : List (String × ℤ) → Option String
unfolding first_negative sort_by str_ltb
non_negative fields = first_negative (sort_by by_name fields)

-- The loop of isObjectID over the text's characters.
all_hex : String → Bool
all_hex Text.[] = true
all_hex (Text.◌∷◌ c s) =
    let r = code c in (leb b'0' r && leb r b'9' || leb b'a' r && leb r b'f') && all_hex s

-- isObjectID
unfoldable pub is_object_id : String → Bool
unfolding all_hex
is_object_id s = (len s == 40 || len s == 64) && all_hex s

-- The loop of isForgeID.
all_forge : String → Bool
all_forge Text.[] = true
all_forge (Text.◌∷◌ c s) =
    let r = code c in
    (leb b'a' r && leb r b'z'
      || leb b'A' r && leb r b'Z'
      || leb b'0' r && leb r b'9'
      || r == b'_'
      || r == b'-'
      || r == b'=')
    && all_forge s

-- isForgeID
unfoldable pub is_forge_id : String → Bool
unfolding all_forge
is_forge_id s = not (str_eq s "" || ltb 128 (len s)) && all_forge s

abbrev pub IsCount : String × ℤ → Type 0
IsCount f = ltb_ℤ f.1 (pos 0) ≡ false

first_negative-none :
    (fields : List (String × ℤ)) → first_negative fields ≡ none → All IsCount fields
unfolding first_negative
first_negative-none [] h = tt
first_negative-none ((name, pos n) ∷ rest) h = (ground arith, first_negative-none rest h)
first_negative-none ((name, negsuc n) ∷ rest) h = cc

-- A list of fields that passes holds no negative count, in whatever order it is read.
pub non_negative-none :
    (fields : List (String × ℤ)) → non_negative fields ≡ none → All IsCount fields
unfolding non_negative
non_negative-none fields h =
    All-of_sort_by by_name IsCount fields (first_negative-none (sort_by by_name fields) h)
