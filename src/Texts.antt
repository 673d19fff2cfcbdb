-- ===== src/Texts.antt =====
-- Python's operations on texts: startswith, split and join.
use infrabox.Prelude.{
  String, Option, List, ℕ, some, Bool, ◌∷◌, [], suc, none, false, if◌then◌else◌, ◌<>◌, zero, eqb,
  true, ◌==◌, leb, ◌||◌, ◌&&◌, ◌*◌, ◌+◌, ◌-◌,
}
use Prim.Native.Char.{Char, code}

-- The rest of a text that begins with the prefix.
unfoldable pub strip_prefix : String → String → Option String
strip_prefix String.[] s = some s
strip_prefix (String.◌∷◌ a p) String.[] = none
strip_prefix (String.◌∷◌ a p) (String.◌∷◌ c s) =
    let rest = strip_prefix p s in if eqb (code a) (code c) then rest else none

abbrev pub is_some {ℓ} : {A : Type ℓ} → Option A → Bool
is_some none = false
is_some (some x) = true

-- `s.startswith(p)`
abbrev pub starts_with : String → String → Bool
starts_with p s = is_some (strip_prefix p s)

abbrev pub cons_first : Char → List String → List String
cons_first c [] = []
cons_first c (w ∷ ws) = String.◌∷◌ c w ∷ ws

-- `s.split(sep)` for a separator of one character, which is given by its code.
unfoldable pub split : ℕ → String → List String
split sep String.[] = "" ∷ []
split sep (String.◌∷◌ c s) =
    let rest = split sep s in if eqb (code c) sep then "" ∷ rest else cons_first c rest

-- `s.split(sep)` for a longer separator. Each round takes a character or more, so the fuel is the
-- length of the text, and one more.
unfoldable pub split_on : ℕ → String → String → List String
split_on zero sep s = []
split_on (suc fuel) sep s = elim (strip_prefix sep s) [
  | some rest ↦ "" ∷ split_on fuel sep rest
  | none ↦ elim s [ String.[] ↦ "" ∷ [] | String.◌∷◌ c t ↦ cons_first c (split_on fuel sep t) ]
]

abbrev pub text_length : String → ℕ
text_length String.[] = 0
text_length (String.◌∷◌ c s) = suc (text_length s)

-- `sep.join(ws)`
unfoldable pub join_with : String → List String → String
join_with sep [] = ""
join_with sep (w ∷ []) = w
join_with sep (w ∷ v ∷ ws) = w <> (sep <> join_with sep (v ∷ ws))

-- `s.endswith(p)`
unfoldable pub ends_with : String → String → Bool
ends_with p String.[] = p == ""
ends_with p (String.◌∷◌ c s) = String.◌∷◌ c s == p || ends_with p s

-- `s[:n]`
unfoldable pub first : ℕ → String → String
first zero s = ""
first (suc n) String.[] = ""
first (suc n) (String.◌∷◌ c s) = String.◌∷◌ c (first n s)

abbrev pub is_digit : ℕ → Bool
is_digit c = leb b'0' c && leb c b'9'

abbrev pub is_space : ℕ → Bool
is_space c = eqb c b' ' || (leb 9 c && leb c 13)

unfoldable pub blank : String → Bool
blank String.[] = true
blank (String.◌∷◌ c s) = is_space (code c) && blank s

-- The number in the rest of a text that begins with a digit; white space may follow it.
unfoldable pub digits_from : ℕ → String → Option ℕ
digits_from n String.[] = some n
digits_from n (String.◌∷◌ c s) =
    let more = digits_from (n * 10 + (code c - b'0')) s in
    if is_digit (code c) then more else if blank (String.◌∷◌ c s) then some n else none

abbrev pub starts_with_digit : String → Bool
starts_with_digit String.[] = false
starts_with_digit (String.◌∷◌ c s) = is_digit (code c)

-- `int(s)` for an ASCII text that begins with a digit; none is a ValueError.
unfoldable pub int_of : String → Option ℕ
int_of s = if starts_with_digit s then digits_from 0 s else none

abbrev pub next_index : Option ℕ → Option ℕ
next_index none = none
next_index (some n) = some (n + 1)

-- `s.find(p)`, with none for -1.
unfoldable pub find : String → String → Option ℕ
find p String.[] = if p == "" then some 0 else none
find p (String.◌∷◌ c s) =
    let rest = next_index (find p s) in
    if is_some (strip_prefix p (String.◌∷◌ c s)) then some 0 else rest

-- `s.rfind(sep, 0, n)` for a separator of one character, which is given by its code.
unfoldable pub rfind : ℕ → String → ℕ → Option ℕ
rfind sep String.[] n = none
rfind sep (String.◌∷◌ c s) zero = none
rfind sep (String.◌∷◌ c s) (suc n) = elim (rfind sep s n) [
  | some k ↦ some (k + 1)
  | none ↦ if eqb (code c) sep then some 0 else none
]

-- `s[n:]`
unfoldable pub skip : ℕ → String → String
skip zero s = s
skip (suc n) String.[] = ""
skip (suc n) (String.◌∷◌ c s) = skip n s
