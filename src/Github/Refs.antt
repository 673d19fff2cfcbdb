-- ===== src/Github/Refs.antt =====
-- src/github/trigger/trigger.py: the name of a branch or a tag in a ref.
use infrabox.Github.{remove_ref, drop_two}
use infrabox.Texts.{split, join_with, cons_first}
use infrabox.Prelude.{
  refl, ℕ, String, Bool, List, ◌≡◌, false, ◌∷◌, eqb, [], ap, ◌<>◌, ◌||◌, Bool-cases, sym, arith,
  ◌∙◌, inl, inr, true,
}
use Prim.Native.Char.{Char, code}
use text.Mathlib.TextLemmas.{nil-append, cons-append, append_assoc}
use text.Mathlib.TextEquality.{Char-path}

-- The text has the character with the code.
abbrev pub has_char : ℕ → String → Bool
has_char sep String.[] = false
has_char sep (String.◌∷◌ c s) = eqb (code c) sep || has_char sep s

split-cons : (sep : ℕ) (s : String) → (w : String) × (ws : List String) × (split sep s ≡ w ∷ ws)
unfolding split
split-cons sep String.[] = ("", [], refl)
split-cons sep (String.◌∷◌ c s) =
    let (w, ws, e) = split-cons sep s in
    elim (Bool-cases (eqb (code c) sep)) [
      | inl h ↦ ("", split sep s, rw h refl)
      | inr h ↦ (String.◌∷◌ c w, ws, rw (h, e) refl)
    ]

one-append : (d : Char) (t : String) → String.◌∷◌ d String.[] <> t ≡ String.◌∷◌ d t
one-append d t = cons-append d String.[] t ∙ ap (λ u. String.◌∷◌ d u) (nil-append t)

join_with-cons_first :
    (sep : String) (c : Char) (w : String) (ws : List String)
    → join_with sep (cons_first c (w ∷ ws)) ≡ String.◌∷◌ c (join_with sep (w ∷ ws))
unfolding join_with
join_with-cons_first sep c w [] = refl
join_with-cons_first sep c w (v ∷ ws) = cons-append c w (sep <> join_with sep (v ∷ ws))

-- To join the parts of a text gives the text.
join_with-split :
    (d : Char) (s : String) → join_with (String.◌∷◌ d String.[]) (split (code d) s) ≡ s
unfolding split join_with
join_with-split d String.[] = refl
join_with-split d (String.◌∷◌ c s) =
    let (w, ws, e) = split-cons (code d) s in
    let ih : join_with (String.◌∷◌ d String.[]) (w ∷ ws) ≡ s =
      ap (join_with (String.◌∷◌ d String.[])) (sym e) ∙ join_with-split d s in
    elim (Bool-cases (eqb (code c) (code d))) [
      | inl h ↦
          let same : d ≡ c = Char-path d c (ground arith) in
          rw (split, h, e)
            (nil-append _
              ∙ one-append d _
              ∙ ap (λ t. String.◌∷◌ d t) ih
              ∙ ap (λ a. String.◌∷◌ a s) same)
      | inr h ↦ rw (split, h, e) (join_with-cons_first _ c w ws ∙ ap (λ t. String.◌∷◌ c t) ih)
    ]

-- A part without the separator is split off.
split-append :
    (d : Char) (w s : String)
    → has_char (code d) w ≡ false
    → split (code d) (w <> String.◌∷◌ d s) ≡ w ∷ split (code d) s
unfolding split
split-append d String.[] s h =
    let found : eqb (code d) (code d) ≡ true = ground arith in
    ap (split (code d)) (nil-append (String.◌∷◌ d s)) ∙ rw (split, found) refl
split-append d (String.◌∷◌ c w) s h =
    let other : eqb (code c) (code d) ≡ false = ground arith in
    let ih = split-append d w s (ground arith) in
    ap (split (code d)) (cons-append c w (String.◌∷◌ d s)) ∙ rw (split, other, ih) refl

-- Of a ref refs/KIND/NAME, where KIND has no slash, remove_ref gives NAME back, slashes included.
pub remove_ref-roundtrip :
    (kind name : String)
    → has_char b'/' kind ≡ false
    → remove_ref ("refs/" <> (kind <> ("/" <> name))) ≡ name
unfolding remove_ref
remove_ref-roundtrip kind name h =
    let inner = ap (λ t. kind <> t) (one-append "/" name) in
    let outer = ap (λ t. "refs" <> t) (one-append "/" (kind <> String.◌∷◌ "/" name)) in
    let same : "refs/" <> (kind <> ("/" <> name))
        ≡ "refs" <> String.◌∷◌ "/" (kind <> String.◌∷◌ "/" name) =
      ap (λ t. "refs/" <> t) inner ∙ append_assoc "refs" "/" _ ∙ outer in
    ap (λ ws. join_with "/" (drop_two ws))
      (ap (split b'/') same
        ∙ split-append "/" "refs" (kind <> String.◌∷◌ "/" name) refl
        ∙ ap (λ ws. "refs" ∷ ws) (split-append "/" kind name h))
    ∙ join_with-split "/" name
