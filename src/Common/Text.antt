-- ===== src/Common/Text.antt =====
-- Byte strings as lists of character codes, with the methods of Python's `str` that the plugins
-- use. `codes` turns a literal into one.
pub mod Strip
pub mod Split
pub mod Search
pub mod Words
pub mod Explicit
use Prim.Native.Char.{code}
use puppet_stg_environment.Common.Tests.{leb, eqb, if◌then◌else◌, Bool-cases, eqb_iff}
use puppet_stg_environment.Common.Lists.{All, is_nil}
use puppet_stg_environment.Common.Equality.{Eq, ◌==◌}
use Prim.Native.Nat.{ℕ, ◌+◌, ◌-◌}
use Prim.Native.String.{String}
use mathlib.Core.Path.{◌≡◌, refl, ap, ◌∙◌}
use mathlib.Core.Logic.{◌≢◌, ◌↔◌, ◌⊎◌, inl, inr, dite}
use mathlib.Core.Bool.{Bool, true, false, not, ◌&&◌, ◌||◌, Bool-discrete}
use mathlib.Core.List.{List, [], ◌∷◌, ◌++◌, map}
use native.Mathlib.Omega.{arith}

abbrev pub Text : Type 0
Text = List ℕ

unfoldable pub codes : String → Text
codes String.[] = []
codes (String.◌∷◌ c s) = code c ∷ codes s

text_beq : Text → Text → Bool
text_beq [] [] = true
text_beq [] (d ∷ t) = false
text_beq (c ∷ s) [] = false
text_beq (c ∷ s) (d ∷ t) = eqb c d && text_beq s t

text_beq-sound : (s t : Text) → text_beq s t ≡ true → s ≡ t
unfolding text_beq
text_beq-sound [] [] h = refl
text_beq-sound [] (d ∷ t) h = cc
text_beq-sound (c ∷ s) [] h = cc
text_beq-sound (c ∷ s) (d ∷ t) h = ground (arith, text_beq-sound s t)

text_beq_refl : (s : Text) → text_beq s s ≡ true
unfolding text_beq
text_beq_refl [] = refl
text_beq_refl (c ∷ s) = ground (arith, text_beq_refl s)

text_beq-complete : (s t : Text) → s ≡ t → text_beq s t ≡ true
unfolding text_beq
text_beq-complete s t p = rw p (text_beq_refl t)

-- Shut in proofs, where a split on `s == t` yields the equation or its negation.
instance unfoldable pub text_eq : Eq Text
unfolding text_beq text_beq-sound text_beq-complete text_beq_refl
text_eq = record {
  dec = λ s t.
      dite (Bool-discrete (text_beq s t) true) (λ same. yes (text_beq-sound s t same))
        (λ differ. no (λ p. differ (text_beq-complete s t p)));
}

-- The whitespace of `str.strip`: tab, newline, vertical tab, form feed, return and space.
abbrev pub is_space : ℕ → Bool
is_space c = leb 9 c && leb c 13 || eqb c 32

unfoldable pub lstrip : Text → Text
lstrip [] = []
lstrip (c ∷ s) = if is_space c then lstrip s else c ∷ s

unfoldable pub rstrip : Text → Text
rstrip [] = []
rstrip (c ∷ s) = let rest = rstrip s in if is_space c && is_nil rest then [] else c ∷ rest

-- `s.strip()`
unfoldable pub strip : Text → Text
unfolding lstrip rstrip
strip s = rstrip (lstrip s)

-- Puts a character in front of the first piece.
abbrev pub push : ℕ → List Text → List Text
push c [] = (c ∷ []) ∷ []
push c (l ∷ ls) = (c ∷ l) ∷ ls

-- `s.split(sep)` at one character: there is always at least one piece.
unfoldable pub split_on : ℕ → Text → List Text
split_on sep [] = [] ∷ []
split_on sep (c ∷ s) = if eqb c sep then [] ∷ split_on sep s else push c (split_on sep s)

-- `StringIO(s).readlines()`: every line keeps its newline, and a last line may have none.
unfoldable pub readlines : Text → List Text
readlines [] = []
readlines (c ∷ s) = if eqb c 10 then (c ∷ []) ∷ readlines s else push c (readlines s)

-- `sep.join(pieces)`
unfoldable pub join : Text → List Text → Text
join sep [] = []
join sep (p ∷ []) = p
join sep (p ∷ q ∷ ps) = p ++ (sep ++ join sep (q ∷ ps))

starts_word : Text → Bool
starts_word [] = false
starts_word (c ∷ s) = not (is_space c)

-- `s.split()`: the runs of characters that are no whitespace.
unfoldable pub words : Text → List Text
unfolding starts_word
words [] = []
words (c ∷ s) =
    let rest = words s in
    if is_space c then rest else if starts_word s then push c rest else (c ∷ []) ∷ rest
