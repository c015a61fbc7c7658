-- ===== src/Common/Text/Split.antt =====
-- Cutting a text at a separator, and into lines.
use puppet_stg_environment.Common.Tests.{eqb}
use puppet_stg_environment.Common.Lists.{All, All-append}
use puppet_stg_environment.Common.Text.{Text, split_on, readlines}
use Prim.Native.Nat.{ℕ}
use mathlib.Core.Path.{◌≡◌, refl}
use mathlib.Core.Bool.{Bool, true, false, not, ◌&&◌}
use mathlib.Core.List.{List, [], ◌∷◌, ◌++◌}
use native.Mathlib.Omega.{arith}

-- The character does not occur.
abbrev pub Lacks : ℕ → Text → Type 0
Lacks c = All (λ x. eqb x c ≡ false)

pub split_on_lacking : (c : ℕ) (s : Text) → Lacks c s → split_on c s ≡ s ∷ []
unfolding split_on
split_on_lacking c [] h = refl
split_on_lacking c (x ∷ s) h = rw (h.0, split_on_lacking c s h.1)

pub split_on-append : (c : ℕ) (s t : Text) → Lacks c s → split_on c (s ++ c ∷ t) ≡ s ∷ split_on c t
unfolding split_on
split_on-append c [] t h = ground arith
split_on-append c (x ∷ s) t h = rw (h.0, split_on-append c s t h.1)

pub readlines-append :
    (s t : Text) → Lacks 10 s → readlines (s ++ 10 ∷ t) ≡ (s ++ 10 ∷ []) ∷ readlines t
unfolding readlines
readlines-append [] t h = refl
readlines-append (x ∷ s) t h = rw (h.0, readlines-append s t h.1)

pub Lacks-append : (c : ℕ) (s t : Text) → Lacks c s → Lacks c t → Lacks c (s ++ t)
Lacks-append c s t = All-append (λ x. eqb x c ≡ false) s t

-- The text of some lines, each with its newline, and those lines as `readlines` gives them.
abbrev pub unlines : List Text → Text
unlines [] = []
unlines (l ∷ ls) = l ++ 10 ∷ unlines ls

abbrev pub terminated : List Text → List Text
terminated [] = []
terminated (l ∷ ls) = (l ++ 10 ∷ []) ∷ terminated ls

pub readlines-unlines :
    (ls : List Text) → All (Lacks 10) ls → readlines (unlines ls) ≡ terminated ls
unfolding readlines
readlines-unlines [] h = refl
readlines-unlines (l ∷ ls) h = rw (readlines-append l (unlines ls) h.0, readlines-unlines ls h.1)

-- The same, as a test to run on literals.
abbrev pub lacks : ℕ → Text → Bool
lacks c [] = true
lacks c (x ∷ s) = not (eqb x c) && lacks c s

pub lacks_sound : (c : ℕ) (s : Text) → lacks c s ≡ true → Lacks c s
lacks_sound c [] h = tt
lacks_sound c (x ∷ s) h = ground (arith, lacks_sound c s)

pub Lacks-append_literal : (c : ℕ) (s t : Text) → lacks c s ≡ true → Lacks c t → Lacks c (s ++ t)
Lacks-append_literal c s t h k = Lacks-append c s t (lacks_sound c s h) k
