-- ===== src/Common/Text/Words.antt =====
-- The words of a text do not depend on the space around it.
use puppet_stg_environment.Common.Text.{Text, lstrip, rstrip, strip, words, starts_word}
use mathlib.Core.Path.{◌≡◌, refl, ◌∙◌}
use mathlib.Core.List.{[], ◌∷◌}
use native.Mathlib.Omega.{arith}

words-lstrip : (s : Text) → words (lstrip s) ≡ words s
unfolding words lstrip
words-lstrip [] = refl
words-lstrip (c ∷ s) = ground (arith, words-lstrip s)

starts_word-rstrip : (s : Text) → starts_word (rstrip s) ≡ starts_word s
unfolding starts_word rstrip
starts_word-rstrip [] = refl
starts_word-rstrip (c ∷ s) = ground arith

words-rstrip : (s : Text) → words (rstrip s) ≡ words s
unfolding words rstrip
words-rstrip [] = refl
words-rstrip (c ∷ s) = ground (arith, words-rstrip s, starts_word-rstrip s)

pub words-strip : (s : Text) → words (strip s) ≡ words s
unfolding strip
words-strip s = words-rstrip (lstrip s) ∙ words-lstrip s
