-- ===== src/Common/Text/Strip.antt =====
-- What `strip` leaves alone, and what it takes away.
use puppet_stg_environment.Common.Tests.{Bool-cases}
use puppet_stg_environment.Common.Lists.{All, is_nil}
use puppet_stg_environment.Common.Text.{Text, is_space, lstrip, rstrip, strip}
use Prim.Native.Nat.{ℕ}
use mathlib.Core.Path.{◌≡◌, refl}
use mathlib.Core.Logic.{inl, inr}
use mathlib.Core.Bool.{true, false, ◌&&◌}
use mathlib.Core.List.{[], ◌∷◌, ◌++◌}
use native.Mathlib.Omega.{arith}

-- No character of the text is whitespace.
abbrev pub HasNoSpace : Text → Type 0
HasNoSpace = All (λ c. is_space c ≡ false)

rstrip_of_no_space : (s : Text) → HasNoSpace s → rstrip s ≡ s
unfolding rstrip
rstrip_of_no_space [] h = refl
rstrip_of_no_space (c ∷ s) h = rw (h.0, rstrip_of_no_space s h.1)

pub strip_of_no_space : (s : Text) → HasNoSpace s → strip s ≡ s
unfolding strip
strip_of_no_space [] h = refl
strip_of_no_space (c ∷ s) h = rw h.0 (rstrip_of_no_space (c ∷ s) h)

rstrip-append_space : (s : Text) (c : ℕ) → is_space c ≡ true → rstrip (s ++ c ∷ []) ≡ rstrip s
unfolding rstrip
rstrip-append_space [] c h = rw h
rstrip-append_space (x ∷ s) c h = rw (rstrip-append_space s c h)

-- Whitespace at the end does not count.
pub strip-append_space : (s : Text) (c : ℕ) → is_space c ≡ true → strip (s ++ c ∷ []) ≡ strip s
unfolding strip
strip-append_space [] c h = rw h
strip-append_space (x ∷ s) c h = elim (Bool-cases (is_space x)) [
  | inl e ↦ rw e (strip-append_space s c h)
  | inr e ↦ rw e (rstrip-append_space (x ∷ s) c h)
]

rstrip_idem : (s : Text) → rstrip (rstrip s) ≡ rstrip s
unfolding rstrip
rstrip_idem [] = refl
rstrip_idem (c ∷ s) = elim (Bool-cases (is_space c && is_nil (rstrip s))) [
  | inl e ↦ rw e
  | inr e ↦ rw e (rw (rstrip_idem s) (rw e))
]

lstrip-rstrip : (s : Text) → lstrip (rstrip (lstrip s)) ≡ rstrip (lstrip s)
unfolding lstrip rstrip
lstrip-rstrip [] = refl
lstrip-rstrip (c ∷ s) = elim (Bool-cases (is_space c)) [
  | inl e ↦ rw e (lstrip-rstrip s)
  | inr e ↦ ground arith
]

pub strip_idem : (s : Text) → strip (strip s) ≡ strip s
unfolding strip
strip_idem s = rw lstrip-rstrip (rstrip_idem (lstrip s))

pub strip-cons_space : (c : ℕ) (s : Text) → is_space c ≡ true → strip (c ∷ s) ≡ strip s
unfolding strip
strip-cons_space c s h = rw h

pub strip_nil : strip [] ≡ []
unfolding strip
strip_nil = refl
