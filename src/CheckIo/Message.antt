-- ===== src/CheckIo/Message.antt =====
-- Messages as the pieces that `format` and `+` join. A quotient that is printed with two decimals
-- is kept as its numerator and denominator.
use puppet_stg_environment.Common.{Bool, true, false, List, [], ◌∷◌, String, is_nil, ◌&&◌}
use puppet_stg_environment.Common.Int.{ℤ}
use puppet_stg_environment.Common.Text.{Text, codes}

pub data Piece : Type 0 where
  txt : Text → Piece
  int : ℤ → Piece
  fixed2 : ℤ → ℤ → Piece

abbrev pub Message : Type 0
Message = List Piece

abbrev pub literal : String → Piece
literal s = txt (codes s)

abbrev is_empty_piece : Piece → Bool
is_empty_piece (txt t) = is_nil t
is_empty_piece (int z) = false
is_empty_piece (fixed2 n d) = false

-- The joined text is the empty string.
unfoldable pub is_empty : Message → Bool
is_empty [] = true
is_empty (p ∷ m) = is_empty_piece p && is_empty m
