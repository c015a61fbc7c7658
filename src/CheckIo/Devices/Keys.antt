-- ===== src/CheckIo/Devices/Keys.antt =====
-- A sample leaves the keys of the dictionary as they are.
use puppet_stg_environment.Common.{◌≡◌, refl, ◌∙◌, inl, inr, List, [], ◌∷◌, drop, arith}
use puppet_stg_environment.Common.Dict.{keys}
use puppet_stg_environment.CheckIo.Run.{ok, Result-cases, ok-raises}
use puppet_stg_environment.CheckIo.Diskstats.{Field, Row, field_at}
use puppet_stg_environment.CheckIo.Diskstats.Fields.{field_eq}
use puppet_stg_environment.CheckIo.Devices.{Devices, add_row, collect}

keys-add_row : (name : Field) (row : Row) (ds : Devices) → keys (add_row name row ds) ≡ keys ds
unfolding keys add_row
keys-add_row name row [] = refl
keys-add_row name row ((key, d) ∷ ds) = ground (arith, keys-add_row name row ds)

pub keys-collect :
    (rows : List Row) (ds ds' : Devices) → collect rows ds ≡ ok ds' → keys ds' ≡ keys ds
unfolding collect
keys-collect [] ds ds' e = cc
keys-collect (row ∷ rows) ds ds' e = elim (Result-cases (field_at row 2)) [
  | inl (x, f) ↦ absurd (ok-raises ds' x (rw (collect, f) at e))
  | inr (n, f) ↦
      keys-collect rows (add_row n (drop 3 row) ds) ds' (rw (collect, f) at e)
      ∙ keys-add_row n (drop 3 row) ds
]
