-- ===== src/CheckIo/Devices/Samples.antt =====
-- Which rows the devices get.
use puppet_stg_environment.Common.{
  ◌≡◌, refl, ◌∙◌, ap, Option, none, some, inl, inr, List, [], ◌∷◌, ◌++◌, append_assoc, append-nil,
  drop, ◌==◌, if◌then◌else◌, arith, Bool-cases, sym,
}
use puppet_stg_environment.Common.Dict.{lookup}
use puppet_stg_environment.CheckIo.Run.{Exn, Result, ok, raises, Result-cases}
use puppet_stg_environment.CheckIo.Diskstats.{Field, Row, field_at}
use puppet_stg_environment.CheckIo.Diskstats.Fields.{field_eq}
use puppet_stg_environment.CheckIo.Device.{Device, add_performance_data}
use puppet_stg_environment.CheckIo.Devices.{Devices, add_row, collect}

-- A device with more rows.
abbrev pub with_rows : List Row → Option Device → Option Device
with_rows rows none = none
with_rows rows (some d) = some (record d { performance_data = d.performance_data ++ rows })

abbrev row_for : Field → Row → Result Field → List Row
row_for key row (raises e) = []
row_for key row (ok name) = if key == name then drop 3 row ∷ [] else []

-- The rows of a sample that name `key`, without their numbers and name.
unfoldable pub rows_for : Field → List Row → List Row
rows_for key [] = []
rows_for key (row ∷ rows) = row_for key row (field_at row 2) ++ rows_for key rows

lookup-add_row :
    (key name : Field) (row : Row) (devices : Devices)
    → lookup key (add_row name row devices)
      ≡ (if key == name then with_rows (row ∷ []) (lookup key devices) else lookup key devices)
unfolding lookup add_row add_performance_data
lookup-add_row key name row [] = ground arith
lookup-add_row key name row ((k, d) ∷ devices) = ground (arith, lookup-add_row key name row devices)

with_rows_nil : (o : Option Device) → with_rows [] o ≡ o
with_rows_nil none = refl
with_rows_nil (some d) = rw append-nil

with_rows-append :
    (o : Option Device) (rows more : List Row)
    → with_rows more (with_rows rows o) ≡ with_rows (rows ++ more) o
with_rows-append none rows more = refl
with_rows-append (some d) rows more = rw append_assoc

ok-raises : {d : Devices} {x : Exn} → ok d ≡ raises x → ⊥
ok-raises h = cc

lookup-step :
    (key name : Field) (row : Row) (rows : List Row) (devices : Devices)
    → with_rows rows (lookup key (add_row name (drop 3 row) devices))
      ≡ with_rows (row_for key row (ok name) ++ rows) (lookup key devices)
lookup-step key name row rows devices = elim (Bool-cases (key == name)) [
  | inl e ↦ rw (lookup-add_row, e, with_rows-append) refl
  | inr e ↦ rw (lookup-add_row, e) refl
]

-- A device ends up with the rows that it had and those of the sample that name it, in order, and
-- no sample adds a device.
pub collect-rows_for :
    (key : Field) (rows : List Row) (devices devices' : Devices)
    → collect rows devices ≡ ok devices'
    → lookup key devices' ≡ with_rows (rows_for key rows) (lookup key devices)
unfolding collect rows_for
collect-rows_for key [] devices devices' e =
    let same : devices' ≡ devices = cc in
    ap (λ d. lookup key d) same ∙ sym (with_rows_nil (lookup key devices))
collect-rows_for key (row ∷ rows) devices devices' e = elim (Result-cases (field_at row 2)) [
  | inl (x, f) ↦ absurd (ok-raises {x = x} (sym e ∙ rw (collect, f) refl))
  | inr (name, f) ↦
      let rest : collect rows (add_row name (drop 3 row) devices) ≡ ok devices' =
        rw (collect, f) at e in
      rw f (
        collect-rows_for key rows (add_row name (drop 3 row) devices) devices' rest
        ∙ lookup-step key name row (rows_for key rows) devices)
]
