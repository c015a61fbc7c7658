-- ===== src/CheckIo/Diskstats/Discovery.antt =====
-- Which devices are found where none are named.
use puppet_stg_environment.Common.{
  ◌≡◌, refl, sym, ap, ◌∙◌, ◌↔◌, ◌⊎◌, inl, inr, Bool, true, false, not, ◌||◌, List, [], ◌∷◌, ◌==◌,
  contains, Any, or_iff, if◌then◌else◌, arith,
}
use puppet_stg_environment.CheckIo.Run.{
  Result, ok, raises, >>=-ok, ok-injective, ok-raises, for_ok, ◌>>=◌,
}
use puppet_stg_environment.CheckIo.Diskstats.{
  Field, Row, field_at, disk_majors, whole_majors, is_major, is_partition, is_whole_disk,
  is_selected, keep_selected, discover,
}
use puppet_stg_environment.CheckIo.Diskstats.Fields.{field_eq}

abbrev IsOfMajor : Field → Field → Type 0
IsOfMajor name major =
    ((is_major major disk_majors ≡ true) × (is_partition name ≡ ok false))
    ⊎ (is_major major whole_majors ≡ true)

-- A row of a device with a name that ends in no digit, where the major number is one of the disks
-- that have partitions, or with any name, where it is one of the others.
abbrev pub IsWatched : Field → Row → Type 0
IsWatched name row =
    (major : Field) × (field_at row 0 ≡ ok major)
    × (field_at row 2 ≡ ok name)
    × IsOfMajor name major

negated :
    (r : Result Bool) (b : Bool) → (r >>= λ p. ok (not p)) ≡ ok b → (b ≡ true) ↔ (r ≡ ok false)
negated (ok true) b h = let e = ok-injective false b h in (λ t. cc, λ f. cc)
negated (ok false) b h = (λ t. refl, λ f. sym (ok-injective true b h))
negated (raises x) b h = absurd (ok-raises b x h)

whole_disk :
    (row : Row) (b : Bool) (name : Field)
    → is_whole_disk row ≡ ok b
    → field_at row 2 ≡ ok name
    → (b ≡ true) ↔ (is_partition name ≡ ok false)
unfolding is_whole_disk
whole_disk row b name h e = negated (is_partition name) b (rw (is_whole_disk, e) at h)

-- The condition for one major number, which is one of the disks or one of the others.
either_major :
    (disk other : Bool) (w : Result Bool) (b : Bool) (P : Type 0)
    → ((x : Bool) → w ≡ ok x → (x ≡ true) ↔ P)
    → ((if disk then w else ok false) >>= λ v. ok (v || other)) ≡ ok b
    → (b ≡ true) ↔ (((disk ≡ true) × P) ⊎ (other ≡ true))
either_major true other w b P k h =
    let (x, e, q) = >>=-ok w (λ v. ok (v || other)) b h in
    rw (sym (ok-injective (x || other) b q)) (
      or_iff x other ((true ≡ true) × P) (other ≡ true)
        (λ t. (refl, (k x e).0 t), λ y. (k x e).1 y.1) (λ t. t, λ t. t))
either_major false other w b P k h =
    rw (sym (ok-injective other b h)) (λ t. inr t, λ y. elim y [ inl z ↦ cc (z.0) | inr t ↦ t ])

selected :
    (row : Row) (b : Bool) (name : Field)
    → is_selected row ≡ ok b
    → field_at row 2 ≡ ok name
    → (b ≡ true) ↔ IsWatched name row
unfolding is_selected
selected row b name h e =
    let (major, em, k) = >>=-ok (field_at row 0) _ b h in
    let i =
      either_major (is_major major disk_majors) (is_major major whole_majors) (is_whole_disk row) b
        (is_partition name ≡ ok false) (λ x w. whole_disk row x name w e) k in
    (
      λ t. (major, em, e, i.0 t),
      λ (other, eo, _, x). i.1 (for_ok (IsOfMajor name) other major (sym eo ∙ em) x),
    )

false-not_true : false ≡ true → ⊥
false-not_true h = cc

module _ (name : Field) where
  row_selected :
      (row : Row) (n : Field)
      → is_selected row ≡ ok true
      → field_at row 2 ≡ ok n
      → (name == n ≡ true) ↔ IsWatched name row
  row_selected row n h e = (
    λ t. let p : name ≡ n = ground arith in (selected row true name h (e ∙ ap ok (sym p))).0 refl,
    λ (major, _, e2, _). let p : name ≡ n = ok-injective name n (sym e2 ∙ e) in ground (arith, p),
  )

  kept :
      (row : Row) (rest : Result (List Field)) (b : Bool) (names : List Field) (P : Type 0)
      → is_selected row ≡ ok b
      → ((ns : List Field) → rest ≡ ok ns → (contains ns name ≡ true) ↔ P)
      → keep_selected row b rest ≡ ok names
      → (contains names name ≡ true) ↔ (IsWatched name row ⊎ P)
  unfolding keep_selected
  kept row rest false names P h k q = (
    λ t. inr ((k names q).0 t),
    λ x. elim x [
      | inl (major, em, e, y) ↦
          absurd (false-not_true ((selected row false name h e).1 (major, em, e, y)))
      | inr y ↦ (k names q).1 y
    ],
  )
  kept row rest true names P h k q =
      let (n, e, r) = >>=-ok (field_at row 2) _ names q in
      let (ns, f, u) = >>=-ok rest (λ ns. ok (n ∷ ns)) names r in
      for_ok (λ m. (contains m name ≡ true) ↔ (IsWatched name row ⊎ P)) (n ∷ ns) names u
        (or_iff (name == n) (contains ns name) (IsWatched name row) P (row_selected row n h e)
          (k ns f))

  discover-Any :
      (rows : List Row) (names : List Field)
      → discover rows ≡ ok names
      → (contains names name ≡ true) ↔ Any (IsWatched name) rows
  unfolding discover
  discover-Any [] names h =
      for_ok (λ m. (contains m name ≡ true) ↔ ⊥) [] names h (λ t. cc, λ b. absurd b)
  discover-Any (row ∷ rows) names h =
      let (b, e, k) = >>=-ok (is_selected row) _ names h in
      kept row (discover rows) b names (Any (IsWatched name) rows) e (discover-Any rows) k

-- When the search returns, a device is found exactly if it has a row whose major number is one of the
-- disks, where its name ends in no digit, or one of the device mapper, DRBD and ATA RAID.
pub discover_iff :
    (rows : List Row) (names : List Field)
    → discover rows ≡ ok names
    → (name : Field) → (contains names name ≡ true) ↔ Any (IsWatched name) rows
discover_iff rows names h name = discover-Any name rows names h
