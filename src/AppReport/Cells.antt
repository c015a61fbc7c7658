-- ===== src/AppReport/Cells.antt =====
-- The version that stands in a cell.
use puppet_stg_environment.Common.{
  ◌≡◌, refl, ◌∙◌, sym, ap, ◌↔◌, ◌≢◌, Option, none, some, List, [], ◌∷◌, ◌++◌, All, Option-cases,
  for_some, inl, inr, arith,
}
use puppet_stg_environment.Common.Text.{Text, text_eq}
use puppet_stg_environment.AppReport.Page.{field, version}

-- A line names a package other than this one.
abbrev pub NamesOther : Text → Text → Type 0
NamesOther wanted line = (name : Text) × (field 1 line ≡ some name) × (wanted ≢ name)

-- The first line that names the package has this version.
abbrev pub IsFirst : Text → List Text → Text → Type 0
IsFirst wanted answer ver =
    (before : List Text) × (line : Text) × (after : List Text) × (answer ≡ before ++ line ∷ after)
    × All (NamesOther wanted) before
    × (field 1 line ≡ some wanted)
    × (field 2 line ≡ some ver)

module _ (wanted : Text) where
  version_here :
      (line name : Text) (answer : List Text)
      → field 1 line ≡ some name
      → wanted ≡ name
      → version wanted (line ∷ answer)
        ≡ elim (field 2 line) [ none ↦ none | some ver ↦ some (some ver) ]
  unfolding version
  version_here line name answer e p = rw (version, e) (ground (arith, p))

  version_later :
      (line name : Text) (answer : List Text)
      → field 1 line ≡ some name
      → wanted ≢ name
      → version wanted (line ∷ answer) ≡ version wanted answer
  unfolding version
  version_later line name answer e d = rw (version, e) (ground (arith, d))

  version-others :
      (answer : List Text) → All (NamesOther wanted) answer → version wanted answer ≡ some none
  unfolding version
  version-others [] h = refl
  version-others (line ∷ answer) ((name, e, d), h) =
      version_later line name answer e d ∙ version-others answer h

  version-first :
      (before : List Text) (line : Text) (after : List Text) (ver : Text)
      → All (NamesOther wanted) before
      → field 1 line ≡ some wanted
      → field 2 line ≡ some ver
      → version wanted (before ++ line ∷ after) ≡ some (some ver)
  version-first [] line after ver h e f = version_here line wanted after e refl ∙ rw f refl
  version-first (l ∷ before) line after ver ((name, e, d), h) f g =
      version_later l name (before ++ line ∷ after) e d ∙ version-first before line after ver h f g

  IsFirst-later :
      (line : Text) (answer : List Text) (ver : Text)
      → NamesOther wanted line
      → IsFirst wanted answer ver
      → IsFirst wanted (line ∷ answer) ver
  IsFirst-later line answer ver o (before, l, after, e, h, f, g) =
      (line ∷ before, l, after, ap (λ ls. line ∷ ls) e, (o, h), f, g)

  -- What an answer says of the package.
  abbrev pub Says : List Text → Option Text → Type 0
  Says answer none = All (NamesOther wanted) answer
  Says answer (some ver) = IsFirst wanted answer ver

  Says-later :
      (line : Text) (answer : List Text) (o : Option Text)
      → NamesOther wanted line
      → Says answer o
      → Says (line ∷ answer) o
  Says-later line answer none n h = (n, h)
  Says-later line answer (some ver) n h = IsFirst-later line answer ver n h

  Says-here :
      (line : Text) (answer : List Text) (o : Option Text)
      → field 1 line ≡ some wanted
      → (elim (field 2 line) [ none ↦ none | some ver ↦ some (some ver) ]) ≡ some o
      → Says (line ∷ answer) o
  Says-here line answer o e h = elim (Option-cases (field 2 line)) [
    | inl f ↦ cc (rw f at h)
    | inr (ver, f) ↦
        for_some (Says (line ∷ answer)) (some ver) o (rw f at h) ([], line, answer, refl, tt, e, f)
  ]

  version-Says :
      (answer : List Text) (o : Option Text) → version wanted answer ≡ some o → Says answer o
  unfolding version
  version-Says [] o h = for_some (Says []) none o h tt
  version-Says (line ∷ answer) o h = elim (Option-cases (field 1 line)) [
    | inl e ↦ cc (rw (version, e) at h)
    | inr (name, e) ↦ elim (text_eq.dec wanted name) [
      | yes p ↦ Says-here line answer o (rw p e) (sym (version_here line name answer e p) ∙ h)
      | no d ↦
          Says-later line answer o (name, e, d)
            (version-Says answer o (sym (version_later line name answer e d) ∙ h))
    ]
  ]

  Says-version :
      (answer : List Text) (o : Option Text) → Says answer o → version wanted answer ≡ some o
  Says-version answer none h = version-others answer h
  Says-version answer (some ver) (before, line, after, e, h, f, g) =
      rw e (version-first before line after ver h f g)

  -- The inner loop ends with a version exactly if it is that of the first line that names the package,
  -- and all lines before that one name others; it ends with none exactly if every line names another.
  pub version_iff :
      (answer : List Text) (o : Option Text) → (version wanted answer ≡ some o) ↔ Says answer o
  version_iff answer o = (version-Says answer o, Says-version answer o)
