-- ===== src/PuppetAgent/Thresholds.antt =====
-- The thresholds are the last ones that are given.
use puppet_stg_environment.Common.{
  ◌≡◌, refl, sym, ap, ◌∙◌, ◌↔◌, ◌⊎◌, inl, inr, Option, none, some, Bool, true, false, List, [], ◌∷◌,
  ◌==◌, ◌||◌, All, Bool-cases, Option-cases, if◌then◌else◌, arith,
}
use mathlib.Core.Option.{some-injective}
use puppet_stg_environment.Common.Int.{ℤ}
use puppet_stg_environment.Common.Text.{Text, text_eq, codes}
use puppet_stg_environment.Common.Decimal.{int}
use puppet_stg_environment.PuppetAgent.{Deltas, set_deltas}

-- No option has this name.
abbrev pub Lacks : Text → List (Text × Text) → Type 0
Lacks name [] = Unit
Lacks name ((opt, arg) ∷ opts) = (opt == name ≡ false) × Lacks name opts

-- An option has this name and this number, and none behind it has the name.
abbrev pub IsLast : Text → ℤ → List (Text × Text) → Type 0
IsLast name z [] = ⊥
IsLast name z ((opt, arg) ∷ opts) =
    IsLast name z opts ⊎ ((opt == name ≡ true) × (int arg ≡ some z) × Lacks name opts)

-- A threshold is a number.
abbrev pub IsNumeric : Text × Text → Type 0
IsNumeric (opt, arg) =
    (opt == codes "-w" || opt == codes "-c") ≡ true → (z : ℤ) × (int arg ≡ some z)

abbrev last_number : Text → List (Text × Text) → Option ℤ → Option ℤ
last_number name [] old = old
last_number name ((opt, arg) ∷ opts) old =
    last_number name opts (if opt == name then int arg else old)

none-not_some : (z : ℤ) → none ≡ some z → ⊥
none-not_some z h = cc

true-not_false : true ≡ false → ⊥
true-not_false h = cc

last_number_iff :
    (name : Text) (z : ℤ) (opts : List (Text × Text)) (old : Option ℤ)
    → (last_number name opts old ≡ some z)
      ↔ (IsLast name z opts ⊎ (Lacks name opts × (old ≡ some z)))
last_number_iff name z [] old =
    (λ h. inr (tt, h), λ s. elim s [ inl b ↦ absurd b | inr (l, h) ↦ h ])
last_number_iff name z ((opt, arg) ∷ opts) old = elim (Bool-cases (opt == name)) [
  | inl t ↦
      let ih = last_number_iff name z opts (int arg) in
      rw t (
        λ h. elim (ih.0 h) [ inl l ↦ inl (inl l) | inr (k, e) ↦ inl (inr (refl, e, k)) ],
        λ s. elim s [
          | inl (inl l) ↦ ih.1 (inl l)
          | inl (inr (_, e, k)) ↦ ih.1 (inr (k, e))
          | inr ((f, k), e) ↦ absurd (true-not_false f)
        ],
      )
  | inr f ↦
      let ih = last_number_iff name z opts old in
      rw f (
        λ h. elim (ih.0 h) [ inl l ↦ inl (inl l) | inr (k, e) ↦ inr ((refl, k), e) ],
        λ s. elim s [
          | inl (inl l) ↦ ih.1 (inl l)
          | inl (inr (t, e, k)) ↦ absurd (true-not_false (sym t))
          | inr ((_, k), e) ↦ ih.1 (inr (k, e))
        ],
      )
]

-- Of nothing, the last number is that of an option.
last_number-IsLast :
    (name : Text) (z : ℤ) (opts : List (Text × Text))
    → (last_number name opts none ≡ some z) ↔ IsLast name z opts
last_number-IsLast name z opts =
    let all = last_number_iff name z opts none in
    (
      λ h. elim (all.0 h) [ inl l ↦ l | inr (k, e) ↦ absurd (none-not_some z e) ],
      λ l. all.1 (inl l),
    )

is_name : (opt name : Text) → opt == name ≡ true → opt ≡ name
is_name opt name h = ground arith

warn-not_crit : (opt : Text) → opt == codes "-w" ≡ true → opt == codes "-c" ≡ false
unfolding codes text_eq
warn-not_crit opt h = rw (is_name opt (codes "-w") h) refl

none-not_some_deltas : (e : Deltas) → none ≡ some e → ⊥
none-not_some_deltas e h = cc

neither : (a b : Bool) → a ≡ false → b ≡ false → (a || b) ≡ true → ⊥
neither a b f g h = ground arith

same_deltas :
    {a b c d : Option ℤ}
    → a ≡ b
    → c ≡ d
    → ◌≡◌ {A = Deltas} (record { warning = a; critical = c }) (record { warning = b; critical = d })
same_deltas e f = rw (e, f) refl

abbrev last_deltas : List (Text × Text) → Deltas → Deltas
last_deltas opts d = record {
  warning = last_number (codes "-w") opts d.warning;
  critical = last_number (codes "-c") opts d.critical;
}

set_deltas-last :
    (opts : List (Text × Text)) (d e : Deltas)
    → set_deltas opts d ≡ some e
    → All IsNumeric opts × (last_deltas opts d ≡ e)
unfolding set_deltas
set_deltas-last [] d e h = (tt, some-injective _ _ h)
set_deltas-last ((opt, arg) ∷ opts) d e h = elim (Bool-cases (opt == codes "-w")) [
  | inl t ↦ elim (Option-cases (int arg)) [
    | inl n ↦ absurd (none-not_some_deltas e (rw (set_deltas, t, n) at h))
    | inr (z, n) ↦
        let (k, l) =
          set_deltas-last opts (record d { warning = some z }) e (rw (set_deltas, t, n) at h) in
        ((λ _. (z, n), k), rw (t, warn-not_crit opt t, n) l)
  ]
  | inr f ↦ elim (Bool-cases (opt == codes "-c")) [
    | inl t ↦ elim (Option-cases (int arg)) [
      | inl n ↦ absurd (none-not_some_deltas e (rw (set_deltas, f, t, n) at h))
      | inr (z, n) ↦
          let (k, l) =
            set_deltas-last opts (record d { critical = some z }) e
              (rw (set_deltas, f, t, n) at h) in
          ((λ _. (z, n), k), rw (f, t, n) l)
    ]
    | inr g ↦
        let (k, l) = set_deltas-last opts d e (rw (set_deltas, f, g) at h) in
        ((λ b. absurd (neither (opt == codes "-w") (opt == codes "-c") f g b), k), rw (f, g) l)
  ]
]

set_deltas-numeric :
    (opts : List (Text × Text)) (d : Deltas)
    → All IsNumeric opts
    → set_deltas opts d ≡ some (last_deltas opts d)
unfolding set_deltas
set_deltas-numeric [] d h = refl
set_deltas-numeric ((opt, arg) ∷ opts) d (k, h) = elim (Bool-cases (opt == codes "-w")) [
  | inl t ↦
      let (z, n) = k (ground arith) in
      rw (set_deltas, t, warn-not_crit opt t, n)
        (set_deltas-numeric opts (record d { warning = some z }) h)
  | inr f ↦ elim (Bool-cases (opt == codes "-c")) [
    | inl t ↦
        let (z, n) = k (ground arith) in
        rw (set_deltas, f, t, n) (set_deltas-numeric opts (record d { critical = some z }) h)
    | inr g ↦ rw (set_deltas, f, g) (set_deltas-numeric opts d h)
  ]
]

abbrev unset : Deltas
unset = record { warning = none; critical = none }

-- From nothing the loop comes to these thresholds exactly if all are numbers and these are the last.
pub set_deltas_iff :
    (opts : List (Text × Text)) (w c : ℤ)
    → (set_deltas opts (record { warning = none; critical = none })
        ≡ some (record { warning = some w; critical = some c }))
      ↔ (All IsNumeric opts × IsLast (codes "-w") w opts × IsLast (codes "-c") c opts)
set_deltas_iff opts w c = (
  λ h.
      let (k, l) = set_deltas-last opts unset (record { warning = some w; critical = some c }) h in
      (
        k,
        (last_number-IsLast (codes "-w") w opts).0 (ap (λ d. d.warning) l),
        (last_number-IsLast (codes "-c") c opts).0 (ap (λ d. d.critical) l),
      ),
  λ (k, lw, lc).
      set_deltas-numeric opts unset k
      ∙ ap some (
          same_deltas ((last_number-IsLast (codes "-w") w opts).1 lw)
            ((last_number-IsLast (codes "-c") c opts).1 lc)),
)
