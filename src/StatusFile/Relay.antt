-- ===== src/StatusFile/Relay.antt =====
-- When a status is relayed.
use mathlib.Core.Option.{some-injective}
use puppet_stg_environment.Common.{
  sym, ℕ, ◌+◌, ◌*◌, ◌≡◌, ◌≤◌, refl, ◌∙◌, ap, ◌↔◌, Option, none, some, Bool, true, false, inl, inr,
  List, [], ◌∷◌, Option-cases, if◌then◌else◌, arith,
}
use puppet_stg_environment.Common.Text.{Text, text_eq, codes, strip, readlines}
use puppet_stg_environment.StatusFile.{
  max_age, status_code, StatusFile, old, missing, exits, io_error, exit_code, relay, read_status,
  is_old, check_file, run,
}

-- A file that is read: a first line that says OK up to the space around it, and more lines.
abbrev pub SaysOk : List Text → Type 0
SaysOk [] = ⊥
SaysOk (first ∷ []) = ⊥
SaysOk (first ∷ line ∷ lines) = strip first ≡ codes "OK"

abbrev pub IsReadable : Option Text → Type 0
IsReadable none = ⊥
IsReadable (some text) = SaysOk (readlines text)

status_code-zero : (name : Text) → (status_code name ≡ some 0) ↔ (name ≡ codes "OK")
unfolding status_code
status_code-zero name = ground arith

three-not_zero : ◌≡◌ {A = ℕ} 3 0 → ⊥
three-not_zero h = omega arith

one-not_zero : ◌≡◌ {A = ℕ} 1 0 → ⊥
one-not_zero h = omega arith

none-not_some : {n : ℕ} → none ≡ some n → ⊥
none-not_some h = cc

read_status-zero : (lines : List Text) → (exit_code (read_status lines) ≡ 0) ↔ SaysOk lines
unfolding read_status relay
read_status-zero [] = (three-not_zero, λ h. absurd h)
read_status-zero (first ∷ []) = elim (Option-cases (status_code (strip first))) [
  | inl e ↦ rw (read_status, e) (three-not_zero, λ h. absurd h)
  | inr (n, e) ↦ rw (read_status, e) (three-not_zero, λ h. absurd h)
]
read_status-zero (first ∷ line ∷ lines) =
    let s = status_code-zero (strip first) in
    elim (Option-cases (status_code (strip first))) [
      | inl e ↦
          rw (read_status, e)
            (λ h. absurd (three-not_zero h), λ h. absurd (none-not_some (sym e ∙ s.1 h)))
      | inr (n, e) ↦
          rw (read_status, e) (λ h. s.0 (e ∙ ap some h), λ h. some-injective n 0 (sym e ∙ s.1 h))
    ]

-- The file is there, is no older than the age, and says OK.
abbrev pub IsFresh : ℕ → Option ℕ → StatusFile → Type 0
IsFresh now none f = ⊥
IsFresh now (some seconds) f =
    (f.exists ≡ true) × (now ≤ f.modified + seconds * 1000000) × IsReadable f.content

content-zero :
    (content : Option Text)
    → (exit_code (elim content [ none ↦ io_error | some text ↦ read_status (readlines text) ]) ≡ 0)
      ↔ IsReadable content
content-zero none = (one-not_zero, λ h. absurd h)
content-zero (some text) = read_status-zero (readlines text)

true-not_false : true ≡ false → ⊥
true-not_false h = cc

tested-zero :
    (exists too_old : Bool) (content : Option Text)
    → (exit_code (
          if exists
          then (if too_old
              then exits 1 old
              else elim content [ none ↦ io_error | some text ↦ read_status (readlines text) ])
          else exits 3 missing)
        ≡ 0)
      ↔ ((exists ≡ true) × (too_old ≡ false) × IsReadable content)
tested-zero true true content = (λ h. absurd (one-not_zero h), λ h. absurd (true-not_false h.1))
tested-zero true false content =
    let c = content-zero content in (λ h. (refl, refl, c.0 h), λ (x, y, r). c.1 r)
tested-zero false b content =
    (λ h. absurd (three-not_zero h), λ h. absurd (true-not_false (sym h.0)))

is_old_iff :
    (now seconds : ℕ) (f : StatusFile)
    → (is_old now seconds f ≡ false) ↔ (now ≤ f.modified + seconds * 1000000)
unfolding is_old
is_old_iff now seconds f = ground arith

check_file-zero :
    (now seconds : ℕ) (f : StatusFile)
    → (exit_code (check_file now seconds f) ≡ 0) ↔ IsFresh now (some seconds) f
unfolding check_file
check_file-zero now seconds f =
    let tested = tested-zero f.exists (is_old now seconds f) f.content in
    let fresh = is_old_iff now seconds f in
    (λ h. let (x, y, r) = tested.0 h in (x, fresh.0 y, r), λ (x, y, r). tested.1 (x, fresh.1 y, r))

abbrev pub RelaysOk : (Text → StatusFile) → ℕ → Text → List Text → Type 0
RelaysOk file now age (name ∷ []) = IsFresh now (max_age age) (file name)
RelaysOk file now age _ = ⊥

-- The exit status is 0 exactly if there is one argument, the age is well formed, the file is there and
-- no older than that, its first line says OK, and there are lines to relay.
pub run_ok_iff :
    (file : Text → StatusFile) (now : ℕ) (age : Text) (args : List Text)
    → (exit_code (run file now age args) ≡ 0) ↔ RelaysOk file now age args
unfolding run
run_ok_iff file now age [] = (one-not_zero, λ h. absurd h)
run_ok_iff file now age (name ∷ x ∷ args) = (one-not_zero, λ h. absurd h)
run_ok_iff file now age (name ∷ []) = elim (Option-cases (max_age age)) [
  | inl e ↦ rw (run, e) (one-not_zero, λ h. absurd h)
  | inr (seconds, e) ↦ rw (run, e) (check_file-zero now seconds (file name))
]
