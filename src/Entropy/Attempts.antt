-- ===== src/Entropy/Attempts.antt =====
-- When there is enough entropy.
use puppet_stg_environment.Common.{
  ℕ, zero, suc, ◌+◌, ◌≡◌, refl, ◌<◌, sym, ◌∙◌, is_nil, ◌≢◌, ◌⊎◌, ◌↔◌, Option, none, some, true,
  false, inl, inr, List, [], ◌∷◌, ◌++◌, Bool-cases, arith,
}
use puppet_stg_environment.Common.Int.{ℤ, pos, leb_ℤ, ltb_ℤ}
use puppet_stg_environment.Common.Text.{Text, rstrip}
use puppet_stg_environment.Common.Decimal.{int}
use mathlib.Core.Path.{subst}
use puppet_stg_environment.Entropy.{
  Reads, Ending, exits, exit_code, Attempt, stops, number, not_number, attempt, give_up, rounds,
}

-- The n-th read is a number below the watermark, and the program can sleep before the next, or one
-- that is not.
abbrev pub IsLow : Reads → ℤ → ℤ → ℕ → Type 0
IsLow reads watermark sleep n =
    (z : ℤ) × (attempt (reads n) ≡ number z)
    × (leb_ℤ watermark z ≡ false)
    × (ltb_ℤ sleep (pos 0) ≡ false)

abbrev pub IsHigh : Reads → ℤ → ℕ → Type 0
IsHigh reads watermark n = (z : ℤ) × (attempt (reads n) ≡ number z) × (leb_ℤ watermark z ≡ true)

-- One of `left` reads, from the one with the number `start` on, is high, and those before it are low.
pub record Succeeds (reads : Reads) (watermark sleep : ℤ) (left start : ℕ) : Type 0 where
  pub before : ℕ
  pub in_time : before < left
  pub low : (i : ℕ) → i < before → IsLow reads watermark sleep (start + i)
  pub high : IsHigh reads watermark (start + before)

suc-not_zero : (n : ℕ) → suc n ≡ 0 → ⊥
suc-not_zero n h = omega arith

plus_zero : (n : ℕ) → n + 0 ≡ n
plus_zero n = omega arith

nothing-below : (n : ℕ) → n < 0 → ⊥
nothing-below n h = omega arith

-- An end within a read is a failure.
HasFailed : Attempt → Type 0
HasFailed (stops e) = exit_code e ≢ 0
HasFailed (number z) = Unit

parsed-HasFailed :
    (o : Option ℤ) → HasFailed (elim o [ none ↦ stops (exits 4 not_number) | some z ↦ number z ])
unfolding HasFailed
parsed-HasFailed none = λ h. suc-not_zero 3 h
parsed-HasFailed (some z) = tt

attempt-HasFailed : (line : Option Text) → HasFailed (attempt line)
unfolding HasFailed attempt
attempt-HasFailed none = λ h. suc-not_zero 0 h
attempt-HasFailed (some line) = elim (Bool-cases (is_nil (rstrip line))) [
  | inl e ↦ rw (attempt, e) (λ h. suc-not_zero 3 h)
  | inr e ↦ rw (attempt, e) (parsed-HasFailed (int (rstrip line)))
]

failed-not_zero : (a : Attempt) (e : Ending) → HasFailed a → a ≡ stops e → exit_code e ≢ 0
unfolding HasFailed
failed-not_zero a e f h = subst HasFailed h f

Attempt-cases : (a : Attempt) → ((e : Ending) × (a ≡ stops e)) ⊎ ((z : ℤ) × (a ≡ number z))
Attempt-cases (stops e) = inl (e, refl)
Attempt-cases (number z) = inr (z, refl)

stops-not_number : (e : Ending) (z : ℤ) → stops e ≡ number z → ⊥
stops-not_number e z h = cc

true-not_false : true ≡ false → ⊥
true-not_false h = cc

give_up-not_zero : (values : List ℤ) → exit_code (give_up values) ≡ 0 → ⊥
give_up-not_zero [] h = suc-not_zero 0 h
give_up-not_zero (v ∷ values) h = suc-not_zero 0 h

low-not_high : (w x y : ℤ) → number x ≡ number y → leb_ℤ w x ≡ false → leb_ℤ w y ≡ true → ⊥
low-not_high w x y e f t = cc

module _ (reads : Reads) (watermark sleep : ℤ) where
  Succeeds-first :
      (left start : ℕ)
      → IsHigh reads watermark start
      → Succeeds reads watermark sleep (suc left) start
  Succeeds-first left start h = record {
    before = 0;
    in_time = omega arith;
    low = λ i l. absurd (nothing-below i l);
    high = subst (IsHigh reads watermark) (omega arith) h;
  }

  IsLow-later :
      (start before : ℕ)
      → IsLow reads watermark sleep start
      → ((i : ℕ) → i < before → IsLow reads watermark sleep (suc start + i))
      → (i : ℕ) → i < suc before
      → IsLow reads watermark sleep (start + i)
  IsLow-later start before l k zero h = subst (IsLow reads watermark sleep) (omega arith) l
  IsLow-later start before l k (suc i) h =
      subst (IsLow reads watermark sleep) (omega arith) (k i (omega arith))

  Succeeds-later :
      (left start : ℕ)
      → IsLow reads watermark sleep start
      → Succeeds reads watermark sleep left (suc start)
      → Succeeds reads watermark sleep (suc left) start
  Succeeds-later left start l s = record {
    before = suc s.before;
    in_time = omega (arith, s.in_time);
    low = IsLow-later start s.before l s.low;
    high = subst (IsHigh reads watermark) (omega arith) s.high;
  }

  Succeeds-split :
      (left start before : ℕ)
      → before < suc left
      → ((i : ℕ) → i < before → IsLow reads watermark sleep (start + i))
      → IsHigh reads watermark (start + before)
      → IsHigh reads watermark start ⊎ Succeeds reads watermark sleep left (suc start)
  Succeeds-split left start zero t l h = inl (subst (IsHigh reads watermark) (omega arith) h)
  Succeeds-split left start (suc before) t l h = inr (record {
    before = before;
    in_time = omega arith;
    low = λ i k. subst (IsLow reads watermark sleep) (omega arith) (l (suc i) (omega arith));
    high = subst (IsHigh reads watermark) (omega arith) h;
  })

  Succeeds-number :
      (left start before : ℕ)
      → ((i : ℕ) → i < before → IsLow reads watermark sleep (start + i))
      → IsHigh reads watermark (start + before)
      → (z : ℤ) × (attempt (reads start) ≡ number z)
  Succeeds-number left start zero l h =
      let (z, e, _) = subst (IsHigh reads watermark) (plus_zero start) h in (z, e)
  Succeeds-number left start (suc before) l h =
      let (z, e, _, _) =
        subst (IsLow reads watermark sleep) (plus_zero start) (l 0 (omega arith)) in
      (z, e)

  -- A first read that is low needs a sleep.
  awake_after :
      (start before : ℕ) (z : ℤ)
      → ((i : ℕ) → i < before → IsLow reads watermark sleep (start + i))
      → IsHigh reads watermark (start + before)
      → attempt (reads start) ≡ number z
      → leb_ℤ watermark z ≡ false
      → ltb_ℤ sleep (pos 0) ≡ true
      → ⊥
  awake_after start zero z l h a f n =
      let (y, b, t) = subst (IsHigh reads watermark) (plus_zero start) h in
      low-not_high watermark z y (sym a ∙ b) f t
  awake_after start (suc before) z l h a f n =
      let (y, b, g, k) = l 0 (omega arith) in true-not_false (sym n ∙ k)

  awake :
      (left start : ℕ)
      → Succeeds reads watermark sleep (suc left) start
      → (z : ℤ) → attempt (reads start) ≡ number z
      → leb_ℤ watermark z ≡ false
      → ltb_ℤ sleep (pos 0) ≡ true
      → ⊥
  awake left start s z = awake_after start s.before z s.low s.high

  pub rounds-Succeeds :
      (left start : ℕ) (values : List ℤ)
      → (exit_code (rounds reads watermark sleep left start values) ≡ 0)
        ↔ Succeeds reads watermark sleep left start
  unfolding rounds
  rounds-Succeeds zero start values =
      (λ h. absurd (give_up-not_zero values h), λ s. absurd (nothing-below s.before s.in_time))
  rounds-Succeeds (suc left) start values = elim (Attempt-cases (attempt (reads start))) [
    | inl (e, a) ↦
        rw (rounds, a)
          (
            λ h. absurd (failed-not_zero _ e (attempt-HasFailed (reads start)) a h),
            λ s.
                let (z, b) = Succeeds-number left start s.before s.low s.high in
                absurd (stops-not_number e z (sym a ∙ b)),
          )
    | inr (z, a) ↦ elim (Bool-cases (leb_ℤ watermark z)) [
      | inl t ↦ rw (rounds, a, t) (λ h. Succeeds-first left start (z, a, t), λ s. refl)
      | inr f ↦ elim (Bool-cases (ltb_ℤ sleep (pos 0))) [
        | inl n ↦
            rw (rounds, a, f, n)
              (λ h. absurd (suc-not_zero 0 h), λ s. absurd (awake left start s z a f n))
        | inr n ↦
            let ih = rounds-Succeeds left (suc start) (values ++ z ∷ []) in
            rw (rounds, a, f, n)
              (
                λ h. Succeeds-later left start (z, a, f, n) (ih.0 h),
                λ s. elim (Succeeds-split left start s.before s.in_time s.low s.high) [
                  | inl (y, b, t) ↦ absurd (low-not_high watermark z y (sym a ∙ b) f t)
                  | inr r ↦ ih.1 r
                ],
              )
      ]
    ]
  ]
