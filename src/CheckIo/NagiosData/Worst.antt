-- ===== src/CheckIo/NagiosData/Worst.antt =====
-- What `updateData` makes of a series of checks.
use Prim.Native.Nat.{max}
use mathlib.Core.Logic.{∥∥₁_elim}
use mathlib.Core.List.{Perm, Permᴰ}
use native.Mathlib.Nat.{ℕ_set}
use puppet_stg_environment.Common.{ℕ, ◌≡◌, refl, ◌∙◌, false, List, [], ◌∷◌, ◌++◌, arith}
use puppet_stg_environment.Common.Text.{codes}
use puppet_stg_environment.CheckIo.Message.{Message, literal, is_empty}
use puppet_stg_environment.CheckIo.NagiosData.{NagiosData, initial, exit, update_one, update_data}

-- The highest status of the checks.
unfoldable pub worst : List (ℕ × Message) → ℕ
worst [] = 0
worst ((status, message) ∷ checks) = max status (worst checks)

zero_max : (n : ℕ) → max 0 n ≡ n
zero_max n = omega arith

pub update_data-worst :
    (checks : List (ℕ × Message)) (n : NagiosData)
    → (update_data checks n).exit_status ≡ max n.exit_status (worst checks)
unfolding update_data update_one worst
update_data-worst [] n = omega arith
update_data-worst ((status, message) ∷ checks) n =
    rw (update_data-worst checks (update_one status message n)) (ground arith)

is_empty-append : (m n : Message) → is_empty n ≡ false → is_empty (m ++ n) ≡ false
unfolding is_empty
is_empty-append [] n h = h
is_empty-append (p ∷ m) n h = ground (arith, is_empty-append m n h)

-- Every round leaves a space at the end of the message.
update_one-visible :
    (status : ℕ) (message : Message) (n : NagiosData)
    → is_empty (update_one status message n).exit_message ≡ false
unfolding update_one is_empty codes
update_one-visible status message n =
    is_empty-append n.exit_message (message ++ literal " " ∷ [])
      (is_empty-append message (literal " " ∷ []) refl)

update_data-visible :
    (checks : List (ℕ × Message)) (n : NagiosData)
    → is_empty n.exit_message ≡ false
    → is_empty (update_data checks n).exit_message ≡ false
unfolding update_data
update_data-visible [] n v = v
update_data-visible ((status, message) ∷ checks) n v =
    update_data-visible checks (update_one status message n) (update_one-visible status message n)

exit_visible : (n : NagiosData) → is_empty n.exit_message ≡ false → (exit n).code ≡ n.exit_status
unfolding exit
exit_visible n h = rw h

-- Reporting any checks ends the program with the highest of their statuses, 0 if there are none.
pub exit-worst :
    (checks : List (ℕ × Message)) → (exit (update_data checks initial)).code ≡ worst checks
unfolding exit update_data worst
exit-worst [] = refl
exit-worst ((status, message) ∷ checks) =
    exit_visible (update_data checks (update_one status message initial)) (
      update_data-visible checks (update_one status message initial)
        (update_one-visible status message initial))
    ∙ update_data-worst ((status, message) ∷ checks) initial
    ∙ zero_max (worst ((status, message) ∷ checks))

worst-Permᴰ : {xs ys : List (ℕ × Message)} → Permᴰ xs ys → worst xs ≡ worst ys
unfolding worst
worst-Permᴰ Permᴰ.nil = refl
worst-Permᴰ (Permᴰ.cons e p) = rw (e, worst-Permᴰ p)
worst-Permᴰ (Permᴰ.swap e f) = rw (e, f) (omega arith)
worst-Permᴰ (Permᴰ.trans p q) = worst-Permᴰ p ∙ worst-Permᴰ q

-- The order in which the devices are checked has no influence on it.
pub exit-Perm :
    {xs ys : List (ℕ × Message)}
    → Perm xs ys
    → (exit (update_data xs initial)).code ≡ (exit (update_data ys initial)).code
exit-Perm {xs} {ys} p = rw (exit-worst xs, exit-worst ys) (∥∥₁_elim p (ℕ_set _ _) worst-Permᴰ)
