-- ===== src/AppReport/Gathered.antt =====
-- The dictionary that `getData` makes: one entry for each of the hosts.
use puppet_stg_environment.Common.{
  ◌≡◌, refl, ◌∙◌, sym, ap, Option, none, some, Bool, true, false, inl, inr, List, [], ◌∷◌, All, Any,
  if◌then◌else◌, is_nil, contains, for_some, arith,
}
use puppet_stg_environment.Common.Text.{Text, text_eq}
use puppet_stg_environment.Common.Dict.{
  Dict, NodupKeys, keys, lookup, insert, lookup-nil, lookup_same, lookup_other, lookup-insert,
  insert-NodupKeys, insert-All,
}
use puppet_stg_environment.AppReport.{Ssh, sshcmd, Entry, entry_of, gather}
use puppet_stg_environment.AppReport.Columns.{IsDistinct}

module _ (ssh : Ssh) where
  pub lookup-gather :
      (host : Text) (chosen : List Text) (results : Dict Text Entry)
      → lookup host (gather ssh chosen results)
        ≡ (if contains chosen host then some (entry_of (sshcmd ssh host)) else lookup host results)
  unfolding gather
  lookup-gather host [] results = refl
  lookup-gather host (key ∷ chosen) results =
      lookup-gather host chosen (insert key (entry_of (sshcmd ssh key)) results)
      ∙ rw (lookup-insert host key (entry_of (sshcmd ssh key)) results) (ground arith)

  pub gather-NodupKeys :
      (chosen : List Text) (results : Dict Text Entry)
      → NodupKeys results
      → NodupKeys (gather ssh chosen results)
  unfolding gather
  gather-NodupKeys [] results d = d
  gather-NodupKeys (host ∷ chosen) results d =
      gather-NodupKeys chosen _ (insert-NodupKeys host (entry_of (sshcmd ssh host)) results d)

  entry_known :
      (b : Bool) (o : Option Entry) (x entry : Entry)
      → o ≡ none
      → (if b then some x else o) ≡ some entry
      → (b ≡ true) × (some x ≡ some entry)
  entry_known true o x entry n h = (refl, h)
  entry_known false o x entry n h = cc

  pub gather-All :
      (P : Text × Entry → Type 0) (chosen : List Text) (results : Dict Text Entry)
      → All (λ host. P (host, entry_of (sshcmd ssh host))) chosen
      → All P results
      → All P (gather ssh chosen results)
  unfolding gather
  gather-All P [] results h k = k
  gather-All P (host ∷ chosen) results (p, h) k =
      gather-All P chosen _ h (insert-All P host (entry_of (sshcmd ssh host)) results p k)

  -- An entry of the dictionary is that of a host.
  pub lookup-contains :
      (host : Text) (entry : Entry) (chosen : List Text)
      → lookup host (gather ssh chosen []) ≡ some entry
      → (contains chosen host ≡ true) × (some (entry_of (sshcmd ssh host)) ≡ some entry)
  lookup-contains host entry chosen h =
      entry_known (contains chosen host) (lookup host []) (entry_of (sshcmd ssh host)) entry
        (lookup-nil host) (sym (lookup-gather host chosen []) ∙ h)

  pub contains-lookup :
      (host : Text) (chosen : List Text)
      → contains chosen host ≡ true
      → lookup host (gather ssh chosen []) ≡ some (entry_of (sshcmd ssh host))
  contains-lookup host chosen h = lookup-gather host chosen [] ∙ rw h refl

pub All-contains :
    (P : Text → Type 0) (xs : List Text) → ((x : Text) → contains xs x ≡ true → P x) → All P xs
All-contains P [] f = tt
All-contains P (x ∷ xs) f =
    (f x (ground arith), All-contains P xs (λ y c. f y (rw c (ground arith))))

-- The keys are those that can be looked up.
abbrev is_some : Option Entry → Bool
is_some none = false
is_some (some _) = true

pub contains-keys-lookup :
    (host : Text) (results : Dict Text Entry)
    → contains (keys results) host ≡ is_some (lookup host results)
unfolding keys lookup
contains-keys-lookup host [] = refl
contains-keys-lookup host ((key, entry) ∷ results) =
    ground (arith, contains-keys-lookup host results)

pub keys-gather :
    (ssh : Ssh) (host : Text) (chosen : List Text)
    → contains (keys (gather ssh chosen [])) host ≡ contains chosen host
keys-gather ssh host chosen =
    contains-keys-lookup host (gather ssh chosen [])
    ∙ rw (lookup-gather ssh host chosen [], lookup-nil {V = Entry} host) (ground arith)

lookup-is_nil :
    (host : Text) (entry : Entry) (results : Dict Text Entry)
    → lookup host results ≡ some entry
    → is_nil results ≡ false
lookup-is_nil host entry [] h = cc (lookup-nil {V = Entry} host, h)
lookup-is_nil host entry (item ∷ results) h = refl

pub is_nil-gather : (ssh : Ssh) (chosen : List Text) → is_nil (gather ssh chosen []) ≡ is_nil chosen
unfolding gather
is_nil-gather ssh [] = refl
is_nil-gather ssh (host ∷ chosen) =
    lookup-is_nil host _ (gather ssh (host ∷ chosen) [])
      (contains-lookup ssh host (host ∷ chosen) (ground arith))

pub keys-IsDistinct : (results : Dict Text Entry) → NodupKeys results → IsDistinct (keys results)
unfolding keys
keys-IsDistinct [] d = tt
keys-IsDistinct ((host, entry) ∷ results) (e, d) =
    (contains-keys-lookup host results ∙ ap is_some e, keys-IsDistinct results d)

-- In a dictionary without repetition an item and a key with its entry are the same.
module _ (P : Text × Entry → Type 0) where
  pub Any-lookup :
      (results : Dict Text Entry)
      → NodupKeys results
      → Any P results
      → (host : Text) × (entry : Entry) × (lookup host results ≡ some entry) × P (host, entry)
  Any-lookup [] d a = absurd a
  Any-lookup ((host, entry) ∷ results) d (inl p) =
      (host, entry, lookup_same host host entry results refl, p)
  Any-lookup ((key, first) ∷ results) (n, d) (inr a) =
      let (host, entry, e, p) = Any-lookup results d a in
      elim (text_eq.dec host key) [
        | yes q ↦ absurd (none_some (sym n ∙ (rw q at e)))
        | no q ↦ (host, entry, lookup_other host key first results q ∙ e, p)
      ]
    where
      none_some : {x : Entry} → none ≡ some x → ⊥
      none_some h = cc

  pub lookup-Any :
      (host : Text) (entry : Entry) (results : Dict Text Entry)
      → lookup host results ≡ some entry
      → P (host, entry)
      → Any P results
  lookup-Any host entry [] h p = cc (lookup-nil {V = Entry} host, h)
  lookup-Any host entry ((key, first) ∷ results) h p = elim (text_eq.dec host key) [
    | yes q ↦ inl (
        for_some (λ e. P (key, e)) entry first (sym h ∙ lookup_same host key first results q)
          (rw q at p))
    | no q ↦ inr (lookup-Any host entry results (sym (lookup_other host key first results q) ∙ h) p)
  ]
