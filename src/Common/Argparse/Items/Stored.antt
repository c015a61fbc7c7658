-- ===== src/Common/Argparse/Items/Stored.antt =====
-- The events of the arguments that options are written as.
use puppet_stg_environment.Common.Lists.{All}
use puppet_stg_environment.Common.Text.{Text, text_eq}
use puppet_stg_environment.Common.Argparse.Sorts.{
  Table, Sort, plain, dashes, unknown, ambiguous, option,
}
use puppet_stg_environment.Common.Argparse.Events.{
  Event, Turn, goes_on, stops, opening, store, Opened, done, waits, fails, idle, taking,
  drop_dashes, opened, step, events, parse_events,
}
use mathlib.Core.Path.{◌≡◌, refl, ap, ◌∙◌}
use mathlib.Core.Bool.{true, false}
use mathlib.Core.Option.{none, some}
use mathlib.Core.List.{List, [], ◌∷◌, ◌++◌, append-nil, append_assoc}
use puppet_stg_environment.Common.Argparse.Items.{
  Item, one_item, many_item, flag_item, arguments, event, events_of, IsKnown, IsValue, plain_all,
  sorted, sorted_all, sort_arguments, arguments-not_ambiguous,
}

module _ {D : Type 0} where
  module _ (table : Table D) where
    drop_dashes-values :
        (values : List Text) → All (IsValue table) values → drop_dashes values ≡ values
    unfolding drop_dashes
    drop_dashes-values [] h = refl
    drop_dashes-values (value ∷ values) ((n, c), h) =
        rw n (ap (λ vs. value ∷ vs) (drop_dashes-values values h))

    take_values :
        (dest : D) (taken values : List Text) (sorts : List (Text × Sort D))
        → events table (taking dest taken) false (plain_all values ++ sorts)
          ≡ events table (taking dest (taken ++ values)) false sorts
    unfolding events step
    take_values dest taken [] sorts = rw (append-nil taken) refl
    take_values dest taken (value ∷ values) sorts =
        take_values dest (taken ++ (value ∷ [])) values sorts
        ∙ ap (λ vs. events table (taking dest vs) false sorts)
            (append_assoc taken (value ∷ []) values)

    -- No value comes first.
    abbrev IsClosed : List (Text × Sort D) → Type 0
    IsClosed [] = Unit
    IsClosed ((arg, option single action value) ∷ sorts) = Unit
    IsClosed _ = ⊥

    abbrev turned : List (Text × Sort D) → Turn D → List (Event D)
    turned sorts turn = elim turn [
      | stops acts ↦ acts
      | goes_on acts next left ↦ acts ++ events table next left sorts
    ]

    opened-store :
        (sorts : List (Text × Sort D)) (e : Event D) (o : Opened D)
        → turned sorts (opened (e ∷ []) o) ≡ e ∷ turned sorts (opened [] o)
    opened-store sorts e (done acts) = refl
    opened-store sorts e (waits pending) = refl
    opened-store sorts e (fails f) = refl

    -- The values that are taken are stored before what comes next.
    take_last :
        (dest : D) (values : List Text) (sorts : List (Text × Sort D))
        → IsClosed sorts
        → events table (taking dest values) false sorts
          ≡ store dest (drop_dashes values) ∷ events table idle false sorts
    unfolding events step
    take_last dest values [] h = refl
    take_last dest values ((arg, option single action value) ∷ sorts) h =
        opened-store sorts (store dest (drop_dashes values)) (opening table single action value)
    take_last dest values ((arg, plain) ∷ sorts) h = absurd h
    take_last dest values ((arg, dashes) ∷ sorts) h = absurd h
    take_last dest values ((arg, unknown) ∷ sorts) h = absurd h
    take_last dest values ((arg, ambiguous) ∷ sorts) h = absurd h

    sorted-IsClosed :
        (item : Item D) (sorts : List (Text × Sort D))
        → IsClosed sorts
        → IsClosed (sorted item ++ sorts)
    sorted-IsClosed (one_item name dest none) sorts h = h
    sorted-IsClosed (one_item name dest (some value)) sorts h = tt
    sorted-IsClosed (many_item name dest none) sorts h = h
    sorted-IsClosed (many_item name dest (some (value, values))) sorts h = tt
    sorted-IsClosed (flag_item name dest false) sorts h = h
    sorted-IsClosed (flag_item name dest true) sorts h = tt

    sorted_all-IsClosed : (items : List (Item D)) → IsClosed (sorted_all items)
    sorted_all-IsClosed [] = tt
    sorted_all-IsClosed (item ∷ items) =
        sorted-IsClosed item (sorted_all items) (sorted_all-IsClosed items)

    take_argument :
        (item : Item D) (sorts : List (Text × Sort D))
        → IsKnown table item
        → IsClosed sorts
        → events table idle false (sorted item ++ sorts)
          ≡ event item ++ events table idle false sorts
    unfolding events step opening
    take_argument (one_item name dest none) sorts h c = refl
    take_argument (one_item name dest (some value)) sorts (n, (m, d)) c = rw m refl
    take_argument (many_item name dest none) sorts h c = refl
    take_argument (many_item name dest (some (value, values))) sorts (n, v, h) c =
        take_values dest (value ∷ []) values sorts
        ∙ take_last dest (value ∷ values) sorts c
        ∙ ap (λ vs. store dest vs ∷ events table idle false sorts)
            (drop_dashes-values (value ∷ values) (v, h))
    take_argument (flag_item name dest false) sorts h c = refl
    take_argument (flag_item name dest true) sorts h c = refl

    take_arguments :
        (items : List (Item D))
        → All (IsKnown table) items
        → events table idle false (sorted_all items) ≡ events_of items
    unfolding events
    take_arguments [] h = refl
    take_arguments (item ∷ items) (k, h) =
        take_argument item (sorted_all items) k (sorted_all-IsClosed items)
        ∙ ap (λ es. event item ++ es) (take_arguments items h)

    -- The parser stores exactly the options that are written out, in their order.
    pub parse_events-arguments :
        (items : List (Item D))
        → All (IsKnown table) items
        → parse_events table (arguments items) ≡ events_of items
    unfolding parse_events
    parse_events-arguments items h =
        rw (sort_arguments table items h, arguments-not_ambiguous table items)
          (take_arguments items h)
