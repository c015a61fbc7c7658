-- ===== src/AwsRds/Cli/RoundTrip.antt =====
-- Options written as arguments and read again.
use puppet_stg_environment.Common.{
  ◌≡◌, refl, sym, ◌∙◌, ap, Option, none, some, Bool, true, false, List, [], ◌∷◌, All, drop,
}
use puppet_stg_environment.Common.Text.{Text, text_eq, codes}
use puppet_stg_environment.Common.Optparse.{scan, match_long, find_exact}
use puppet_stg_environment.Common.Text.Explicit.{split_value}
use puppet_stg_environment.Common.Optparse.Items.{
  Item, value_item, flag_item, arguments, IsKnown, parse_args-arguments, store_items,
  store_all-settings,
}
use puppet_stg_environment.AwsRds.Floats.{Floats}
use puppet_stg_environment.AwsRds.Stats.{Aws}
use puppet_stg_environment.AwsRds.Main.{Options, main}
use puppet_stg_environment.AwsRds.Cli.{
  Dest, to_db_list, to_ident, to_info, to_metric, to_warn, to_crit, to_unit, options_known,
  defaults, store, ended, run_parsed, command,
}

-- Each option that is given, by its long name; the unit is always there.
abbrev pub items : Options → List (Item Dest)
items o =
    value_item (codes "--unit") to_unit (some o.unit)
    ∷ flag_item (codes "--list") to_db_list o.db_list
    ∷ value_item (codes "--ident") to_ident o.ident
    ∷ flag_item (codes "--print") to_info o.info
    ∷ value_item (codes "--metric") to_metric o.metric
    ∷ value_item (codes "--warn") to_warn o.warn
    ∷ value_item (codes "--crit") to_crit o.crit
    ∷ []

items-IsKnown : (o : Options) → All (IsKnown options_known) (items o)
unfolding scan split_value match_long find_exact options_known codes text_eq
items-IsKnown o = (
  (refl, refl),
  (
    (refl, refl),
    ((refl, refl), ((refl, refl), ((refl, refl), ((refl, refl), ((refl, refl), tt))))),
  ),
)

abbrev made : Bool → Option Text → Bool → Option Text → Option Text → Option Text → Text → Options
made l i p m w c u = record {
  bare = false;
  db_list = l;
  ident = i;
  info = p;
  metric = m;
  warn = w;
  crit = c;
  unit = u;
}

-- Each item puts its option where it belongs, whatever the later ones do.
module _ (n u : Text) (is : List (Item Dest)) where
  store_db_list :
      (l : Bool)
      → store_items store (flag_item n to_db_list l ∷ is) (made false none false none none none u)
        ≡ store_items store is (made l none false none none none u)
  unfolding store
  store_db_list false = refl
  store_db_list true = refl

  store_ident :
      (l : Bool) (v : Option Text)
      → store_items store (value_item n to_ident v ∷ is) (made l none false none none none u)
        ≡ store_items store is (made l v false none none none u)
  unfolding store
  store_ident l none = refl
  store_ident l (some t) = refl

  store_info :
      (l : Bool) (i : Option Text) (p : Bool)
      → store_items store (flag_item n to_info p ∷ is) (made l i false none none none u)
        ≡ store_items store is (made l i p none none none u)
  unfolding store
  store_info l i false = refl
  store_info l i true = refl

  store_metric :
      (l : Bool) (i : Option Text) (p : Bool) (v : Option Text)
      → store_items store (value_item n to_metric v ∷ is) (made l i p none none none u)
        ≡ store_items store is (made l i p v none none u)
  unfolding store
  store_metric l i p none = refl
  store_metric l i p (some t) = refl

  store_warn :
      (l : Bool) (i : Option Text) (p : Bool) (m v : Option Text)
      → store_items store (value_item n to_warn v ∷ is) (made l i p m none none u)
        ≡ store_items store is (made l i p m v none u)
  unfolding store
  store_warn l i p m none = refl
  store_warn l i p m (some t) = refl

  store_crit :
      (l : Bool) (i : Option Text) (p : Bool) (m w v : Option Text)
      → store_items store (value_item n to_crit v ∷ is) (made l i p m w none u)
        ≡ store_items store is (made l i p m w v u)
  unfolding store
  store_crit l i p m w none = refl
  store_crit l i p m w (some t) = refl

store_items-items :
    (o : Options)
    → store_items store (items o) (defaults false)
      ≡ made o.db_list o.ident o.info o.metric o.warn o.crit o.unit
unfolding store
store_items-items o =
    store_db_list (codes "--list") o.unit (drop 2 (items o)) o.db_list
    ∙ store_ident (codes "--ident") o.unit (drop 3 (items o)) o.db_list o.ident
    ∙ store_info (codes "--print") o.unit (drop 4 (items o)) o.db_list o.ident o.info
    ∙ store_metric (codes "--metric") o.unit (drop 5 (items o)) o.db_list o.ident o.info o.metric
    ∙ store_warn (codes "--warn") o.unit (drop 6 (items o)) o.db_list o.ident o.info o.metric o.warn
    ∙ store_crit (codes "--crit") o.unit [] o.db_list o.ident o.info o.metric o.warn o.crit

module _ {F : Type 0} (fl : Floats F) (aws : Aws F) where
  -- Options with any arguments are read back as they are: the command with the arguments of these
  -- options ends as `main` does with the options.
  pub command-arguments :
      (o : Options) → o.bare ≡ false → command fl aws (arguments (items o)) ≡ ended (main fl aws o)
  unfolding command
  command-arguments o b =
      ap (run_parsed fl aws false) (parse_args-arguments options_known (items o) (items-IsKnown o))
      ∙ ap (λ x. ended (main fl aws x))
          (store_all-settings store (items o) (defaults false)
            ∙ store_items-items o
            ∙ ap (λ x. record o { bare = x }) (sym b))
