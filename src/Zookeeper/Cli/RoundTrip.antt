-- ===== src/Zookeeper/Cli/RoundTrip.antt =====
-- Options written as arguments and read again.
use puppet_stg_environment.Common.{
  ◌≡◌, refl, ◌∙◌, ap, Option, none, some, Bool, true, false, List, [], ◌∷◌, All, drop,
}
use puppet_stg_environment.Common.Text.{Text, text_eq, codes}
use puppet_stg_environment.Common.Optparse.{scan, match_long, find_exact}
use puppet_stg_environment.Common.Text.Explicit.{split_value}
use puppet_stg_environment.Common.Optparse.Items.{
  Item, value_item, flag_item, arguments, IsKnown, parse_args-arguments, store_items,
  store_all-settings,
}
use puppet_stg_environment.Zookeeper.Options.{Options}
use puppet_stg_environment.Zookeeper.Cluster.{Network}
use puppet_stg_environment.Zookeeper.Main.{main}
use puppet_stg_environment.Zookeeper.Cli.{
  Dest, to_servers, to_output, to_key, to_warning, to_critical, to_leader, to_gmetric,
  options_known, defaults, store, ended, run_parsed, command,
}

-- Each option that is given, by its long name.
abbrev pub items : Options → List (Item Dest)
items o =
    value_item (codes "--servers") to_servers o.servers
    ∷ value_item (codes "--output") to_output o.output
    ∷ value_item (codes "--key") to_key o.key
    ∷ value_item (codes "--warning") to_warning o.warning
    ∷ value_item (codes "--critical") to_critical o.critical
    ∷ flag_item (codes "--leader") to_leader o.leader
    ∷ value_item (codes "--gmetric") to_gmetric (some o.gmetric)
    ∷ []

items-IsKnown : (o : Options) → All (IsKnown options_known) (items o)
unfolding scan split_value match_long find_exact options_known codes text_eq
items-IsKnown o = (
  (refl, refl),
  (
    (refl, refl),
    ((refl, refl), ((refl, refl), ((refl, refl), ((refl, refl), ((refl, refl), tt))))),
  ),
)

abbrev made :
    Option Text → Option Text → Option Text → Option Text → Option Text → Bool → Text → Options
made s o k w c l g = record {
  servers = s;
  output = o;
  key = k;
  warning = w;
  critical = c;
  leader = l;
  gmetric = g;
}

-- Each item puts its option where it belongs, whatever the later ones do.
module _ (n g : Text) (is : List (Item Dest)) where
  store_servers :
      (v : Option Text)
      → store_items store (value_item n to_servers v ∷ is) (made none none none none none false g)
        ≡ store_items store is (made v none none none none false g)
  unfolding store
  store_servers none = refl
  store_servers (some t) = refl

  store_output :
      (s v : Option Text)
      → store_items store (value_item n to_output v ∷ is) (made s none none none none false g)
        ≡ store_items store is (made s v none none none false g)
  unfolding store
  store_output s none = refl
  store_output s (some t) = refl

  store_key :
      (s o v : Option Text)
      → store_items store (value_item n to_key v ∷ is) (made s o none none none false g)
        ≡ store_items store is (made s o v none none false g)
  unfolding store
  store_key s o none = refl
  store_key s o (some t) = refl

  store_warning :
      (s o k v : Option Text)
      → store_items store (value_item n to_warning v ∷ is) (made s o k none none false g)
        ≡ store_items store is (made s o k v none false g)
  unfolding store
  store_warning s o k none = refl
  store_warning s o k (some t) = refl

  store_critical :
      (s o k w v : Option Text)
      → store_items store (value_item n to_critical v ∷ is) (made s o k w none false g)
        ≡ store_items store is (made s o k w v false g)
  unfolding store
  store_critical s o k w none = refl
  store_critical s o k w (some t) = refl

  store_leader :
      (s o k w c : Option Text) (l : Bool)
      → store_items store (flag_item n to_leader l ∷ is) (made s o k w c false g)
        ≡ store_items store is (made s o k w c l g)
  unfolding store
  store_leader s o k w c false = refl
  store_leader s o k w c true = refl

store_items-items : (o : Options) → store_items store (items o) defaults ≡ o
unfolding store
store_items-items o =
    let g = codes "/usr/bin/gmetric" in
    store_servers (codes "--servers") g (drop 1 (items o)) o.servers
    ∙ store_output (codes "--output") g (drop 2 (items o)) o.servers o.output
    ∙ store_key (codes "--key") g (drop 3 (items o)) o.servers o.output o.key
    ∙ store_warning (codes "--warning") g (drop 4 (items o)) o.servers o.output o.key o.warning
    ∙ store_critical (codes "--critical") g (drop 5 (items o)) o.servers o.output o.key o.warning
        o.critical
    ∙ store_leader (codes "--leader") g (drop 6 (items o)) o.servers o.output o.key o.warning
        o.critical o.leader

-- Whatever the options are, their arguments are read back as they are: the command with the arguments
-- of some options ends as `main` does with these options.
pub command-main :
    (can_run : Text → Bool) (net : Network) (o : Options)
    → command can_run net (arguments (items o)) ≡ ended (main can_run net o)
unfolding command
command-main can_run net o =
    ap (run_parsed can_run net) (parse_args-arguments options_known (items o) (items-IsKnown o))
    ∙ ap (λ x. ended (main can_run net x))
        (store_all-settings store (items o) defaults ∙ store_items-items o)
