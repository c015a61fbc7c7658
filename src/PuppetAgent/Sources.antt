-- ===== src/PuppetAgent/Sources.antt =====
-- Where the facts are from that the run of the agent is judged by.
use puppet_stg_environment.Common.{
  All, ◌≡◌, refl, sym, ◌≢◌, inl, inr, ℕ, suc, Option, none, some, List, Option-cases, arith,
}
use mathlib.Core.Path.{subst}
use puppet_stg_environment.Common.Int.{ℤ}
use puppet_stg_environment.Common.Text.{Text, codes}
use puppet_stg_environment.Common.Getopt.{getopt}
use puppet_stg_environment.PuppetAgent.Thresholds.{IsNumeric, IsLast, set_deltas_iff}
use puppet_stg_environment.PuppetAgent.{
  Yaml, Subscript, found, key_error, type_error, subscript, then_subscript, exit_code, Machine,
  set_deltas, Facts, Gathered, stops, ready, with_deltas, read_facts, load_facts, gather,
}

abbrev value_at : Yaml → Text → Text → Subscript
value_at document section key = then_subscript (subscript document section) key

-- Where the facts are from: the arguments, and the document that the summary holds.
pub record IsGathered (m : Machine) (f : Facts) : Type 0 where
  pub opts : List (Text × Text)
  pub args : List Text
  pub document : Yaml
  pub options : getopt (codes "w:c:") m.arguments ≡ some (opts, args)
  pub numeric : All IsNumeric opts
  pub warning : IsLast (codes "-w") f.warning opts
  pub critical : IsLast (codes "-c") f.critical opts
  pub summary : m.summary ≡ some f.summary
  pub load : m.load f.summary ≡ some document
  pub last_run : value_at document (codes "time") (codes "last_run") ≡ found f.last_run
  pub resources : value_at document (codes "resources") (codes "failed") ≡ found f.resources
  pub events : value_at document (codes "events") (codes "failure") ≡ found f.events

abbrev pub Explains : Machine → Gathered → Type 0
Explains m (stops e) = exit_code e ≢ 0
Explains m (ready f) = IsGathered m f

pub suc-not_zero : (n : ℕ) → suc n ≡ 0 → ⊥
suc-not_zero n h = omega arith

module _ (m : Machine) where
  module _ (opts : List (Text × Text)) (args : List Text)
      (o : getopt (codes "w:c:") m.arguments ≡ some (opts, args)) where
    module _ (w c : ℤ)
        (d : set_deltas opts (record { warning = none; critical = none })
          ≡ some (record { warning = some w; critical = some c })) where
      facts-Explains :
          (lrs : Text) (document : Yaml) (t r e : Subscript)
          → m.summary ≡ some lrs
          → m.load lrs ≡ some document
          → value_at document (codes "time") (codes "last_run") ≡ t
          → value_at document (codes "resources") (codes "failed") ≡ r
          → value_at document (codes "events") (codes "failure") ≡ e
          → Explains m (read_facts w c lrs document)
      unfolding read_facts
      facts-Explains lrs document key_error r e s l et er ee = rw (read_facts, et) (suc-not_zero 0)
      facts-Explains lrs document type_error r e s l et er ee = rw (read_facts, et) (suc-not_zero 1)
      facts-Explains lrs document (found t) key_error e s l et er ee =
          rw (read_facts, et, er) (suc-not_zero 0)
      facts-Explains lrs document (found t) type_error e s l et er ee =
          rw (read_facts, et, er) (suc-not_zero 1)
      facts-Explains lrs document (found t) (found r) key_error s l et er ee =
          rw (read_facts, et, er, ee) (suc-not_zero 0)
      facts-Explains lrs document (found t) (found r) type_error s l et er ee =
          rw (read_facts, et, er, ee) (suc-not_zero 1)
      facts-Explains lrs document (found t) (found r) (found e) s l et er ee =
          rw (read_facts, et, er, ee)
            (record {
              opts = opts;
              args = args;
              document = document;
              options = o;
              numeric = ((set_deltas_iff opts w c).0 d).0;
              warning = ((set_deltas_iff opts w c).0 d).1;
              critical = ((set_deltas_iff opts w c).0 d).2;
              summary = s;
              load = l;
              last_run = et;
              resources = er;
              events = ee;
            })

      load_facts-read :
          (lrs : Text) (document : Yaml)
          → m.summary ≡ some lrs
          → m.load lrs ≡ some document
          → load_facts m w c ≡ read_facts w c lrs document
      unfolding load_facts
      load_facts-read lrs document s l = rw (load_facts, s, l) refl

      load-Explains : Explains m (load_facts m w c)
      unfolding load_facts
      load-Explains = elim (Option-cases m.summary) [
        | inl s ↦ rw (load_facts, s) (suc-not_zero 1)
        | inr (lrs, s) ↦ elim (Option-cases (m.load lrs)) [
          | inl l ↦ rw (load_facts, s, l) (suc-not_zero 1)
          | inr (document, l) ↦
              subst (Explains m) (sym (load_facts-read lrs document s l))
                (facts-Explains lrs document _ _ _ s l refl refl refl)
        ]
      ]

    deltas-Explains :
        (w c : Option ℤ)
        → set_deltas opts (record { warning = none; critical = none })
          ≡ some (record { warning = w; critical = c })
        → Explains m (with_deltas m w c)
    deltas-Explains none c d = suc-not_zero 1
    deltas-Explains (some w) none d = suc-not_zero 1
    deltas-Explains (some w) (some c) d = load-Explains w c d

  pub gather-Explains : Explains m (gather m)
  unfolding gather
  gather-Explains = elim (Option-cases (getopt (codes "w:c:") m.arguments)) [
    | inl o ↦ rw (gather, o) (suc-not_zero 1)
    | inr ((opts, args), o) ↦
        elim (Option-cases (set_deltas opts (record { warning = none; critical = none }))) [
          | inl d ↦ rw (gather, o, d) (suc-not_zero 0)
          | inr (ds, d) ↦ rw (gather, o, d) (deltas-Explains opts args o ds.warning ds.critical d)
        ]
  ]

  pub gather-ready : (f : Facts) → IsGathered m f → gather m ≡ ready f
  unfolding gather load_facts read_facts
  gather-ready f g =
      let deltas =
        (set_deltas_iff g.opts f.warning f.critical).1 (g.numeric, g.warning, g.critical) in
      rw
        (
          gather, g.options, deltas, load_facts, g.summary, g.load, read_facts, g.last_run,
          g.resources, g.events,
        )
        refl
