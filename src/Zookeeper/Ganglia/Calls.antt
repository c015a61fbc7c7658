-- ===== src/Zookeeper/Ganglia/Calls.antt =====
-- What is sent to Ganglia.
use puppet_stg_environment.Common.{
  ◌≡◌, refl, none, some, Bool, true, false, ◌||◌, List, [], ◌∷◌, All, is_nil, if◌then◌else◌,
}
use puppet_stg_environment.Common.Text.{Text}
use puppet_stg_environment.Zookeeper.Value.{num, str, Stats}
use puppet_stg_environment.Zookeeper.Mntr.{parse}
use puppet_stg_environment.Zookeeper.Mntr.Invariant.{IsRead, parse-IsClean}
use puppet_stg_environment.Zookeeper.Options.{Options}
use puppet_stg_environment.Zookeeper.Ganglia.{int_value, gmetric_call, send_all, sent, analyze}

-- The calls for the values that are numbers, in order.
unfoldable pub numeric_calls : Text → Stats → List (List Text)
numeric_calls gmetric [] = []
numeric_calls gmetric ((k, num z) ∷ stats) = gmetric_call gmetric k z ∷ numeric_calls gmetric stats
numeric_calls gmetric ((k, str s) ∷ stats) = numeric_calls gmetric stats

send_all-numeric :
    (gmetric : Text) (stats : Stats)
    → All IsRead stats
    → send_all gmetric stats ≡ numeric_calls gmetric stats
unfolding send_all numeric_calls int_value
send_all-numeric gmetric [] h = refl
send_all-numeric gmetric ((k, num z) ∷ stats) h = rw (send_all-numeric gmetric stats h.1)
send_all-numeric gmetric ((k, str s) ∷ stats) h = rw (h.0.2.1, send_all-numeric gmetric stats h.1)

-- What is run, and what is returned or the status of the traceback.
sent-calls :
    (can_run : Bool) (calls : List (List Text))
    → ((sent can_run calls).calls ≡ (if can_run then calls else []))
      × ((sent can_run calls).status ≡ (if can_run || is_nil calls then none else some 1))
sent-calls true [] = (refl, refl)
sent-calls false [] = (refl, refl)
sent-calls true (call ∷ calls) = (refl, refl)
sent-calls false (call ∷ calls) = (refl, refl)

-- For the statistics read from one server's `mntr` answer, exactly the entries that were read as numbers
-- are sent, each once, in order, and the handler returns no status; but with a binary that cannot be
-- run nothing is sent, and if there is such an entry the program ends with 1.
pub analyze-parse :
    (can_run : Text → Bool) (opts : Options) (host reply : Text)
    → let done = analyze can_run opts ((host, parse reply) ∷ []) in
      let numeric = numeric_calls opts.gmetric (parse reply) in
      (done.calls ≡ (if can_run opts.gmetric then numeric else []))
      × (done.status ≡ (if can_run opts.gmetric || is_nil numeric then none else some 1))
unfolding analyze
analyze-parse can_run opts host reply =
    rw (send_all-numeric opts.gmetric (parse reply) (parse-IsClean reply).0)
      (sent-calls (can_run opts.gmetric) (numeric_calls opts.gmetric (parse reply)))
