-- ===== src/Zookeeper/Stat/RoundTrip.antt =====
-- A server's answer to `stat` is read for the eight figures that it states.
use puppet_stg_environment.Common.{
  ℕ, ◌≡◌, refl, ◌∙◌, false, some, List, [], ◌∷◌, ◌++◌, All, All-append, is_nil, append_assoc,
}
use puppet_stg_environment.Common.Int.{pos}
use puppet_stg_environment.Common.Text.{Text, text_eq, codes, strip}
use puppet_stg_environment.Common.Text.Strip.{strip_nil, strip-append_space, strip-cons_space}
use puppet_stg_environment.Common.Text.Split.{
  Lacks, Lacks-append, Lacks-append_literal, lacks_sound, unlines, terminated, readlines-unlines,
}
use puppet_stg_environment.Common.Decimal.{is_digit, show_ℕ}
use puppet_stg_environment.Common.Decimal.RoundTrip.{
  AllDigits, show_ℕ-AllDigits, show_ℕ-Lacks, unsigned-show_ℕ,
}
use puppet_stg_environment.Common.Dict.{insert}
use puppet_stg_environment.Zookeeper.Value.{num, str, Stats}
use puppet_stg_environment.Zookeeper.Stat.{
  leading_digits, after_digits, number, after_prefix, to_newline, match_line, match_lines,
  skip_lines, after_colon, parse_stat_lines, parse_stat,
}

-- What a server states of itself.
pub record Report : Type 0 where
  pub version : Text
  pub clients : List Text
  pub low : ℕ
  pub avg : ℕ
  pub high : ℕ
  pub received : ℕ
  pub sent : ℕ
  pub outstanding : ℕ
  pub zxid : Text
  pub mode : Text
  pub nodes : ℕ

-- A client's line is not blank, and no text holds a newline.
pub record IsPrintable (r : Report) : Type 0 where
  pub version_line : Lacks 10 r.version
  pub version_stripped : strip r.version ≡ r.version
  pub client_lines : All (Lacks 10) r.clients
  pub clients_visible : All (λ c. is_nil (strip c) ≡ false) r.clients
  pub zxid_line : Lacks 10 r.zxid
  pub mode_line : Lacks 10 r.mode

-- The lines behind the blank one.
abbrev pub figure_lines : Report → List Text
figure_lines r =
    (codes "Latency min/avg/max: "
      ++ (show_ℕ r.low ++ (codes "/" ++ (show_ℕ r.avg ++ (codes "/" ++ show_ℕ r.high)))))
    ∷ (codes "Received: " ++ show_ℕ r.received)
    ∷ (codes "Sent: " ++ show_ℕ r.sent)
    ∷ (codes "Outstanding: " ++ show_ℕ r.outstanding)
    ∷ (codes "Zxid: " ++ r.zxid)
    ∷ (codes "Mode: " ++ r.mode)
    ∷ (codes "Node count: " ++ show_ℕ r.nodes)
    ∷ []

abbrev pub print_stat : Report → Text
print_stat r = unlines (
    (codes "Zookeeper version: " ++ r.version)
    ∷ codes "Clients:"
    ∷ (r.clients ++ [] ∷ figure_lines r))

abbrev pub figures : Report → Stats
figures r =
    (codes "zk_version", str r.version)
    ∷ (codes "zk_min_latency", num (pos r.low))
    ∷ (codes "zk_avg_latency", num (pos r.avg))
    ∷ (codes "zk_max_latency", num (pos r.high))
    ∷ (codes "zk_packets_received", num (pos r.received))
    ∷ (codes "zk_packets_sent", num (pos r.sent))
    ∷ (codes "zk_outstanding_requests", num (pos r.outstanding))
    ∷ (codes "zk_server_state", str r.mode)
    ∷ (codes "zk_znode_count", num (pos r.nodes))
    ∷ []

leading_digits-append :
    (s : Text) (c : ℕ) (t : Text)
    → AllDigits s
    → is_digit c ≡ false
    → (leading_digits (s ++ c ∷ t) ≡ s) × (after_digits (s ++ c ∷ t) ≡ c ∷ t)
unfolding leading_digits after_digits
leading_digits-append [] c t h e = (rw e, rw e)
leading_digits-append (d ∷ s) c t h e =
    let ih = leading_digits-append s c t h.1 e in (rw (h.0, ih.0), rw (h.0, ih.1))

number-show_ℕ :
    (n c : ℕ) (t : Text) → is_digit c ≡ false → number (show_ℕ n ++ c ∷ t) ≡ some (n, c ∷ t)
unfolding number
number-show_ℕ n c t e =
    let h = leading_digits-append (show_ℕ n) c t (show_ℕ-AllDigits n) e in
    rw (number, h.0, unsigned-show_ℕ n, h.1)

to_newline-append : (s t : Text) → Lacks 10 s → to_newline (s ++ 10 ∷ t) ≡ s
unfolding to_newline
to_newline-append [] t h = refl
to_newline-append (c ∷ s) t h = rw (h.0, to_newline-append s t h.1)

match_line-latency :
    (a b c : ℕ)
    → match_line (
        (codes "Latency min/avg/max: "
          ++ (show_ℕ a ++ (codes "/" ++ (show_ℕ b ++ (codes "/" ++ show_ℕ c)))))
        ++ 10 ∷ [])
      ≡ (codes "zk_min_latency", num (pos a))
        ∷ (codes "zk_avg_latency", num (pos b))
        ∷ (codes "zk_max_latency", num (pos c))
        ∷ []
unfolding match_line after_prefix codes
match_line-latency a b c = rw (
  append_assoc,
  number-show_ℕ a 47 ((show_ℕ b ++ 47 ∷ show_ℕ c) ++ 10 ∷ []) refl,
  append_assoc,
  number-show_ℕ b 47 (show_ℕ c ++ 10 ∷ []) refl,
  number-show_ℕ c 10 [] refl,
)

match_line-received :
    (n : ℕ)
    → match_line ((codes "Received: " ++ show_ℕ n) ++ 10 ∷ [])
      ≡ (codes "zk_packets_received", num (pos n)) ∷ []
unfolding match_line after_prefix codes
match_line-received n = rw (number-show_ℕ n 10 [] refl)

match_line-sent :
    (n : ℕ)
    → match_line ((codes "Sent: " ++ show_ℕ n) ++ 10 ∷ [])
      ≡ (codes "zk_packets_sent", num (pos n)) ∷ []
unfolding match_line after_prefix codes
match_line-sent n = rw (number-show_ℕ n 10 [] refl)

match_line-outstanding :
    (n : ℕ)
    → match_line ((codes "Outstanding: " ++ show_ℕ n) ++ 10 ∷ [])
      ≡ (codes "zk_outstanding_requests", num (pos n)) ∷ []
unfolding match_line after_prefix codes
match_line-outstanding n = rw (number-show_ℕ n 10 [] refl)

match_line-nodes :
    (n : ℕ)
    → match_line ((codes "Node count: " ++ show_ℕ n) ++ 10 ∷ [])
      ≡ (codes "zk_znode_count", num (pos n)) ∷ []
unfolding match_line after_prefix codes
match_line-nodes n = rw (number-show_ℕ n 10 [] refl)

match_line-mode :
    (m : Text)
    → Lacks 10 m
    → match_line ((codes "Mode: " ++ m) ++ 10 ∷ []) ≡ (codes "zk_server_state", str m) ∷ []
unfolding match_line after_prefix codes
match_line-mode m h = rw (to_newline-append m [] h)

-- A line that states none of the figures sets nothing.
match_line-zxid : (z : Text) → match_line ((codes "Zxid: " ++ z) ++ 10 ∷ []) ≡ []
unfolding match_line after_prefix codes
match_line-zxid z = refl

skip_lines-clients :
    (cs rest : List Text)
    → All (λ c. is_nil (strip c) ≡ false) cs
    → skip_lines (terminated (cs ++ [] ∷ rest)) ≡ terminated rest
unfolding skip_lines
skip_lines-clients [] rest h = rw (strip-append_space [] 10 refl, strip_nil)
skip_lines-clients (c ∷ cs) rest h =
    rw (strip-append_space c 10 refl, h.0, skip_lines-clients cs rest h.1)

match_lines-figures :
    (r : Report)
    → Lacks 10 r.mode
    → match_lines (terminated (figure_lines r)) ((codes "zk_version", str r.version) ∷ [])
      ≡ figures r
unfolding match_lines insert text_eq
match_lines-figures r h =
    rw
      (
        match_line-latency r.low r.avg r.high,
        match_line-received r.received,
        match_line-sent r.sent,
        match_line-outstanding r.outstanding,
        match_line-zxid r.zxid,
        match_line-mode r.mode h,
        match_line-nodes r.nodes,
      )
      (unfold codes in refl)

figure_lines-Lacks : (r : Report) → IsPrintable r → All (Lacks 10) (figure_lines r)
unfolding codes
figure_lines-Lacks r p =
    let digits = λ (n : ℕ). show_ℕ-Lacks n 10 refl in
    (
      Lacks-append_literal 10 (codes "Latency min/avg/max: ") _ refl (
          Lacks-append 10 (show_ℕ r.low) _ (digits r.low) (
            Lacks-append_literal 10 (codes "/") _ refl (
              Lacks-append 10 (show_ℕ r.avg) _ (digits r.avg)
                (Lacks-append_literal 10 (codes "/") _ refl (digits r.high))))),
      (
        Lacks-append_literal 10 (codes "Received: ") _ refl (digits r.received),
        (
          Lacks-append_literal 10 (codes "Sent: ") _ refl (digits r.sent),
          (
            Lacks-append_literal 10 (codes "Outstanding: ") _ refl (digits r.outstanding),
            (
              Lacks-append_literal 10 (codes "Zxid: ") _ refl p.zxid_line,
              (
                Lacks-append_literal 10 (codes "Mode: ") _ refl p.mode_line,
                (Lacks-append_literal 10 (codes "Node count: ") _ refl (digits r.nodes), tt),
              ),
            ),
          ),
        ),
      ),
    )

clients_line : is_nil (strip (codes "Clients:")) ≡ false
unfolding codes strip
clients_line = refl

after_colon-version :
    (v : Text)
    → after_colon ((codes "Zookeeper version: " ++ v) ++ 10 ∷ []) ≡ some (32 ∷ v ++ 10 ∷ [])
unfolding after_colon codes
after_colon-version v = refl

stat_lines : Report → List Text
stat_lines r =
    (codes "Zookeeper version: " ++ r.version)
    ∷ codes "Clients:"
    ∷ (r.clients ++ [] ∷ figure_lines r)

stat_lines-Lacks : (r : Report) → IsPrintable r → All (Lacks 10) (stat_lines r)
unfolding stat_lines codes
stat_lines-Lacks r p = (
  Lacks-append_literal 10 (codes "Zookeeper version: ") _ refl p.version_line,
  (
    lacks_sound 10 (codes "Clients:") refl,
    All-append (Lacks 10) r.clients ([] ∷ figure_lines r) p.client_lines
        (tt, figure_lines-Lacks r p),
  ),
)

version_text : (r : Report) → IsPrintable r → strip (32 ∷ r.version ++ 10 ∷ []) ≡ r.version
version_text r p =
    strip-cons_space 32 (r.version ++ 10 ∷ []) refl
    ∙ strip-append_space r.version 10 refl
    ∙ p.version_stripped

parse_stat_lines-stat_lines :
    (r : Report) → IsPrintable r → parse_stat_lines (terminated (stat_lines r)) ≡ some (figures r)
unfolding stat_lines parse_stat_lines
parse_stat_lines-stat_lines r p = rw (
  parse_stat_lines,
  after_colon-version r.version,
  version_text r p,
  skip_lines-clients (codes "Clients:" ∷ r.clients) (figure_lines r)
      (clients_line, p.clients_visible),
  match_lines-figures r p.mode_line,
)

-- Reading what a server prints for `stat` gives the version, the three latencies, the counts and
-- the mode that it stated, whatever its client lines are.
pub parse_stat-print_stat :
    (r : Report) → IsPrintable r → parse_stat (print_stat r) ≡ some (figures r)
unfolding stat_lines parse_stat
parse_stat-print_stat r p =
    rw (parse_stat, readlines-unlines (stat_lines r) (stat_lines-Lacks r p))
      (parse_stat_lines-stat_lines r p)
