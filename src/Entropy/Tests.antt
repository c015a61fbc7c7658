-- ===== src/Entropy/Tests.antt =====
-- Runs of the plugin on concrete reads, and its theorem there.
use puppet_stg_environment.Common.{
  zero, suc, ◌≡◌, refl, ◌↔◌, none, some, true, List, [], ◌∷◌, nat_eq,
}
use puppet_stg_environment.Common.Int.{ℤ, pos}
use puppet_stg_environment.Common.Text.{Text, text_eq, codes, rstrip, strip}
use puppet_stg_environment.Common.Decimal.{int, signed, unsigned, value_from}
use puppet_stg_environment.Entropy.{Reads, Options, attempt, rounds, exit_code, run}
use puppet_stg_environment.Entropy.Cli.{
  options_known, set_number, store_numbers, parser_error, command, command_code, HasEnough,
  command_enough_iff,
}
use puppet_stg_environment.Common.Text.Explicit.{split_value}
use puppet_stg_environment.Common.Optparse.{
  parse_from, parse_args, scan, match_long, find_exact, find_letter, starting_with, scan_letters,
}
use puppet_stg_environment.Common.Optparse.Numbers.{digit_value, value_in, int_in, parse_int}

-- Too little at first, and enough from the second read on.
abbrev reads : Reads
reads zero = some (codes "120\n")
reads (suc n) = some (codes "900\n")

abbrev options : ℤ → Options
options retries = record { retries = retries; sleep = pos 250; watermark = pos 800; arguments = 0 }

enough_at_last : exit_code (run true reads (options (pos 10))) ≡ 0
unfolding run rounds attempt codes rstrip strip int signed unsigned value_from
enough_at_last = refl

no_retries : exit_code (run true reads (options (pos 0))) ≡ 1
unfolding run rounds attempt codes rstrip strip int signed unsigned value_from
no_retries = refl

abbrev line : List Text
line = codes "-r3" ∷ codes "--sleep=0x10" ∷ codes "-w" ∷ codes "0500" ∷ []

octal : parse_int (codes "0500") ≡ some (pos 320)
unfolding parse_int int_in value_in digit_value codes text_eq strip
octal = refl

binary : parse_int (codes "0b101") ≡ some (pos 5)
unfolding parse_int int_in value_in digit_value codes text_eq strip
binary = refl

no_octal : parse_int (codes "08") ≡ none
unfolding parse_int int_in value_in digit_value codes text_eq strip
no_octal = refl

-- The second read has enough for these options.
line_enough : command_code (command true reads line) ≡ 0
unfolding command parse_from scan split_value match_long find_exact find_letter starting_with
    scan_letters options_known codes text_eq nat_eq store_numbers set_number parse_int int_in
    value_in digit_value run rounds attempt rstrip strip int signed unsigned value_from
line_enough = refl

command_enough_iff_example :
    (command_code (command true reads line) ≡ 0)
    ↔ HasEnough true reads (parse_args options_known line)
command_enough_iff_example = command_enough_iff true reads line

-- A bad number before the help.
bad_number : command true reads (codes "--ret=x" ∷ codes "-h" ∷ []) ≡ parser_error
unfolding command parse_from scan split_value match_long find_exact find_letter starting_with
    scan_letters options_known codes text_eq nat_eq store_numbers set_number parse_int int signed
    unsigned value_from strip
bad_number = refl
