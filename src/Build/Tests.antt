-- ===== src/Build/Tests.antt =====
-- The build script at small configurations.
use zeto.Base.{
  Bool, inl, ok, true, false, ◌≡◌, refl, none, some, List, [], ◌∷◌, String, if◌then◌else◌, arith,
  All,
}
use zeto.Base.{err}
use zeto.Base.Int.{pos}
use zeto.Build.Settings.{
  failed as version_printed, version_mismatch, setting, parallel_limit, check_versions, is_selected,
  is_set, check_settings, Settings, Circuits, validation_failed, contains,
}
use zeto.Build.Ptau.{
  lookup, Download, complete, is_valid, all_ptaus, download_and_verify_ptau, download_all,
  collect_ptaus, add,
}
use zeto.Build.Ptau.Needed.{is_needed, contains-all_ptaus}
use zeto.Build.Ptau.Verified.{
  IsVerified, IsSound, invalid_file_accepted_later, download_all-IsVerified,
}
use zeto.Build.Circuit.{
  Command, constraints, Exec, talked, failed, setup, completed, rejected, process_circuit,
}
use zeto.Build.Circuit.Steps.{
  plan, talks, until_failure, all_succeed, process_circuit_lem, compile_only_rejected,
}

abbrev settings : Settings
settings = record {
  circuits_root = some "out";
  proving_keys_root = some "keys";
  ptau_download = some "ptau";
  compile_only = false;
  only = some ("anon" ∷ []);
}

abbrev circuits : Circuits
circuits =
    ("anon", record { ptau = "p13"; batch_ptau = some "p15"; skip_solidity_generation = false })
    ∷ (
      "check_nullifiers",
      record { ptau = "p14"; batch_ptau = none; skip_solidity_generation = true },
    )
    ∷ []

needed_for_anon : all_ptaus (some ("anon" ∷ [])) circuits ≡ "p13" ∷ "p15" ∷ []
unfolding all_ptaus contains add collect_ptaus is_selected
needed_for_anon = refl

contains-all_ptaus_example :
    contains (all_ptaus (some ("anon" ∷ [])) circuits) "p14"
    ≡ is_needed (some ("anon" ∷ [])) circuits "p14"
contains-all_ptaus_example = contains-all_ptaus (some ("anon" ∷ [])) circuits "p14"

-- A network whose files have their names for contents, and a hash that is the content itself.
abbrev net : String → Download String
net p = complete p

abbrev table : List (String × String)
table = ("p13", "p13") ∷ ("p14", "other") ∷ []

absent : (q : String) → IsSound {Content = String} (λ (c : String). c) table [] q
unfolding lookup
absent q content found = ground arith

fetched : (download_all net (λ (c : String). c) table false ("p13" ∷ []) []).exit ≡ none
unfolding download_all download_and_verify_ptau lookup is_valid
fetched = refl

download_all-IsVerified_example :
    All
      (IsVerified
        (λ (c : String). c)
        table
        (download_all net (λ (c : String). c) table false ("p13" ∷ []) []).files)
      ("p13" ∷ [])
download_all-IsVerified_example =
    download_all-IsVerified net (λ (c : String). c) table ("p13" ∷ []) [] absent fetched

not_valid : is_valid (λ (c : String). c) table "p14" "p14" ≡ false
unfolding is_valid lookup
not_valid = refl

nothing_there : lookup {V = String} "p14" [] ≡ none
unfolding lookup
nothing_there = refl

invalid_file_accepted_later_example :
    let first = download_and_verify_ptau net (λ (c : String). c) table false "p14" [] in
    let second = download_and_verify_ptau net (λ (c : String). c) table false "p14" first.files in
    (first.exit ≡ some (validation_failed "p14"))
    × (second.exit ≡ none)
    × (lookup "p14" second.files ≡ some "p14")
invalid_file_accepted_later_example =
    invalid_file_accepted_later net (λ (c : String). c) table "p14" "p14" [] nothing_there refl
      not_valid

-- The proving key's set-up fails.
abbrev no_setup : Command → Exec
no_setup setup = failed
no_setup _ = talked

process_circuit_lem_example :
    let t = process_circuit no_setup true false false (some "ptau") (some "keys") true in
    let p = plan true false false (talks (no_setup constraints)) in
    (t.commands ≡ until_failure no_setup p)
    × (t.ending ≡ (if all_succeed no_setup p then completed else rejected))
process_circuit_lem_example =
    process_circuit_lem no_setup true false false (some "ptau") (some "keys")

-- Only the circuits' root is given.
abbrev compile_settings : Settings
compile_settings = record {
  circuits_root = some "out";
  proving_keys_root = none;
  ptau_download = none;
  compile_only = true;
  only = none;
}

root_given : is_set compile_settings.circuits_root ≡ true
unfolding is_set
root_given = refl

nothing_compiled :
    (check_settings compile_settings ≡ ok tt)
    × ((exec : Command → Exec) (verbose skip_solidity exists : Bool)
        → process_circuit exec verbose true skip_solidity none none exists
          ≡ record { commands = []; ending = rejected })
nothing_compiled = compile_only_rejected compile_settings refl root_given (inl refl)

empty_environment : setting (some "") (some "folder") ≡ some "folder"
unfolding setting
empty_environment = refl

limit_zero : parallel_limit (some (pos 0)) ≡ pos 8
unfolding parallel_limit
limit_zero = refl

other_circom :
    check_versions "2.1.9" "2.2.0" (version_printed (some "0.7.4")) "0.7.4" ≡ err version_mismatch
unfolding check_versions
other_circom = refl
