-- ===== src/Build/Circuit/Steps.antt =====
-- Which commands `processCircuit` runs, and in which order.
use zeto.Base.{
  Bool, true, false, ◌&&◌, ◌≡◌, ◌⊎◌, inl, inr, refl, Option, none, some, List, [], ◌∷◌, ◌++◌,
  String, if◌then◌else◌, ok, arith,
}
use zeto.Build.Settings.{Settings, is_set, check_settings}
use zeto.Build.Settings.Laws.{check_settings_iff}
use zeto.Build.Circuit.{
  Command, compile, constraints, print_constraints, setup, export_key, export_verifier,
  rename_contract, Exec, failed, talked, completed, compiled_only, without_verifier, rejected,
  process_circuit,
}

-- The whole sequence for the given options, where nothing fails.
abbrev pub plan : Bool → Bool → Bool → Bool → List Command
plan verbose compile_only skip_solidity talks =
    if compile_only
    then compile ∷ []
    else (compile ∷ constraints ∷ []
        ++ ((if verbose && talks then print_constraints ∷ [] else [])
            ++ (setup ∷ export_key ∷ []
                ++ (if skip_solidity then [] else export_verifier ∷ rename_contract ∷ []))))

abbrev pub IsPrefix : List Command → List Command → Type 0
IsPrefix xs ys = (rest : List Command) × (ys ≡ xs ++ rest)

abbrev pub talks : Exec → Bool
talks talked = true
talks _ = false

abbrev pub succeeds : Exec → Bool
succeeds failed = false
succeeds _ = true

abbrev pub all_succeed : (Command → Exec) → List Command → Bool
all_succeed exec [] = true
all_succeed exec (c ∷ cs) = succeeds (exec c) && all_succeed exec cs

-- What is run is the plan up to the first command that fails; the promise is rejected exactly when
-- one does.
abbrev pub until_failure : (Command → Exec) → List Command → List Command
until_failure exec [] = []
until_failure exec (c ∷ cs) =
    let rest = until_failure exec cs in if succeeds (exec c) then c ∷ rest else c ∷ []

abbrev pub is_given : Option String → Bool
is_given none = false
is_given (some folder) = true

-- For an existing input, processCircuit runs the planned commands up to the first that fails, and its
-- result is rejected exactly when one fails; but where the folder of the powers-of-tau files or that of
-- the proving keys is not set, it runs none and is rejected.
pub process_circuit_lem :
    (exec : Command → Exec) (verbose compile_only skip_solidity : Bool)
    (folder keys : Option String)
    → let t = process_circuit exec verbose compile_only skip_solidity folder keys true in
      let given = is_given folder && is_given keys in
      let p =
        if given then plan verbose compile_only skip_solidity (talks (exec constraints)) else [] in
      (t.commands ≡ until_failure exec p)
      × (t.ending ≡ (
          if given && all_succeed exec p
          then (if compile_only
              then compiled_only
              else if skip_solidity
              then without_verifier
              else completed)
          else rejected))
unfolding process_circuit
process_circuit_lem exec verbose compile_only skip_solidity none keys = (refl, refl)
process_circuit_lem exec verbose compile_only skip_solidity (some folder) none = (refl, refl)
process_circuit_lem exec verbose compile_only skip_solidity (some folder) (some keys) =
    (ground arith, ground arith)

no_keys :
    (exec : Command → Exec) (verbose compile_only skip_solidity exists : Bool)
    (folder keys : Option String)
    → keys ≡ none
    → process_circuit exec verbose compile_only skip_solidity folder keys exists
      ≡ record { commands = []; ending = rejected }
unfolding process_circuit
no_keys exec verbose compile_only skip_solidity exists none keys e = refl
no_keys exec verbose compile_only skip_solidity exists (some folder) keys e =
    rw (e, process_circuit) refl

-- With compileOnly, a circuits' root and without one of the other two folders, the checks of the settings
-- pass, but no call of processCircuit runs a command: each is rejected.
pub compile_only_rejected :
    (s : Settings)
    → s.compile_only ≡ true
    → is_set s.circuits_root ≡ true
    → (s.ptau_download ≡ none) ⊎ (s.proving_keys_root ≡ none)
    → (check_settings s ≡ ok tt)
      × ((exec : Command → Exec) (verbose skip_solidity exists : Bool)
          → process_circuit exec verbose s.compile_only skip_solidity s.ptau_download
              s.proving_keys_root exists
            ≡ record { commands = []; ending = rejected })
unfolding process_circuit
compile_only_rejected s only root (inl e) = (
  (check_settings_iff s).1 (root, inl only),
  λ exec verbose skip_solidity exists. rw (e, process_circuit) refl,
)
compile_only_rejected s only root (inr e) = (
  (check_settings_iff s).1 (root, inl only),
  λ exec verbose skip_solidity exists.
      no_keys exec verbose s.compile_only skip_solidity exists s.ptau_download s.proving_keys_root
        e,
)
