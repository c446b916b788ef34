-- ===== src/Build/Ptau.antt =====
-- The powers-of-tau files of gen.js: which ones `run` needs, and `downloadAndVerifyPtau`.
pub mod Needed
pub mod Verified
use zeto.Base.{
  ℕ, Bool, true, false, Option, none, some, List, [], ◌∷◌, ◌++◌, String, str_eq, if◌then◌else◌,
  Result, ok, err,
}
use zeto.Build.Settings.{
  CircuitConfig, Circuits, Exit, download_failed, validation_failed, contains, is_selected,
}

-- `Set.prototype.add`, in insertion order.
unfoldable pub add : List String → String → List String
add set x = if contains set x then set else set ++ x ∷ []

add_batch : List String → Option String → List String
add_batch set none = set
add_batch set (some p) = if str_eq p "" then set else add set p

-- The loop that fills `allPtaus`.
unfoldable pub collect_ptaus : Option (List String) → Circuits → List String → List String
unfolding add_batch
collect_ptaus only [] set = set
collect_ptaus only ((name, c) ∷ cs) set =
    collect_ptaus only cs
      (if is_selected only name then add_batch (add set c.ptau) c.batch_ptau else set)

unfoldable pub all_ptaus : Option (List String) → Circuits → List String
all_ptaus only cs = collect_ptaus only cs []

-- The files of the download folder, by name: the first entry counts.
abbrev pub Files : Type 0 → Type 0
Files Content = List (String × Content)

unfoldable pub lookup : {V : Type 0} → String → List (String × V) → Option V
lookup name [] = none
lookup name ((n, v) ∷ entries) = if str_eq n name then some v else lookup name entries

-- How a download ends: refused before the file is made, broken off with a part of the content
-- written, or complete.
pub data Download (Content : Type 0) : Type 0 where
  refused : Download Content
  broken_off : Content → Download Content
  complete : Content → Download Content

-- The files that are left, and the exit if the process ends.
pub record Outcome (Content : Type 0) : Type 0 where
  pub files : Files Content
  pub exit : Option Exit

-- `expectedHash != computedHash` is the failure; a name that the table lacks has no hash.
unfoldable pub is_valid :
    {Content : Type 0} → (Content → String) → List (String × String) → String → Content → Bool
is_valid blake2b valid_hashes ptau content = elim (lookup ptau valid_hashes) [
  | none ↦ false
  | some expected ↦ str_eq expected (blake2b content)
]

-- The network, BLAKE2b and the table of valid hashes.
module _ {Content : Type 0} (net : String → Download Content) (blake2b : Content → String)
    (valid_hashes : List (String × String)) where
  fetch : String → Files Content → Download Content → Outcome Content
  fetch ptau files refused = record { files = files; exit = some (download_failed ptau) }
  fetch ptau files (broken_off content) = record {
    files = (ptau, content) ∷ files;
    exit = some (download_failed ptau);
  }
  fetch ptau files (complete content) = record {
    files = (ptau, content) ∷ files;
    exit =
        if is_valid blake2b valid_hashes ptau content then none else some (validation_failed ptau);
  }

  -- `downloadAndVerifyPtau`, where the download folder is set, without which `path.join` throws: a file
  -- that is there is taken as it is.
  unfoldable pub download_and_verify_ptau : Bool → String → Files Content → Outcome Content
  unfolding fetch
  download_and_verify_ptau true ptau files = record { files = files; exit = none }
  download_and_verify_ptau false ptau files = elim (lookup ptau files) [
    | none ↦ fetch ptau files (net ptau)
    | some _ ↦ record { files = files; exit = none }
  ]

  -- The loop of `run`: one file after the other, until the process ends.
  unfoldable pub download_all : Bool → List String → Files Content → Outcome Content
  download_all compile_only [] files = record { files = files; exit = none }
  download_all compile_only (ptau ∷ ptaus) files =
      let first = download_and_verify_ptau compile_only ptau files in
      let rest = download_all compile_only ptaus first.files in
      elim first.exit [ none ↦ rest | some e ↦ first ]
