-- ===== src/Deploy/Linking.antt =====
-- `linkBytecode` of solidity/scripts/lib/common.ts: the addresses of deployed libraries written
-- into a contract's bytecode, over the characters of the strings.
pub mod Places
mod Tests
use zeto.Base.{
  ℕ, ◌+◌, ◌*◌, Bool, Option, none, some, List, [], ◌∷◌, ◌++◌, String, str_eq, take, drop,
  if◌then◌else◌,
}

-- A reference to a library: where its address goes, in bytes.
pub record Fixup : Type 0 where
  pub start : ℕ
  pub length : ℕ

-- The link references of one file, by the library's name.
abbrev pub FileReferences : Type 0
FileReferences = List (String × List Fixup)

-- Where a reference begins and ends in the string, after the `0x`.
abbrev pub begins : Fixup → ℕ
begins f = 2 + f.start * 2

abbrev pub ends : Fixup → ℕ
ends f = 2 + (f.start + f.length) * 2

module _ {Char : Type 0} where
  -- `libraries[libName]`, where a name stands once.
  unfoldable pub address_of : String → List (String × List Char) → Option (List Char)
  address_of name [] = none
  address_of name ((n, address) ∷ libraries) =
      if str_eq n name then some address else address_of name libraries

  -- `bytecode.substr(0, …) + addr.substr(2) + bytecode.substr(…)`
  unfoldable pub link_fixup : List Char → List Char → Fixup → List Char
  link_fixup address code f = take (begins f) code ++ (drop 2 address ++ drop (ends f) code)

  unfoldable pub link_fixups : List Char → List Char → List Fixup → List Char
  link_fixups address code [] = code
  link_fixups address code (f ∷ fs) = link_fixups address (link_fixup address code f) fs

  -- The loop over the libraries of a file: one that is not given is passed over.
  unfoldable pub link_file : List (String × List Char) → List Char → FileReferences → List Char
  link_file libraries code [] = code
  link_file libraries code ((name, fs) ∷ refs) = elim (address_of name libraries) [
    | none ↦ link_file libraries code refs
    | some address ↦ link_file libraries (link_fixups address code fs) refs
  ]

  -- `linkBytecode`, of the artifact's bytecode and its link references by file.
  unfoldable pub link_bytecode :
      List (String × List Char) → List Char → List (String × FileReferences) → List Char
  link_bytecode libraries code [] = code
  link_bytecode libraries code ((file, refs) ∷ files) =
      link_bytecode libraries (link_file libraries code refs) files
