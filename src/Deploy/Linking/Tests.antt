-- ===== src/Deploy/Linking/Tests.antt =====
-- Bytecodes of a few characters, a number each.
use zeto.Base.{ℕ, ◌≡◌, refl, List, [], ◌∷◌, String, length, get_elem?, arith}
use zeto.Deploy.Linking.{
  FileReferences, address_of, link_fixup, link_fixups, link_file, link_bytecode,
}
use zeto.Deploy.Linking.Places.{all_writes, char_at, link_bytecode_places}

-- A byte at 1 for the one library, and a reference to another that is not given.
abbrev files : List (String × FileReferences)
files =
    (
      "lib.sol",
      ("Lib", record { start = 1; length = 1 } ∷ [])
          ∷ ("Other", record { start = 0; length = 1 } ∷ [])
          ∷ [],
    )
    ∷ []

abbrev libraries : List (String × List ℕ)
libraries = ("Lib", 0 ∷ 88 ∷ 7 ∷ 9 ∷ []) ∷ []

abbrev code : List ℕ
code = 0 ∷ 88 ∷ 1 ∷ 2 ∷ 3 ∷ 4 ∷ 5 ∷ 6 ∷ []

linked : link_bytecode libraries code files ≡ 0 ∷ 88 ∷ 1 ∷ 2 ∷ 7 ∷ 9 ∷ 5 ∷ 6 ∷ []
unfolding address_of link_fixup link_fixups link_file link_bytecode
linked = refl

link_bytecode_places_example :
    (length (link_bytecode libraries code files) ≡ length code)
    × ((i : ℕ)
        → get_elem? (link_bytecode libraries code files) i
          ≡ char_at (all_writes libraries files) (get_elem? code i) i)
unfolding address_of
link_bytecode_places_example = link_bytecode_places libraries files code (omega arith, tt)
