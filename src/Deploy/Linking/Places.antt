-- ===== src/Deploy/Linking/Places.antt =====
-- What `linkBytecode` leaves at each place of the bytecode.
use zeto.Base.{
  ℕ, zero, suc, ◌+◌, ◌-◌, ◌*◌, ◌≤◌, ◌<◌, ◌≡◌, refl, ap, ◌∙◌, ◌&&◌, Option-cases, inl, inr, Option,
  none, some, List, [], ◌∷◌, ◌++◌, length, get_elem?, take, drop, All, length-append, length-take,
  length-drop, leb, ltb, if◌then◌else◌, String, arith,
}
use zeto.Deploy.Linking.{
  Fixup, FileReferences, begins, ends, address_of, link_fixup, link_fixups, link_file,
  link_bytecode,
}

-- A reference with the address that goes there.
abbrev pub Write : Type 0 → Type 0
Write Char = Fixup × List Char

module _ {Char : Type 0} where
  abbrev writes_of : List Char → List Fixup → List (Write Char)
  writes_of address [] = []
  writes_of address (f ∷ fs) = (f, address) ∷ writes_of address fs

  abbrev file_writes : List (String × List Char) → FileReferences → List (Write Char)
  file_writes libraries [] = []
  file_writes libraries ((name, fs) ∷ refs) =
      elim (address_of name libraries) [ none ↦ [] | some address ↦ writes_of address fs ]
      ++ file_writes libraries refs

  -- The references to libraries that are given, in the order of the loops.
  abbrev pub all_writes :
      List (String × List Char) → List (String × FileReferences) → List (Write Char)
  all_writes libraries [] = []
  all_writes libraries ((file, refs) ∷ files) =
      file_writes libraries refs ++ all_writes libraries files

  -- The reference lies in a bytecode of that length, and the address has `0x` and two characters for
  -- each byte of it.
  abbrev pub Fits : ℕ → Write Char → Type 0
  Fits n (f, address) = (ends f ≤ n) × (length address ≡ 2 + f.length * 2)

  -- The character at a place: of the last address written over it, or else of the bytecode.
  abbrev pub char_at : List (Write Char) → Option Char → ℕ → Option Char
  char_at [] old i = old
  char_at ((f, address) ∷ ws) old i =
      char_at ws
        (if leb (begins f) i && ltb i (ends f)
          then get_elem? (drop 2 address) (i - begins f)
          else old)
        i

  abbrev write_all : List Char → List (Write Char) → List Char
  write_all code [] = code
  write_all code ((f, address) ∷ ws) = write_all (link_fixup address code f) ws

  get_elem?-append :
      (xs ys : List Char) (i : ℕ)
      → get_elem? (xs ++ ys) i
        ≡ (if ltb i (length xs) then get_elem? xs i else get_elem? ys (i - length xs))
  get_elem?-append [] ys i = ground arith
  get_elem?-append (x ∷ xs) ys zero = ground arith
  get_elem?-append (x ∷ xs) ys (suc i) = ground (arith, get_elem?-append xs ys i)

  get_elem?-take :
      (n : ℕ) (xs : List Char) (i : ℕ) → i < n → get_elem? (take n xs) i ≡ get_elem? xs i
  get_elem?-take zero xs i h = absurd (omega arith)
  get_elem?-take (suc n) [] i h = refl
  get_elem?-take (suc n) (x ∷ xs) zero h = refl
  get_elem?-take (suc n) (x ∷ xs) (suc i) h = get_elem?-take n xs i (omega arith)

  get_elem?-drop : (n : ℕ) (xs : List Char) (i : ℕ) → get_elem? (drop n xs) i ≡ get_elem? xs (n + i)
  get_elem?-drop zero xs i = ap (get_elem? xs) (omega arith)
  get_elem?-drop (suc n) [] i = refl
  get_elem?-drop (suc n) (x ∷ xs) i =
      let next : suc (n + i) ≡ suc n + i = omega arith in
      get_elem?-drop n xs i ∙ ap (get_elem? (x ∷ xs)) next

  length-link_fixup :
      (f : Fixup) (address code : List Char)
      → Fits (length code) (f, address)
      → length (link_fixup address code f) ≡ length code
  unfolding link_fixup
  length-link_fixup f address code (inside, size) = omega (
    arith,
    length-append (take (begins f) code) (drop 2 address ++ drop (ends f) code),
    length-append (drop 2 address) (drop (ends f) code),
    length-take (begins f) code,
    length-drop 2 address,
    length-drop (ends f) code,
  )

  get_elem?-link_fixup :
      (f : Fixup) (address code : List Char) (i : ℕ)
      → Fits (length code) (f, address)
      → get_elem? (link_fixup address code f) i ≡ (
          if leb (begins f) i && ltb i (ends f)
          then get_elem? (drop 2 address) (i - begins f)
          else get_elem? code i)
  unfolding link_fixup
  get_elem?-link_fixup f address code i (inside, size) =
      let before : length (take (begins f) code) ≡ begins f =
        omega (arith, length-take (begins f) code) in
      let written : length (drop 2 address) ≡ ends f - begins f =
        omega (arith, length-drop 2 address) in
      grind (
        arith,
        get_elem?-append (take (begins f) code) (drop 2 address ++ drop (ends f) code) i,
        get_elem?-append (drop 2 address) (drop (ends f) code) (i - begins f),
        get_elem?-take (begins f) code i,
        get_elem?-drop (ends f) code (i - begins f - (ends f - begins f)),
        before,
        written,
      )

  get_elem?-write_all :
      (ws : List (Write Char)) (code : List Char) (i : ℕ)
      → All (Fits (length code)) ws
      → get_elem? (write_all code ws) i ≡ char_at ws (get_elem? code i) i
  get_elem?-write_all [] code i h = refl
  get_elem?-write_all ((f, address) ∷ ws) code i (here, h) =
      get_elem?-write_all ws (link_fixup address code f) i
        (rw (length-link_fixup f address code here) h)
      ∙ ap (λ old. char_at ws old i) (get_elem?-link_fixup f address code i here)

  length-write_all :
      (ws : List (Write Char)) (code : List Char)
      → All (Fits (length code)) ws
      → length (write_all code ws) ≡ length code
  length-write_all [] code h = refl
  length-write_all ((f, address) ∷ ws) code (here, h) =
      length-write_all ws (link_fixup address code f) (rw (length-link_fixup f address code here) h)
      ∙ length-link_fixup f address code here

  write_all-append :
      (xs ys : List (Write Char)) (code : List Char)
      → write_all code (xs ++ ys) ≡ write_all (write_all code xs) ys
  write_all-append [] ys code = refl
  write_all-append ((f, address) ∷ xs) ys code = write_all-append xs ys (link_fixup address code f)

  link_fixups_lem :
      (address : List Char) (fs : List Fixup) (code : List Char)
      → link_fixups address code fs ≡ write_all code (writes_of address fs)
  unfolding link_fixups
  link_fixups_lem address [] code = refl
  link_fixups_lem address (f ∷ fs) code = link_fixups_lem address fs (link_fixup address code f)

  link_file_lem :
      (libraries : List (String × List Char)) (refs : FileReferences) (code : List Char)
      → link_file libraries code refs ≡ write_all code (file_writes libraries refs)
  unfolding link_file
  link_file_lem libraries [] code = refl
  link_file_lem libraries ((name, fs) ∷ refs) code =
      elim (Option-cases (address_of name libraries)) [
        | inl e ↦ ground (arith, link_file_lem libraries refs code)
        | inr (address, e) ↦ ground (
          arith,
          write_all-append (writes_of address fs) (file_writes libraries refs) code,
          link_fixups_lem address fs code,
          link_file_lem libraries refs (link_fixups address code fs),
        )
      ]

  link_bytecode_lem :
      (libraries : List (String × List Char)) (files : List (String × FileReferences))
      (code : List Char)
      → link_bytecode libraries code files ≡ write_all code (all_writes libraries files)
  unfolding link_bytecode
  link_bytecode_lem libraries [] code = refl
  link_bytecode_lem libraries ((file, refs) ∷ files) code =
      rw
        (
          write_all-append (file_writes libraries refs) (all_writes libraries files) code,
          link_file_lem libraries refs code,
        )
        (link_bytecode_lem libraries files (write_all code (file_writes libraries refs)))

  -- If each reference to a given library lies in the bytecode and each address has its size, the
  -- bytecode keeps its length, and has at every place the character of the last address written
  -- over it, or else the one it had.
  pub link_bytecode_places :
      (libraries : List (String × List Char)) (files : List (String × FileReferences))
      (code : List Char)
      → All (Fits (length code)) (all_writes libraries files)
      → (length (link_bytecode libraries code files) ≡ length code)
        × ((i : ℕ)
            → get_elem? (link_bytecode libraries code files) i
              ≡ char_at (all_writes libraries files) (get_elem? code i) i)
  link_bytecode_places libraries files code h = rw (link_bytecode_lem libraries files code) (
    length-write_all (all_writes libraries files) code h,
    λ i. get_elem?-write_all (all_writes libraries files) code i h,
  )
