-- ===== src/Build/Ptau/Verified.antt =====
-- What `downloadAndVerifyPtau` leaves on the disk.
use zeto.Base.{
  subst, sym, ◌⊎◌, true, false, ◌≡◌, none, some, Option-cases, inl, inr, List, [], ◌∷◌, String,
  eq_iff, eq_refl, arith, All,
}
use zeto.Build.Settings.{validation_failed}
use zeto.Build.Ptau.{
  Files, lookup, Download, refused, broken_off, complete, Outcome, is_valid, fetch,
  download_and_verify_ptau, download_all,
}

module _ {Content : Type 0} (blake2b : Content → String)
    (valid_hashes : List (String × String)) where
  -- A file is there, and its hash is the one in the table.
  abbrev pub IsVerified : Files Content → String → Type 0
  IsVerified files p =
      (content : Content) × (lookup p files ≡ some content)
      × (is_valid blake2b valid_hashes p content ≡ true)

  -- A file is not there, or its hash is the one in the table.
  abbrev pub IsSound : Files Content → String → Type 0
  IsSound files p =
      (content : Content)
      → lookup p files ≡ some content
      → is_valid blake2b valid_hashes p content ≡ true

module _ {Content : Type 0} (net : String → Download Content) (blake2b : Content → String)
    (valid_hashes : List (String × String)) where
  -- A download whose hash is wrong ends the process and stays on the disk, and the next run takes
  -- it without a check.
  pub invalid_file_accepted_later :
      (p : String) (content : Content) (files : Files Content)
      → lookup p files ≡ none
      → net p ≡ complete content
      → is_valid blake2b valid_hashes p content ≡ false
      → let first = download_and_verify_ptau net blake2b valid_hashes false p files in
        let second = download_and_verify_ptau net blake2b valid_hashes false p first.files in
        (first.exit ≡ some (validation_failed p))
        × (second.exit ≡ none)
        × (lookup p second.files ≡ some content)
  unfolding download_and_verify_ptau lookup
  invalid_file_accepted_later p content files absent whole invalid = ground (arith, eq_refl p)

  abbrev download : String → Files Content → Outcome Content
  download = download_and_verify_ptau net blake2b valid_hashes false

  fetch_kept :
      (p q : String) (files : Files Content) (content : Content) (d : Download Content)
      → lookup p files ≡ none
      → lookup q files ≡ some content
      → lookup q (fetch net blake2b valid_hashes p files d).files ≡ some content
  unfolding fetch lookup
  fetch_kept p q files content refused absent e = e
  fetch_kept p q files content (broken_off c) absent e = ground (arith, eq_iff p q)
  fetch_kept p q files content (complete c) absent e = ground (arith, eq_iff p q)

  fetch-IsSound :
      (p q : String) (files : Files Content) (d : Download Content)
      → IsSound blake2b valid_hashes files q
      → (fetch net blake2b valid_hashes p files d).exit ≡ none
      → IsSound blake2b valid_hashes (fetch net blake2b valid_hashes p files d).files q
  unfolding fetch lookup
  fetch-IsSound p q files refused sound e = cc
  fetch-IsSound p q files (broken_off c) sound e = cc
  fetch-IsSound p q files (complete c) sound e =
      λ content found. ground (arith, eq_iff p q, sound content)

  fetch-IsVerified :
      (p : String) (files : Files Content) (d : Download Content)
      → (fetch net blake2b valid_hashes p files d).exit ≡ none
      → IsVerified blake2b valid_hashes (fetch net blake2b valid_hashes p files d).files p
  unfolding fetch lookup
  fetch-IsVerified p files refused e = cc
  fetch-IsVerified p files (broken_off c) e = cc
  fetch-IsVerified p files (complete c) e = (c, ground (arith, eq_refl p), ground arith)

  -- The two ways of a call: the file is there, and nothing happens, or it is fetched.
  download_cases :
      (p : String) (files : Files Content)
      → ((content : Content) × (lookup p files ≡ some content)
          × (download p files ≡ record { files = files; exit = none }))
        ⊎ ((lookup p files ≡ none)
            × (download p files ≡ fetch net blake2b valid_hashes p files (net p)))
  unfolding download_and_verify_ptau
  download_cases p files = elim (Option-cases (lookup p files)) [
    | inl absent ↦ inr (absent, rw (absent, download_and_verify_ptau))
    | inr (content, here) ↦ inl (content, here, rw (here, download_and_verify_ptau))
  ]

  -- A call that goes on keeps the files, keeps them sound, and leaves its own file verified.
  download_kept :
      (p q : String) (files : Files Content) (content : Content)
      → lookup q files ≡ some content
      → lookup q (download p files).files ≡ some content
  download_kept p q files content e = elim (download_cases p files) [
    | inl (c, here, same) ↦ rw same e
    | inr (absent, fetched) ↦ rw fetched (fetch_kept p q files content (net p) absent e)
  ]

  download-IsSound :
      (p q : String) (files : Files Content)
      → IsSound blake2b valid_hashes files q
      → (download p files).exit ≡ none
      → IsSound blake2b valid_hashes (download p files).files q
  download-IsSound p q files sound e = elim (download_cases p files) [
    | inl (c, here, same) ↦ rw same sound
    | inr (absent, fetched) ↦ rw fetched (fetch-IsSound p q files (net p) sound (rw fetched at e))
  ]

  download-IsVerified :
      (p : String) (files : Files Content)
      → IsSound blake2b valid_hashes files p
      → (download p files).exit ≡ none
      → IsVerified blake2b valid_hashes (download p files).files p
  download-IsVerified p files sound e = elim (download_cases p files) [
    | inl (c, here, same) ↦ rw same (c, here, sound c here)
    | inr (absent, fetched) ↦ rw fetched (fetch-IsVerified p files (net p) (rw fetched at e))
  ]

  abbrev all : List String → Files Content → Outcome Content
  all = download_all net blake2b valid_hashes false

  -- A loop that ends normally has made its first call and gone on with the rest.
  all_step :
      (p : String) (ps : List String) (files : Files Content)
      → (all (p ∷ ps) files).exit ≡ none
      → ((download p files).exit ≡ none) × (all (p ∷ ps) files ≡ all ps (download p files).files)
  unfolding download_all
  all_step p ps files e = elim (Option-cases (download p files).exit) [
    | inl on ↦ (on, ground arith)
    | inr (x, stop) ↦ ground arith
  ]

  all_kept :
      (ps : List String) (q : String) (files : Files Content) (content : Content)
      → (all ps files).exit ≡ none
      → lookup q files ≡ some content
      → lookup q (all ps files).files ≡ some content
  all_kept [] q files content e h = unfold download_all in h
  all_kept (p ∷ ps) q files content e h =
      let (on, rest) = all_step p ps files e in
      rw rest (
        all_kept ps q (download p files).files content (rw rest at e)
          (download_kept p q files content h))

  -- From a folder in which the files of the table's names have the table's hashes, an empty one for
  -- instance, `run` goes on only with every file that it needs there, each with the table's hash.
  pub download_all-IsVerified :
      (ps : List String) (files : Files Content)
      → ((q : String) → IsSound blake2b valid_hashes files q)
      → (download_all net blake2b valid_hashes false ps files).exit ≡ none
      → All
          (IsVerified blake2b valid_hashes
            (download_all net blake2b valid_hashes false ps files).files)
          ps
  download_all-IsVerified [] files sound e = tt
  download_all-IsVerified (p ∷ ps) files sound e =
      let (on, rest) = all_step p ps files e in
      let next = (download p files).files in
      let (content, here, valid) = download-IsVerified p files (sound p) on in
      let e' : (all ps next).exit ≡ none = rw rest at e in
      subst (λ (o : Outcome Content). All (IsVerified blake2b valid_hashes o.files) (p ∷ ps))
        (sym rest)
        (
          (content, all_kept ps p next content e' here, valid),
          download_all-IsVerified ps next (λ q. download-IsSound p q files (sound q) on) e',
        )
