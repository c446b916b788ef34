-- ===== src/Build/Ptau/Needed.antt =====
-- Which powers-of-tau files `run` downloads.
use zeto.Base.{
  Bool, false, ◌&&◌, ◌||◌, ◌≡◌, refl, ◌∙◌, Option-cases, inl, inr, Option, none, some, List, [],
  ◌∷◌, ◌++◌, String, str_eq, eq_iff, if◌then◌else◌, arith, not,
}
use zeto.Build.Settings.{CircuitConfig, Circuits, contains, is_selected}
use zeto.Build.Ptau.{add, add_batch, collect_ptaus, all_ptaus}

-- Whether a circuit names a file, as its own or for its batch variant.
abbrev pub uses : CircuitConfig → String → Bool
uses c p =
    str_eq c.ptau p || elim c.batch_ptau [ none ↦ false | some b ↦ not (str_eq b "") && str_eq b p ]

-- Whether a selected circuit names a file.
abbrev pub is_needed : Option (List String) → Circuits → String → Bool
is_needed only [] p = false
is_needed only ((name, c) ∷ cs) p = (is_selected only name && uses c p) || is_needed only cs p

contains-append :
    (xs ys : List String) (p : String) → contains (xs ++ ys) p ≡ (contains xs p || contains ys p)
unfolding contains
contains-append [] ys p = refl
contains-append (x ∷ xs) ys p = ground (arith, contains-append xs ys p)

contains-add :
    (set : List String) (x p : String) → contains (add set x) p ≡ (contains set p || str_eq x p)
unfolding add contains
contains-add set x p = ground (arith, contains-append set (x ∷ []) p, eq_iff x p)

contains-add_batch :
    (set : List String) (c : CircuitConfig) (p : String)
    → contains (add_batch (add set c.ptau) c.batch_ptau) p ≡ (contains set p || uses c p)
unfolding add_batch
contains-add_batch set c p = elim (Option-cases c.batch_ptau) [
  | inl e ↦ rw e (rw (contains-add set c.ptau p) (ground arith))
  | inr (b, e) ↦ rw e (ground (arith, contains-add set c.ptau p, contains-add (add set c.ptau) b p))
]

contains-collect_ptaus :
    (only : Option (List String)) (cs : Circuits) (set : List String) (p : String)
    → contains (collect_ptaus only cs set) p ≡ (contains set p || is_needed only cs p)
unfolding collect_ptaus
contains-collect_ptaus only [] set p = ground arith
contains-collect_ptaus only ((name, c) ∷ cs) set p =
    contains-collect_ptaus only cs
      (if is_selected only name then add_batch (add set c.ptau) c.batch_ptau else set) p
    ∙ ground (arith, contains-add_batch set c p)

-- The files to download are those that a selected circuit, or its batch variant, names.
pub contains-all_ptaus :
    (only : Option (List String)) (cs : Circuits) (p : String)
    → contains (all_ptaus only cs) p ≡ is_needed only cs p
unfolding all_ptaus contains
contains-all_ptaus only cs p = contains-collect_ptaus only cs [] p
