-- ===== src/Build/Settings/Laws.antt =====
-- What the checks of gen.js establish.
use zeto.Base.{
  ◌⊎◌, Option-cases, inl, inr, ◌≡◌, ◌↔◌, refl, true, some, List, [], ◌∷◌, String, ok, arith, All,
}
use zeto.Build.Settings.{
  Settings, CircuitConfig, Circuits, check_settings, is_set, find_circuit, check_known, check_only,
}

-- The checks pass exactly when the circuits' root is given and, unless only compiling, the roots of
-- the proving keys and of the downloads too.
pub check_settings_iff :
    (s : Settings)
    → (check_settings s ≡ ok tt) ↔ (
        (is_set s.circuits_root ≡ true)
        × ((s.compile_only ≡ true)
            ⊎ ((is_set s.proving_keys_root ≡ true) × (is_set s.ptau_download ≡ true))))
unfolding check_settings
check_settings_iff s = (λ h. ground arith, λ h. ground arith)

abbrev pub IsKnown : Circuits → String → Type 0
IsKnown cs name = (c : CircuitConfig) × (find_circuit name cs ≡ some c)

check_known_sound :
    (names : List String) (cs : Circuits) → check_known names cs ≡ ok tt → All (IsKnown cs) names
unfolding check_known
check_known_sound [] cs h = tt
check_known_sound (name ∷ names) cs h = elim (Option-cases (find_circuit name cs)) [
  | inl e ↦ ground arith
  | inr (c, e) ↦ ((c, e), check_known_sound names cs (ground arith))
]

check_known_complete :
    (names : List String) (cs : Circuits) → All (IsKnown cs) names → check_known names cs ≡ ok tt
unfolding check_known
check_known_complete [] cs h = refl
check_known_complete (name ∷ names) cs ((c, e), h) =
    rw (e, check_known) (check_known_complete names cs h)

-- A selection passes exactly when each of its names is in the configuration.
pub check_only_iff :
    (names : List String) (cs : Circuits)
    → (check_only (some names) cs ≡ ok tt) ↔ All (IsKnown cs) names
unfolding check_only
check_only_iff names cs = (check_known_sound names cs, check_known_complete names cs)
