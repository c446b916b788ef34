-- ===== src/Deploy/Modules.antt =====
-- The Ignition modules of the tokens, solidity/ignition/modules, in the part of Ignition's language
-- that they use: a module makes futures, uses other modules, and gives results by name.
pub mod Deps
pub mod ZetoAnon
pub mod ZetoAnonBurnable
pub mod ZetoAnonEnc
pub mod ZetoAnonEncNullifier
pub mod ZetoAnonEncNullifierKyc
pub mod ZetoAnonEncNullifierNonRepudiation
pub mod ZetoAnonNullifier
pub mod ZetoAnonNullifierBurnable
pub mod ZetoAnonNullifierKyc
pub mod ZetoAnonNullifierQurrency
pub mod ZetoNfAnon
pub mod ZetoNfAnonNullifier
use zeto.Base.{
  Bool, true, false, Option, none, some, List, [], ◌∷◌, ◌++◌, String, str_eq, if◌then◌else◌,
}

-- A contract or a library to deploy, with the module that makes it. Ignition tells futures apart by
-- the two names.
pub record Future : Type 0 where
  pub module_id : String
  pub contract_id : String
  pub is_library : Bool

-- An object of futures by name. A missing name reads as `undefined`.
abbrev pub Results : Type 0
Results = List (String × Option Future)

pub record Module : Type 0 where
  pub id : String
  -- Those of the modules that it uses included, in the order in which they are made.
  pub futures : List Future
  pub results : Results

-- The body of a module: of its id and the futures so far.
abbrev pub Builder : Type 0 → Type 0
Builder A = String → List Future → A × List Future

infixl 5 ◌>>=◌ ◌>>◌
abbrev pub ◌>>=◌ : {A B : Type 0} → Builder A → (A → Builder B) → Builder B
(first >>= next) id futures = let (a, more) = first id futures in next a id more

abbrev pub ◌>>◌ : {A B : Type 0} → Builder A → Builder B → Builder B
first >> next = first >>= λ _. next

abbrev pub give : {A : Type 0} → A → Builder A
give a id futures = (a, futures)

abbrev make : Bool → String → Builder Future
make is_library name id futures =
    let future : Future = record { module_id = id; contract_id = name; is_library = is_library } in
    (future, futures ++ future ∷ [])

-- `m.contract`
abbrev pub contract : String → Builder Future
contract = make false

-- `m.library`
abbrev pub library : String → Builder Future
library = make true

-- `m.useModule`
abbrev pub use_module : Module → Builder Results
use_module m id futures = (m.results, futures ++ m.futures)

abbrev pub field : String → Results → Option Future
field name [] = none
field name ((n, future) ∷ results) = if str_eq n name then future else field name results

-- `buildModule`
abbrev pub build_module : String → Builder Results → Module
build_module id body =
    let (results, futures) = body id [] in record { id = id; futures = futures; results = results }
