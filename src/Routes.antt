-- ===== src/Routes.antt =====
-- backend/app/api/routes.py: the handlers of the HTTP interface over the stores. The text that comes
-- with a rejection is left out.
pub mod Nodes
pub mod Alerts
pub mod Jobs
pub mod Summary
pub mod Diagnoses
pub mod Policies
pub mod Custom
pub mod Streams
pub mod IncidentIo
use solprobe.Prelude.{ℕ, Bool, ◌&&◌, leb, List, [], ◌∷◌}

-- A status with a body, or the status of an `HTTPException`.
pub data Http {ℓ} (A : Type ℓ) : Type ℓ where
  replied : ℕ → A → Http A
  rejected : ℕ → Http A

-- `Query(ge=low, le=high)`; FastAPI answers 422 out of that range.
abbrev pub in_range : ℕ → ℕ → ℕ → Bool
in_range low high n = leb low n && leb n high

-- A body that is one item or a list of them.
pub data Body {ℓ} (A : Type ℓ) : Type ℓ where
  single : A → Body A
  several : List A → Body A

-- `body if isinstance(body, list) else [body]`
abbrev pub items_of {ℓ} : {A : Type ℓ} → Body A → List A
items_of (single a) = a ∷ []
items_of (several items) = items
