-- ===== src/Delta.antt =====
-- The comparison of two architecture diagrams, delta/architecture-delta.mjs: its errors.
pub mod Canonical
pub mod Index
pub mod Entities
pub mod Compare
pub mod Verdicts
pub mod Identity
mod Examples

-- The codes of `ArchitectureDeltaError`.
pub data DeltaCode : Type 0 where
  schema_version_mismatch type_mismatch stable_id_required relationship_id_required : DeltaCode
  duplicate_stable_id boundary_key_ambiguous no_shared_component_id repository_mismatch : DeltaCode

-- A result, or the error that `fail` throws.
pub data Checked {ℓ} (A : Type ℓ) : Type ℓ where
  failed : DeltaCode → Checked A
  passed : A → Checked A

infixl 10 ◌>>=◌
abbrev pub ◌>>=◌ {ℓ κ} : {A : Type ℓ} {B : Type κ} → Checked A → (A → Checked B) → Checked B
failed code >>= f = failed code
passed a >>= f = f a
