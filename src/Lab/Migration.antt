-- ===== src/Lab/Migration.antt =====
-- src/latent_compass/lab/migration.py: the assets of the retirement dry-run and their dispositions.
pub mod Dispositions
pub mod DryRun
pub mod Report
use latent_compass.Prelude.{
  ℕ, String, Bool, true, false, not, ◌&&◌, ◌||◌, List, [], ◌∷◌, ◌++◌, map, Result, ok, err, ◌>>=◌,
  ◌>>◌, raise_if, leb, ltb, ◌==◌, distinct, any, all, length, if◌then◌else◌,
}
use latent_compass.Contracts.{
  Identifier, Seal, Timestamp, Exception, lab_migration_violation, check_contract_version,
}

abbrev pub supported_lab_migration_versions : List String
supported_lab_migration_versions = "1.0.0" ∷ []

pub data AssetClassification : Type 0 where
  candidate_index required_evidence source_or_symbolic_tool authored_data vault unknown :
      AssetClassification

pub data ScopeKind : Type 0 where
  personal_lab professional unscoped : ScopeKind

pub data EvidenceReferenceKind : Type 0 where
  backup restore stability : EvidenceReferenceKind

pub data RetirementAction : Type 0 where
  keep disable_later retain_for_rollback : RetirementAction

pub data ProtectionReason : Type 0 where
  classification_protected scope_professional_or_unscoped consumers_unknown : ProtectionReason

pub data MissingGate : Type 0 where
  backup_evidence_absent restore_evidence_absent stability_evidence_absent
        independent_comparison_absent live_pilot_absent external_verification_absent
        owner_deletion_authority_absent :
      MissingGate

-- Membership in `PROTECTED_CLASSIFICATIONS`.
unfoldable pub is_protected : AssetClassification → Bool
is_protected required_evidence = true
is_protected source_or_symbolic_tool = true
is_protected authored_data = true
is_protected vault = true
is_protected unknown = true
is_protected candidate_index = false

abbrev pub always_outstanding_gates : List MissingGate
always_outstanding_gates =
    independent_comparison_absent ∷ live_pilot_absent ∷ external_verification_absent
    ∷ owner_deletion_authority_absent ∷ []

pub record EvidenceReference : Type 0 where
  pub kind : EvidenceReferenceKind
  pub digest : Seal
  pub referenced_at : Timestamp

pub record InventoryAsset : Type 0 where
  pub contract_version : String
  pub asset_id : Identifier
  pub provider_id : Identifier
  pub role : Identifier
  pub scope : Identifier
  pub scope_kind : ScopeKind
  pub host_id : Identifier
  pub configuration_digest : Seal
  pub consumers : List Identifier
  pub classification : AssetClassification
  pub evidence_references : List EvidenceReference

-- The field constraints and `_coherent_asset`, as `_revalidated_asset` runs them.
unfoldable pub revalidated_asset : InventoryAsset → Result Exception InventoryAsset
revalidated_asset a = do
  raise_if (not (leb (length a.consumers) 256 && leb (length a.evidence_references) 64))
      lab_migration_violation
  check_contract_version a.contract_version supported_lab_migration_versions
  raise_if (not (distinct a.consumers)) lab_migration_violation
  ok a

abbrev pub same_reference_kind : EvidenceReferenceKind → EvidenceReferenceKind → Bool
same_reference_kind backup backup = true
same_reference_kind restore restore = true
same_reference_kind stability stability = true
same_reference_kind _ _ = false

unfoldable pub has_reference : InventoryAsset → EvidenceReferenceKind → Bool
has_reference a k =
    any (λ (r : EvidenceReference). same_reference_kind r.kind k) a.evidence_references

pub record AssetDisposition : Type 0 where
  pub asset_id : Identifier
  pub classification : AssetClassification
  pub action : RetirementAction
  pub protected : Bool
  pub protection_reasons : List ProtectionReason
  pub missing_gates : List MissingGate

abbrev pub no_items {ℓ} : {A : Type ℓ} → List A → Bool
no_items [] = true
no_items (_ ∷ _) = false

abbrev pub is_keep : RetirementAction → Bool
is_keep keep = true
is_keep _ = false

-- The field constraints and `_coherent_disposition`.
unfoldable pub disposition_is_coherent : AssetDisposition → Bool
disposition_is_coherent d =
    leb (length d.protection_reasons) 8
    && leb (length d.missing_gates) 16
    && (if d.protected
        then is_keep d.action && not (no_items d.protection_reasons)
        else no_items d.protection_reasons)
    && not (is_keep d.action && not d.protected && not (no_items d.missing_gates))

abbrev pub listed_if {ℓ} : {A : Type ℓ} → Bool → A → List A
listed_if true x = x ∷ []
listed_if false x = []

abbrev pub out_of_scope : ScopeKind → Bool
out_of_scope personal_lab = false
out_of_scope professional = true
out_of_scope unscoped = true

-- `protection_reasons` as `_disposition` appends them.
unfoldable pub protection_reasons_of : InventoryAsset → List ProtectionReason
unfolding is_protected
protection_reasons_of a =
    listed_if (is_protected a.classification) classification_protected
    ++ (listed_if (out_of_scope a.scope_kind) scope_professional_or_unscoped
        ++ listed_if (no_items a.consumers) consumers_unknown)

-- `missing_gates` as `_disposition` appends them.
unfoldable pub missing_gates_of : InventoryAsset → List MissingGate
missing_gates_of a =
    always_outstanding_gates
    ++ (listed_if (not (has_reference a backup)) backup_evidence_absent
        ++ (listed_if (not (has_reference a restore)) restore_evidence_absent
            ++ listed_if (not (has_reference a stability)) stability_evidence_absent))

-- `_disposition`, before the validator of its result.
unfoldable pub disposition_of : InventoryAsset → AssetDisposition
unfolding protection_reasons_of missing_gates_of
disposition_of a =
    if no_items (protection_reasons_of a)
    then record {
      asset_id = a.asset_id;
      classification = a.classification;
      action =
          if has_reference a backup && has_reference a restore && has_reference a stability
          then retain_for_rollback
          else disable_later;
      protected = false;
      protection_reasons = [];
      missing_gates = missing_gates_of a;
    }
    else record {
      asset_id = a.asset_id;
      classification = a.classification;
      action = keep;
      protected = true;
      protection_reasons = protection_reasons_of a;
      missing_gates = [];
    }

unfoldable pub disposition : InventoryAsset → Result Exception AssetDisposition
unfolding disposition_of disposition_is_coherent
disposition a = do
  raise_if (not (disposition_is_coherent (disposition_of a))) lab_migration_violation
  ok (disposition_of a)
