-- ===== src/Lab/Migration/DryRun.antt =====
-- src/latent_compass/lab/migration.py: the report of a dry-run. Its seals are parameters.
use latent_compass.Prelude.{
  String, Bool, true, false, not, ◌&&◌, List, [], ◌∷◌, map, Result, ok, ◌>>=◌, ◌>>◌, raise_if, ◌==◌,
  distinct,
}
use latent_compass.Prelude.Sorting.{sort_by}
use latent_compass.Contracts.{
  Identifier, Seal, Timestamp, Exception, lab_migration_violation, check_contract_version,
}
use latent_compass.Lab.Migration.{
  InventoryAsset, revalidated_asset, AssetDisposition, disposition,
  supported_lab_migration_versions,
}

pub record RetirementDryRunReport : Type 0 where
  pub contract_version : String
  pub inventory_digest : Seal
  pub generated_at : Timestamp
  pub dispositions : List AssetDisposition
  pub dry_run : Bool
  pub requires_external_verification : Bool
  pub requires_external_authorization : Bool
  pub activation_token : Bool
  pub report_seal : Seal

-- A report's body is the report with its seal left out.
abbrev pub sealed : RetirementDryRunReport → Seal → RetirementDryRunReport
sealed r s = record r { report_seal = s }

-- `sorted(assets, key=lambda item: item.asset_id)`
unfoldable pub sort_assets : List InventoryAsset → List InventoryAsset
sort_assets xs = sort_by (λ a. a.asset_id) xs

unfoldable pub revalidated_assets : List InventoryAsset → Result Exception (List InventoryAsset)
revalidated_assets [] = ok []
revalidated_assets (a ∷ rest) = do
  b ← revalidated_asset a
  bs ← revalidated_assets rest
  ok (b ∷ bs)

unfoldable pub dispositions_of : List InventoryAsset → Result Exception (List AssetDisposition)
dispositions_of [] = ok []
dispositions_of (a ∷ rest) = do d ← disposition a; ds ← dispositions_of rest; ok (d ∷ ds)

abbrev pub asset_ids : List InventoryAsset → List Identifier
asset_ids xs = map (λ a. a.asset_id) xs

module _ (seal_inventory : List InventoryAsset → Seal)
    (seal_report : RetirementDryRunReport → Seal) where
  -- The `Literal` fields and `_coherent_report`. The body of the seal has no seal: it stands as 0.
  unfoldable pub validated_report : RetirementDryRunReport → Result Exception RetirementDryRunReport
  validated_report r = do
    raise_if
        (not (
          r.dry_run
          && r.requires_external_verification
          && r.requires_external_authorization
          && not r.activation_token))
        lab_migration_violation
    check_contract_version r.contract_version supported_lab_migration_versions
    raise_if (not (distinct (map (λ (d : AssetDisposition). d.asset_id) r.dispositions)))
        lab_migration_violation
    raise_if (not (seal_report (sealed r 0) == r.report_seal)) lab_migration_violation
    ok r

  -- The report that `build_retirement_dry_run` seals.
  abbrev pub report_of :
      List InventoryAsset → List AssetDisposition → Timestamp → RetirementDryRunReport
  report_of xs ds at =
      let body : RetirementDryRunReport = record {
        contract_version = "1.0.0";
        inventory_digest = seal_inventory (sort_assets xs);
        generated_at = at;
        dispositions = ds;
        dry_run = true;
        requires_external_verification = true;
        requires_external_authorization = true;
        activation_token = false;
        report_seal = 0;
      } in
      sealed body (seal_report body)

  unfoldable pub build_retirement_dry_run :
      List InventoryAsset → Timestamp → Result Exception RetirementDryRunReport
  build_retirement_dry_run assets generated_at = do
    xs ← revalidated_assets assets
    raise_if (not (distinct (asset_ids xs))) lab_migration_violation
    ds ← dispositions_of xs
    validated_report (report_of xs ds generated_at)
