-- ===== src/Lab/Migration/Report.antt =====
-- What `build_retirement_dry_run` returns, and when it refuses.
use latent_compass.Prelude.{
  ◌≡◌, ◌↔◌, refl, sym, true, false, List, [], ◌∷◌, map, arith, distinct, ok, Result-cases, Listed,
  >>=-eq-ok, inl, inr,
}
use mathlib.Core.Path.{subst}
use latent_compass.Prelude.Sorting.{sort-Listed, Listed-sort}
use latent_compass.Prelude.Ordered.{is_sorted, sort-sorted}
use latent_compass.Contracts.{Identifier, Seal, Timestamp}
use latent_compass.Lab.Migration.{
  InventoryAsset, AssetDisposition, revalidated_asset, disposition_of,
}
use latent_compass.Lab.Migration.DryRun.{
  RetirementDryRunReport, revalidated_assets, dispositions_of, asset_ids, sort_assets,
  validated_report, report_of, build_retirement_dry_run,
}
use latent_compass.Lab.Migration.Dispositions.{disposition-coherent}

revalidated_asset-eq : (a b : InventoryAsset) → revalidated_asset a ≡ ok b → b ≡ a
unfolding revalidated_asset
revalidated_asset-eq a b h = ground arith

revalidated_assets-eq : (xs ys : List InventoryAsset) → revalidated_assets xs ≡ ok ys → ys ≡ xs
unfolding revalidated_assets
revalidated_assets-eq [] ys h = ground arith
revalidated_assets-eq (x ∷ xs) ys h =
    let (y, ey, hy) = >>=-eq-ok (revalidated_asset x) _ h in
    let (zs, ez, hz) = >>=-eq-ok (revalidated_assets xs) _ hy in
    cc (revalidated_asset-eq x y ey, revalidated_assets-eq xs zs ez, hz)

-- Every asset has a disposition.
dispositions_of-map : (xs : List InventoryAsset) → dispositions_of xs ≡ ok (map disposition_of xs)
unfolding dispositions_of
dispositions_of-map [] = refl
dispositions_of-map (x ∷ xs) = ground (arith, disposition-coherent x, dispositions_of-map xs)

-- A disposition carries its asset's id.
disposition_ids :
    (xs : List InventoryAsset)
    → map (λ (d : AssetDisposition). d.asset_id) (map disposition_of xs) ≡ asset_ids xs
unfolding disposition_of
disposition_ids [] = refl
disposition_ids (x ∷ xs) = ground (arith, disposition_ids xs)

module _ (seal_inventory : List InventoryAsset → Seal) (seal_report : RetirementDryRunReport → Seal)
    (xs : List InventoryAsset) (at : Timestamp) where
  abbrev the_report : RetirementDryRunReport
  the_report = report_of seal_inventory seal_report xs (map disposition_of xs) at

  the_report-validated :
      distinct (asset_ids xs) ≡ true
      → validated_report seal_inventory seal_report the_report ≡ ok the_report
  unfolding validated_report
  the_report-validated h = rw disposition_ids (ground arith)

  -- The assets, each of them and no other, in the order of their ids.
  abbrev pub InOrder : List InventoryAsset → Type 0
  InOrder ys =
      (is_sorted (asset_ids ys) ≡ true) × ((a : InventoryAsset) → Listed a ys ↔ Listed a xs)

  sorted_assets : InOrder (sort_assets xs)
  unfolding sort_assets
  sorted_assets =
      let key : InventoryAsset → Identifier = λ a. a.asset_id in
      (sort-sorted key xs, λ a. (sort-Listed key a xs, Listed-sort key a xs))

  -- What a report says of the assets: their inventory in the order of the ids, their dispositions
  -- in the order of the assets, that nothing was done and that nothing may be done without someone
  -- else, and a seal over all of it.
  abbrev pub ReportsOn : RetirementDryRunReport → Type 0
  ReportsOn r =
      (r.contract_version ≡ "1.0.0")
      × InOrder (sort_assets xs)
      × (r.inventory_digest ≡ seal_inventory (sort_assets xs))
      × (r.generated_at ≡ at)
      × (r.dispositions ≡ map disposition_of xs)
      × (r.dry_run ≡ true)
      × (r.requires_external_verification ≡ true)
      × (r.requires_external_authorization ≡ true)
      × (r.activation_token ≡ false)
      × (r.report_seal ≡ seal_report (record r { report_seal = 0 }))

  ReportsOn-the_report : (r : RetirementDryRunReport) → ReportsOn r → r ≡ the_report
  ReportsOn-the_report r (v, o, i, g, d, y, x, z, t, s) = cc

  build_retirement_dry_run_is :
      (r : RetirementDryRunReport)
      → (build_retirement_dry_run seal_inventory seal_report xs at ≡ ok r)
        ↔ ((revalidated_assets xs ≡ ok xs) × (distinct (asset_ids xs) ≡ true) × (r ≡ the_report))
  unfolding build_retirement_dry_run
  build_retirement_dry_run_is r = (
    λ h. elim (Result-cases (revalidated_assets xs)) [
      | inl (ys, e) ↦
          ground
            (arith, revalidated_assets-eq xs ys e, dispositions_of-map xs, the_report-validated)
      | inr (x, e) ↦ ground arith
    ],
    λ (valid, d, same). ground (arith, dispositions_of-map xs, the_report-validated d),
  )

  -- A dry run returns a report exactly when every asset is valid, no asset id repeats, and the
  -- report has the digest of the assets in the order of their ids and the time, lists the
  -- disposition of every asset in the order of the assets, says that it is a dry run which needs
  -- external verification and authorization and carries no activation token, and is sealed over
  -- these fields.
  pub build_retirement_dry_run_iff :
      (r : RetirementDryRunReport)
      → (build_retirement_dry_run seal_inventory seal_report xs at ≡ ok r)
        ↔ ((revalidated_assets xs ≡ ok xs) × (distinct (asset_ids xs) ≡ true) × ReportsOn r)
  build_retirement_dry_run_iff r = (
    λ h.
        let (valid, d, same) = (build_retirement_dry_run_is r).0 h in
        (
          valid,
          d,
          subst ReportsOn (sym same)
              (refl, sorted_assets, refl, refl, refl, refl, refl, refl, refl, refl),
        ),
    λ (valid, d, says). (build_retirement_dry_run_is r).1 (valid, d, ReportsOn-the_report r says),
  )
