-- ===== src/Lab/Migration/Dispositions.antt =====
-- When an asset is kept, disabled later or retained, and which gates stay open.
use latent_compass.Prelude.{
  ◌≡◌, ◌≢◌, ◌↔◌, ◌⊎◌, refl, inl, inr, ap, Bool-cases, true, false, List, [], ◌∷◌, arith, Listed, ok,
  any,
}
use latent_compass.Lab.Migration.{
  EvidenceReference, EvidenceReferenceKind, same_reference_kind, candidate_index, personal_lab,
  backup, restore, stability, keep, retain_for_rollback, MissingGate, backup_evidence_absent,
  restore_evidence_absent, stability_evidence_absent, independent_comparison_absent,
  live_pilot_absent, external_verification_absent, owner_deletion_authority_absent, InventoryAsset,
  has_reference, disposition_of, disposition,
}

-- An unprotected asset: an index of the personal lab with a known consumer.
abbrev pub IsCandidate : InventoryAsset → Type 0
IsCandidate a =
    (a.classification ≡ candidate_index) × (a.scope_kind ≡ personal_lab) × (a.consumers ≢ [])

-- `_disposition` never fails its own validator.
pub disposition-coherent : (a : InventoryAsset) → disposition a ≡ ok (disposition_of a)
unfolding disposition
disposition-coherent a = ground arith

-- An asset is up for anything but `KEEP` exactly when it is an index of the personal lab with a
-- known consumer, and it is protected exactly when it is kept.
pub disposition_keeps :
    (a : InventoryAsset)
    → (((disposition_of a).action ≢ keep) ↔ IsCandidate a)
      × (((disposition_of a).protected ≡ true) ↔ ((disposition_of a).action ≡ keep))
unfolding disposition_of
disposition_keeps a = ((λ h. ground arith, λ h. ground arith), ground arith)

-- A claimed reference of a kind.
abbrev pub Referenced : EvidenceReferenceKind → InventoryAsset → Type 0
Referenced k a = (r : EvidenceReference) × Listed r a.evidence_references × (r.kind ≡ k)

references :
    (rs : List EvidenceReference) (k : EvidenceReferenceKind)
    → any (λ (r : EvidenceReference). same_reference_kind r.kind k) rs ≡ true
    → (r : EvidenceReference) × Listed r rs × (r.kind ≡ k)
references [] k h = cc
references (x ∷ rs) k h = elim (Bool-cases (same_reference_kind x.kind k)) [
  | inl e ↦ (x, inl refl, ground arith)
  | inr e ↦ let (r, m, f) = references rs k (ground arith) in (r, inr m, f)
]

has_reference-Referenced :
    (a : InventoryAsset) (k : EvidenceReferenceKind) → has_reference a k ≡ true → Referenced k a
unfolding has_reference
has_reference-Referenced a k h = references a.evidence_references k h

Referenced-has :
    (rs : List EvidenceReference) (k : EvidenceReferenceKind) (r : EvidenceReference)
    → Listed r rs
    → r.kind ≡ k
    → any (λ (q : EvidenceReference). same_reference_kind q.kind k) rs ≡ true
Referenced-has [] k r m e = absurd m
Referenced-has (x ∷ rs) k r (inl p) e = ground (arith, ap (λ (q : EvidenceReference). q.kind) p)
Referenced-has (x ∷ rs) k r (inr m) e = ground (arith, Referenced-has rs k r m e)

Referenced-has_reference :
    (a : InventoryAsset) (k : EvidenceReferenceKind) → Referenced k a → has_reference a k ≡ true
unfolding has_reference
Referenced-has_reference a k (r, m, e) = Referenced-has a.evidence_references k r m e

retains_iff :
    (a : InventoryAsset)
    → ((disposition_of a).action ≡ retain_for_rollback) ↔ (
        IsCandidate a
        × (has_reference a backup ≡ true)
        × (has_reference a restore ≡ true)
        × (has_reference a stability ≡ true))
unfolding disposition_of
retains_iff a = (λ h. ground arith, λ h. ground arith)

-- An asset is to be retained for rollback exactly when it is an index of the personal lab with a
-- known consumer and has a reference of each of the three kinds.
pub disposition_retains :
    (a : InventoryAsset)
    → ((disposition_of a).action ≡ retain_for_rollback)
      ↔ (IsCandidate a × Referenced backup a × Referenced restore a × Referenced stability a)
disposition_retains a = (
  λ h.
      let (c, b, r, s) = (retains_iff a).0 h in
      (
        c,
        has_reference-Referenced a backup b,
        has_reference-Referenced a restore r,
        has_reference-Referenced a stability s,
      ),
  λ (c, b, r, s). (retains_iff a).1 (
    c,
    Referenced-has_reference a backup b,
    Referenced-has_reference a restore r,
    Referenced-has_reference a stability s,
  ),
)

-- What leaves a gate open: independent comparison, live pilot, external verification and the
-- owner's authority to delete are never at hand, and evidence is missing without a reference to it.
abbrev pub IsOpen : InventoryAsset → MissingGate → Type 0
IsOpen a independent_comparison_absent = Unit {0}
IsOpen a live_pilot_absent = Unit {0}
IsOpen a external_verification_absent = Unit {0}
IsOpen a owner_deletion_authority_absent = Unit {0}
IsOpen a backup_evidence_absent = ¬ Referenced backup a
IsOpen a restore_evidence_absent = ¬ Referenced restore a
IsOpen a stability_evidence_absent = ¬ Referenced stability a

unreferenced :
    (a : InventoryAsset) (k : EvidenceReferenceKind)
    → (has_reference a k ≡ false) ↔ (¬ Referenced k a)
unreferenced a k = (
  λ h r. ground (arith, Referenced-has_reference a k r),
  λ n. elim (Bool-cases (has_reference a k)) [
    | inl e ↦ absurd (n (has_reference-Referenced a k e))
    | inr e ↦ e
  ],
)

gates_iff :
    (a : InventoryAsset) (g : MissingGate)
    → IsCandidate a
    → Listed g (disposition_of a).missing_gates ↔ (
        (g ≡ independent_comparison_absent)
        ⊎ (g ≡ live_pilot_absent)
        ⊎ (g ≡ external_verification_absent)
        ⊎ (g ≡ owner_deletion_authority_absent)
        ⊎ ((g ≡ backup_evidence_absent) × (has_reference a backup ≡ false))
        ⊎ ((g ≡ restore_evidence_absent) × (has_reference a restore ≡ false))
        ⊎ ((g ≡ stability_evidence_absent) × (has_reference a stability ≡ false)))
unfolding disposition_of
gates_iff a g c = (λ h. ground arith, λ h. ground arith)

-- Of an asset that is up for retirement, the gates that are missing are exactly these: independent
-- comparison, live pilot, external verification and owner's deletion authority in every case, and
-- backup, restore or stability evidence where the asset has no reference of that kind.
pub disposition_gates :
    (a : InventoryAsset) (g : MissingGate)
    → IsCandidate a
    → Listed g (disposition_of a).missing_gates ↔ IsOpen a g
disposition_gates a independent_comparison_absent c =
    (λ h. tt, λ o. (gates_iff a independent_comparison_absent c).1 (ground arith))
disposition_gates a live_pilot_absent c =
    (λ h. tt, λ o. (gates_iff a live_pilot_absent c).1 (ground arith))
disposition_gates a external_verification_absent c =
    (λ h. tt, λ o. (gates_iff a external_verification_absent c).1 (ground arith))
disposition_gates a owner_deletion_authority_absent c =
    (λ h. tt, λ o. (gates_iff a owner_deletion_authority_absent c).1 (ground arith))
disposition_gates a backup_evidence_absent c = (
  λ h.
      let open_gate = (gates_iff a backup_evidence_absent c).0 h in
      (unreferenced a backup).0 (ground arith),
  λ n.
      let none_there = (unreferenced a backup).1 n in
      (gates_iff a backup_evidence_absent c).1 (ground arith),
)
disposition_gates a restore_evidence_absent c = (
  λ h.
      let open_gate = (gates_iff a restore_evidence_absent c).0 h in
      (unreferenced a restore).0 (ground arith),
  λ n.
      let none_there = (unreferenced a restore).1 n in
      (gates_iff a restore_evidence_absent c).1 (ground arith),
)
disposition_gates a stability_evidence_absent c = (
  λ h.
      let open_gate = (gates_iff a stability_evidence_absent c).0 h in
      (unreferenced a stability).0 (ground arith),
  λ n.
      let none_there = (unreferenced a stability).1 n in
      (gates_iff a stability_evidence_absent c).1 (ground arith),
)
