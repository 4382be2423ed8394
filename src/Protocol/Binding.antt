-- ===== src/Protocol/Binding.antt =====
-- src/latent_compass/protocol.py: what a verdict is bound to, what a revision does to the
-- measurements, and what an evaluation spends.
use latent_compass.Prelude.{
  ◌≡◌, ◌≢◌, Bool, true, Option, none, some, ok, arith, ◌==◌, sym, ◌∙◌, ap, >>=-eq-ok, ◌<◌,
  if◌then◌else◌, raise_if, not,
}
use mathlib.Core.Path.{subst}
use latent_compass.Contracts.{Seal, Timestamp}
use latent_compass.Lab.Dict.{lookup-put}
use latent_compass.Protocol.Specs.{FiniteFloat, SplitSpec, holdout, same_split}
use latent_compass.Protocol.Preregistration.{
  Preregistration, Changes, validated_preregistration, updated, revise, split_spec,
}
use latent_compass.Protocol.Verdict.{
  is_final, MeasurementSet, VerdictBody, Verdict, load_verdict, recompute_verdict_seal,
}
use latent_compass.Protocol.Score.{score_measurements, check_evidence}
use latent_compass.Protocol.Holdout.{
  HoldoutConsumption, LedgerFile, consumption, consume, require_consumption, receipt_for,
  record_verdict, evaluate, read_unlocked,
}
use latent_compass.Protocol.Loading.{validated_preregistration-eq, score_measurements-Scored}

-- What the refusals before the scoring leave.
check_evidence-ok :
    (current_seal : Seal) (p : Preregistration) (ms : MeasurementSet)
    → check_evidence current_seal p ms ≡ ok tt
    → (spec : SplitSpec) × (ms.protocol_seal ≡ current_seal)
      × (ms.epoch ≡ p.epoch)
      × (split_spec p ms.split ≡ ok spec)
      × (spec.corpus_seal ≡ ms.corpus_seal)
      × (is_final ms.purpose ≡ same_split ms.split holdout)
unfolding check_evidence
check_evidence-ok current_seal p ms h =
    let (u, e1, h1) = >>=-eq-ok (raise_if (not (ms.protocol_seal == current_seal)) _) _ h in
    let (u2, e2, h2) = >>=-eq-ok (raise_if (not (ms.epoch == p.epoch)) _) _ h1 in
    let (spec, e3, h3) = >>=-eq-ok (split_spec p ms.split) _ h2 in
    (spec, ground arith, ground arith, e3, ground arith, ground arith)

module _ (mean : FiniteFloat → FiniteFloat → Option FiniteFloat)
    (protocol_seal : Preregistration → Seal) (seal_body : VerdictBody → Seal) (p : Preregistration)
    (ms : MeasurementSet) (v : Verdict) where
  bound :
      score_measurements mean protocol_seal seal_body p ms ≡ ok v
      → (v.protocol_seal ≡ protocol_seal p) × (v.epoch ≡ p.epoch)
  bound h =
      let i = (score_measurements-Scored mean protocol_seal seal_body p ms v h).is_sealed in
      (ap (λ (x : Verdict). x.protocol_seal) i, ap (λ (x : Verdict). x.epoch) i)

  -- A verdict that is returned loads again, carries the seal recomputed from its body, and is bound
  -- to the protocol under whose seal and epoch the measurements were taken and to the corpus
  -- registered for their split; its purpose is a final verdict exactly on the holdout.
  pub score_measurements-load_verdict :
      score_measurements mean protocol_seal seal_body p ms ≡ ok v
      → (load_verdict v ≡ ok v)
        × (recompute_verdict_seal seal_body v ≡ v.verdict_seal)
        × (v.protocol_seal ≡ protocol_seal p)
        × (ms.protocol_seal ≡ protocol_seal p)
        × (v.epoch ≡ ms.epoch)
        × ((spec : SplitSpec) × (split_spec p v.split ≡ ok spec)
            × (spec.corpus_seal ≡ v.corpus_seal)
            × (v.corpus_seal ≡ ms.corpus_seal))
        × (is_final v.purpose ≡ same_split v.split holdout)
  unfolding recompute_verdict_seal
  score_measurements-load_verdict h =
      let s = score_measurements-Scored mean protocol_seal seal_body p ms v h in
      let (spec, a, b, c, d, e) = check_evidence-ok (protocol_seal p) p ms s.evidence in
      let i = s.is_sealed in
      (
        s.loads_verdict,
        ground arith,
        ground arith,
        a,
        ground arith,
        (spec, ground arith, ground arith, ground arith),
        ground arith,
      )

-- What a revision leaves.
revise-ok :
    (protocol_seal : Preregistration → Seal) (p q : Preregistration) (c : Changes)
    → revise protocol_seal p c ≡ ok q
    → (validated_preregistration (updated p c) ≡ ok q)
      × (protocol_seal q ≢ protocol_seal p)
      × (p.revision < (updated p c).revision)
      × ((updated p c).epoch ≢ p.epoch)
unfolding revise
revise-ok protocol_seal p q c h = ground arith

module _ (mean : FiniteFloat → FiniteFloat → Option FiniteFloat)
    (protocol_seal : Preregistration → Seal) (seal_body : VerdictBody → Seal) where
  -- A revision that is accepted has a larger revision number, another epoch and another seal, and
  -- no measurement set taken under the protocol that it replaces is scored under it.
  pub score_measurements-revise :
      (p q : Preregistration) (c : Changes) (ms : MeasurementSet) (v : Verdict)
      → revise protocol_seal p c ≡ ok q
      → ms.protocol_seal ≡ protocol_seal p
      → (p.revision < q.revision)
        × (q.epoch ≢ p.epoch)
        × (protocol_seal q ≢ protocol_seal p)
        × (score_measurements mean protocol_seal seal_body q ms ≢ ok v)
  score_measurements-revise p q c ms v h e =
      let (valid, other, later, epoch) = revise-ok protocol_seal p q c h in
      let same = validated_preregistration-eq (updated p c) q valid in
      (
        subst (λ (r : Preregistration). p.revision < r.revision) (sym same) later,
        subst (λ (r : Preregistration). r.epoch ≢ p.epoch) (sym same) epoch,
        other,
        λ scored.
            let s = score_measurements-Scored mean protocol_seal seal_body q ms v scored in
            let (spec, a, b, c, d, f) = check_evidence-ok (protocol_seal q) q ms s.evidence in
            other (sym a ∙ e),
      )

-- What a spend leaves for the calls that follow.
consume-consumption :
    (acquired : Bool) (file file' : LedgerFile) (k c : Seal) (r : HoldoutConsumption)
    → consume acquired file k r ≡ ok file'
    → (consumption true file k ≡ ok none)
      × (consumption true file' c ≡ (if k == c then ok (some r) else consumption true file c))
unfolding consume consumption
consume-consumption acquired file file' k c r h =
    let (u, e, h1) = >>=-eq-ok (raise_if (not acquired) _) _ h in
    let (entries, re, h2) = >>=-eq-ok (read_unlocked file) _ h1 in
    ground (arith, lookup-put c k r entries)

consume-found :
    (acquired : Bool) (file file' : LedgerFile) (k : Seal) (r : HoldoutConsumption)
    → consume acquired file k r ≡ ok file'
    → consumption true file' k ≡ ok (some r)
consume-found acquired file file' k r h =
    ground (arith, consume-consumption acquired file file' k k r h)

require-consumption :
    (file : LedgerFile) (k : Seal) (r : HoldoutConsumption)
    → consumption true file k ≡ ok (some r)
    → require_consumption true file k r.protocol_seal r.verdict_seal r.measurement_set_seal r.epoch
      ≡ ok r
unfolding require_consumption
require-consumption file k r h = rw h (ground arith)

module _ (measurement_seal : MeasurementSet → Seal) where
  record-holdout :
      (acquired : Bool) (ms : MeasurementSet) (v : Verdict) (file : LedgerFile) (at : Timestamp)
      (after : Option LedgerFile)
      → record_verdict measurement_seal acquired ms v (some file) (some at) ≡ ok after
      → v.split ≡ holdout
      → (file' : LedgerFile) × (after ≡ some file')
        × (consume acquired file v.corpus_seal (receipt_for measurement_seal ms at v) ≡ ok file')
  record-holdout acquired ms v file at after h e =
      let t : same_split v.split holdout ≡ true = ap (λ s. same_split s holdout) e in
      let (file', c, h1) =
        >>=-eq-ok (consume acquired file v.corpus_seal (receipt_for measurement_seal ms at v)) _
          (rw (t, record_verdict) at h) in
      (file', cc, c)

  module _ (mean : FiniteFloat → FiniteFloat → Option FiniteFloat)
      (protocol_seal : Preregistration → Seal) (seal_body : VerdictBody → Seal) where
    -- An evaluation that returns a verdict on the holdout leaves a ledger in which the corpus was
    -- not spent before and now has a receipt that binds the protocol's seal, the verdict's seal,
    -- the seal of the measurements and the epoch, so that the receipt is found when it is required
    -- for that evidence; what is recorded of the other corpora stays.
    pub evaluate-require_consumption :
        (acquired : Bool) (p : Preregistration) (ms : MeasurementSet) (file : LedgerFile)
        (at : Timestamp) (v : Verdict) (after : Option LedgerFile) (c : Seal)
        → evaluate measurement_seal mean protocol_seal seal_body acquired p ms (some file) (some at)
          ≡ ok (v, after)
        → v.split ≡ holdout
        → (file' : LedgerFile) × (after ≡ some file')
          × (consumption true file v.corpus_seal ≡ ok none)
          × (require_consumption true file' v.corpus_seal
                (protocol_seal p)
                v.verdict_seal
                (measurement_seal ms)
                p.epoch
              ≡ ok (receipt_for measurement_seal ms at v))
          × (consumption true file' c ≡ (
              if v.corpus_seal == c
              then ok (some (receipt_for measurement_seal ms at v))
              else consumption true file c))
    unfolding evaluate
    evaluate-require_consumption acquired p ms file at v after c h e =
        let (w, sw, h1) = >>=-eq-ok (score_measurements mean protocol_seal seal_body p ms) _ h in
        let (aft, ra, h2) =
          >>=-eq-ok (record_verdict measurement_seal acquired ms w (some file) (some at)) _ h1 in
        let (same, after_eq) : (w ≡ v) × (after ≡ aft) = (cc, cc) in
        let sv : score_measurements mean protocol_seal seal_body p ms ≡ ok v = sw ∙ ap ok same in
        let rv : record_verdict measurement_seal acquired ms v (some file) (some at) ≡ ok aft =
          subst (λ x. record_verdict measurement_seal acquired ms x (some file) (some at) ≡ ok aft)
            same ra in
        let (file', af, co) = record-holdout acquired ms v file at aft rv e in
        let r = receipt_for measurement_seal ms at v in
        let (a, b) = consume-consumption acquired file file' v.corpus_seal c r co in
        let k = v.corpus_seal in
        let found = consume-found acquired file file' k r co in
        let (ps, ep) = bound mean protocol_seal seal_body p ms v sv in
        (
          file',
          after_eq ∙ af,
          a,
          subst
              (λ x.
                require_consumption true file' k x v.verdict_seal (measurement_seal ms) p.epoch
                ≡ ok r)
              ps
              (subst
                (λ x.
                  require_consumption true file' k v.protocol_seal v.verdict_seal
                    (measurement_seal ms) x
                  ≡ ok r)
                ep (require-consumption file' k r found)),
          b,
        )
