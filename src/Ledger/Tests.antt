-- ===== src/Ledger/Tests.antt =====
-- The theorems of the ledger on a store of two episodes.
use latent_compass.Prelude.{ℕ, ◌+◌, ◌*◌, ◌≡◌, refl, true, false, not, [], ◌∷◌, ◌++◌, ok, str_eq}
use latent_compass.Contracts.{Identifier, codex, same_family}
use latent_compass.Ledger.{Episode, Row, Store, Outside}
use latent_compass.Ledger.Verify.{
  row_findings, tail_of, tombstone_findings, orphan_findings, verify,
}
use latent_compass.Ledger.Writing.{
  create, row_for, with_row, receipt_of, append, stone_for, with_tombstone, tombstone,
}
use latent_compass.Ledger.Growth.{Answers, append-Answers}
use latent_compass.Ledger.Redaction.{Redacts, tombstone-find_row}
use latent_compass.Ledger.Integrity.{
  created, appended, redacted, Reachable-verify, truncated, verify-truncated,
}

-- Checksums in the place of the seals.
abbrev host : Outside
host = record {
  seal_genesis = λ i. 1000 + i.store_id;
  chain_seal = λ seq id content previous at. 7 * previous + 3 * content + seq + id + at;
  anchor_seal = λ genesis count tail status. genesis + 2 * count + 5 * tail;
  content_seal = λ e. e.episode_id + e.remaining;
  episode_is_valid = λ e. true;
  reason_is_valid = λ r. not (str_eq r "");
}

abbrev episode : Identifier → ℕ → Episode
episode i content = record {
  schema_version = "1.0.0";
  episode_id = i;
  provenance = record { host_id = 2; agent_family = codex; store_id = 1; epoch = 3 };
  remaining = content;
}

abbrev empty_store : Store
empty_store = create host 1 2 codex 3 10

abbrev first_row : Row
first_row = row_for host empty_store (episode 60 5) 11

abbrev one_episode : Store
one_episode = with_row host empty_store first_row

abbrev second_row : Row
second_row = row_for host one_episode (episode 61 6) 12

abbrev two_episodes : Store
two_episodes = with_row host one_episode second_row

abbrev erased : Store
erased = with_tombstone host two_episodes (stone_for 60 "asked for" 13)

first_is_appended :
    append host empty_store (episode 60 5) 11 ≡ ok (receipt_of host first_row, one_episode)
unfolding append verify row_findings tail_of tombstone_findings orphan_findings create same_family
first_is_appended = refl

second_is_appended :
    append host one_episode (episode 61 6) 12 ≡ ok (receipt_of host second_row, two_episodes)
unfolding append verify row_findings tail_of tombstone_findings orphan_findings create same_family
second_is_appended = refl

first_is_erased :
    tombstone host two_episodes 60 "asked for" 13 ≡ ok (stone_for 60 "asked for" 13, erased)
unfolding tombstone verify row_findings tail_of tombstone_findings orphan_findings create
    same_family
first_is_erased = refl

two_episodes-verify : (verify host two_episodes).is_ok ≡ true
unfolding verify row_findings tail_of tombstone_findings orphan_findings create same_family
two_episodes-verify = refl

two_episodes_have_rows : two_episodes.rows ≡ (first_row ∷ []) ++ second_row ∷ []
unfolding create
two_episodes_have_rows = refl

append-Answers_example :
    Answers host one_episode (episode 61 6) 12 (append host one_episode (episode 61 6) 12)
append-Answers_example = append-Answers host one_episode (episode 61 6) 12

tombstone-find_row_example : Redacts host two_episodes 60 61 (stone_for 60 "asked for" 13) erased
tombstone-find_row_example =
    tombstone-find_row host two_episodes erased 60 61 "asked for" 13 (stone_for 60 "asked for" 13)
      first_is_erased

Reachable-verify_example : (verify host erased).is_ok ≡ true
Reachable-verify_example = Reachable-verify host erased (
    redacted two_episodes erased 60 "asked for" 13 (stone_for 60 "asked for" 13)
      (appended one_episode two_episodes (episode 61 6) 12 (receipt_of host second_row)
        (appended empty_store one_episode (episode 60 5) 11 (receipt_of host first_row)
          (created 1 2 codex 3 10 empty_store refl) first_is_appended)
        second_is_appended)
      first_is_erased)

verify-truncated_example :
    (verify host (truncated host two_episodes (first_row ∷ []))).is_ok ≡ false
verify-truncated_example =
    verify-truncated host two_episodes (first_row ∷ []) [] second_row two_episodes-verify
      two_episodes_have_rows
