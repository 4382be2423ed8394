-- ===== src/Protocol/Race/Tests.antt =====
-- The theorems of racing processes at a concrete interleaving.
use latent_compass.Prelude.{ℕ, ◌≡◌, ◌≢◌, refl, true, some, [], ok}
use latent_compass.Protocol.Holdout.{missing, consumption}
use latent_compass.Protocol.Race.{
  Call, System, calls, creates_lock, reads, replaces_file, next, initial, Reachable, start, step,
  spent,
}
use latent_compass.Protocol.Race.Spending.{Reachable-spent, Reachable-already}
use latent_compass.Protocol.Tests.{receipt, spent_file}

-- Two processes race for corpus 203: the first is about to release the lock and the second waits.
abbrev caller : Call
caller = (203, receipt)

abbrev called : System
called = next (initial missing) (calls 0 caller refl)

abbrev both : System
both = next called (calls 1 caller refl)

abbrev locked : System
locked = next both (creates_lock 0 caller refl refl)

abbrev read : System
read = next locked (reads 0 caller [] refl refl)

abbrev raced : System
raced = next read (replaces_file 0 caller [] spent_file refl refl)

raced_is_Reachable : Reachable missing raced
raced_is_Reachable =
    step read raced (replaces_file 0 caller [] spent_file refl refl)
      (step locked read (reads 0 caller [] refl refl)
        (step both locked (creates_lock 0 caller refl refl)
          (step called both (calls 1 caller refl)
            (step (initial missing) called (calls 0 caller refl) (start (initial missing) refl)
              refl)
            refl)
          refl)
        refl)
      refl

Reachable-spent_example :
    ◌≡◌ {A = ℕ} 0 0 × (consumption true raced.file caller.0 ≡ ok (some caller.1))
Reachable-spent_example =
    Reachable-spent missing raced raced_is_Reachable 0 0 caller caller refl refl refl

spent_before : consumption true spent_file 203 ≡ ok (some receipt)
unfolding consumption
spent_before = refl

Reachable-already_example :
    (spent ((next (initial spent_file) (calls 1 caller refl)).process 1) ≢ some (203, receipt))
    × (consumption true (next (initial spent_file) (calls 1 caller refl)).file 203
        ≡ ok (some receipt))
Reachable-already_example =
    Reachable-already spent_file 203 receipt spent_before
      (next (initial spent_file) (calls 1 caller refl)) 1 receipt
      (step (initial spent_file) (next (initial spent_file) (calls 1 caller refl))
        (calls 1 caller refl) (start (initial spent_file) refl) refl)
