-- ===== src/Tests/Challenge.antt =====
-- Attempts at a challenge on the store in memory.
use kisauth.Base.{◌+◌, ◌≡◌, some, false, refl}
use kisauth.Records.{ChallengeRecord}
use kisauth.Redis.Memory.{Cells, memory, nothing}
use kisauth.Challenge.{create_challenge, get_challenge, resave, increment_attempts}
use kisauth.Challenge.Attempts.{ReadsAs, increment_attempts-ReadsAs}

abbrev fresh : ChallengeRecord
fresh = record {
  purpose = "recovery";
  client_id = "kis-django";
  kis_user_id = some "u1";
  auth_identity_id = some "i1";
  attempt_count = 0;
  max_attempts = 5;
  used = false;
}

abbrev waiting : Cells
waiting = create_challenge memory 0 "ch" fresh 30 nothing

counted : (increment_attempts memory (λ σ. σ) (λ σ. σ) 1000 1001 1002 "ch" waiting).0 ≡ some 1
unfolding increment_attempts resave get_challenge create_challenge
counted = refl

increment_attempts-ReadsAs_example :
    (found : ChallengeRecord) × (get_challenge memory 1000 "ch" waiting ≡ some found)
    × (1 ≡ found.attempt_count + 1)
    × ReadsAs memory 1002 "ch"
        (record found { attempt_count = 1 })
        (increment_attempts memory (λ σ. σ) (λ σ. σ) 1000 1001 1002 "ch" waiting).1
increment_attempts-ReadsAs_example =
    increment_attempts-ReadsAs memory (λ σ. σ) (λ σ. σ) 1000 1001 1002 "ch" waiting 1 counted
