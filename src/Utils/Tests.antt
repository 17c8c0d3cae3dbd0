-- ===== src/Utils/Tests.antt =====
-- Runs of the helpers.
use diracx.Prelude.{ℕ, Bool, none, if◌then◌else◌, ◌≡◌, refl, true, false, List, [], ◌∷◌, arith}
use diracx.Prelude.Outcome.{ok, err, key_error, not_ready_error}
use diracx.Utils.Batched.{batched_async}
use diracx.Utils.Batched.Laws.{concat, are_full, batched_async-chunks}
use diracx.Utils.Cache.{
  KeyState, answers, waits, empty_key, get, get_soft, get_slow, read_hard, submit, after_wait,
  store, gets, works, Reaches, start, next,
}
use diracx.Utils.Cache.Runs.{IsSingle, Reaches-IsSingle, Reaches-fails}

abbrev items : List ℕ
items = 1 ∷ 2 ∷ 3 ∷ 4 ∷ 5 ∷ []

batched_async-chunks_example :
    (concat (batched_async 2 false items).yielded ≡ items)
    × (are_full 2 (batched_async 2 false items).yielded ≡ true)
    × ((batched_async 2 false items).ended ≡ ok tt)
batched_async-chunks_example = batched_async-chunks 2 items (omega arith)

abbrev all_truthy : ℕ → Bool
all_truthy n = true

-- after a call that found nothing
abbrev pending : KeyState ℕ
pending = record { soft = none; hard = none; has_future = true; workers = 1 }

abbrev populated : KeyState ℕ
populated = store 7 0 pending

first_call : Reaches all_truthy empty_key pending
unfolding get get_soft get_slow read_hard submit
first_call = next empty_key empty_key pending (start empty_key) (gets true true empty_key)

populated-run : Reaches all_truthy empty_key populated
populated-run = next empty_key pending populated first_call (works 7 0 pending refl)

Reaches-IsSingle_example : IsSingle populated
Reaches-IsSingle_example = Reaches-IsSingle all_truthy populated populated-run

-- after the first call, once its population failed
abbrev failed : KeyState ℕ
failed = record pending { workers = 0 }

Reaches-fails_example :
    ((get all_truthy true true failed).1 ≡ (if true then waits else answers (err not_ready_error)))
    × (after_wait failed ≡ err key_error)
    × (failed.workers ≡ 0)
Reaches-fails_example =
    Reaches-fails all_truthy failed failed true true
      (record { no_soft = refl; no_hard = refl; registered = refl; idle = refl }) (start failed)
