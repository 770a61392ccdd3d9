-- ===== src/Examples/Service.antt =====
-- The theorems on sequences of calls, at a capture, its execution and its review.
use real_ming.Base.{List, [], ◌∷◌}
use real_ming.Store.Replay.{Replays}
use real_ming.Store.Backing.{Backs}
use real_ming.Store.Keys.{Keyed}
use real_ming.Store.Trail.{Appended}
use real_ming.Gateway.Service.{
  Call, submitting_action, acknowledging, executing_item, reviewing, started, served,
  served-Replays, served-Backs, served-Keyed, served-Appended,
}
use real_ming.Examples.{surroundings, ceo_action, review_by, numbered}

abbrev day : List Call
day =
    acknowledging ceo_action
    ∷ executing_item "id-0"
    ∷ submitting_action ceo_action
    ∷ reviewing (review_by "ceo:ming")
    ∷ []

served-Replays_example : Replays (served surroundings day (started numbered)).database
served-Replays_example = served-Replays surroundings numbered day

served-Backs_example : Backs (served surroundings day (started numbered)).database
served-Backs_example = served-Backs surroundings numbered day

served-Keyed_example : Keyed (served surroundings day (started numbered)).database
served-Keyed_example = served-Keyed surroundings numbered day

served-Appended_example :
    Appended (started numbered).database (served surroundings day (started numbered)).database
served-Appended_example = served-Appended surroundings day (started numbered)
