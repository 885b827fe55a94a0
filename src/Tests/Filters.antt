-- ===== src/Tests/Filters.antt =====
-- The filter of the controller of users, at an event.
use s3_operator.Prelude.{true, ◌≡◌, ◌↔◌}
use s3_operator.Effect.{returned}
use s3_operator.Events.{s3_user, secret, updated, user_filter}
use s3_operator.Events.Wakes.{Wakes, user_filter_iff}
use s3_operator.Tests.World.{ana, main_keys}

user_filter_iff_example :
    (user_filter (updated (s3_user ana) (secret main_keys)) ≡ returned true)
    ↔ Wakes (updated (s3_user ana) (secret main_keys))
user_filter_iff_example = user_filter_iff (updated (s3_user ana) (secret main_keys)) (tt, tt)
