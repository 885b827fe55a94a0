-- ===== src/Events.antt =====
-- internal/controller/*/controller.go, SetupWithManager: the filters of the events that the
-- controllers are woken by. A predicate that `predicate.Funcs` does not name lets its events
-- through.
pub mod Wakes
use s3_operator.Prelude.{Bool, true, false, not, ◌||◌, ◌=ℕ◌}
use s3_operator.Effect.{Exit, returned, panicked}
use s3_operator.Api.{ObjectMeta, S3User, Secret}

-- An object of an event. The controller of users watches S3Users, and the secrets that they own.
pub data Watched : Type 0 where
  s3_user : S3User → Watched
  secret : Secret → Watched
  another : ObjectMeta → Watched

abbrev pub meta_of : Watched → ObjectMeta
meta_of (s3_user u) = u.meta
meta_of (secret s) = s.meta
meta_of (another m) = m

-- The flag of a deletion is `DeleteStateUnknown`.
pub data Event : Type 0 where
  created : Watched → Event
  updated : Watched → Watched → Event
  deleted : Watched → Bool → Event

-- `e.ObjectOld.GetGeneration() != e.ObjectNew.GetGeneration()`
unfoldable pub generation_changed : Watched → Watched → Bool
generation_changed old new = not ((meta_of old).generation =ℕ (meta_of new).generation)

-- The filter of the controllers of buckets, paths, policies and S3 instances.
unfoldable pub resource_filter : Event → Bool
resource_filter (created o) = true
resource_filter (updated old new) = generation_changed old new
resource_filter (deleted o delete_state_unknown) = not delete_state_unknown

-- `UpdateFunc` of the controller of users: what is no S3User is asserted to be a secret.
unfoldable pub update_func : Watched → Watched → Exit Bool
update_func old (s3_user u) = returned (generation_changed old (s3_user u) || false)
update_func old (secret s) = returned (generation_changed old (secret s) || true)
update_func old (another m) = panicked

-- `CreateFunc` of the controller of users.
unfoldable pub create_func : Watched → Bool
create_func (s3_user u) = true
create_func (secret s) = false
create_func (another m) = false

-- The filter of the controller of users.
unfoldable pub user_filter : Event → Exit Bool
user_filter (created o) = returned (create_func o)
user_filter (updated old new) = update_func old new
user_filter (deleted o delete_state_unknown) = returned (not delete_state_unknown)
