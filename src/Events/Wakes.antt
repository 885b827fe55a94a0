-- ===== src/Events/Wakes.antt =====
-- Which events wake the controller of users.
use mathlib.Core.Bool.{false≢true}
use s3_operator.Prelude.{
  ℕ, Bool, true, false, not, ◌||◌, ◌=ℕ◌, ◌≡◌, ◌↔◌, refl, Bool-cases, inl, inr, arith, ap,
}
use s3_operator.Effect.{returned, returned_injective}
use s3_operator.Api.{S3User, Secret}
use s3_operator.Events.{
  Watched, s3_user, secret, another, meta_of, Event, created, updated, deleted, generation_changed,
  update_func, create_func, user_filter,
}

-- An event of the kinds that the controller watches.
abbrev pub IsUserOrSecret : Watched → Type 0
IsUserOrSecret (s3_user u) = Unit
IsUserOrSecret (secret s) = Unit
IsUserOrSecret (another m) = ⊥

abbrev pub IsWatched : Event → Type 0
IsWatched (created o) = IsUserOrSecret o
IsWatched (updated old new) = IsUserOrSecret old × IsUserOrSecret new
IsWatched (deleted o unknown) = IsUserOrSecret o

-- What the controller is to be woken by.
pub data Wakes : Event → Type 0 where
  user_created : (u : S3User) → Wakes (created (s3_user u))
  spec_changed :
      (old new : Watched)
      → ¬ ((meta_of old).generation ≡ (meta_of new).generation)
      → Wakes (updated old new)
  secret_written : (old : Watched) (s : Secret) → Wakes (updated old (secret s))
  deletion_seen : (o : Watched) → Wakes (deleted o false)

Wakes-created : (o : Watched) → Wakes (created o) → create_func o ≡ true
unfolding create_func
Wakes-created o (user_created u) = refl

Wakes-user :
    (old : Watched) (u : S3User)
    → Wakes (updated old (s3_user u))
    → ¬ ((meta_of old).generation ≡ u.generation)
Wakes-user old u (spec_changed _ _ d) = d

Wakes-deleted : (o : Watched) (unknown : Bool) → Wakes (deleted o unknown) → not unknown ≡ true
Wakes-deleted o unknown (deletion_seen _) = refl

Wakes-seen : (o : Watched) (unknown : Bool) → not unknown ≡ true → Wakes (deleted o unknown)
Wakes-seen o false h = deletion_seen o
Wakes-seen o true h = absurd (false≢true h)

||-one : (b : Bool) → (b || true) ≡ true
||-one b = ground arith

differ_iff : (a b : ℕ) → ((not (a =ℕ b) || false) ≡ true) ↔ (¬ (a ≡ b))
differ_iff a b = (
  λ h e. absurd (false≢true (ground arith)),
  λ d. elim (Bool-cases (a =ℕ b)) [ inl t ↦ absurd (d (ground (arith, t))) | inr f ↦ rw f refl ],
)

-- Of the objects that the controller watches, an event passes the filter of the controller of
-- users, and the filter answers without a panic, exactly if it is the creation of an S3User, a
-- change of an object's generation, the write of a secret, or a deletion that was seen.
pub user_filter_iff : (e : Event) → IsWatched e → (user_filter e ≡ returned true) ↔ Wakes e
unfolding user_filter create_func update_func generation_changed
user_filter_iff (created (s3_user u)) h = (λ _. user_created u, λ _. refl)
user_filter_iff (created (secret s)) h = (
  λ e. absurd (false≢true (returned_injective e)),
  λ w. absurd (false≢true (Wakes-created (secret s) w)),
)
user_filter_iff (created (another m)) h = absurd h
user_filter_iff (updated old (s3_user u)) h =
    let (there, back) = differ_iff (meta_of old).generation u.generation in
    (
      λ e. spec_changed old (s3_user u) (there (returned_injective e)),
      λ w. ap returned (back (Wakes-user old u w)),
    )
user_filter_iff (updated old (secret s)) h =
    (λ _. secret_written old s, λ _. ap returned (||-one _))
user_filter_iff (updated old (another m)) h = absurd h.1
user_filter_iff (deleted o unknown) h =
    (λ e. Wakes-seen o unknown (returned_injective e), λ w. ap returned (Wakes-deleted o unknown w))
