-- ===== src/Main/Setup.antt =====
-- internal/controller/*/controller.go: what SetupWithManager asks for.
use s3_operator.Prelude.{true, false}
use s3_operator.Effect.{Result, Eff, returned}
use s3_operator.Cluster.{Reconciler}
use s3_operator.Events.{resource_filter, user_filter}
use s3_operator.Main.Interface.{Builder, s3_instance, bucket, path, policy, s3_user, Manager}

unfoldable pub bucket_builder : Builder
bucket_builder = record {
  kind = bucket;
  named = "bucket";
  owns_secrets = false;
  event_filter = λ e. returned (resource_filter e);
  max_concurrent_reconciles = 10;
}

unfoldable pub path_builder : Builder
path_builder = record {
  kind = path;
  named = "path";
  owns_secrets = false;
  event_filter = λ e. returned (resource_filter e);
  max_concurrent_reconciles = 10;
}

unfoldable pub policy_builder : Builder
policy_builder = record {
  kind = policy;
  named = "policy";
  owns_secrets = false;
  event_filter = λ e. returned (resource_filter e);
  max_concurrent_reconciles = 10;
}

unfoldable pub s3_instance_builder : Builder
s3_instance_builder = record {
  kind = s3_instance;
  named = "s3instance";
  owns_secrets = false;
  event_filter = λ e. returned (resource_filter e);
  max_concurrent_reconciles = 10;
}

unfoldable pub s3_user_builder : Builder
s3_user_builder = record {
  kind = s3_user;
  named = "s3User";
  owns_secrets = true;
  event_filter = user_filter;
  max_concurrent_reconciles = 10;
}

-- `SetupWithManager`, of the controller that the builder is for.
abbrev pub setup_with_manager :
    {W C : Type 0} → Builder → Reconciler W → Manager W C → Eff W (Result (Unit {0}))
setup_with_manager builder r mgr = mgr.complete builder r
