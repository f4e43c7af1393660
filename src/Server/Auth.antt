-- ===== src/Server/Auth.antt =====
-- Who calls. The package `auth` of rbac-manager is not part of the repository: what it extracts from
-- a context is a parameter, and of its types the fields that the program reads or writes are kept.
use cluster_monitor.Prelude.{String, Bool, true, false, Option, none, some, List, [], ◌∷◌}
use cluster_monitor.Go.Result.{Result, ok, err, status, unauthenticated}

pub record AssignedKubernetesEnv : Type 0 where
  pub cluster_id : String
  pub namespace : String

pub record UserInfo : Type 0 where
  pub organization_id : String
  pub project_id : String
  pub assigned_kubernetes_envs : List AssignedKubernetesEnv
  pub tenant_id : String

pub record ClusterInfo : Type 0 where
  pub cluster_id : String
  pub cluster_name : String
  pub tenant_id : String

abbrev pub default_cluster_id : String
default_cluster_id = "default"

abbrev pub default_project_id : String
default_project_id = "default"

abbrev pub default_tenant_id : String
default_tenant_id = "default-tenant-id"

-- the user that `fakeAuthInto` puts into a context
abbrev pub fake_user : UserInfo
fake_user = record {
  organization_id = "default";
  project_id = default_project_id;
  assigned_kubernetes_envs = record { cluster_id = default_cluster_id; namespace = "default" } ∷ [];
  tenant_id = default_tenant_id;
}

-- `extractClusterInfoFromContext`; `extracted` is what `auth.ExtractClusterInfoFromContext` finds
unfoldable pub extract_cluster_info : Bool → Option ClusterInfo → Result ClusterInfo
extract_cluster_info false extracted =
    ok
      (record { cluster_id = default_cluster_id; cluster_name = ""; tenant_id = default_tenant_id })
extract_cluster_info true none = err (status unauthenticated)
extract_cluster_info true (some info) = ok info
