-- ===== src/Controller/Settings.antt =====
-- What main of cmd/partition-controller/main.go reads of its environment, and the reconciler that it
-- sets up. The host name is an argument.
use my_queue.Base.{[], ℤ, pos, negsuc, Str, bytes, Result, ok, err}
use my_queue.Config.{non_empty, read_int}
use my_queue.Controller.Reconcile.{Config}

pub record Settings : Type 0 where
  pub namespace : Str
  pub ss_name : Str
  pub cm_name : Str
  pub total_partitions : ℤ
  pub port : Str
  pub pod_name : Str

-- An error is dropped.
unfoldable pub must_hostname : Result Str → Str
must_hostname (ok name) = name
must_hostname (err e) = []

module _ (getenv : Str → Str) where
  unfoldable pub get_env : Str → Str → Str
  get_env key fallback = non_empty fallback (getenv key)

  unfoldable pub get_env_int : Str → ℤ → ℤ
  get_env_int key fallback = read_int fallback (getenv key)

  unfoldable pub read_settings : Result Str → Settings
  unfolding get_env get_env_int must_hostname
  read_settings hostname = record {
    namespace = get_env (bytes "NAMESPACE") (bytes "default");
    ss_name = get_env (bytes "STATEFULSET_NAME") (bytes "prompted-mqreader");
    cm_name = get_env (bytes "CONFIGMAP_NAME") (bytes "prompted-mqreader-partitions");
    total_partitions = get_env_int (bytes "TOTAL_PARTITIONS") (pos 256);
    port = get_env (bytes "PORT") (bytes "8090");
    pod_name = get_env (bytes "POD_NAME") (must_hostname hostname);
  }

-- The reconciler's fixed fields, and its first lastReplicas.
abbrev pub new_reconciler : Settings → Config × ℤ
new_reconciler s = (record { ss_name = s.ss_name; total_partitions = s.total_partitions }, negsuc 0)
