-- ===== src/Tests/Controller.antt =====
-- The controller's theorems, on a few partitions and pods.
use my_queue.Base.{ℕ, ◌<◌, ◌≡◌, arith, pos, bytes, some}
use my_queue.Writer.Hash.{partition_for}
use my_queue.Controller.Ranges.{range_of, pod_name, compute_partitions_yaml}
use my_queue.Controller.Coverage.{Within}
use my_queue.Controller.Reconcile.{Api, Config, ApiLaws, yaml_for, reconcile}
use my_queue.Base.{decimal, ℤ, Assoc, Str, ok, err, refl, negsuc, []}
use my_queue.Controller.Watch.{entry, scaled_back_is_stale}
use my_queue.Controller.Load.{load_partition_range}
use my_queue.Controller.Assigned.{pod_loads_its_range, one_pod_serves}
use my_queue.Tests.Yaml.{test_unmarshal, test_yaml}

-- A cluster of one ConfigMap, which starts out empty, and a StatefulSet of three pods.
abbrev test_api : Api
test_api = record {
  World = Assoc Str;
  get_replicas = λ w. (ok (some (pos 3)), w);
  get_data = λ w. (ok (some w), w);
  update = λ w entries. (ok tt, entries);
  patch = λ w text. (ok tt, w);
}

abbrev test_config : Config
test_config = record { ss_name = bytes "mqreader"; total_partitions = pos 256 }

test_laws : ApiLaws test_api test_config
test_laws = record {
  config = λ w. w;
  update-ok = λ w entries u e. refl;
  patch-config = λ w text. refl;
}

abbrev started : Assoc Str × ℤ
started = reconcile test_api test_config [] (negsuc 0) (bytes "now")

-- A cluster whose replica count is the first of its state, and which refuses patches.
abbrev stubborn_api : Api
stubborn_api = record {
  World = ℤ × Assoc Str;
  get_replicas = λ w. (ok (some w.0), w);
  get_data = λ w. (ok (some w.1), w);
  update = λ w entries. (ok tt, (w.0, entries));
  patch = λ w text. (err (bytes "refused"), w);
}

stubborn_laws : ApiLaws stubborn_api test_config
stubborn_laws = record {
  config = λ w. w.1;
  update-ok = λ w entries u e. refl;
  patch-config = λ w text. refl;
}

abbrev after_failure : (ℤ × Assoc Str) × ℤ
after_failure = reconcile stubborn_api test_config (pos 4, []) (pos 3) (bytes "now")

scaled_back_is_stale_example :
    let t' =
      reconcile stubborn_api test_config
        (pos 3, after_failure.0.1)
        after_failure.1
        (bytes "later") in
    (t'.1 ≡ pos 3)
    × (entry stubborn_api test_config stubborn_laws t'.0
        ≡ some (yaml_for stubborn_api test_config (pos 4)))
unfolding stubborn_laws
scaled_back_is_stale_example =
    scaled_back_is_stale stubborn_api test_config stubborn_laws (pos 4, [])
      (pos 3, after_failure.0.1) (pos 3) (pos 4) (bytes "now") (bytes "later") (bytes "refused")
      (some []) (λ v. refl) refl refl refl refl refl refl refl

pod_loads_its_range_example :
    load_partition_range test_unmarshal
      (ok (compute_partitions_yaml (bytes "mqreader") (pos 3) (pos 256)))
      (bytes "mqreader-1")
      (bytes "host")
      (pos 0, pos 127)
    ≡ range_of (pos 256) 3 1
unfolding decimal
pod_loads_its_range_example =
    pod_loads_its_range test_unmarshal test_yaml (bytes "mqreader") (bytes "host") 256 3 1
      (pos 0, pos 127) (refl, (refl, (refl, (refl, (refl, (refl, (refl, (refl, tt))))))))
      (omega arith) (omega arith)

abbrev loaded : ℕ → ℤ × ℤ
loaded i =
    load_partition_range test_unmarshal
      (ok (compute_partitions_yaml (bytes "mq") (pos 3) (pos 256))) (pod_name (bytes "mq") i)
      (bytes "host") (pos 0, pos 127)

one_pod_serves_example :
    (p i : ℕ) × (partition_for (bytes "GPU-0") (pos 256) ≡ some p)
    × (i < 3)
    × Within (loaded i) p
    × ((j : ℕ) → j < 3 → Within (loaded j) p → j ≡ i)
one_pod_serves_example =
    one_pod_serves test_unmarshal test_yaml (bytes "GPU-0") (bytes "mq") (λ i. bytes "host")
      (λ i. (pos 0, pos 127)) 256 3 (refl, (refl, tt)) (omega arith) (omega arith) (omega arith)
