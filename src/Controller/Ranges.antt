-- ===== src/Controller/Ranges.antt =====
-- cmd/partition-controller/main.go: how the partitions are divided among the reader pods, and the
-- text that tells them so.
use my_queue.Base.{
  ℕ, zero, suc, ◌+◌, ◌-◌, ◌/◌, [], ◌∷◌, ◌++◌, ℤ, pos, negsuc, sub_ℕ, scale, Str, decimal, decimal_ℤ,
  ◌==◌, if◌then◌else◌,
}

-- Go's integer division by a positive number truncates.
abbrev pub quot : ℤ → ℕ → ℤ
quot (pos n) k = pos (n / k)
quot (negsuc n) k = sub_ℕ 0 (suc n / k)

-- z - 1
abbrev pub pred_ℤ : ℤ → ℤ
pred_ℤ (pos zero) = negsuc 0
pred_ℤ (pos (suc n)) = pos n
pred_ℤ (negsuc n) = negsuc (suc n)

-- start and end of pod `i`. Products of a pod number and a share stay within the total.
unfoldable pub range_of : ℤ → ℕ → ℕ → ℤ × ℤ
range_of total replicas i =
    let per_pod = quot total replicas in
    (scale per_pod i, (if i == replicas - 1 then pred_ℤ total else pred_ℤ (scale per_pod (i + 1))))

abbrev pub pod_name : Str → ℕ → Str
pod_name ss_name i = ss_name ++ b'-' ∷ decimal i

abbrev pub range_text : ℤ × ℤ → Str
range_text r = decimal_ℤ r.0 ++ b'-' ∷ decimal_ℤ r.1

-- One Fprintf: the pod's name, a colon, the range in double quotes, a line feed.
abbrev pub yaml_line : Str → Str → Str
yaml_line key value = key ++ (b':' ∷ 32 ∷ 34 ∷ (value ++ (34 ∷ 10 ∷ [])))

-- The loop, with `left` rounds to go from pod `i`.
unfoldable pub yaml_lines : Str → ℤ → ℕ → ℕ → ℕ → Str
yaml_lines ss_name total replicas i zero = []
yaml_lines ss_name total replicas i (suc left) =
    yaml_line (pod_name ss_name i) (range_text (range_of total replicas i))
    ++ yaml_lines ss_name total replicas (i + 1) left

-- A replica count that is not positive counts as one.
abbrev pub at_least_one : ℤ → ℕ
at_least_one (pos zero) = 1
at_least_one (pos (suc n)) = suc n
at_least_one (negsuc n) = 1

unfoldable pub compute_partitions_yaml : Str → ℤ → ℤ → Str
compute_partitions_yaml ss_name replicas total =
    let n = at_least_one replicas in yaml_lines ss_name total n 0 n
