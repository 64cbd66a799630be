-- ===== src/Controller/Assigned.antt =====
-- What a reader pod loads from the ConfigMap that the controller writes.
use mathlib.Core.List.{append_cancel_left}
use mathlib.Core.Path.{subst}
use native.Mathlib.Nat.{mul-le-mul_right, mul-div-le, mul_comm}
use my_queue.Base.{
  ℕ, zero, suc, ◌+◌, ◌-◌, ◌*◌, ◌/◌, ◌≤◌, ◌<◌, ◌≡◌, ◌≢◌, refl, sym, ap, ◌∙◌, ◌⊎◌, inl, inr, Bool,
  true, false, ◌||◌, ◌&&◌, leb, none, some, [], ◌∷◌, ◌++◌, arith, ℤ, pos, negsuc, Str, str_eq,
  str_eq→eq, str_eq_self, Result, ok, Assoc, lookup, All, decimal, decimal-injective, decimal_ℤ,
  decimal-AllDigits, is_digit, AllDigits, IsInt64, Bool-cases, ◌==◌, if◌then◌else◌,
}
use my_queue.Controller.Ranges.{
  pred_ℤ, range_of, pod_name, range_text, yaml_line, yaml_lines, compute_partitions_yaml,
}
use my_queue.Controller.Load.{parse_range, parse_range-range_text, load_partition_range}
use my_queue.Controller.Coverage.{Within, one_reader}
use my_queue.Writer.Hash.{partition_for}

-- A document of one line for each entry.
abbrev pub document : Assoc Str → Str
document [] = []
document ((k, v) ∷ m) = yaml_line k v ++ document m

abbrev pub is_label_byte : ℕ → Bool
is_label_byte c = (leb 97 c && leb c 122) || (is_digit c || c == b'-')

-- A name of a StatefulSet that begins with a letter.
abbrev pub IsName : Str → Type 0
IsName [] = ⊥
IsName (c ∷ cs) = ((leb 97 c && leb c 122) ≡ true) × All (λ d. is_label_byte d ≡ true) cs

-- A text that needs no escape in double quotes.
abbrev pub IsRangeText : Str → Type 0
IsRangeText = All (λ c. (is_digit c || c == b'-') ≡ true)

abbrev pub IsPodEntry : Str × Str → Type 0
IsPodEntry e = ((name : Str) × (i : ℕ) × IsName name × (e.0 ≡ pod_name name i)) × IsRangeText e.1

abbrev pub IsDistinct : Assoc Str → Type 0
IsDistinct [] = Unit
IsDistinct ((k, v) ∷ m) = (lookup k m ≡ none) × IsDistinct m

-- What YAML says of a document of lines with a plain key and a value in double quotes: it is a map
-- from the keys, which are all different, to the values.
pub record YamlLaws (unmarshal : Str → Result (Assoc Str)) : Type 0 where
  pub decodes :
      (m : Assoc Str)
      → All IsPodEntry m
      → IsDistinct m
      → (d : Assoc Str) × (unmarshal (document m) ≡ ok d) × ((k : Str) → lookup k d ≡ lookup k m)

-- The entries from pod `i` on.
entries : Str → ℤ → ℕ → ℕ → ℕ → Assoc Str
entries name total r i zero = []
entries name total r i (suc left) =
    (pod_name name i, range_text (range_of total r i)) ∷ entries name total r (i + 1) left

yaml_lines-entries :
    (name : Str) (total : ℤ) (r i left : ℕ)
    → yaml_lines name total r i left ≡ document (entries name total r i left)
unfolding yaml_lines entries
yaml_lines-entries name total r i zero = refl
yaml_lines-entries name total r i (suc left) =
    ap (◌++◌ (yaml_line (pod_name name i) (range_text (range_of total r i))))
      (yaml_lines-entries name total r (i + 1) left)

pod_name-ne : (name : Str) (i j : ℕ) → i ≢ j → str_eq (pod_name name i) (pod_name name j) ≡ false
pod_name-ne name i j n = elim (Bool-cases (str_eq (pod_name name i) (pod_name name j))) [
  | inl e ↦ absurd (n (same (append_cancel_left name _ _ (str_eq→eq _ _ e))))
  | inr e ↦ e
]
  where
    same : ◌≡◌ {A = Str} (b'-' ∷ decimal i) (b'-' ∷ decimal j) → i ≡ j
    same e = let tails : decimal i ≡ decimal j = cc in decimal-injective i j tails

lookup-entries-none :
    (name : Str) (total : ℤ) (r j i left : ℕ)
    → j < i
    → lookup (pod_name name j) (entries name total r i left) ≡ none
unfolding lookup entries
lookup-entries-none name total r j i zero h = refl
lookup-entries-none name total r j i (suc left) h =
    rw (pod_name-ne name i j (λ e. omega (arith, e, h)))
      (lookup-entries-none name total r j (i + 1) left (omega (arith, h)))

lookup-entries :
    (name : Str) (total : ℤ) (r j i left : ℕ)
    → i ≤ j
    → j < i + left
    → lookup (pod_name name j) (entries name total r i left)
      ≡ some (range_text (range_of total r j))
unfolding lookup entries
lookup-entries name total r j i zero h k = absurd (omega (arith, h, k))
lookup-entries name total r j i (suc left) h k =
    found (Bool-cases (i == j)) (lookup-entries name total r j (i + 1) left)
  where
    found :
        ((i == j) ≡ true) ⊎ ((i == j) ≡ false)
        → (i + 1 ≤ j
            → j < i + 1 + left
            → lookup (pod_name name j) (entries name total r (i + 1) left)
              ≡ some (range_text (range_of total r j)))
        → (if str_eq (pod_name name i) (pod_name name j)
            then some (range_text (range_of total r i))
            else lookup (pod_name name j) (entries name total r (i + 1) left))
          ≡ some (range_text (range_of total r j))
    found (inl e) ih = let same : i ≡ j = ground arith in rw (same, str_eq_self) refl
    found (inr e) ih =
        rw (pod_name-ne name i j (λ x. absurd (ground (arith, x, e))))
          (ih (ground (arith, h, e)) (omega (arith, k)))

entries-IsDistinct :
    (name : Str) (total : ℤ) (r i left : ℕ) → IsDistinct (entries name total r i left)
unfolding entries
entries-IsDistinct name total r i zero = tt
entries-IsDistinct name total r i (suc left) = (
  lookup-entries-none name total r i (i + 1) left (omega arith),
  entries-IsDistinct name total r (i + 1) left,
)

All-or : (s : Str) → AllDigits s → IsRangeText s
All-or [] h = tt
All-or (c ∷ cs) h = (rw h.0 refl, All-or cs h.1)

decimal_ℤ-IsRangeText : (z : ℤ) → IsRangeText (decimal_ℤ z)
unfolding decimal_ℤ
decimal_ℤ-IsRangeText (pos n) = All-or (decimal n) (decimal-AllDigits n)
decimal_ℤ-IsRangeText (negsuc n) = (refl, All-or (decimal (suc n)) (decimal-AllDigits (suc n)))

append-IsRangeText : (a b : Str) → IsRangeText a → IsRangeText b → IsRangeText (a ++ b'-' ∷ b)
append-IsRangeText [] b h k = (refl, k)
append-IsRangeText (c ∷ a) b h k = (h.0, append-IsRangeText a b h.1 k)

entries-IsPodEntry :
    (name : Str) (total : ℤ) (r i left : ℕ)
    → IsName name
    → All IsPodEntry (entries name total r i left)
unfolding entries
entries-IsPodEntry name total r i zero h = tt
entries-IsPodEntry name total r i (suc left) h = (
  (
    (name, i, h, refl),
    append-IsRangeText (decimal_ℤ (range_of total r i).0) (decimal_ℤ (range_of total r i).1)
        (decimal_ℤ-IsRangeText (range_of total r i).0)
        (decimal_ℤ-IsRangeText (range_of total r i).1),
  ),
  entries-IsPodEntry name total r (i + 1) left h,
)

share-le : (t r i : ℕ) → i ≤ r → t / r * i ≤ t
share-le t r i h =
    let part : i * (t / r) ≤ r * (t / r) = mul-le-mul_right (t / r) h in
    let whole : r * (t / r) ≤ t = mul-div-le t r in
    rw (mul_comm (t / r) i) (omega (arith, part, whole))

pred_ℤ-IsInt64 : (x : ℕ) → x < 9223372036854775808 → IsInt64 (pred_ℤ (pos x))
pred_ℤ-IsInt64 zero h = omega arith
pred_ℤ-IsInt64 (suc x) h = omega (arith, h)

parse_range-range_of :
    (t r i : ℕ)
    → i < r
    → t < 9223372036854775808
    → parse_range (range_text (range_of (pos t) r i)) ≡ some (range_of (pos t) r i)
unfolding range_of
parse_range-range_of t r i h k =
    parse_range-range_text (t / r * i) _ (omega (arith, k, share-le t r i (omega (arith, h))))
      (end (Bool-cases (i == r - 1)))
  where
    end :
        ((i == r - 1) ≡ true) ⊎ ((i == r - 1) ≡ false)
        → IsInt64 (if i == r - 1 then pred_ℤ (pos t) else pred_ℤ (pos (t / r * (i + 1))))
    end (inl e) = rw e (pred_ℤ-IsInt64 t k)
    end (inr e) = rw e (
        pred_ℤ-IsInt64 (t / r * (i + 1))
          (omega (arith, k, share-le t r (i + 1) (omega (arith, h)))))

module _ (unmarshal : Str → Result (Assoc Str)) (yaml : YamlLaws unmarshal) where
  open yaml use {decodes}

  -- Each pod of the StatefulSet loads its own range from the ConfigMap that the controller has written
  -- for the number of pods: the range that the division gives it, whatever the environment says.
  -- The name of the set begins with a small letter and holds small letters, digits and dashes,
  -- POD_NAME is the pod's name, there is a pod, the total is a 64-bit integer, and the YAML decoder
  -- reads a map of quoted texts.
  pub pod_loads_its_range :
      (name hostname : Str) (t r i : ℕ) (env : ℤ × ℤ)
      → IsName name
      → i < r
      → t < 9223372036854775808
      → load_partition_range unmarshal
          (ok (compute_partitions_yaml name (pos r) (pos t)))
          (pod_name name i)
          hostname
          env
        ≡ range_of (pos t) r i
  unfolding load_partition_range compute_partitions_yaml
  pod_loads_its_range [] hostname t r i env n h k = absurd n
  pod_loads_its_range (c ∷ cs) hostname t zero i env n h k = absurd (omega (arith, h))
  pod_loads_its_range (c ∷ cs) hostname t (suc r) i env n h k =
      let name = c ∷ cs in
      let m = entries name (pos t) (suc r) 0 (suc r) in
      let (d, decoded, same) =
        decodes m (entries-IsPodEntry name (pos t) (suc r) 0 (suc r) n)
          (entries-IsDistinct name (pos t) (suc r) 0 (suc r)) in
      let file : unmarshal (yaml_lines name (pos t) (suc r) 0 (suc r)) ≡ ok d =
        ap unmarshal (yaml_lines-entries name (pos t) (suc r) 0 (suc r)) ∙ decoded in
      let found : lookup (pod_name name i) d ≡ some (range_text (range_of (pos t) (suc r) i)) =
        same (pod_name name i)
        ∙ lookup-entries name (pos t) (suc r) i 0 (suc r) (omega arith) (omega (arith, h)) in
      rw (file, found, parse_range-range_of t (suc r) i h k) refl

  -- From a GPU ID to the reader that serves it: the partition that the writer gives the ID lies in the
  -- range that exactly one pod of the StatefulSet loads from the controller's ConfigMap. The writer
  -- and the controller are set to the same number of partitions, positive and below 2^32, there is a
  -- pod, the name of the set begins with a small letter and holds small letters, digits and dashes,
  -- POD_NAME is the pod's name, and the YAML decoder reads a map of quoted texts. Host names and the
  -- ranges of the environment do not matter.
  pub one_pod_serves :
      (gpu_id name : Str) (hostname : ℕ → Str) (env : ℕ → ℤ × ℤ) (t r : ℕ)
      → IsName name
      → 0 < r
      → 0 < t
      → t < 4294967296
      → let loaded = λ (i : ℕ).
        load_partition_range unmarshal
          (ok (compute_partitions_yaml name (pos r) (pos t)))
          (pod_name name i)
          (hostname i)
          (env i) in
        (p i : ℕ) × (partition_for gpu_id (pos t) ≡ some p)
        × (i < r)
        × Within (loaded i) p
        × ((j : ℕ) → j < r → Within (loaded j) p → j ≡ i)
  one_pod_serves gpu_id name hostname env t r n h k b =
      let (p, i, e, l, w, u) = one_reader gpu_id t r h k b in
      let loads = λ (j : ℕ) (below : j < r).
        pod_loads_its_range name (hostname j) t r j (env j) n below (omega (arith, b)) in
      (
        p,
        i,
        e,
        l,
        subst (λ x. Within x p) (sym (loads i l)) w,
        λ j below x. u j below (subst (λ y. Within y p) (loads j below) x),
      )
