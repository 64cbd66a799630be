-- ===== src/Tests/Yaml.antt =====
-- A decoder of the partition map, for the theorem on what a pod loads from it.
use mathlib.Core.List.{append_assoc}
use my_queue.Base.{
  ℕ, zero, suc, ◌≤◌, ◌≡◌, refl, ap, ◌∙◌, true, false, [], ◌∷◌, ◌++◌, arith, Str, Result, ok, Assoc,
  All, length, length-append, decimal, decimal-AllDigits, AllDigits, ◌==◌, if◌then◌else◌,
}
use my_queue.Controller.Ranges.{pod_name, yaml_line}
use my_queue.Controller.Assigned.{
  document, is_label_byte, IsName, IsRangeText, IsPodEntry, YamlLaws,
}

-- The text before a byte, and the text behind it.
unfoldable pub until : ℕ → Str → Str × Str
until b [] = ([], [])
until b (c ∷ cs) = let rest = until b cs in if c == b then ([], cs) else (c ∷ rest.0, rest.1)

abbrev behind : ℕ → Str → Str
behind zero cs = cs
behind (suc n) [] = []
behind (suc n) (c ∷ cs) = behind n cs

pub read_lines : ℕ → Str → Assoc Str
read_lines zero cs = []
read_lines (suc fuel) [] = []
read_lines (suc fuel) (c ∷ cs) =
    let key = until b':' (c ∷ cs) in
    let value = until b'"' (behind 2 key.1) in (key.0, value.0) ∷ read_lines fuel (behind 1 value.1)

Lacks : ℕ → Str → Type 0
Lacks b = All (λ c. (c == b) ≡ false)

until-Lacks : (b : ℕ) (s rest : Str) → Lacks b s → until b (s ++ b ∷ rest) ≡ (s, rest)
unfolding until Lacks
until-Lacks b [] rest h = ground arith
until-Lacks b (c ∷ cs) rest h = rw (h.0, until-Lacks b cs rest h.1) refl

append-Lacks : (b : ℕ) (s t : Str) → Lacks b s → Lacks b t → Lacks b (s ++ t)
unfolding Lacks
append-Lacks b [] t h k = k
append-Lacks b (c ∷ cs) t h k = (h.0, append-Lacks b cs t h.1 k)

digits-Lacks : (s : Str) → AllDigits s → Lacks b':' s
unfolding Lacks
digits-Lacks [] h = tt
digits-Lacks (c ∷ cs) h = (ground (arith, h.0), digits-Lacks cs h.1)

labels-Lacks : (s : Str) → All (λ d. is_label_byte d ≡ true) s → Lacks b':' s
unfolding Lacks
labels-Lacks [] h = tt
labels-Lacks (c ∷ cs) h = (ground (arith, h.0), labels-Lacks cs h.1)

range-Lacks : (s : Str) → IsRangeText s → Lacks b'"' s
unfolding Lacks
range-Lacks [] h = tt
range-Lacks (c ∷ cs) h = (ground (arith, h.0), range-Lacks cs h.1)

name-Lacks : (name : Str) → IsName name → Lacks b':' name
unfolding Lacks
name-Lacks [] h = absurd h
name-Lacks (c ∷ cs) h = (ground (arith, h.0), labels-Lacks cs h.1)

pod_name-Lacks : (name : Str) (i : ℕ) → IsName name → Lacks b':' (pod_name name i)
pod_name-Lacks name i h =
    append-Lacks b':' name (b'-' ∷ decimal i) (name-Lacks name h)
      (unfold Lacks in (refl, digits-Lacks (decimal i) (decimal-AllDigits i)))

-- A line, and what follows it.
line-append :
    (k v rest : Str) → yaml_line k v ++ rest ≡ k ++ (b':' ∷ 32 ∷ 34 ∷ (v ++ (34 ∷ 10 ∷ rest)))
line-append k v rest =
    append_assoc k _ rest ∙ ap (λ x. k ++ (b':' ∷ 32 ∷ 34 ∷ x)) (append_assoc v (34 ∷ 10 ∷ []) rest)

read-line :
    (fuel c : ℕ) (cs v rest : Str)
    → Lacks b':' (c ∷ cs)
    → Lacks b'"' v
    → read_lines (suc fuel) (c ∷ cs ++ (b':' ∷ 32 ∷ 34 ∷ (v ++ (34 ∷ 10 ∷ rest))))
      ≡ (c ∷ cs, v) ∷ read_lines fuel rest
unfolding read_lines
read-line fuel c cs v rest h k =
    rw
      (
        until-Lacks b':' (c ∷ cs) (32 ∷ 34 ∷ (v ++ (34 ∷ 10 ∷ rest))) h,
        until-Lacks b'"' v (10 ∷ rest) k,
      )
      refl

read-document :
    (fuel : ℕ) (m : Assoc Str)
    → length m ≤ fuel
    → All IsPodEntry m
    → read_lines fuel (document m) ≡ m
read-document zero [] h a = unfold read_lines in refl
read-document (suc fuel) [] h a = unfold read_lines in refl
read-document zero ((k, v) ∷ m) h a = absurd (omega (arith, h))
read-document (suc fuel) (([], v) ∷ m) h (((name, i, n, e), r), rest) = absurd (no_name name n e)
  where
    no_name : (name : Str) → IsName name → ◌≡◌ {A = Str} [] (pod_name name i) → ⊥
    no_name [] n e = absurd n
    no_name (c ∷ cs) n e = cc
read-document (suc fuel) ((c ∷ cs, v) ∷ m) h (((name, i, n, e), r), rest) =
    ap (read_lines (suc fuel)) (line-append (c ∷ cs) v (document m))
    ∙ read-line fuel c cs v (document m) (rw e (pod_name-Lacks name i n)) (range-Lacks v r)
    ∙ ap (◌∷◌ (c ∷ cs, v)) (read-document fuel m (omega (arith, h)) rest)

length-document : (m : Assoc Str) → length m ≤ length (document m)
length-document [] = omega arith
length-document ((k, v) ∷ m) = rw line-append (
    omega (
      arith,
      length-document m,
      length-append k (b':' ∷ 32 ∷ 34 ∷ (v ++ (34 ∷ 10 ∷ document m))),
      length-append v (34 ∷ 10 ∷ document m),
    ))

-- There are no more lines than bytes.
abbrev pub test_unmarshal : Str → Result (Assoc Str)
test_unmarshal file = ok (read_lines (length file) file)

pub test_yaml : YamlLaws test_unmarshal
test_yaml = record {
  decodes =
      λ m a d. (m, ap ok (read-document (length (document m)) m (length-document m) a), λ k. refl);
}
