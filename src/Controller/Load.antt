-- ===== src/Controller/Load.antt =====
-- loadPartitionRange of cmd/mqreader/main.go: the range that a reader takes. The file, the
-- environment, the host name and the YAML decoder are arguments.
use my_queue.Base.{
  ℕ, ◌≡◌, refl, ap, ◌∙◌, Option, none, some, [], ◌∷◌, ◌++◌, arith, ℤ, pos, Str, is_empty, Result,
  ok, err, Assoc, lookup, atoi, atoi-decimal_ℤ, decimal_ℤ, decimal_ℤ-AllDigits, AllDigits, IsInt64,
  ◌==◌, if◌then◌else◌,
}
use my_queue.Controller.Ranges.{range_text}

abbrev prepend : ℕ → Option (Str × Str) → Option (Str × Str)
prepend c none = none
prepend c (some (a, b)) = some (c ∷ a, b)

-- strings.SplitN(s, "-", 2), if it has two parts.
unfoldable pub split_dash : Str → Option (Str × Str)
split_dash [] = none
split_dash (c ∷ cs) =
    let rest = split_dash cs in if c == b'-' then some ([], cs) else prepend c rest

abbrev both : Option ℤ → Option ℤ → Option (ℤ × ℤ)
both (some a) (some b) = some (a, b)
both (some a) none = none
both none b = none

parse_parts : Option (Str × Str) → Option (ℤ × ℤ)
parse_parts none = none
parse_parts (some (a, b)) = both (atoi a) (atoi b)

-- The text of a range, if it has the form of one.
unfoldable pub parse_range : Str → Option (ℤ × ℤ)
unfolding parse_parts
parse_range s = parse_parts (split_dash s)

or_else : ℤ × ℤ → Option (ℤ × ℤ) → ℤ × ℤ
or_else env none = env
or_else env (some r) = r

entry_range : ℤ × ℤ → Option Str → ℤ × ℤ
unfolding or_else
entry_range env none = env
entry_range env (some s) = or_else env (parse_range s)

decoded_range : ℤ × ℤ → Str → Result (Assoc Str) → ℤ × ℤ
unfolding entry_range
decoded_range env pod (err e) = env
decoded_range env pod (ok partitions) = entry_range env (lookup pod partitions)

-- `pod_env` is POD_NAME, which is empty if it is not set; `env` are the ends from the environment.
unfoldable pub load_partition_range :
    (Str → Result (Assoc Str)) → Result Str → Str → Str → ℤ × ℤ → ℤ × ℤ
unfolding decoded_range
load_partition_range unmarshal (err e) pod_env hostname env = env
load_partition_range unmarshal (ok file) pod_env hostname env =
    decoded_range env (if is_empty pod_env then hostname else pod_env) (unmarshal file)

split_dash-AllDigits : (a b : Str) → AllDigits a → split_dash (a ++ b'-' ∷ b) ≡ some (a, b)
unfolding split_dash
split_dash-AllDigits [] b h = refl
split_dash-AllDigits (c ∷ a) b h = ground (arith, split_dash-AllDigits a b h.1)

parts-decimal_ℤ :
    (start : ℕ) (end : ℤ)
    → IsInt64 (pos start)
    → IsInt64 end
    → parse_parts (some (decimal_ℤ (pos start), decimal_ℤ end)) ≡ some (pos start, end)
unfolding parse_parts
parts-decimal_ℤ start end h k = rw (atoi-decimal_ℤ (pos start) h, atoi-decimal_ℤ end k)

-- A reader parses the range that the controller wrote, from a start that is not negative, also
-- where its end lies below zero, if both are 64-bit integers.
pub parse_range-range_text :
    (start : ℕ) (end : ℤ)
    → IsInt64 (pos start)
    → IsInt64 end
    → parse_range (range_text (pos start, end)) ≡ some (pos start, end)
parse_range-range_text start end h k =
    unfold parse_range in
    ap parse_parts
      (split_dash-AllDigits (decimal_ℤ (pos start)) (decimal_ℤ end) (decimal_ℤ-AllDigits start))
    ∙ parts-decimal_ℤ start end h k
