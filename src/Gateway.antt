-- ===== src/Gateway.antt =====
-- internal/apigw/handler.go: the time window of a telemetry query. time.Parse for RFC 3339 is an
-- argument; an instant is in nanoseconds since 1970. The endpoints are in the child modules.
pub mod Store
pub mod Handler
pub mod Table
pub mod Answers
use my_queue.Base.{
  ◌≡◌, [], ◌∷◌, ◌++◌, arith, ℤ, pos, ◌≤ℤ◌, leb_ℤ, Str, bytes, Result, ok, err, wrap, ◌>>=◌,
  if◌then◌else◌, Bool-cases, inl, inr,
}

-- 1970-01-01 and 2100-01-01, in UTC.
abbrev pub earliest : ℤ
earliest = pos 0

abbrev pub latest : ℤ
latest = pos 4102444800000000000

-- One of the two parameters: an empty one leaves the default.
abbrev pub bound : (Str → Result ℤ) → Str → Str → ℤ → Result ℤ
bound parse name [] default = ok default
bound parse name (c ∷ cs) default = wrap (bytes "invalid " ++ (name ++ bytes ": ")) (parse (c ∷ cs))

abbrev pub ordered : ℤ → ℤ → Result (ℤ × ℤ)
ordered start end =
    if leb_ℤ start end
    then ok (start, end)
    else err (bytes "start_time must be before or equal to end_time")

unfoldable pub parse_time_window : (Str → Result ℤ) → Str → Str → Result (ℤ × ℤ)
parse_time_window parse start_time end_time = do
  start ← bound parse (bytes "start_time") start_time earliest
  end ← bound parse (bytes "end_time") end_time latest
  ordered start end

-- What a parameter may stand for: the default if it is empty, and what it parses to if not.
abbrev pub Stands : (Str → Result ℤ) → Str → ℤ → ℤ → Type 0
Stands parse [] default t = t ≡ default
Stands parse (c ∷ cs) default t = parse (c ∷ cs) ≡ ok t

bound-Stands :
    (parse : Str → Result ℤ) (name s : Str) (default t : ℤ)
    → (bound parse name s default ≡ ok t → Stands parse s default t)
      × (Stands parse s default t → bound parse name s default ≡ ok t)
bound-Stands parse name [] default t = ((λ e. cc), (λ e. cc))
bound-Stands parse name (c ∷ cs) default t = wrapped (parse (c ∷ cs))
  where
    wrapped :
        (r : Result ℤ)
        → (wrap (bytes "invalid " ++ (name ++ bytes ": ")) r ≡ ok t → r ≡ ok t)
          × (r ≡ ok t → wrap (bytes "invalid " ++ (name ++ bytes ": ")) r ≡ ok t)
    wrapped (ok a) = ((λ e. e), (λ e. e))
    wrapped (err m) = ((λ e. cc), (λ e. cc))

both_bounds : Result ℤ → Result ℤ → Result (ℤ × ℤ)
both_bounds r q = do start ← r; end ← q; ordered start end

both_bounds-ok :
    (r q : Result ℤ) (start end : ℤ)
    → (both_bounds r q ≡ ok (start, end) → (r ≡ ok start) × (q ≡ ok end) × (start ≤ℤ end))
      × (r ≡ ok start → q ≡ ok end → start ≤ℤ end → both_bounds r q ≡ ok (start, end))
unfolding both_bounds
both_bounds-ok (err e) q start end = ((λ h. cc), (λ h k l. cc))
both_bounds-ok (ok a) (err e) start end = ((λ h. cc), (λ h k l. cc))
both_bounds-ok (ok a) (ok b) start end = elim (Bool-cases (leb_ℤ a b)) [
  | inl t ↦ rw t ((λ h. (cc, cc, ground arith)), (λ h k l. cc))
  | inr f ↦ rw f ((λ h. cc), (λ h k l. absurd (ground arith)))
]

-- A window is accepted exactly when both of its bounds are absent or can be parsed, and the first is
-- not after the second; then it is the window from the one to the other.
pub parse_time_window_exact :
    (parse : Str → Result ℤ) (start_time end_time : Str) (start end : ℤ)
    → (parse_time_window parse start_time end_time ≡ ok (start, end)
        → Stands parse start_time earliest start
          × Stands parse end_time latest end
          × (start ≤ℤ end))
      × (Stands parse start_time earliest start
          → Stands parse end_time latest end
          → start ≤ℤ end
          → parse_time_window parse start_time end_time ≡ ok (start, end))
parse_time_window_exact parse s e start end =
    let (first, first') = bound-Stands parse (bytes "start_time") s earliest start in
    let (last, last') = bound-Stands parse (bytes "end_time") e latest end in
    let (sound, complete) =
      both_bounds-ok (bound parse (bytes "start_time") s earliest)
        (bound parse (bytes "end_time") e latest) start end in
    unfold parse_time_window both_bounds in
    (
      (λ h. let (a, b, c) = sound h in (first a, last b, c)),
      (λ a b c. complete (first' a) (last' b) c),
    )
