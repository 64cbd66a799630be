-- ===== src/Controller/Coverage.antt =====
-- Every partition is read by exactly one pod.
use native.Mathlib.Nat.{mul-le-mul_right, mul_comm}
use my_queue.Base.{
  ℕ, zero, suc, ◌+◌, ◌-◌, ◌*◌, ◌/◌, ◌≤◌, ◌<◌, ◌≡◌, sym, ◌∙◌, inl, inr, true, false, ◌&&◌, some,
  arith, ℤ, pos, leb_ℤ, leb, ltb, Str, Bool-cases, ◌==◌,
}
use my_queue.Controller.Ranges.{pred_ℤ, range_of}
use my_queue.Writer.Hash.{partition_for, partition_for-bounds}

-- partition_key BETWEEN the two ends of a range, as the reader's query has it
abbrev pub Within : ℤ × ℤ → ℕ → Type 0
Within r p = (leb_ℤ r.0 (pos p) && leb_ℤ (pos p) r.1) ≡ true

-- What it means for pod `i` of `r`, each with `q` partitions and the last with the rest.
abbrev Owns : ℕ → ℕ → ℕ → ℕ → Type 0
Owns q r p i = (i < r) × (i * q ≤ p) × (suc i < r → p < suc i * q)

owner : (q r p : ℕ) → (i : ℕ) × Owns q (suc r) p i
owner q zero p = (0, (omega arith, omega arith, λ h. absurd (omega arith)))
owner q (suc k) p = elim (Bool-cases (leb (suc k * q) p)) [
  | inl h ↦ (suc k, (omega arith, ground arith, λ l. absurd (omega arith)))
  | inr h ↦
      (let (i, o) = owner q k p in
        (i, (omega (arith, o.0), o.1, λ l. below i o.0 o.1 o.2 (ground arith) l)))
]
  where
    below :
        (i : ℕ)
        → i < suc k
        → i * q ≤ p
        → (suc i < suc k → p < suc i * q)
        → p < suc k * q
        → suc i < suc (suc k)
        → p < suc i * q
    below i low fits next past l = elim (Bool-cases (ltb (suc i) (suc k))) [
      | inl e ↦ next (ground arith)
      | inr e ↦ (let same : i ≡ k = ground arith in rw same past)
    ]

Owns-unique : (q r p i j : ℕ) → Owns q r p i → Owns q r p j → i ≡ j
Owns-unique q r p i j (a, b, c) (a', b', c') = elim (Bool-cases (ltb i j)) [
  | inl e ↦ absurd (apart i j (ground arith) a' b' c)
  | inr e ↦ elim (Bool-cases (ltb j i)) [
    | inl e' ↦ absurd (apart j i (ground arith) a b c')
    | inr e' ↦ ground arith
  ]
]
  where
    apart : (i j : ℕ) → i < j → j < r → j * q ≤ p → (suc i < r → p < suc i * q) → ⊥
    apart i j l h fits next =
        let far : suc i * q ≤ j * q = mul-le-mul_right q l in omega (arith, next (omega arith), far)

le-pred_ℤ : (p x : ℕ) → leb_ℤ (pos p) (pred_ℤ (pos x)) ≡ ltb p x
le-pred_ℤ p zero = ground arith
le-pred_ℤ p (suc x) = ground arith

-- The test of a range, for a pod that is not the last, and for the last.
Within_inner :
    (t r p i : ℕ)
    → suc i < r
    → (leb_ℤ (range_of (pos t) r i).0 (pos p) && leb_ℤ (pos p) (range_of (pos t) r i).1)
      ≡ (leb (i * (t / r)) p && ltb p (suc i * (t / r)))
unfolding range_of
Within_inner t r p i l =
    let inner : (i == r - 1) ≡ false = ground arith in
    rw (inner, le-pred_ℤ, mul_comm (t / r) i, mul_comm (t / r) (i + 1)) (ground arith)

Within_last :
    (t r p i : ℕ)
    → suc i ≡ r
    → (leb_ℤ (range_of (pos t) r i).0 (pos p) && leb_ℤ (pos p) (range_of (pos t) r i).1)
      ≡ (leb (i * (t / r)) p && ltb p t)
unfolding range_of
Within_last t r p i l =
    let last : (i == r - 1) ≡ true = ground arith in
    rw (last, le-pred_ℤ, mul_comm (t / r) i) (ground arith)

Within→Owns : (t r p i : ℕ) → p < t → i < r → Within (range_of (pos t) r i) p → Owns (t / r) r p i
Within→Owns t r p i h l w = elim (Bool-cases (ltb (suc i) r)) [
  | inl e ↦
      (let w' = sym (Within_inner t r p i (ground arith)) ∙ w in
        (l, ground arith, λ _. ground arith))
  | inr e ↦
      (let w' = sym (Within_last t r p i (ground arith)) ∙ w in
        (l, ground arith, λ n. absurd (ground arith)))
]

Owns→Within : (t r p i : ℕ) → p < t → Owns (t / r) r p i → Within (range_of (pos t) r i) p
Owns→Within t r p i h (l, low, next) = elim (Bool-cases (ltb (suc i) r)) [
  | inl e ↦ Within_inner t r p i (ground arith) ∙ inner (next (ground arith))
  | inr e ↦ Within_last t r p i (ground arith) ∙ ground arith
]
  where
    inner : p < suc i * (t / r) → (leb (i * (t / r)) p && ltb p (suc i * (t / r))) ≡ true
    inner n = ground arith

-- However many pods there are, at least one, and also more than partitions, each partition below
-- the total lies in the range of exactly one of them.
pub one_pod :
    (t r p : ℕ)
    → 0 < r
    → p < t
    → (i : ℕ) × (i < r)
      × Within (range_of (pos t) r i) p
      × ((j : ℕ) → j < r → Within (range_of (pos t) r j) p → j ≡ i)
one_pod t zero p h k = absurd (omega arith)
one_pod t (suc r) p h k =
    let (i, o) = owner (t / suc r) r p in
    (
      i,
      o.0,
      Owns→Within t (suc r) p i k o,
      λ j l w. Owns-unique (t / suc r) (suc r) p j i (Within→Owns t (suc r) p j k l w) o,
    )

-- The writer's partition of a GPU ID is read by exactly one of the pods, of which there is at least
-- one, among which the controller divides the same number of partitions, if that number is positive
-- and below 2^32.
pub one_reader :
    (gpu_id : Str) (t r : ℕ)
    → 0 < r
    → 0 < t
    → t < 4294967296
    → (p i : ℕ) × (partition_for gpu_id (pos t) ≡ some p)
      × (i < r)
      × Within (range_of (pos t) r i) p
      × ((j : ℕ) → j < r → Within (range_of (pos t) r j) p → j ≡ i)
one_reader gpu_id t r h k l =
    let (p, e, b) = partition_for-bounds gpu_id t k l in
    let (i, o) = one_pod_pair p b in (p, i, e, o.0, o.1, o.2)
  where
    one_pod_pair :
        (p : ℕ)
        → p < t
        → (i : ℕ) × ((i < r)
            × Within (range_of (pos t) r i) p
            × ((j : ℕ) → j < r → Within (range_of (pos t) r j) p → j ≡ i))
    one_pod_pair p b = let (i, a, c, d) = one_pod t r p h b in (i, (a, c, d))
