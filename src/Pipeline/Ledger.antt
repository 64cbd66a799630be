-- ===== src/Pipeline/Ledger.antt =====
-- What the leases of a reader (internal/mqreader/partition.go) stand for: the messages that were handed
-- out for them. The ledger is no variable of the program; it remembers every answer to a lease.
use my_queue.Base.{
  ℕ, zero, suc, ◌≡◌, refl, sym, Bool, true, false, none, some, List, [], ◌∷◌, ◌++◌, map, ℤ, Str,
  str_eq, str_eq→eq, Assoc, lookup, take, drop, keep, All, Bool-cases, inl, inr, ◌⊎◌, if◌then◌else◌,
}
use my_queue.Reader.Store.{BufMsg, ids_of}
use my_queue.Reader.Database.{Row, select, in_range}
use my_queue.Reader.Partition.{
  LeasedMsg, ServedBatch, Loop, Output, lease_reply, ack_reply, util_reply, closed, leased,
}

-- The messages of a reply to a lease.
abbrev pub reply_of : List Output → List LeasedMsg
reply_of [] = []
reply_of (lease_reply r ∷ outs) = r.messages
reply_of (ack_reply r ∷ outs) = reply_of outs
reply_of (util_reply n d ∷ outs) = reply_of outs
reply_of (closed d ∷ outs) = reply_of outs

pub All-append :
    {A : Type 0} (P : A → Type 0) (xs ys : List A) → All P xs → All P ys → All P (xs ++ ys)
All-append P [] ys a b = b
All-append P (x ∷ xs) ys a b = (a.0, All-append P xs ys a.1 b)

pub All-take : {A : Type 0} (P : A → Type 0) (n : ℕ) (xs : List A) → All P xs → All P (take n xs)
All-take P zero xs a = tt
All-take P (suc n) [] a = tt
All-take P (suc n) (x ∷ xs) a = (a.0, All-take P n xs a.1)

pub All-drop : {A : Type 0} (P : A → Type 0) (n : ℕ) (xs : List A) → All P xs → All P (drop n xs)
All-drop P zero xs a = a
All-drop P (suc n) [] a = tt
All-drop P (suc n) (x ∷ xs) a = All-drop P n xs a.1

pub All-keep :
    {A : Type 0} (P : A → Type 0) (p : A → Bool) (xs : List A) → All P xs → All P (keep p xs)
All-keep P p [] a = tt
All-keep P p (x ∷ xs) a = elim (Bool-cases (p x)) [
  | inl e ↦ rw e (a.0, All-keep P p xs a.1)
  | inr e ↦ rw e (All-keep P p xs a.1)
]

module _ (msg_of : ℕ → BufMsg) where
  -- The message is the one that its ID stands for.
  abbrev pub IsKnown : BufMsg → Type 0
  IsKnown m = m ≡ msg_of m.id

  abbrev pub RowIsKnown : Row → Type 0
  RowIsKnown r = IsKnown r.msg

  pub select-IsKnown :
      (a b : ℤ) (n : ℕ) (rows : List Row) → All RowIsKnown rows → All IsKnown (select a b n rows)
  select-IsKnown a b n rows h =
      All-take IsKnown n _
        (msgs (keep (in_range a b) rows) (All-keep RowIsKnown (in_range a b) rows h))
    where
      msgs : (rs : List Row) → All RowIsKnown rs → All IsKnown (map (λ r. r.msg) rs)
      msgs [] h = tt
      msgs (r ∷ rs) h = (h.0, msgs rs h.1)

  -- The messages that a lease was answered with are those of its batch.
  abbrev pub IsEntered : Assoc (List LeasedMsg) → Str × ServedBatch → Type 0
  IsEntered given e = lookup e.0 given ≡ some (map leased (map msg_of e.1.ids))

  pub map-ids_of : (ms : List BufMsg) → All IsKnown ms → map msg_of (ids_of ms) ≡ ms
  map-ids_of [] h = refl
  map-ids_of (m ∷ ms) h = λ i. sym h.0 i ∷ map-ids_of ms h.1 i

  pub record Traced (s : Loop) (given : Assoc (List LeasedMsg)) : Type 0 where
    pub ready : All IsKnown s.buffer
    pub entered : All (IsEntered given) s.served

  -- A new lease ID leaves the entries of the others.
  pub cons-IsEntered :
      (given : Assoc (List LeasedMsg)) (uuid : Str) (msgs : List LeasedMsg) (m : Assoc ServedBatch)
      → lookup uuid given ≡ none
      → All (IsEntered given) m
      → All (IsEntered ((uuid, msgs) ∷ given)) m
  unfolding lookup
  cons-IsEntered given uuid msgs [] f h = tt
  cons-IsEntered given uuid msgs ((j, sb) ∷ m) f h =
      (other (Bool-cases (str_eq uuid j)), cons-IsEntered given uuid msgs m f h.1)
    where
      other :
          (str_eq uuid j ≡ true) ⊎ (str_eq uuid j ≡ false)
          → IsEntered ((uuid, msgs) ∷ given) (j, sb)
      other (inl e) = cc (str_eq→eq uuid j e, h.0, f)
      other (inr e) = rw e h.0

  pub lookup-IsEntered :
      (given : Assoc (List LeasedMsg)) (k : Str) (m : Assoc ServedBatch) (sb : ServedBatch)
      → All (IsEntered given) m
      → lookup k m ≡ some sb
      → IsEntered given (k, sb)
  unfolding lookup
  lookup-IsEntered given k [] sb h e = cc
  lookup-IsEntered given k ((j, sb') ∷ m) sb h e =
      found (str_eq j k) refl e (lookup-IsEntered given k m sb h.1)
    where
      found :
          (b : Bool)
          → str_eq j k ≡ b
          → (if b then some sb' else lookup k m) ≡ some sb
          → (lookup k m ≡ some sb → IsEntered given (k, sb))
          → IsEntered given (k, sb)
      found true x e rest = let same : sb' ≡ sb = cc in rw (← str_eq→eq j k x, ← same) h.0
      found false x e rest = rest e
