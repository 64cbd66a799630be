-- ===== src/Reader/Served.antt =====
-- The map of served batches, by how often a message occurs in it.
use my_queue.Base.{
  ℕ, zero, suc, ◌+◌, ◌≤◌, ◌≡◌, some, List, [], ◌∷◌, arith, Str, Assoc, lookup, delete, count,
  count-append, take, drop, All, Bool-cases, inl, inr, str_eq,
}
use my_queue.Reader.Store.{BufMsg, ids_of}
use my_queue.Reader.Partition.{ServedBatch, served_ids, drop_expired, is_expired}

pub count-delete-le :
    (i : ℕ) (k : Str) (m : Assoc ServedBatch)
    → count i (served_ids (delete k m)) ≤ count i (served_ids m)
unfolding served_ids delete
count-delete-le i k [] = omega arith
count-delete-le i k ((j, sb) ∷ m) = ground (
  arith,
  count-delete-le i k m,
  count-append i sb.ids (served_ids m),
  count-append i sb.ids (served_ids (delete k m)),
)

-- Taking a batch out of the map takes out its messages.
pub count-delete :
    (i : ℕ) (k : Str) (m : Assoc ServedBatch) (sb : ServedBatch)
    → lookup k m ≡ some sb
    → count i sb.ids + count i (served_ids (delete k m)) ≤ count i (served_ids m)
unfolding served_ids delete lookup
count-delete i k [] sb h = cc
count-delete i k ((j, sb') ∷ m) sb h = ground (
  arith,
  count-delete i k m sb,
  count-delete-le i k m,
  count-append i sb'.ids (served_ids m),
  count-append i sb'.ids (served_ids (delete k m)),
)

pub count-drop_expired :
    (i now : ℕ) (m : Assoc ServedBatch)
    → count i (served_ids (drop_expired now m)) ≤ count i (served_ids m)
unfolding served_ids drop_expired
count-drop_expired i now [] = omega arith
count-drop_expired i now ((k, sb) ∷ m) = ground (
  arith,
  count-drop_expired i now m,
  count-append i sb.ids (served_ids m),
  count-append i sb.ids (served_ids (drop_expired now m)),
)

-- Popping the front of the buffer divides its messages.
pub count-pop :
    (i n : ℕ) (ms : List BufMsg)
    → count i (ids_of (take n ms)) + count i (ids_of (drop n ms)) ≡ count i (ids_of ms)
count-pop i zero ms = omega arith
count-pop i (suc n) [] = omega arith
count-pop i (suc n) (m ∷ ms) = ground (arith, count-pop i n ms)

-- What holds of all leases holds of those that stay.
pub All-delete :
    (P : Str × ServedBatch → Type 0) (k : Str) (m : Assoc ServedBatch)
    → All P m
    → All P (delete k m)
unfolding delete
All-delete P k [] h = tt
All-delete P k ((j, sb) ∷ m) h = elim (Bool-cases (str_eq j k)) [
  | inl e ↦ rw e (All-delete P k m h.1)
  | inr e ↦ rw e (h.0, All-delete P k m h.1)
]

pub All-drop_expired :
    (P : Str × ServedBatch → Type 0) (now : ℕ) (m : Assoc ServedBatch)
    → All P m
    → All P (drop_expired now m)
unfolding drop_expired
All-drop_expired P now [] h = tt
All-drop_expired P now ((j, sb) ∷ m) h = elim (Bool-cases (is_expired now sb)) [
  | inl e ↦ rw e (All-drop_expired P now m h.1)
  | inr e ↦ rw e (h.0, All-drop_expired P now m h.1)
]
