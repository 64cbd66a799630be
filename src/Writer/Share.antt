-- ===== src/Writer/Share.antt =====
-- distributeResults of internal/mqwriter/buffer.go: how the counts of one flush are shared out
-- among the requests that it served. Counts are lengths of slices in memory, so the products stay
-- below 2^63 and are not wrapped.
use native.Mathlib.Nat.{div-mul-le_self, le_of_mul-le-mul_right, div-eq_of_lt, mul-one}
use my_queue.Base.{
  ℕ, zero, suc, ◌+◌, ◌-◌, ◌*◌, ◌/◌, ◌≤◌, ◌<◌, ◌≡◌, refl, ap, Option, none, some, List, [], ◌∷◌, map,
  arith, Str, Result, ok, err, ltb, lt→ltb, sum, length, if◌then◌else◌, All,
}

pub record PublishResult : Type 0 where
  pub accepted : ℕ
  pub duplicates : ℕ
  pub err : Option Str

-- The part of a count that falls to `n` of `total` messages.
abbrev part : ℕ → ℕ → ℕ → ℕ
part count n total = if ltb 0 total then count * n / total else 0

-- The loop: `accepted` and `duplicates` are the flush's, `left` and `left_dupes` what remains of
-- them. An item is given by its number of messages. The last one is given the rest.
unfoldable pub share_out : ℕ → ℕ → ℕ → ℕ → ℕ → List ℕ → List PublishResult
share_out total accepted duplicates left left_dupes [] = []
share_out total accepted duplicates left left_dupes (n ∷ []) =
    record { accepted = left; duplicates = left_dupes; err = none } ∷ []
share_out total accepted duplicates left left_dupes (n ∷ m ∷ ns) =
    record { accepted = part accepted n total; duplicates = part duplicates n total; err = none }
    ∷ share_out total accepted duplicates (left - part accepted n total)
        (left_dupes - part duplicates n total) (m ∷ ns)

-- The replies, one for each item.
unfoldable pub distribute : List ℕ → Result (ℕ × ℕ) → List PublishResult
distribute ns (err e) = map (λ n. record { accepted = 0; duplicates = 0; err = some e }) ns
distribute ns (ok (accepted, duplicates)) =
    share_out (sum ns) accepted duplicates accepted duplicates ns

abbrev pub accepted_of : List PublishResult → ℕ
accepted_of [] = 0
accepted_of (r ∷ rs) = r.accepted + accepted_of rs

abbrev pub duplicates_of : List PublishResult → ℕ
duplicates_of [] = 0
duplicates_of (r ∷ rs) = r.duplicates + duplicates_of rs

pub length-share_out :
    (total a d l m : ℕ) (ns : List ℕ) → length (share_out total a d l m ns) ≡ length ns
unfolding share_out
length-share_out total a d l m [] = refl
length-share_out total a d l m (n ∷ []) = refl
length-share_out total a d l m (n ∷ k ∷ ns) =
    ap suc (length-share_out total a d (l - part a n total) (m - part d n total) (k ∷ ns))

-- The part given away never exceeds what is left, and enough is left for the others.
part-fits :
    (count n rest total left : ℕ)
    → count * (n + rest) ≤ left * total
    → (part count n total ≤ left) × (count * rest ≤ (left - part count n total) * total)
part-fits count n rest zero left h = (omega arith, omega arith)
part-fits count n rest (suc t) left h =
    rw (lt→ltb 0 (suc t) (omega arith))
      (given_left, omega (arith, given, ap (λ (x : ℕ). x * suc t) divided))
  where
    given : count * n / suc t * suc t ≤ count * n
    given = div-mul-le_self (count * n) (suc t)

    given_left : count * n / suc t ≤ left
    given_left = le_of_mul-le-mul_right (fits given) (omega arith)
      where
        fits : count * n / suc t * suc t ≤ count * n → count * n / suc t * suc t ≤ left * suc t
        fits g = omega arith

    divided : left ≡ count * n / suc t + (left - count * n / suc t)
    divided = omega (arith, given_left)

-- What is shared out adds up to what was left.
share_out-sum :
    (total a d left left_dupes n : ℕ) (ns : List ℕ)
    → a * sum (n ∷ ns) ≤ left * total
    → d * sum (n ∷ ns) ≤ left_dupes * total
    → (accepted_of (share_out total a d left left_dupes (n ∷ ns)) ≡ left)
      × (duplicates_of (share_out total a d left left_dupes (n ∷ ns)) ≡ left_dupes)
unfolding share_out
share_out-sum total a d left left_dupes n [] h k = (omega arith, omega arith)
share_out-sum total a d left left_dupes n (m ∷ ns) h k =
    let (fits, enough) = part-fits a n (sum (m ∷ ns)) total left h in
    let (fits', enough') = part-fits d n (sum (m ∷ ns)) total left_dupes k in
    let (l, r) =
      share_out-sum total a d (left - part a n total) (left_dupes - part d n total) m ns enough
        enough' in
    (omega (arith, l, fits), omega (arith, r, fits'))

-- A successful flush of at least one request gives one result for each request, and the counts of
-- the results add up to the counts of the flush: nothing is lost or made up by the rounding.
pub distribute_sum :
    (n : ℕ) (ns : List ℕ) (accepted duplicates : ℕ)
    → let replies = distribute (n ∷ ns) (ok (accepted, duplicates)) in
      (length replies ≡ length (n ∷ ns))
      × (accepted_of replies ≡ accepted)
      × (duplicates_of replies ≡ duplicates)
unfolding distribute
distribute_sum n ns a d =
    let (l, r) = share_out-sum (sum (n ∷ ns)) a d a d n ns (omega arith) (omega arith) in
    (length-share_out (sum (n ∷ ns)) a d a d (n ∷ ns), l, r)

-- The replies before the last one.
abbrev pub but_last : List PublishResult → List PublishResult
but_last [] = []
but_last (r ∷ []) = []
but_last (r ∷ r' ∷ rs) = r ∷ but_last (r' ∷ rs)

abbrev pub IsZero : PublishResult → Type 0
IsZero r = (r.accepted ≡ 0) × (r.duplicates ≡ 0)

abbrev IsOne : ℕ → Type 0
IsOne n = n ≡ 1

but_last-cons :
    (r : PublishResult) (rs : List PublishResult)
    → IsZero r
    → All IsZero (but_last rs)
    → All IsZero (but_last (r ∷ rs))
but_last-cons r [] z a = tt
but_last-cons r (r' ∷ rs) z a = (z, a)

share_out_single :
    (total a d left left_dupes : ℕ) (ns : List ℕ)
    → All IsOne ns
    → a < total
    → d < total
    → All IsZero (but_last (share_out total a d left left_dupes ns))
unfolding share_out
share_out_single total a d left left_dupes [] h k l = tt
share_out_single total a d left left_dupes (n ∷ []) h k l = tt
share_out_single total a d left left_dupes (n ∷ m ∷ ns) h k l =
    but_last-cons _ _ (nothing a k, nothing d l)
      (share_out_single total a d (left - part a n total) (left_dupes - part d n total) (m ∷ ns) h.1
        k l)
  where
    nothing : (count : ℕ) → count < total → part count n total ≡ 0
    nothing count c = rw (h.0, mul-one, div-eq_of_lt c) (ground arith)

-- When requests of one message each are flushed together, and the flush both inserts some messages
-- and skips some, every request but the last is told that it had none accepted and none skipped.
pub distribute_single :
    (ns : List ℕ) (accepted duplicates : ℕ)
    → All IsOne ns
    → 0 < accepted
    → 0 < duplicates
    → accepted + duplicates ≡ sum ns
    → All IsZero (but_last (distribute ns (ok (accepted, duplicates))))
unfolding distribute
distribute_single ns a d ones h k e =
    share_out_single (sum ns) a d a d ns ones (omega arith) (omega arith)
