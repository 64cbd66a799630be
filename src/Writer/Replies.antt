-- ===== src/Writer/Replies.antt =====
-- Every request that a flush takes up is replied to, once.
use mathlib.Core.List.{append-nil, append_assoc}
use my_queue.Base.{
  ℕ, suc, ◌+◌, ◌≡◌, refl, sym, ap, ◌∙◌, Bool, some, List, [], ◌∷◌, ◌++◌, map, arith, Str, str_eq,
  str_eq→eq, Result, ok, err, Assoc, lookup, insert, length, keep, count, sum, All, if◌then◌else◌,
  count-append, length-map, Bool-cases, inl, inr, lookup-insert_self, lookup-delete_ne, ◌==◌,
}
use my_queue.Writer.Store.{Db}
use my_queue.Writer.Share.{PublishResult, distribute, length-share_out}
use my_queue.Writer.Buffer.{
  PublishItem, Pending, or_nil, group, all_msgs, address, lengths, flush_with_retry, flush_groups,
  do_flush,
}

abbrev pub channels : List PublishItem → List ℕ
channels = map (λ it. it.reply)

abbrev pub replied : List (ℕ × PublishResult) → List ℕ
replied = map (λ r. r.0)

-- How often a topic stands in the order of a flush.
abbrev pub times : Str → List Str → ℕ
times t [] = 0
times t (u ∷ us) = let rest = times t us in if str_eq t u then suc rest else rest

abbrev pub of_topic : Str → List PublishItem → List PublishItem
of_topic t = keep (λ it. str_eq it.topic t)

lookup-insert :
    {V : Type 0} (k j : Str) (v : V) (m : Assoc V)
    → lookup j (insert k v m) ≡ (if str_eq k j then some v else lookup j m)
lookup-insert k j v m = elim (Bool-cases (str_eq k j)) [
  | inl e ↦ rw e (rw (← str_eq→eq k j e) (lookup-insert_self k v m))
  | inr e ↦ rw e (unfold lookup in rw e (lookup-delete_ne k j m (λ z. ground arith)))
]

-- The map that the loop builds holds the items of each topic, in the order of their arrival.
pub group-lookup :
    (t : Str) (g : Assoc (List PublishItem)) (items : List PublishItem)
    → or_nil (lookup t (group g items)) ≡ or_nil (lookup t g) ++ of_topic t items
unfolding group
group-lookup t g [] = sym (append-nil (or_nil (lookup t g)))
group-lookup t g (it ∷ items) =
    group-lookup t (insert it.topic (or_nil (lookup it.topic g) ++ it ∷ []) g) items ∙ added
  where
    added :
        or_nil (lookup t (insert it.topic (or_nil (lookup it.topic g) ++ it ∷ []) g))
          ++ of_topic t items
        ≡ or_nil (lookup t g) ++ of_topic t (it ∷ items)
    added = rw lookup-insert (elim (Bool-cases (str_eq it.topic t)) [
      | inl e ↦ rw e (
          ap (λ u. (or_nil (lookup u g) ++ it ∷ []) ++ of_topic t items) (str_eq→eq it.topic t e)
          ∙ append_assoc (or_nil (lookup t g)) (it ∷ []) (of_topic t items))
      | inr e ↦ rw e
    ])

-- How often a channel is replied to, over the topics of an order.
over_topics : ℕ → List Str → List PublishItem → ℕ
over_topics c [] items = 0
over_topics c (t ∷ ts) items = count c (channels (of_topic t items)) + over_topics c ts items

over_topics-nil : (c : ℕ) (ts : List Str) → over_topics c ts [] ≡ 0
unfolding over_topics
over_topics-nil c [] = refl
over_topics-nil c (t ∷ ts) = omega (arith, over_topics-nil c ts)

over_topics-cons :
    (c : ℕ) (ts : List Str) (it : PublishItem) (items : List PublishItem)
    → over_topics c ts (it ∷ items)
      ≡ (if it.reply == c then times it.topic ts else 0) + over_topics c ts items
unfolding over_topics
over_topics-cons c [] it items = ground arith
over_topics-cons c (t ∷ ts) it items = ground (arith, over_topics-cons c ts it items)

-- Each item's topic stands in the order once.
abbrev pub Covers : List Str → List PublishItem → Type 0
Covers order = All (λ it. times it.topic order ≡ 1)

over_topics-Covers :
    (c : ℕ) (ts : List Str) (items : List PublishItem)
    → Covers ts items
    → over_topics c ts items ≡ count c (channels items)
over_topics-Covers c ts [] h = over_topics-nil c ts
over_topics-Covers c ts (it ∷ items) h =
    ground (arith, over_topics-cons c ts it items, over_topics-Covers c ts items h.1)

length-distribute : (ns : List ℕ) (r : Result (ℕ × ℕ)) → length (distribute ns r) ≡ length ns
unfolding distribute
length-distribute ns (ok (a, d)) = length-share_out (sum ns) a d a d ns
length-distribute ns (err e) = length-map _ ns

replied-address :
    (items : List PublishItem) (rs : List PublishResult)
    → length rs ≡ length items
    → replied (address items rs) ≡ channels items
replied-address [] rs h = refl
replied-address (it ∷ items) [] h = absurd (omega arith)
replied-address (it ∷ items) (r ∷ rs) h = ap (◌∷◌ it.reply) (replied-address items rs (omega arith))

pub map-append' : (xs ys : List (ℕ × PublishResult)) → replied (xs ++ ys) ≡ replied xs ++ replied ys
map-append' [] ys = refl
map-append' (x ∷ xs) ys = ap (◌∷◌ x.0) (map-append' xs ys)

module _ (db : Db) where
  count-flush_groups :
      (c : ℕ) (w : db.World) (g : Assoc (List PublishItem)) (ts : List Str)
      (items : List PublishItem)
      → ((t : Str) → or_nil (lookup t g) ≡ of_topic t items)
      → count c (replied (flush_groups db w g ts).0) ≡ over_topics c ts items
  unfolding flush_groups over_topics
  count-flush_groups c w g [] items h = refl
  count-flush_groups c w g (t ∷ ts) items h = omega (
    arith,
    ap (count c) (map-append' (address batch shares) (flush_groups db answer.1 g ts).0),
    count-append c (replied (address batch shares)) (replied (flush_groups db answer.1 g ts).0),
    ap (count c) (
        replied-address batch shares
          (length-distribute (lengths batch) answer.0 ∙ length-map _ batch)),
    ap (λ (xs : List PublishItem). count c (channels xs)) (h t),
    count-flush_groups c answer.1 g ts items h,
  )
    where
      batch : List PublishItem
      batch = or_nil (lookup t g)

      answer : Result (ℕ × ℕ) × db.World
      answer = flush_with_retry db w t (all_msgs batch)

      shares : List PublishResult
      shares = distribute (lengths batch) answer.0

  -- A flush replies to each channel as often as an item waits on it, whichever way the database
  -- answers, and leaves nothing pending. Its order goes through the topics of the items, each once.
  pub do_flush-replies :
      (w : db.World) (p : Pending) (order : List Str) (over : Bool) (c : ℕ)
      → Covers order p.items
      → (count c (replied (do_flush db w p order over).replies) ≡ count c (channels p.items))
        × ((do_flush db w p order over).pending.items ≡ [])
  unfolding str_eq lookup
  do_flush-replies w p order over c h = split p.items refl h
    where
      split :
          (items : List PublishItem)
          → p.items ≡ items
          → Covers order items
          → (count c (replied (do_flush db w p order over).replies) ≡ count c (channels items))
            × ((do_flush db w p order over).pending.items ≡ [])
      split [] e h = unfold do_flush in rw e (refl, refl)
      split (it ∷ items) e h =
          unfold do_flush in
          rw e (
            count-flush_groups c w _ order (it ∷ items) (λ t. group-lookup t [] (it ∷ items))
                ∙ over_topics-Covers c order (it ∷ items) h,
            refl,
          )
