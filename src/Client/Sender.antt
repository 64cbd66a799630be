-- ===== src/Client/Sender.antt =====
-- How internal/streamer and internal/collector use the client of internal/httpx/client.go: they set up a
-- request, and hand it over to be sent.
use mathlib.Core.List.{append_assoc}
use my_queue.Base.{
  ℕ, zero, suc, ◌+◌, ◌≤◌, ◌≡◌, ◌≢◌, ap, ◌∙◌, Option, none, some, List, [], ◌∷◌, ◌++◌, arith, ℤ, pos,
  Str, Result, ok, err, Bool-cases, inl, inr,
}
use my_queue.Client.{
  Response, Http, is_transient, delay, give_up, answered, after_wait, attempts, do_request,
}

-- The HTTP client, with a way to set up the request that it sends: POST to a URL, with a body.
pub record Sender : Type 1 where
  pub http : Http
  pub new_request : http.World → Str → Str → Result (Unit {0}) × http.World

-- `current` is the request that has been set up last, as URL and body, and `sent` lists the requests that
-- have been handed to http.Client.Do, one for each call of it. A repeated attempt hands over a clone of the
-- request, which counts as the request that it has been cloned from.
pub record SenderLaws (sender : Sender) : Type 0 where
  pub current : sender.http.World → Option (Str × Str)
  pub sent : sender.http.World → List (Str × Str)
  pub new_request-current :
      (w : sender.http.World) (url body : Str) (u : Unit {0})
      → (sender.new_request w url body).0 ≡ ok u
      → current (sender.new_request w url body).1 ≡ some (url, body)
  pub new_request-sent :
      (w : sender.http.World) (url body : Str) → sent (sender.new_request w url body).1 ≡ sent w
  pub send-current : (w : sender.http.World) → current (sender.http.send w).1 ≡ current w
  pub send-sent :
      (w : sender.http.World) (request : Str × Str)
      → current w ≡ some request
      → sent (sender.http.send w).1 ≡ sent w ++ request ∷ []
  pub wait-current : (w : sender.http.World) (d : ℤ) → current (sender.http.wait w d).1 ≡ current w
  pub wait-sent : (w : sender.http.World) (d : ℤ) → sent (sender.http.wait w d).1 ≡ sent w

-- A request, handed over a number of times.
unfoldable pub copies : ℕ → Str × Str → List (Str × Str)
copies zero request = []
copies (suc n) request = request ∷ copies n request

-- The URL can be parsed.
abbrev pub IsValid : Sender → Str → Type 0
IsValid sender url =
    (w : sender.http.World) (body : Str) → (sender.new_request w url body).0 ≡ ok tt

module _ (sender : Sender) (laws : SenderLaws sender) where
  open laws use {
    current, sent, new_request-current, new_request-sent, send-current, send-sent, wait-current,
    wait-sent,
  }

  -- The request has been handed over at least once, and at most `n` times more.
  abbrev pub IsSent : ℕ → Str × Str → sender.http.World → sender.http.World → Type 0
  IsSent n request w w' = (k : ℕ) × (k ≤ n) × (sent w' ≡ sent w ++ copies (suc k) request)

  -- An answer or an error, for a request that has been handed over.
  abbrev IsSettled :
      ℕ → Str × Str → sender.http.World → Result (Option Response) × sender.http.World → Type 0
  IsSettled n request w t = (t.0 ≢ ok none) × IsSent n request w t.1

  once :
      (n : ℕ) (request : Str × Str) (w w' : sender.http.World)
      → sent w' ≡ sent w ++ request ∷ []
      → IsSent n request w w'
  unfolding copies
  once n request w w' h = (0, omega arith, h)

  again :
      (n : ℕ) (request : Str × Str) (w w' w'' : sender.http.World)
      → sent w' ≡ sent w ++ request ∷ []
      → IsSent n request w' w''
      → IsSent (suc n) request w w''
  unfolding copies
  again n request w w' w'' h (k, below, more) = (
    suc k,
    omega (arith, below),
    more ∙ ap (λ xs. xs ++ copies (suc k) request) h ∙ append_assoc (sent w) (request ∷ []) _,
  )

  give_up-ne : (n : ℕ) (r : Result Response) → give_up n r ≢ ok none
  give_up-ne n (ok r) = λ x. cc
  give_up-ne n (err e) = λ x. cc

  answered-ne : (r : Result Response) → answered r ≢ ok none
  answered-ne (ok r) = λ x. cc
  answered-ne (err e) = λ x. cc

  after_wait-IsSettled :
      (n : ℕ) (request : Str × Str) (w w' : sender.http.World) (cancelled : Option Str)
      (next : Result (Option Response) × sender.http.World)
      → sent w' ≡ sent w ++ request ∷ []
      → IsSettled n request w' next
      → IsSettled (suc n) request w (after_wait cancelled w' next)
  after_wait-IsSettled n request w w' none next h (answer, more) =
      (answer, again n request w w' next.1 h more)
  after_wait-IsSettled n request w w' (some e) next h (answer, more) =
      ((λ x. cc), once (suc n) request w w' h)

  attempts-IsSettled :
      (left : ℕ) (w : sender.http.World) (n : ℕ) (request : Str × Str)
      → current w ≡ some request
      → IsSettled left request w (attempts sender.http left w n)
  unfolding attempts
  attempts-IsSettled zero w n request c =
      let over = once 0 request w (sender.http.send w).1 (send-sent w request c) in
      elim (Bool-cases (is_transient (sender.http.send w).0)) [
        | inl e ↦ rw e (give_up-ne (n + 1) (sender.http.send w).0, over)
        | inr e ↦ rw e (answered-ne (sender.http.send w).0, over)
      ]
  attempts-IsSettled (suc left) w n request c =
      let w' = (sender.http.send w).1 in
      let w'' = (sender.http.wait w' (delay n)).1 in
      let next =
        attempts-IsSettled left w'' (n + 1) request
          (wait-current w' (delay n) ∙ send-current w ∙ c) in
      elim (Bool-cases (is_transient (sender.http.send w).0)) [
        | inl e ↦ rw e (
            after_wait-IsSettled left request w w'' (sender.http.wait w' (delay n)).0 _
              (wait-sent w' (delay n) ∙ send-sent w request c) next)
        | inr e ↦ rw e (
          answered-ne (sender.http.send w).0,
          once (suc left) request w w' (send-sent w request c),
        )
      ]

  -- One request that can be set up, and that the client may repeat.
  pub post-IsPosted :
      (max_retries : ℕ) (w : sender.http.World) (url body : Str)
      → IsValid sender url
      → let t = do_request sender.http (pos max_retries) (sender.new_request w url body).1 in
        (t.0 ≢ ok none) × IsSent max_retries (url, body) w t.1
  unfolding do_request
  post-IsPosted max_retries w url body v =
      let w' = (sender.new_request w url body).1 in
      let (answer, over) =
        attempts-IsSettled max_retries w' 0 (url, body)
          (new_request-current w url body tt (v w body)) in
      let (k, below, more) = over in
      (
        answer,
        (
          k,
          below,
          more ∙ ap (λ xs. xs ++ copies (suc k) (url, body)) (new_request-sent w url body),
        ),
      )
