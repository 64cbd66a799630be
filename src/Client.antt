-- ===== src/Client.antt =====
-- internal/httpx/client.go: requests that are repeated on transient failures. The HTTP client and
-- the wait between two attempts are parameters; what the wait finds is what its select receives.
pub mod Sender
pub mod Get
use my_queue.Base.{
  ℕ, zero, suc, ◌+◌, ◌*◌, ◌^◌, ◌≤◌, ◌≡◌, Bool, true, false, Option, none, some, ◌++◌, arith, ℤ, pos,
  negsuc, leb, int64, Str, bytes, decimal, Result, ok, err, if◌then◌else◌, ap, ◌∙◌,
}

pub record Response : Type 0 where
  pub status_code : ℕ
  pub body : Option Str  -- `none` once it has been drained and closed

-- `World` is the request, the connections and the clock.
pub record Http : Type 1 where
  pub World : Type 0
  pub send : World → Result Response × World
  -- The delay in nanoseconds; ctx.Err() if the context is done first.
  pub wait : World → ℤ → Option Str × World

-- A network error, or a status of 500 and above.
unfoldable pub is_transient : Result Response → Bool
is_transient (ok r) = leb 500 r.status_code
is_transient (err e) = true

-- c.baseDelay * (1 << attempt), which wraps around.
unfoldable pub delay : ℕ → ℤ
delay attempt = int64 (pos (500000000 * 2 ^ attempt))

-- What is returned after the last attempt, whose body has been drained.
abbrev pub give_up : ℕ → Result Response → Result (Option Response)
give_up attempts (ok r) = ok (some (record r { body = none }))
give_up attempts (err e) =
    err (bytes "httpx: all " ++ (decimal attempts ++ (bytes " retries failed: " ++ e)))

abbrev pub answered : Result Response → Result (Option Response)
answered (ok r) = ok (some r)
answered (err e) = err e

abbrev pub after_wait :
    {W : Type 0} → Option Str → W → Result (Option Response) × W → Result (Option Response) × W
after_wait none w next = next
after_wait (some e) w next = (err e, w)

module _ (http : Http) where
  -- The loop, with `left` attempts after this one; `attempt` numbers it.
  unfoldable pub attempts : ℕ → http.World → ℕ → Result (Option Response) × http.World
  attempts zero w attempt =
      let (r, w') = http.send w in
      if is_transient r then (give_up (attempt + 1) r, w') else (answered r, w')
  attempts (suc left) w attempt =
      let (r, w') = http.send w in
      let (cancelled, w'') = http.wait w' (delay attempt) in
      let next = attempts left w'' (attempt + 1) in
      if is_transient r then after_wait cancelled w'' next else (answered r, w')

  -- Client.Do. A negative number of retries makes no attempt, and returns nil for both results.
  unfoldable pub do_request : ℤ → http.World → Result (Option Response) × http.World
  unfolding attempts
  do_request (pos max_retries) w = attempts max_retries w 0
  do_request (negsuc n) w = (ok none, w)

  -- The world before attempt `n + attempt`, if every attempt before it is repeated.
  pub world_at : ℕ → http.World → ℕ → http.World
  world_at zero w attempt = w
  world_at (suc n) w attempt =
      world_at n (http.wait (http.send w).1 (delay attempt)).1 (attempt + 1)

  -- The first `n` attempts fail for a transient reason, and no wait after one is cancelled.
  abbrev pub AllRepeated : ℕ → http.World → ℕ → Type 0
  AllRepeated zero w attempt = Unit
  AllRepeated (suc n) w attempt =
      (is_transient (http.send w).0 ≡ true)
      × ((http.wait (http.send w).1 (delay attempt)).0 ≡ none)
      × AllRepeated n (http.wait (http.send w).1 (delay attempt)).1 (attempt + 1)

  attempts-answered :
      (n left : ℕ) (w : http.World) (attempt : ℕ)
      → n ≤ left
      → AllRepeated n w attempt
      → is_transient (http.send (world_at n w attempt)).0 ≡ false
      → attempts left w attempt
        ≡ (answered (http.send (world_at n w attempt)).0, (http.send (world_at n w attempt)).1)
  unfolding attempts world_at
  attempts-answered zero zero w attempt h a f = rw f
  attempts-answered zero (suc left) w attempt h a f = rw f
  attempts-answered (suc n) zero w attempt h a f = absurd (omega arith)
  attempts-answered (suc n) (suc left) w attempt h (transient, waited, a) f =
      rw (transient, waited)
        (attempts-answered n left (http.wait (http.send w).1 (delay attempt)).1 (attempt + 1)
          (omega arith) a f)

  attempts-exhausted :
      (left : ℕ) (w : http.World) (attempt : ℕ)
      → AllRepeated left w attempt
      → is_transient (http.send (world_at left w attempt)).0 ≡ true
      → attempts left w attempt ≡ (
        give_up (attempt + left + 1) (http.send (world_at left w attempt)).0,
        (http.send (world_at left w attempt)).1,
      )
  unfolding attempts world_at
  attempts-exhausted zero w attempt a f = rw f (ground arith)
  attempts-exhausted (suc left) w attempt (transient, waited, a) f =
      rw (transient, waited)
        (attempts-exhausted left (http.wait (http.send w).1 (delay attempt)).1 (attempt + 1) a f
          ∙ ap
              (λ k. (
                give_up k
                    (http.send (
                      world_at left (http.wait (http.send w).1 (delay attempt)).1 (attempt + 1))).0,
                (http.send
                    (world_at left (http.wait (http.send w).1 (delay attempt)).1 (attempt + 1))).1,
              ))
              (shift attempt left))
    where
      shift : (a l : ℕ) → a + 1 + l + 1 ≡ a + suc l + 1
      shift a l = omega arith

  -- If the first `n` attempts fail for a transient reason and no wait is cancelled, and `n` is at
  -- most the number of retries, then the next answer is returned if it is not transient, and no
  -- further request is sent; if it is transient and `n` is the number of retries, it is
  -- returned after `n + 1` attempts, a response without its body, an error under a text that counts
  -- the attempts.
  pub do_request-repeats :
      (n max_retries : ℕ) (w : http.World)
      → n ≤ max_retries
      → AllRepeated n w 0
      → let (r, w') = http.send (world_at n w 0) in
        (is_transient r ≡ false → do_request (pos max_retries) w ≡ (answered r, w'))
        × (is_transient r ≡ true
            → n ≡ max_retries
            → do_request (pos max_retries) w ≡ (give_up (max_retries + 1) r, w'))
  unfolding do_request
  do_request-repeats n m w h a = (attempts-answered n m w 0 h a, λ f e. exhausted n m e a f)
    where
      from_zero : (n : ℕ) → 0 + n + 1 ≡ n + 1
      from_zero n = omega arith

      exhausted :
          (n m : ℕ)
          → n ≡ m
          → AllRepeated n w 0
          → is_transient (http.send (world_at n w 0)).0 ≡ true
          → attempts m w 0
            ≡ (give_up (m + 1) (http.send (world_at n w 0)).0, (http.send (world_at n w 0)).1)
      exhausted n m e a f = rw (← e) (
          attempts-exhausted n w 0 a f
          ∙ ap (λ k. (give_up k (http.send (world_at n w 0)).0, (http.send (world_at n w 0)).1))
              (from_zero n))
