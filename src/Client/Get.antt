-- ===== src/Client/Get.antt =====
-- internal/httpx/client.go: NewClient and Get.
use my_queue.Base.{
  ℕ, zero, suc, ◌≢◌, Bool-cases, inl, inr, Option, none, some, ◌++◌, ℤ, pos, Str, bytes, Result, ok,
  err, ◌+◌,
}
use my_queue.Client.{
  Response, Http, is_transient, delay, give_up, answered, after_wait, attempts, do_request,
}

-- The fields of Client; times are in nanoseconds.
pub record Settings : Type 0 where
  pub timeout : ℤ
  pub max_retries : ℤ
  pub base_delay : ℤ

unfoldable pub new_client : ℤ → ℤ → Settings
new_client timeout max_retries = record {
  timeout = timeout;
  max_retries = max_retries;
  base_delay = pos 500000000;
}

-- The HTTP client, with a way to set up the GET request that it sends.
pub record Getter : Type 1 where
  pub http : Http
  pub new_get : http.World → Str → Result (Unit {0}) × http.World

module _ (getter : Getter) where
  abbrev requested :
      ℤ → getter.http.World → Result (Unit {0}) → Result (Option Response) × getter.http.World
  requested max_retries w (err e) = (err (bytes "httpx: new request: " ++ e), w)
  requested max_retries w (ok u) = do_request getter.http max_retries w

  unfoldable pub get : ℤ → getter.http.World → Str → Result (Option Response) × getter.http.World
  get max_retries w url = let (r, w') = getter.new_get w url in requested max_retries w' r

  give_up-ne : (n : ℕ) (r : Result Response) → give_up n r ≢ ok none
  give_up-ne n (ok r) e = cc
  give_up-ne n (err x) e = cc

  answered-ne : (r : Result Response) → answered r ≢ ok none
  answered-ne (ok r) e = cc
  answered-ne (err x) e = cc

  attempts-ne :
      (left : ℕ) (w : getter.http.World) (attempt : ℕ)
      → (attempts getter.http left w attempt).0 ≢ ok none
  unfolding attempts
  attempts-ne zero w attempt = elim (Bool-cases (is_transient (getter.http.send w).0)) [
    | inl e ↦ rw e (give_up-ne (attempt + 1) (getter.http.send w).0)
    | inr e ↦ rw e (answered-ne (getter.http.send w).0)
  ]
  attempts-ne (suc left) w attempt = elim (Bool-cases (is_transient (getter.http.send w).0)) [
    | inl e ↦ rw e (
        waited (getter.http.wait (getter.http.send w).1 (delay attempt)).0 _ (
          attempts-ne left (getter.http.wait (getter.http.send w).1 (delay attempt)).1
            (attempt + 1)))
    | inr e ↦ rw e (answered-ne (getter.http.send w).0)
  ]
    where
      waited :
          (c : Option Str) (next : Result (Option Response) × getter.http.World)
          → next.0 ≢ ok none
          → (after_wait c (getter.http.wait (getter.http.send w).1 (delay attempt)).1 next).0
            ≢ ok none
      waited none next h = h
      waited (some x) next h = λ e. cc

  -- A client that may retry, however seldom, gives a response or an error.
  pub get-ne :
      (max_retries : ℕ) (w : getter.http.World) (url : Str)
      → (get (pos max_retries) w url).0 ≢ ok none
  unfolding get do_request
  get-ne n w url = requested-ne (getter.new_get w url).0
    where
      requested-ne :
          (r : Result (Unit {0})) → (requested (pos n) (getter.new_get w url).1 r).0 ≢ ok none
      requested-ne (err x) = λ e. cc
      requested-ne (ok u) = attempts-ne n (getter.new_get w url).1 0
