-- ===== src/Database.antt =====
-- internal/db: Connect, Healthy and sanitizeDSN of db.go, and Migrate of migrate.go. The driver of
-- database/sql and the migrate library are parameters.
use my_queue.Base.{
  zero, ℕ, suc, ◌≤◌, ◌≡◌, refl, sym, ap, ◌∙◌, ◌⊎◌, inl, inr, [], ◌∷◌, ◌++◌, arith, leb, length,
  take, Str, bytes, Result, ok, err, if◌then◌else◌, Bool-cases, Option, none, some,
}
use mathlib.Core.List.{append_assoc}

-- The first 40 bytes, and an ellipsis if there are more.
unfoldable pub sanitize_dsn : Str → Str
sanitize_dsn dsn = if leb 41 (length dsn) then take 40 dsn ++ bytes "..." else dsn

pub record Limits : Type 0 where
  pub max_open : ℕ
  pub max_idle : ℕ
  -- In nanoseconds.
  pub max_lifetime : ℕ

pub record Driver : Type 1 where
  pub Pool : Type 0
  pub open_pool : Str → Str → Result Pool
  pub set_limits : Pool → Limits → Pool
  pub ping : Pool → Result (Unit {0})

-- The pool, and the `dsn_host` of the line that is logged.
pub record Connected (P : Type 0) : Type 0 where
  pub pool : P
  pub dsn_host : Str

module _ (driver : Driver) where
  -- `none` is no error.
  unfoldable pub healthy : driver.Pool → Result (Unit {0})
  healthy pool = driver.ping pool

  abbrev pinged : Str → driver.Pool → Result (Unit {0}) → Result (Connected driver.Pool)
  pinged dsn pool (err e) = err (bytes "db ping: " ++ e)
  pinged dsn pool (ok u) = ok (record { pool = pool; dsn_host = sanitize_dsn dsn })

  abbrev limits : Limits
  limits = record { max_open = 25; max_idle = 5; max_lifetime = 300000000000 }

  abbrev opened : Str → Result driver.Pool → Result (Connected driver.Pool)
  opened dsn (err e) = err (bytes "db open: " ++ e)
  opened dsn (ok pool) =
      let limited = driver.set_limits pool limits in pinged dsn limited (driver.ping limited)

  unfoldable pub connect : Str → Result (Connected driver.Pool)
  connect dsn = opened dsn (driver.open_pool (bytes "pgx") dsn)

-- How Up ends, if it fails.
pub data UpError : Type 0 where
  no_change : UpError
  failed : Str → UpError

pub record Migrator : Type 1 where
  pub World : Type 0
  pub Migration : Type 0
  pub new : World → Str → Str → Result Migration × World
  pub up : World → Migration → Option UpError × World
  pub close : World → Migration → World

module _ (m : Migrator) where
  abbrev migrated : Option UpError → Option Str
  migrated none = none
  migrated (some no_change) = none
  migrated (some (failed e)) = some (bytes "migrate up: " ++ e)

  abbrev run_up : m.World → Result m.Migration → Option Str × m.World
  run_up w (err e) = (some (bytes "migrate new: " ++ e), w)
  run_up w (ok migration) = let (r, w') = m.up w migration in (migrated r, m.close w' migration)

  -- `none` is no error.
  unfoldable pub migrate : m.World → Str → Str → Option Str × m.World
  migrate w dsn migrations_dir =
      let (r, w') = m.new w (bytes "file://" ++ migrations_dir) dsn in run_up w' r

  -- The libraries' part of a migration that ends well: Up is run on the migration, and finds
  -- nothing to do, or does it.
  abbrev pub IsUp : m.World → Result m.Migration → Type 0
  IsUp w r =
      (migration : m.Migration) × (r ≡ ok migration)
      × (((m.up w migration).0 ≡ none) ⊎ ((m.up w migration).0 ≡ some no_change))

  pub migrate-IsUp :
      (w : m.World) (dsn migrations_dir : Str)
      → let (r, w') = m.new w (bytes "file://" ++ migrations_dir) dsn in
        ((migrate w dsn migrations_dir).0 ≡ none → IsUp w' r)
  unfolding migrate
  migrate-IsUp w dsn dir = from _ (m.new w (bytes "file://" ++ dir) dsn).0
    where
      ended :
          (w' : m.World) (migration : m.Migration) (o : Option UpError)
          → (m.up w' migration).0 ≡ o
          → migrated o ≡ none
          → IsUp w' (ok migration)
      ended w' migration none e h = (migration, refl, inl e)
      ended w' migration (some no_change) e h = (migration, refl, inr e)
      ended w' migration (some (failed x)) e h = cc

      from : (w' : m.World) (r : Result m.Migration) → (run_up w' r).0 ≡ none → IsUp w' r
      from w' (err e) h = cc
      from w' (ok migration) h = ended w' migration (m.up w' migration).0 refl h

take-append : (n : ℕ) (xs ys : Str) → length xs ≤ n → (zs : Str) × (take n (xs ++ ys) ≡ xs ++ zs)
take-append n [] ys h = (take n ys, refl)
take-append zero (x ∷ xs) ys h = absurd (omega (arith, h))
take-append (suc n) (x ∷ xs) ys h =
    let (zs, e) = take-append n xs ys (omega (arith, h)) in (zs, ap (◌∷◌ x) e)

-- What is logged of a DSN begins with its first 40 bytes: a password that ends within them is logged
-- as it stands, behind the text that goes before it.
pub logs_password :
    (before password after : Str)
    → length (before ++ password) ≤ 40
    → (rest : Str) × (sanitize_dsn (before ++ (password ++ after)) ≡ before ++ (password ++ rest))
unfolding sanitize_dsn
logs_password before password after h =
    let (zs, e) = take-append 40 (before ++ password) after h in
    elim (Bool-cases (leb 41 (length (before ++ (password ++ after))))) [
      | inl long ↦ (
        zs ++ bytes "...",
        rw long (
            ap (λ t. take 40 t ++ bytes "...") (sym (append_assoc before password after))
            ∙ ap (λ t. t ++ bytes "...") e
            ∙ append_assoc (before ++ password) zs (bytes "...")
            ∙ append_assoc before password (zs ++ bytes "...")),
      )
      | inr short ↦ (after, rw short refl)
    ]
