-- ===== src/Tests/Database.antt =====
-- What is logged of the default DATABASE_URL.
use my_queue.Base.{◌≡◌, ◌++◌, Str, bytes, arith}
use my_queue.Database.{sanitize_dsn, logs_password}

abbrev behind : Str
behind = bytes "@localhost:5432/prompted?sslmode=disable"

logs_password_example :
    (rest : Str) × (sanitize_dsn (bytes "postgres://prompted:" ++ (bytes "prompted" ++ behind))
      ≡ bytes "postgres://prompted:" ++ (bytes "prompted" ++ rest))
logs_password_example =
    logs_password (bytes "postgres://prompted:") (bytes "prompted") behind (omega arith)
