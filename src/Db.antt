-- ===== src/Db.antt =====
-- internal/db/postgres.go: the connection string and the pool. Go's texts are bytes here, since
-- `net/url` escapes byte by byte.
pub mod Url
pub mod Escaping
pub mod Credentials
use share_trip.Base.{
  ℕ, suc, String, ◌<>◌, Bool, true, false, ◌||◌, Option, none, some, List, [], ◌∷◌, ◌++◌, ◌==◌,
  if◌then◌else◌,
}
use share_trip.Base.Int.{ℤ, pos, negsuc}
use share_trip.Base.Text.{itoa, is_empty}
use share_trip.GoError.{GoError, message}
use share_trip.Result.{Result, ok, err}
use share_trip.Config.{DbConfig}
use share_trip.Db.Url.{bytes, escape, in_user, in_host, in_path, in_query}

-- `strconv.Itoa`
abbrev pub itoa_ℤ : ℤ → String
itoa_ℤ (pos n) = itoa n
itoa_ℤ (negsuc n) = "-" <> itoa (suc n)

pub has_byte : ℕ → List ℕ → Bool
has_byte x [] = false
has_byte x (b ∷ bs) = if b == x then true else has_byte x bs

-- `net.JoinHostPort`: a host with a colon is an IPv6 address.
unfoldable pub join_host_port : List ℕ → List ℕ → List ℕ
unfolding has_byte
join_host_port host port =
    if has_byte b':' host then (b'[' ∷ host) ++ (b']' ∷ b':' ∷ port) else host ++ (b':' ∷ port)

-- `DSN`
unfoldable pub dsn : DbConfig → List ℕ
unfolding join_host_port
dsn c =
    let ssl_mode = if is_empty c.ssl_mode then "disable" else c.ssl_mode in
    bytes "postgres://"
    ++ (escape in_user (bytes c.user)
        ++ ((b':' ∷ escape in_user (bytes c.password))
            ++ ((b'@' ∷ escape in_host (join_host_port (bytes c.host) (bytes (itoa_ℤ c.port))))
                ++ (escape in_path (b'/' ∷ bytes c.name)
                    ++ (bytes "?sslmode=" ++ escape in_query (bytes ssl_mode))))))

-- The limits that `NewPool` sets; times in seconds.
pub record PoolConfig : Type 0 where
  pub connection : List ℕ
  pub max_conns : ℕ
  pub min_conns : ℕ
  pub max_conn_lifetime : ℕ
  pub max_conn_idle_time : ℕ

-- pgxpool's errors: of the connection string, of the creation, of the ping within three seconds.
pub record Driver : Type 0 where
  pub parse_config : List ℕ → Option String
  pub new_with_config : PoolConfig → Option String
  pub ping : PoolConfig → Option String

-- `NewPool`: the pool is known by its configuration. The library's errors may quote the connection
-- string, and are replaced by texts of the program's own.
unfoldable pub new_pool : Driver → List ℕ → Result PoolConfig
new_pool driver connection = elim (driver.parse_config connection) [
  | some e ↦ err (message "invalid PostgreSQL configuration")
  | none ↦
      let cfg : PoolConfig = record {
        connection = connection;
        max_conns = 10;
        min_conns = 1;
        max_conn_lifetime = 1800;
        max_conn_idle_time = 300;
      } in
      elim (driver.new_with_config cfg) [
        | some e ↦ err (message "create PostgreSQL pool failed")
        | none ↦ elim (driver.ping cfg) [
          | some e ↦ err (message "ping PostgreSQL failed")
          | none ↦ ok cfg
        ]
      ]
]
