-- ===== src/GoError.antt =====
-- Go's error values: internal/domain/errors.go, the sentinels of the other packages, and the trees
-- that `fmt.Errorf` and `errors.Join` build, with `errors.Is`, `errors.As` and `Error()`.
use share_trip.Base.{ℕ, String, ◌<>◌, Bool, true, false, ◌||◌, Option, none, some, ite}

-- The values that the program compares errors with. The last three are pgx's and context's.
pub data Sentinel : Type 0 where
  trip_not_found forbidden conflict trip_already_published : Sentinel
  validation unavailable invalid_response : Sentinel
  no_rows tx_closed canceled : Sentinel

unfoldable pub Sentinel-discrete : Discrete Sentinel
Sentinel-discrete = hlevel

-- `message` is an error that wraps nothing, `fiber_error` a `*fiber.Error`. The other constructors
-- stand for `Errorf("text: %w", e)`, `Errorf("%w: text", e)`, `Errorf("%w: %w", e, f)` and
-- `errors.Join(e, f)`.
pub data GoError : Type 0 where
  sentinel : Sentinel → GoError
  message : String → GoError
  fiber_error : ℕ → String → GoError
  annotated : String → GoError → GoError
  detailed : GoError → String → GoError
  chained : GoError → GoError → GoError
  joined : GoError → GoError → GoError

-- `errors.Is`
abbrev pub is_error : GoError → Sentinel → Bool
is_error (sentinel s) t = ite (Sentinel-discrete s t) true false
is_error (message m) t = false
is_error (fiber_error code m) t = false
is_error (annotated m e) t = is_error e t
is_error (detailed e m) t = is_error e t
is_error (chained e f) t = is_error e t || is_error f t
is_error (joined e f) t = is_error e t || is_error f t

abbrev first_of_two : Option ℕ → Option ℕ → Option ℕ
first_of_two (some c) d = some c
first_of_two none d = d

-- `errors.As` into a `*fiber.Error`, of which only the code is read.
abbrev pub as_fiber_error : GoError → Option ℕ
as_fiber_error (sentinel s) = none
as_fiber_error (message m) = none
as_fiber_error (fiber_error code m) = some code
as_fiber_error (annotated m e) = as_fiber_error e
as_fiber_error (detailed e m) = as_fiber_error e
as_fiber_error (chained e f) = first_of_two (as_fiber_error e) (as_fiber_error f)
as_fiber_error (joined e f) = first_of_two (as_fiber_error e) (as_fiber_error f)

pub sentinel_text : Sentinel → String
sentinel_text trip_not_found = "trip not found"
sentinel_text forbidden = "forbidden"
sentinel_text conflict = "conflict"
sentinel_text trip_already_published = "trip already published"
sentinel_text validation = "validation error"
sentinel_text unavailable = "contract service unavailable"
sentinel_text invalid_response = "invalid contract service response"
sentinel_text no_rows = "no rows in result set"
sentinel_text tx_closed = "tx is closed"
sentinel_text canceled = "context canceled"

-- `Error()`. `errors.Join` puts its errors on lines of their own.
unfoldable pub error_text : GoError → String
unfolding sentinel_text
error_text (sentinel s) = sentinel_text s
error_text (message m) = m
error_text (fiber_error code m) = m
error_text (annotated m e) = (m <> ": ") <> error_text e
error_text (detailed e m) = (error_text e <> ": ") <> m
error_text (chained e f) = (error_text e <> ": ") <> error_text f
error_text (joined e f) = (error_text e <> "\n") <> error_text f
