-- ===== src/Service/Validate.antt =====
-- validate_create_trip_command.go
use share_trip.Base.{String, Bool, not, Option, none, some, ◌==◌, if◌then◌else◌}
use share_trip.Base.Int.{ℤ, pos, ltb_ℤ, leb_ℤ}
use share_trip.Base.Text.{trim_space, is_empty}
use share_trip.GoError.{GoError, sentinel, message, joined, validation}
use share_trip.Domain.{Uuid, nil_uuid, Time}

pub record CreateTripCommand : Type 0 where
  pub driver_id : Uuid
  pub from_point : String
  pub to_point : String
  pub departure_time : Time
  pub seats : ℤ

unfoldable pub invalid : String → Option GoError
invalid what = some (joined (sentinel validation) (message what))

-- `time.Time.After`
abbrev pub is_after : Time → Time → Bool
is_after t u = ltb_ℤ u t

abbrev pub is_blank : String → Bool
is_blank s = is_empty (trim_space s)

-- The error of the first test that fails, `none` for `nil`.
unfoldable pub validate_create_trip_command : Time → CreateTripCommand → Option GoError
unfolding invalid
validate_create_trip_command now command =
    if command.driver_id == nil_uuid
    then invalid "driver_id is required"
    else if is_blank command.from_point
    then invalid "from_point is required"
    else if is_blank command.to_point
    then invalid "to_point is required"
    else if not (is_after command.departure_time now)
    then invalid "departure_time must be in the future"
    else if leb_ℤ command.seats (pos 0)
    then invalid "seats must be greater than zero"
    else none
