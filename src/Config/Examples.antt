-- ===== src/Config/Examples.antt =====
-- Runs of the validation of internal/config on a file full of mistakes.
use leave_safe.Prelude.{◌≡◌, Option, some, [], Bytes, codes}
use leave_safe.Auth.Policy.{pos, negsuc}
use leave_safe.Config.{Config, default_config}
use leave_safe.Config.Validate.{validate}
use leave_safe.Config.Ranges.{IsValid}
use leave_safe.Config.Repeat.{validate-IsValid, validate_twice}

-- Every URL is read as plain http.
abbrev plain_http : Bytes → Option (Bytes × Bytes)
plain_http url = some (codes "http", codes "host")

abbrev mistaken : Config
mistaken = record default_config {
  port = pos 70_000;
  heartbeat_seconds = pos 0;
  lockout_seconds = negsuc 4;
  update_check_hours = pos 1;
  update_channel = codes "nightly";
  language = codes "xx";
  location = record default_config.location { geolocate_url = codes "http://host" };
}

validate-IsValid_example : IsValid plain_http (validate plain_http mistaken).0
validate-IsValid_example = validate-IsValid plain_http mistaken

validate_twice_example :
    validate plain_http (validate plain_http mistaken).0 ≡ ((validate plain_http mistaken).0, [])
validate_twice_example = validate_twice plain_http mistaken
