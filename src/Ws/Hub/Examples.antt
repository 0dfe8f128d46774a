-- ===== src/Ws/Hub/Examples.antt =====
-- Runs of the hub of internal/ws on small inputs.
use leave_safe.Prelude.{ℕ, ◌≡◌, refl, true, false, none, some, List, [], ◌∷◌, Bytes, codes, All}
use leave_safe.Auth.Policy.{pos}
use leave_safe.Auth.Manager.{
  Manager, new_manager, authenticate, looked_up, judge, sweep, session_expired, right_key,
}
use leave_safe.Auth.Table.{record_for, make_room}
use leave_safe.Auth.Addr.{normalize_addr}
use leave_safe.Auth.Key.{hex_encode, hex_digit, encode_random, strip_dashes}
use leave_safe.Prelude.Map.{lookup, insert, erase}
use leave_safe.Auth.Pin
use leave_safe.Config.{Config, Location, default_config}
use leave_safe.Monitor.Alerting.{lid_alert}
use leave_safe.Monitor.Manager.{Sensor, is_enabled, or_false, available_now}
use leave_safe.Ws.Pending.{new_pending_conns}
use leave_safe.Ws.Session.{new_session, with_keys}
use leave_safe.Ws.Handshake.{
  lower_hex, handshake_proof, proof_holds, derived, valid_nonce, role_client,
}
use leave_safe.Ws.Message.{ClientMessage, MsgType, configure, LocationConfigPayload}
use leave_safe.Ws.Hub.{
  set_conn, get_sensor_infos, sensor_infos, log_event, emit, set_sensors, set_watch, Env, Moment,
  Hub, Conn,
}
use leave_safe.Ws.Hub.Arming.{no_alarm, disable_alarm_sensor}
use leave_safe.Ws.Hub.Alerts.{trigger_sensor_test, display_name_of}
use leave_safe.Ws.Hub.Pairing.{
  handle_auth, enc_cha_cha, judge_proof, auth_key, paired, enrol, add_client, seal_or_fail, accept,
  welcome, send_update, send_alarm,
}
use leave_safe.Ws.Hub.Sockets.{release_slot}
use leave_safe.Ws.Hub.Update.{set_auth}
use leave_safe.Ws.Hub.Entry.{handle_auth_sound}
use leave_safe.Ws.Hub.Steps.{
  Step, message, alerted, claimed, console_disarm, heartbeat, take_step, take_steps,
}
use leave_safe.Ws.Hub.View.{view}
use leave_safe.Ws.Hub.Guard.{IsGuarded}
use leave_safe.Ws.Hub.Guard.Kept.{IsWithoutPin, take_steps-IsGuarded}
use leave_safe.Ws.Hub.Machine.Kept.{take_step-keeps_on}
use leave_safe.Ws.Hub.Secrets.{
  tested_sensor_off, apply_location_key, config_to_payload_secrets, differ_in_secrets,
}
use leave_safe.Ws.Hub.Settings.{apply_location, apply_geolocate_url, config_to_payload}
use leave_safe.Localization.{has_prefix}

-- A derivation without secrets: the hash of a PIN holds the PIN itself.
abbrev toy_env : Env
toy_env = record {
  crypto = record { scrypt = λ pin salt n r p len. some pin; sha256 = λ s. s };
  proofs = record { hmac = λ key text. key; argon2 = λ key salt t m p len. key };
  wire = record {
    marshal = λ f. f.body;
    unmarshal = λ s. none;
    encode64 = λ s. s;
    decode64 = λ s. some s;
    hkdf = λ key salt info. some info;
    accepts = λ key. true;
    aead_seal = λ key nonce text ad. text;
    aead_open = λ key nonce text ad. some text;
  };
  parse_url = λ s. none;
  error_text = λ e. codes "refused";
  addresses = [];
  push_key = [];
}

-- The hash of the PIN 1.
abbrev one_hash : Bytes
one_hash = codes "scrypt$131072$8$1$00$31"

abbrev guarded_config : Config
guarded_config = record default_config {
  pin_protection = record { enabled = true; pin = []; pin_hash = one_hash };
}

abbrev lid : Sensor
lid = record { name = codes "lid"; display_name = codes "Lid"; works = true; reports_ready = false }

abbrev phone_conn : Conn
phone_conn = record {
  remote_addr = codes "10.0.0.9:4000";
  authenticated = true;
  token = codes "t";
  server_nonce = codes "n";
  pending_held = false;
  removed = false;
  socket = record { sealed = none; limiter = none; auth_limiter = none; outgoing = [] };
}

abbrev toy_manager : Manager
toy_manager =
    record (new_manager
      (record {
        max_sessions = 3;
        max_attempts = 5;
        lockout_period = 60;
        max_tracked_addrs = 256;
        session_ttl = 0;
        session_idle = 0;
      })
      (codes "0123456789012345") (codes "00")) {
        sessions = (codes "t", record { created_at = 1; last_seen = 1 }) ∷ [];
      }

-- Armed under the PIN 1, with the lid watched and one phone paired.
abbrev armed_hub : Hub
armed_hub = record {
  watch = record {
    armed = true;
    armed_at = 1;
    auto_arm_on_lock = false;
    pin_enabled = true;
    pin_hash = one_hash;
    alarm = no_alarm;
    suppressed_sensors = [];
    cfg = some guarded_config;
    sensors = record {
      sensors = lid ∷ [];
      enabled = (codes "lid", true) ∷ [];
      cancels = [];
      failures = [];
      availability = [];
      probing = [];
    };
  };
  clients = 0 ∷ [];
  conns = λ i. phone_conn;
  auth = toy_manager;
  pending = new_pending_conns 32 4;
  version = codes "1";
  heartbeat_interval = 15;
  disconnect_grace_period = 30;
  auth_deadline = 10;
  update_available = none;
  in_hand = none;
  effects = [];
}

abbrev says : MsgType → Bytes → ClientMessage
says kind pin = record {
  kind = kind;
  nonce = [];
  proof = [];
  encrypt = [];
  pin = pin;
  sensors = none;
  sensor = [];
  duration = pos 0;
  config = none;
  push = none;
}

abbrev at : ℕ → Moment
at now = record { now = now; random = none }

-- Disarming without a PIN and with a wrong one, a reset, the lid, the console, and the heartbeat.
abbrev attempts : List Step
attempts =
    message (at 5) 0 (says MsgType.disarm [])
    ∷ message (at 6) 0 (says MsgType.disarm_with_pin (codes "2"))
    ∷ message (at 7) 0 (says MsgType.reset_config (codes "2"))
    ∷ alerted 8 (lid_alert false)
    ∷ console_disarm (at 8) (codes "2")
    ∷ claimed 9 false
    ∷ heartbeat 9
    ∷ []

attempts-IsWithoutPin : All (IsWithoutPin toy_env one_hash) attempts
unfolding IsWithoutPin lid_alert Pin.verify_pin_hash Pin.verify_parts Pin.verify_scrypt
    Pin.with_params Pin.compare_scrypt Pin.split Pin.scan Pin.digits Pin.signed Pin.read_signed
    Pin.atoi Pin.hex_value Pin.hex_pair Pin.hex_decode Pin.good_params
attempts-IsWithoutPin = (refl, (refl, (refl, (refl, (refl, (tt, (tt, tt)))))))

armed_hub-IsGuarded : IsGuarded one_hash armed_hub
unfolding view
armed_hub-IsGuarded = (refl, refl, refl, refl)

take_steps-IsGuarded_example : IsGuarded one_hash (take_steps toy_env attempts armed_hub)
take_steps-IsGuarded_example =
    take_steps-IsGuarded toy_env one_hash attempts armed_hub refl attempts-IsWithoutPin
      armed_hub-IsGuarded

-- A phone that asks for the lid to be switched off.
abbrev switching : Step
switching =
    message (at 5) 0 (record (says configure []) { sensors = some ((codes "lid", false) ∷ []) })

switching-IsWithoutPin : All (IsWithoutPin toy_env one_hash) (switching ∷ [])
unfolding IsWithoutPin Pin.verify_pin_hash Pin.verify_parts Pin.verify_scrypt Pin.with_params
    Pin.compare_scrypt Pin.split Pin.scan Pin.digits Pin.signed Pin.read_signed Pin.atoi
    Pin.hex_value Pin.hex_pair Pin.hex_decode Pin.good_params
switching-IsWithoutPin = (refl, tt)

stays_armed : (take_step toy_env switching armed_hub).watch.armed ≡ true
unfolding take_steps view
stays_armed =
    (take_steps-IsGuarded toy_env one_hash (switching ∷ []) armed_hub refl switching-IsWithoutPin
      armed_hub-IsGuarded).0

take_step-keeps_on_example :
    is_enabled (codes "lid") (take_step toy_env switching armed_hub).watch.sensors ≡ true
unfolding is_enabled or_false lookup
take_step-keeps_on_example =
    take_step-keeps_on toy_env switching armed_hub (codes "lid") refl stays_armed refl refl

tested_sensor_off_example :
    let after : Hub = disable_alarm_sensor 6 (trigger_sensor_test 5 (codes "lid") armed_hub).0 in
    (is_enabled (codes "lid") after.watch.sensors ≡ false) × (after.watch.armed ≡ true)
unfolding display_name_of
tested_sensor_off_example = tested_sensor_off 5 6 (codes "lid") armed_hub refl refl refl refl

-- A phone that has been greeted and is not paired yet, and the message that pairs it.
abbrev greeted : Hub
greeted = record armed_hub {
  conns = λ i. record phone_conn { authenticated = false; token = [] };
  clients = [];
  auth = record toy_manager { sessions = [] };
}

abbrev pairing : ClientMessage
pairing = record (says MsgType.auth []) {
  nonce = codes "0000000000000000000000000000000000000000000000000000000000000000";
  proof = codes "30313233343536373839303132333435";
  encrypt = enc_cha_cha;
}

pairing_succeeds :
    ((handle_auth toy_env (record { now = 5; random = some (7 ∷ []) }) 0 pairing greeted).conns
      0).authenticated
    ≡ true
unfolding handle_auth judge_proof auth_key valid_nonce lower_hex proof_holds derived handshake_proof
    hex_encode hex_digit authenticate looked_up record_for make_room normalize_addr judge sweep
    session_expired right_key encode_random strip_dashes paired enrol release_slot set_conn
    add_client seal_or_fail new_session with_keys accept get_sensor_infos sensor_infos available_now
    welcome send_update send_alarm log_event emit set_auth set_sensors set_watch lookup insert erase
pairing_succeeds = refl

handle_auth_sound_example :
    (enc_cha_cha ≡ enc_cha_cha)
    × (valid_nonce pairing.nonce ≡ true)
    × (proof_holds toy_env.proofs
          (derived toy_env.proofs toy_manager.pairing_key toy_manager.pairing_salt)
          role_client
          (codes "n")
          pairing.nonce
          enc_cha_cha
          pairing.proof
        ≡ true)
handle_auth_sound_example =
    handle_auth_sound toy_env (record { now = 5; random = some (7 ∷ []) }) 0 pairing greeted refl
      refl pairing_succeeds

abbrev new_endpoint : LocationConfigPayload
new_endpoint = record {
  enabled = true;
  poll_seconds = pos 60;
  phone_anchor = true;
  ip_fallback = true;
  wifi_enabled = true;
  geolocate_url = codes "https://evil";
  has_key = false;
  geolocate_key = [];
}

abbrev with_key : Location
with_key = record default_config.location { geolocate_key = codes "secret" }

apply_location_key_example :
    (has_prefix (apply_location with_key new_endpoint).0.geolocate_url (codes "https://") ≡ true)
    × ((apply_location with_key new_endpoint).0.geolocate_key ≡ [])
unfolding apply_location apply_geolocate_url has_prefix default_config
apply_location_key_example = apply_location_key with_key new_endpoint refl

config_to_payload_secrets_example :
    config_to_payload (differ_in_secrets guarded_config [] (codes "other") [])
    ≡ config_to_payload guarded_config
unfolding default_config
config_to_payload_secrets_example =
    config_to_payload_secrets guarded_config [] (codes "other") [] refl refl
