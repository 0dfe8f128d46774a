-- ===== src/Monitor/Alerting.antt =====
-- internal/monitor/alerting.go: what the phone shows when a sensor fires.
use leave_safe.Prelude.{Bool, true, false, Bytes, codes}

pub data AlertLevel : Type 0 where
  alert_warning : AlertLevel
  alert_critical : AlertLevel

pub record Alert : Type 0 where
  pub sensor : Bytes
  pub level : AlertLevel
  pub message : Bytes

unfoldable pub charger_alert : Bool → Alert
charger_alert false = record {
  sensor = codes "power";
  level = alert_critical;
  message = codes "Charger disconnected!";
}
charger_alert true = record {
  sensor = codes "power";
  level = alert_warning;
  message = codes "Charger reconnected";
}

unfoldable pub lid_alert : Bool → Alert
lid_alert false = record {
  sensor = codes "lid";
  level = alert_critical;
  message = codes "Lid closed!";
}
lid_alert true = record {
  sensor = codes "lid";
  level = alert_warning;
  message = codes "Lid opened";
}

unfoldable pub screen_alert : Bool → Alert
screen_alert false = record {
  sensor = codes "screen";
  level = alert_warning;
  message = codes "Screen turned off!";
}
screen_alert true = record {
  sensor = codes "screen";
  level = alert_warning;
  message = codes "Screen turned on";
}
