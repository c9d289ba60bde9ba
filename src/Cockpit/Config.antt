-- ===== src/Cockpit/Config.antt =====
-- cockpit_client/cockpit_client_app.cc: RuntimeConfig and load_config. A file that cannot be opened is
-- `none`; else it is its lines.
use whl_air.Base.{ℕ, ◌≤◌, String, ◌≡◌, subst⁻¹, Option, none, some, List, [], arith}
use whl_air.StringMap.{Map}
use whl_air.KeyValues.{parse, text_of, int_of, int_of_bound}

pub record RuntimeConfig : Type 0 where
  pub client_id : String
  pub target_vehicle_id : String
  pub heartbeat_interval_ms : ℕ
  pub telemetry_interval_ms : ℕ
  pub connect_delay_ms : ℕ
  pub control_channel_label : String
  pub telemetry_channel_label : String

-- The initialisers of the fields.
abbrev pub default : RuntimeConfig
default = record {
  client_id = "cockpit_client_default";
  target_vehicle_id = "vehicle_client_default";
  heartbeat_interval_ms = 1000;
  telemetry_interval_ms = 200;
  connect_delay_ms = 300;
  control_channel_label = "control";
  telemetry_channel_label = "telemetry";
}

unfoldable fill : RuntimeConfig → Map String → RuntimeConfig
unfolding text_of int_of
fill config kv = record {
  client_id = text_of kv "client_id" config.client_id;
  target_vehicle_id = text_of kv "target_vehicle_id" config.target_vehicle_id;
  control_channel_label = text_of kv "control_channel_label" config.control_channel_label;
  telemetry_channel_label = text_of kv "telemetry_channel_label" config.telemetry_channel_label;
  heartbeat_interval_ms = int_of kv "heartbeat_interval_ms" 100 config.heartbeat_interval_ms;
  telemetry_interval_ms = int_of kv "telemetry_interval_ms" 20 config.telemetry_interval_ms;
  connect_delay_ms = int_of kv "connect_delay_ms" 10 config.connect_delay_ms;
}

unfoldable pub load_config : Option (List String) → RuntimeConfig → Option RuntimeConfig
unfolding parse fill
load_config none config = none
load_config (some lines) config = elim (parse [] lines) [
  | none ↦ none
  | some kv ↦ some (fill config kv)
]

filled_in_range :
    (config : RuntimeConfig) (r : Option (Map String))
    → elim r [ none ↦ none | some kv ↦ some (fill default kv) ] ≡ some config
    → (100 ≤ config.heartbeat_interval_ms)
      × (20 ≤ config.telemetry_interval_ms)
      × (10 ≤ config.connect_delay_ms)
unfolding fill
filled_in_range config none e = cc
filled_in_range config (some kv) e =
    let same : config ≡ fill default kv = cc in
    subst⁻¹
      (λ (c : RuntimeConfig).
        (100 ≤ c.heartbeat_interval_ms)
        × (20 ≤ c.telemetry_interval_ms)
        × (10 ≤ c.connect_delay_ms))
      same
      (
        int_of_bound kv "heartbeat_interval_ms" 100 1000 (omega arith),
        int_of_bound kv "telemetry_interval_ms" 20 200 (omega arith),
        int_of_bound kv "connect_delay_ms" 10 300 (omega arith),
      )

-- Whatever the file holds, a configuration that load_config makes of the default one has a heartbeat
-- interval of at least 100 ms, a telemetry interval of at least 20 ms and a connection delay of at
-- least 10 ms.
pub cockpit_config_in_range :
    (file : Option (List String)) (config : RuntimeConfig)
    → load_config file default ≡ some config
    → (100 ≤ config.heartbeat_interval_ms)
      × (20 ≤ config.telemetry_interval_ms)
      × (10 ≤ config.connect_delay_ms)
unfolding load_config
cockpit_config_in_range none config e = cc
cockpit_config_in_range (some lines) config e = filled_in_range config (parse [] lines) e
