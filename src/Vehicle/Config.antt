-- ===== src/Vehicle/Config.antt =====
-- vehicle_client/vehicle_client_app.cc: RuntimeConfig and load_config. A file that cannot be opened is
-- `none`; else it is its lines.
use whl_air.Base.{ℕ, ◌≤◌, String, ◌≡◌, subst⁻¹, Option, none, some, List, [], arith}
use whl_air.StringMap.{Map}
use whl_air.KeyValues.{parse, text_of, int_of, int_of_bound}

pub record RuntimeConfig : Type 0 where
  pub client_id : String
  pub camera_fps : ℕ
  pub telemetry_interval_ms : ℕ
  pub heartbeat_interval_ms : ℕ
  pub control_channel_label : String
  pub telemetry_channel_label : String

-- The initialisers of the fields.
abbrev pub default : RuntimeConfig
default = record {
  client_id = "vehicle_client_default";
  camera_fps = 15;
  telemetry_interval_ms = 200;
  heartbeat_interval_ms = 1000;
  control_channel_label = "control";
  telemetry_channel_label = "telemetry";
}

unfoldable fill : RuntimeConfig → Map String → RuntimeConfig
unfolding text_of int_of
fill config kv = record {
  client_id = text_of kv "client_id" config.client_id;
  control_channel_label = text_of kv "control_channel_label" config.control_channel_label;
  telemetry_channel_label = text_of kv "telemetry_channel_label" config.telemetry_channel_label;
  camera_fps = int_of kv "camera_fps" 1 config.camera_fps;
  telemetry_interval_ms = int_of kv "telemetry_interval_ms" 20 config.telemetry_interval_ms;
  heartbeat_interval_ms = int_of kv "heartbeat_interval_ms" 0 config.heartbeat_interval_ms;
}

unfoldable pub load_config : Option (List String) → RuntimeConfig → Option RuntimeConfig
unfolding parse fill
load_config none config = none
load_config (some lines) config = elim (parse [] lines) [
  | none ↦ none
  | some kv ↦ some (fill config kv)
]

fill_in_range :
    (config : RuntimeConfig) (kv : Map String)
    → 1 ≤ config.camera_fps
    → 20 ≤ config.telemetry_interval_ms
    → (1 ≤ (fill config kv).camera_fps) × (20 ≤ (fill config kv).telemetry_interval_ms)
unfolding fill
fill_in_range config kv fps telemetry = (
  int_of_bound kv "camera_fps" 1 config.camera_fps fps,
  int_of_bound kv "telemetry_interval_ms" 20 config.telemetry_interval_ms telemetry,
)

filled_in_range :
    (config : RuntimeConfig) (r : Option (Map String))
    → elim r [ none ↦ none | some kv ↦ some (fill default kv) ] ≡ some config
    → (1 ≤ config.camera_fps) × (20 ≤ config.telemetry_interval_ms)
filled_in_range config none e = cc
filled_in_range config (some kv) e =
    let same : config ≡ fill default kv = cc in
    subst⁻¹ (λ (c : RuntimeConfig). (1 ≤ c.camera_fps) × (20 ≤ c.telemetry_interval_ms)) same
      (fill_in_range default kv (omega arith) (omega arith))

-- Whatever the file holds, a configuration that load_config makes of the default one has at least one
-- frame per second, so that the division in camera_loop is defined, and a telemetry interval of at
-- least 20 ms.
pub vehicle_config_in_range :
    (file : Option (List String)) (config : RuntimeConfig)
    → load_config file default ≡ some config
    → (1 ≤ config.camera_fps) × (20 ≤ config.telemetry_interval_ms)
unfolding load_config
vehicle_config_in_range none config e = cc
vehicle_config_in_range (some lines) config e = filled_in_range config (parse [] lines) e
