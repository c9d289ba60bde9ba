-- ===== src/Vehicle/Sensors/Camera.antt =====
-- vehicle_client/sensors/camera.cc: V4L2CameraSource. Its integers are 32 bits wide and wrap around.
use Prim.Native.Nat.{◌%◌, ◌/◌, ◌^◌}
use whl_air.Base.{ℕ, ◌*◌, String, Bool, true, Option, none, some, List, [], ◌∷◌, eqb, if◌then◌else◌}
use whl_air.Vehicle.Sensors.{Worker, Handler, idle}
use whl_air.Vehicle.Sensors

pub record Camera : Type 0 where
  pub device_path : String
  pub width : ℕ
  pub height : ℕ
  pub fps : ℕ
  pub worker : Worker

-- The constructor, with the initialisers of the members.
abbrev pub created : Camera
created = record { device_path = ""; width = 0; height = 0; fps = 0; worker = idle }

-- The opening of the device is left out by the source.
unfoldable pub init : Camera → String → ℕ → ℕ → ℕ → Camera × Bool
init c device_path width height fps =
    (record c { device_path = device_path; width = width; height = height; fps = fps }, true)

unfoldable pub start_capture : Camera → Option Handler → Option (Camera × Bool)
unfolding Sensors.start
start_capture c handler = elim (Sensors.start c.worker handler) [
  | none ↦ none
  | some next ↦ some (record c { worker = next.0 }, next.1)
]

unfoldable pub stop_capture : Camera → Camera
unfolding Sensors.stop
stop_capture c = record c { worker = Sensors.stop c.worker }

unfoldable pub destroy : Camera → Option Camera
unfolding Sensors.destroy
destroy c = elim (Sensors.destroy c.worker) [
  | none ↦ none
  | some worker ↦ some (record c { worker = worker })
]

-- `width_ * height_ * 3 / 2`
unfoldable pub dummy_frame_size : Camera → ℕ
dummy_frame_size c = c.width * c.height * 3 % 2 ^ 32 / 2

-- `1000 / fps_`: none for a division by zero.
unfoldable pub frame_interval : Camera → Option ℕ
frame_interval c = if eqb c.fps 0 then none else some (1000 / c.fps)

-- The handler, the size of the data, the width and the height.
pub record Frame : Type 0 where
  pub handler : Handler
  pub size : ℕ
  pub width : ℕ
  pub height : ℕ

-- What a round of captureLoop hands to the handler; the size was taken when the loop began.
unfoldable pub capture_round : Camera → ℕ → List Frame
capture_round c size =
    if c.worker.is_running
    then (elim c.worker.handler [
      | none ↦ []
      | some handler ↦
          record { handler = handler; size = size; width = c.width; height = c.height } ∷ []
    ])
    else []
