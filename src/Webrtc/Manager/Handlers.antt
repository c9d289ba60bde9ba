-- ===== src/Webrtc/Manager/Handlers.antt =====
-- webrtc/webrtc_manager.cc: the registration of the application's handlers. An empty std::function
-- is `none`.
use whl_air.Base.{Option}
use whl_air.Webrtc.Interfaces.{IPeerConnection, ISignalingClient, Handler}
use whl_air.Webrtc.Manager.{Manager}

-- Which handler: the methods are named after these.
pub data Slot : Type 0 where
  on_signaling_connected on_signaling_disconnected on_signaling_error : Slot
  on_peer_connected on_peer_disconnected on_peer_error : Slot
  on_data_channel_message_received : Slot

module _ {net : IPeerConnection} {sig : ISignalingClient} where
  unfoldable pub register : Slot → Manager net sig → Option Handler → Manager net sig
  register on_signaling_connected m handler = record m { on_signaling_connected_handler = handler }
  register on_signaling_disconnected m handler = record m {
    on_signaling_disconnected_handler = handler;
  }
  register on_signaling_error m handler = record m { on_signaling_error_handler = handler }
  register on_peer_connected m handler = record m { on_peer_connected_handler = handler }
  register on_peer_disconnected m handler = record m { on_peer_disconnected_handler = handler }
  register on_peer_error m handler = record m { on_peer_error_handler = handler }
  register on_data_channel_message_received m handler = record m {
    on_data_channel_message_received_handler = handler;
  }
