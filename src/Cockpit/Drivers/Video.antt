-- ===== src/Cockpit/Drivers/Video.antt =====
-- What a client can read in the messages of cockpit_client/drivers/websocket_video_sink.h.
use Prim.Native.Char.{Char, code}
use Prim.Native.String.{[], ◌∷◌}
use whl_air.Base.{
  String, ◌<>◌, ◌≡◌, refl, ap, ◌∙◌, Bool, false, Option, none, some, List, [], ◌∷◌, eqb, arith,
}
use whl_air.Base.Int.{ℤ}
use whl_air.Signaling.Scan.{strip, before}
use whl_air.Signaling.Pieces.{cat}
use whl_air.Signaling.Pieces.Reading.{append-cat}
use whl_air.Cockpit.Drivers.{Server, Send, all_clients, WebSocketVideoSink, on_frame}

abbrev is_colon : Char → Bool
is_colon c = eqb (code c) 58

-- A text without colons.
abbrev pub HasNoColon : String → Type 0
HasNoColon [] = Unit
HasNoColon (c ∷ s) = (is_colon c ≡ false) × HasNoColon s

-- What stands between the word VIDEO with its colon and the next colon.
abbrev pub stream_of : String → Option String
stream_of message = elim (strip message "VIDEO:") [ none ↦ none | some rest ↦ before is_colon rest ]

before_colon-cat : (v s : String) → HasNoColon v → before is_colon (cat v (cat ":" s)) ≡ some v
unfolding before
before_colon-cat [] s p = refl
before_colon-cat (c ∷ v) s p = ground (arith, p.0, before_colon-cat v s p.1)

stream_read :
    (id more : String) → HasNoColon id → stream_of ("VIDEO:" <> (id <> (":" <> more))) ≡ some id
unfolding strip
stream_read id more p =
    let told : "VIDEO:" <> (id <> (":" <> more)) ≡ cat "VIDEO:" (cat id (cat ":" more)) =
      simp append-cat in
    ap stream_of told ∙ before_colon-cat id more p

-- The message, for the server of the sink, and the stream that it names.
pub IsStreamed : Option Server → List Send → String → Type 0
IsStreamed none sends id = sends ≡ []
IsStreamed (some server) sends id =
    (message : String) × (sends
      ≡ record { server = server; target = all_clients; message = message } ∷ [])
    × (stream_of message ≡ some id)

streamed :
    (server : Option Server) (message id : String)
    → stream_of message ≡ some id
    → IsStreamed server
        (elim server [
          | none ↦ []
          | some there ↦ record { server = there; target = all_clients; message = message } ∷ []
        ])
        id
unfolding IsStreamed
streamed none message id e = refl
streamed (some server) message id e = (message, refl, e)

-- Of a sink for a stream whose id has no colon: a frame that comes to it without a server sends
-- nothing. With a server it sends one message, to all clients of that server, in which the id is what
-- stands between the beginning VIDEO: and the next colon.
pub on_frame-IsStreamed :
    (shown : ℤ → String) (sink : WebSocketVideoSink) (timestamp_us : ℤ)
    → HasNoColon sink.stream_id
    → IsStreamed sink.transport_server (on_frame shown sink timestamp_us) sink.stream_id
unfolding on_frame
on_frame-IsStreamed shown sink timestamp_us p = streamed sink.transport_server _ sink.stream_id (
    stream_read sink.stream_id
      ("DUMMY_JPEG_DATA_" <> (sink.stream_id <> ("_" <> shown timestamp_us))) p)
