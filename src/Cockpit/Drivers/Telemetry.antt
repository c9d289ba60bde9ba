-- ===== src/Cockpit/Drivers/Telemetry.antt =====
-- What the display can read in the messages of cockpit_client/drivers/telemetry_handler.cc.
use Prim.Native.String.{[], ◌∷◌}
use whl_air.Base.{
  String, ◌<>◌, ◌≡◌, refl, ap, sym, subst⁻¹, ◌∙◌, Option, none, some, List, [], ◌∷◌, arith,
}
use whl_air.Signaling.Serialize.{to_string}
use whl_air.Signaling.Scan.{strip, behind, before, is_end}
use whl_air.Signaling.Pieces.{cat, IsNumberText, IsPlain}
use whl_air.Signaling.Pieces.Search.{token, behind-mark, behind-plain, behind-name, behind-key}
use whl_air.Signaling.Pieces.Lookup.{before_end-cat}
use whl_air.Signaling.Pieces.Reading.{append-cat}
use whl_air.Vehicle.Sensors.Chassis.Loop.{Chassis}
use whl_air.Cockpit.Drivers.{
  Server, Send, one_client, TelemetryHandler, created, init, dummy_json, process_incoming_telemetry,
}

-- The handler after some calls of init.
unfoldable pub init_all : TelemetryHandler → List (Option Server) → TelemetryHandler
unfolding init
init_all h [] = h
init_all h (server ∷ rest) = init_all (init h server).0 rest

-- The last server that is there, and the given one if there is none.
pub latest : Option Server → List (Option Server) → Option Server
latest server [] = server
latest server (none ∷ rest) = latest server rest
latest server (some next ∷ rest) = latest (some next) rest

init_all-latest :
    (h : TelemetryHandler) (servers : List (Option Server))
    → (init_all h servers).transport_server ≡ latest h.transport_server servers
unfolding init_all init latest
init_all-latest h [] = refl
init_all-latest h (none ∷ rest) = init_all-latest h rest
init_all-latest h (some next ∷ rest) =
    init_all-latest (record { transport_server = some next }) rest

-- The text of the two values.
abbrev text_of : String → String → String
text_of speed gear = "{ \"speed_mps\": " <> (speed <> (", \"gear\": " <> (gear <> " }")))

abbrev cat_of : String → String → String
cat_of speed gear = cat "{ \"speed_mps\": " (cat speed (cat ", \"gear\": " (cat gear " }")))

number-IsPlain : (s : String) → IsNumberText s → IsPlain s
number-IsPlain [] p = tt
number-IsPlain (c ∷ s) p = (p.0, number-IsPlain s p.2)

text_of-cat : (speed gear : String) → text_of speed gear ≡ cat_of speed gear
text_of-cat speed gear = simp append-cat

speed-IsPlain : IsPlain "speed_mps"
speed-IsPlain = ground arith

gear-IsPlain : IsPlain "gear"
gear-IsPlain = ground arith

speed_read :
    (speed gear : String)
    → behind (cat_of speed gear) "\"speed_mps\": "
      ≡ some (cat speed (cat ", \"gear\": " (cat gear " }")))
unfolding strip
speed_read speed gear =
    let rest = cat speed (cat ", \"gear\": " (cat gear " }")) in
    behind-mark "s" "peed_mps" " " refl speed-IsPlain "{" (cat " \"speed_mps\": " rest) refl
    ∙ behind-mark "s" "peed_mps" " " refl speed-IsPlain " " (cat "\"speed_mps\": " rest) refl
    ∙ behind-key "s" "peed_mps" " " refl speed-IsPlain "speed_mps" (cat " " rest) rest speed-IsPlain
        refl refl

gear_read :
    (speed gear : String)
    → IsNumberText speed
    → behind (cat_of speed gear) "\"gear\": " ≡ some (cat gear " }")
unfolding strip
gear_read speed gear p =
    let rest = cat gear " }" in
    let more = cat ", \"gear\": " rest in
    behind-mark "g" "ear" " " refl gear-IsPlain "{" (cat " \"speed_mps\": " (cat speed more)) refl
    ∙ behind-mark "g" "ear" " " refl gear-IsPlain " " (cat "\"speed_mps\": " (cat speed more)) refl
    ∙ behind-name "g" "ear" " " refl gear-IsPlain "speed_mps" (cat " " (cat speed more))
        speed-IsPlain refl
    ∙ behind-mark "g" "ear" " " refl gear-IsPlain " " (cat speed more) refl
    ∙ behind-plain "g" "ear" " " refl gear-IsPlain speed more (number-IsPlain speed p)
    ∙ behind-mark "g" "ear" " " refl gear-IsPlain "," (cat " \"gear\": " rest) refl
    ∙ behind-mark "g" "ear" " " refl gear-IsPlain " " (cat "\"gear\": " rest) refl
    ∙ behind-key "g" "ear" " " refl gear-IsPlain "gear" (cat " " rest) rest gear-IsPlain refl refl

-- What stands behind a token, up to the next comma or closing brace.
abbrev pub value_behind : String → String → Option String
value_behind token text = elim (behind text token) [ none ↦ none | some rest ↦ before is_end rest ]

-- The message, for the server that is in force, and what can be read in it.
pub IsDisplayed : Option Server → Option Send → String → String → Type 0
IsDisplayed none sent speed gear = sent ≡ none
IsDisplayed (some server) sent speed gear =
    (message : String) × (sent
      ≡ some (record { server = server; target = one_client 1; message = message }))
    × (value_behind "\"speed_mps\": " message ≡ some speed)
    × (behind message "\"gear\": " ≡ some (gear <> " }"))

displayed :
    (server : Option Server) (speed gear : String)
    → IsNumberText speed
    → IsDisplayed server
        (elim server [
          | none ↦ none
          | some there ↦
              some (record { server = there; target = one_client 1; message = text_of speed gear })
        ])
        speed
        gear
unfolding IsDisplayed
displayed none speed gear p = refl
displayed (some server) speed gear p =
    let told = text_of-cat speed gear in
    (
      text_of speed gear,
      refl,
      ap (value_behind "\"speed_mps\": ") told
          ∙ ap (λ r. elim r [ none ↦ none | some rest ↦ before is_end rest ])
              (speed_read speed gear)
          ∙ before_end-cat speed (cat ", \"gear\": " (cat gear " }")) p refl,
      ap (λ t. behind t "\"gear\": ") told
          ∙ gear_read speed gear p
          ∙ sym (ap some (append-cat gear " }")),
    )

-- The handler after any calls of init processes telemetry whose speed is shown without a quote, a
-- comma or a closing brace. If none of the calls has given a server, it calls through a null pointer.
-- Otherwise it sends one message, to the connection 1 of the server that was given last; in it the
-- shown speed stands between the key speed_mps and the next comma or closing brace, and the gear
-- stands behind the key gear and before a space and a closing brace.
pub process_incoming_telemetry-IsDisplayed {ℓ} :
    {W : Type ℓ} (shown : W → String) (servers : List (Option Server)) (peer : String)
    (telemetry_data : Chassis W)
    → IsNumberText (shown telemetry_data.speed_mps)
    → IsDisplayed
        (latest none servers)
        (process_incoming_telemetry shown (init_all created servers) peer telemetry_data)
        (shown telemetry_data.speed_mps)
        (to_string telemetry_data.gear)
unfolding process_incoming_telemetry dummy_json
process_incoming_telemetry-IsDisplayed shown servers peer telemetry_data p =
    let inner =
      displayed (latest none servers) (shown telemetry_data.speed_mps)
        (to_string telemetry_data.gear) p in
    subst⁻¹
      (λ server.
        IsDisplayed (latest none servers)
          (elim server [
            | none ↦ none
            | some there ↦ some (record {
              server = there;
              target = one_client 1;
              message = dummy_json shown telemetry_data;
            })
          ])
          (shown telemetry_data.speed_mps) (to_string telemetry_data.gear))
      (init_all-latest created servers) inner
