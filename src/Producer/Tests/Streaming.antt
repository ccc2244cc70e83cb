-- ===== src/Producer/Tests/Streaming.antt =====
-- Runs of the loop of producer/main.py.
use crypto_streaming_lakehou.Base.{
  ℕ, ◌≡◌, refl, true, false, List, [], ◌∷◌, ◌++◌, All, Try, ok, raised, other,
}
use crypto_streaming_lakehou.Base.Json.{
  Json, bool, float, string, object, nil, cons, end, field, get, get_field,
}
use crypto_streaming_lakehou.Producer.Publisher.{Confirm, acked}
use crypto_streaming_lakehou.Producer.Stream.{handle_shutdown, process_message}
use crypto_streaming_lakehou.Producer.Stream.Accounting.{IsSeparate}
use crypto_streaming_lakehou.Producer.Stream.Boundary.{HoldsClean, process_message-HoldsClean}
use crypto_streaming_lakehou.Producer.Reconnect.{
  Input, signal, not_json, message, Round, gave_up, shutdown, listen, yielded, stream,
}
use crypto_streaming_lakehou.Producer.Reconnect.Accounting.{LosesAtMost, stream-LosesAtMost}
use crypto_streaming_lakehou.Producer.Reconnect.GiveUp.{Refused, stream_gives_up}
use crypto_streaming_lakehou.Producer.Reconnect.Shutdown.{stream_shuts_down}
use crypto_streaming_lakehou.Producer.Tests.{pydantic, trade_with, dump, fresh, market_trades}

abbrev up : ℕ → Confirm
up i = acked

never_validates : IsSeparate pydantic dump up
never_validates i h = cc

-- A trade that passes, one that does not, and one whose side ends the event.
abbrev three : Json
three = market_trades (
    cons (object (trade_with (string "1.5") (string "sell"))) (
      cons (object (trade_with (float "1.5") (string "sell")))
        (cons (object (trade_with (string "1.5") (bool true))) nil)))

process_message-HoldsClean_example :
    HoldsClean pydantic dump up (process_message pydantic dump up three fresh).1.publisher
process_message-HoldsClean_example =
    process_message-HoldsClean pydantic dump up three fresh (tt, tt)

abbrev round_with : Try (Unit {0}) → List Input → Round
round_with connect inputs = record {
  signal_before = false;
  signal_connecting = false;
  connect = connect;
  subscribe = ok tt;
  inputs = inputs;
  close = raised other;
}

abbrev heartbeat : Json
heartbeat = object (field "channel" (string "heartbeats") end)

abbrev day : List Round
day = round_with (ok tt) (message three ∷ []) ∷ round_with (raised other) [] ∷ []

stream-LosesAtMost_example :
    LosesAtMost pydantic dump up 2 fresh (stream pydantic dump up day fresh).1
stream-LosesAtMost_example = stream-LosesAtMost pydantic dump up day fresh never_validates

heartbeat_passes :
    listen pydantic dump up (ok tt) (not_json ∷ message heartbeat ∷ []) fresh ≡ (ok tt, fresh)
unfolding listen yielded process_message get get_field
heartbeat_passes = refl

stream_shuts_down_example :
    stream pydantic dump up
      (round_with (ok tt) (not_json ∷ message heartbeat ∷ signal ∷ message three ∷ []) ∷ day)
      fresh
    ≡ (shutdown, handle_shutdown fresh)
stream_shuts_down_example =
    stream_shuts_down pydantic dump up (not_json ∷ message heartbeat ∷ []) (message three ∷ [])
      (round_with (ok tt) (not_json ∷ message heartbeat ∷ signal ∷ message three ∷ [])) day fresh
      fresh refl refl refl refl refl refl heartbeat_passes

abbrev refused : Round
refused = round_with (raised other) []

abbrev ten : List Round
ten =
    refused ∷ refused ∷ refused ∷ refused ∷ refused ∷ refused ∷ refused ∷ refused ∷ refused
    ∷ refused ∷ []

ten-Refused : All Refused ten
ten-Refused =
    let r : Refused refused = (refl, refl, (other, refl)) in
    (r, (r, (r, (r, (r, (r, (r, (r, (r, (r, tt))))))))))

stream_gives_up_example : stream pydantic dump up (ten ++ day) fresh ≡ (
  gave_up,
  record fresh { attempt = 10; slept = 1 ∷ 2 ∷ 4 ∷ 8 ∷ 16 ∷ 32 ∷ 60 ∷ 60 ∷ 60 ∷ 60 ∷ [] },
)
stream_gives_up_example = stream_gives_up pydantic dump up ten day fresh refl refl refl ten-Refused
