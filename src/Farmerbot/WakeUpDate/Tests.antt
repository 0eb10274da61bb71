-- ===== src/Farmerbot/WakeUpDate/Tests.antt =====
-- The round trip of a wake up date at a concrete time.
use tfgrid_sdk_go.Prelude.{◌≡◌, some, arith}
use tfgrid_sdk_go.Farmerbot.WakeUpDate.{unmarshal_text, marshal_text, unmarshal_text-marshal_text}

wake_up_date_example : unmarshal_text (marshal_text 12 30) ≡ some (12, 30)
wake_up_date_example = unmarshal_text-marshal_text 12 30 (omega arith) (omega arith)
