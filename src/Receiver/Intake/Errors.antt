-- ===== src/Receiver/Intake/Errors.antt =====
-- The exceptions that leave the MQTT callback.
use robo_services.Prelude.{string_eq}
use robo_services.Prelude.Text.{Text}
use robo_services.Receiver.{
  Raised, date_out_of_range, not_serializable, not_an_int, parser_failure, broker_failure,
}
use robo_services.Receiver.Outbox.{Receiver}

-- The exceptions that may leave the callback
pub data Leaves : Raised → Type 0 where
  no_date : Leaves date_out_of_range
  no_json : Leaves not_serializable
  no_int : Leaves not_an_int
  no_parse : Leaves parser_failure
  no_broker : Leaves broker_failure
