-- ===== src/Modbus/Pdu.antt =====
-- internal/modbus/pdu.go, and the errors of the package. Go's error values carry text; here they
-- carry the numbers that the text is made from.
use freeway_pi.Base.{ℕ, Bool, true, false, Option, ◌==◌}

abbrev pub fc_read_coils : ℕ
fc_read_coils = 1

abbrev pub fc_read_discrete_inputs : ℕ
fc_read_discrete_inputs = 2

abbrev pub fc_read_holding_registers : ℕ
fc_read_holding_registers = 3

abbrev pub fc_read_input_registers : ℕ
fc_read_input_registers = 4

abbrev pub fc_write_single_coil : ℕ
fc_write_single_coil = 5

abbrev pub fc_write_single_register : ℕ
fc_write_single_register = 6

abbrev pub fc_write_multiple_coils : ℕ
fc_write_multiple_coils = 15

abbrev pub fc_write_multiple_registers : ℕ
fc_write_multiple_registers = 16

abbrev pub exception_illegal_function : ℕ
exception_illegal_function = 1

abbrev pub exception_illegal_data_address : ℕ
exception_illegal_data_address = 2

abbrev pub exception_illegal_data_value : ℕ
exception_illegal_data_value = 3

abbrev pub exception_server_device_failure : ℕ
exception_server_device_failure = 4

abbrev pub exception_server_device_busy : ℕ
exception_server_device_busy = 6

abbrev pub exception_gateway_target_no_response : ℕ
exception_gateway_target_no_response = 11

-- What may go wrong, one constructor for each place that makes an error.
pub data Error : Type 0 where
  exception : (function code : ℕ) → Error
  no_response_length : (fc : ℕ) → Error
  short_frame : (size : ℕ) → Error
  bad_crc : (size : ℕ) → Error
  wrong_slave : (got expected : ℕ) → Error
  wrong_exception : (got expected : ℕ) → Error
  wrong_function : (got expected : ℕ) → Error
  empty_payload : Error
  payload_length : (says wanted : ℕ) → Error
  eof : Error
  unexpected_eof : Error
  bad_protocol : (protocol : ℕ) → Error
  length_too_small : (size : ℕ) → Error
  pdu_too_long : (size : ℕ) → Error
  empty_pdu : Error
  short_request : (fc size : ℕ) → Error
  unsupported_function : (fc : ℕ) → Error
  timeout : Error
  transport : (code : ℕ) → Error
  drain_failed : (code : ℕ) → Error
  write_failed : (code : ℕ) → Error
  truncated : (total : ℕ) → (cause : Option ℕ) → Error

pub is_illegal_data_address : Error → Bool
is_illegal_data_address (exception function code) = code == exception_illegal_data_address
is_illegal_data_address _ = false

-- `errors.As(err, &ex)` for a Modbus exception. A wrapped error is never one: the client wraps only
-- what the transport reports.
unfoldable pub is_exception : Error → Bool
is_exception (exception function code) = true
is_exception _ = false
