-- ===== src/Afc/Error.antt =====
-- The codes of afc_error_t. A C function may also return a code that the device made up, so a code
-- is a number below 2 ^ 32, the bit pattern of the enumeration's value.
use Prim.Native.Nat.{ℕ}
use libimobiledevice.Service.{ServiceError}

abbrev pub success : ℕ
success = 0

abbrev pub unknown_error : ℕ
unknown_error = 1

abbrev pub op_header_invalid : ℕ
op_header_invalid = 2

abbrev pub no_resources : ℕ
no_resources = 3

abbrev pub read_error : ℕ
read_error = 4

abbrev pub write_error : ℕ
write_error = 5

abbrev pub unknown_packet_type : ℕ
unknown_packet_type = 6

abbrev pub invalid_arg : ℕ
invalid_arg = 7

abbrev pub object_not_found : ℕ
object_not_found = 8

abbrev pub object_is_dir : ℕ
object_is_dir = 9

abbrev pub perm_denied : ℕ
perm_denied = 10

abbrev pub service_not_connected : ℕ
service_not_connected = 11

abbrev pub op_timeout : ℕ
op_timeout = 12

abbrev pub too_much_data : ℕ
too_much_data = 13

abbrev pub end_of_data : ℕ
end_of_data = 14

abbrev pub op_not_supported : ℕ
op_not_supported = 15

abbrev pub object_exists : ℕ
object_exists = 16

abbrev pub object_busy : ℕ
object_busy = 17

abbrev pub no_space_left : ℕ
no_space_left = 18

abbrev pub op_would_block : ℕ
op_would_block = 19

abbrev pub io_error : ℕ
io_error = 20

abbrev pub op_interrupted : ℕ
op_interrupted = 21

abbrev pub op_in_progress : ℕ
op_in_progress = 22

abbrev pub internal_error : ℕ
internal_error = 23

abbrev pub mux_error : ℕ
mux_error = 30

abbrev pub no_mem : ℕ
no_mem = 31

abbrev pub not_enough_data : ℕ
not_enough_data = 32

abbrev pub dir_not_empty : ℕ
dir_not_empty = 33

abbrev pub ssl_error : ℕ
ssl_error = 34

unfoldable pub service_to_afc_error : ServiceError → ℕ
service_to_afc_error ServiceError.success = success
service_to_afc_error ServiceError.invalid_arg = invalid_arg
service_to_afc_error ServiceError.mux_error = mux_error
service_to_afc_error ServiceError.ssl_error = ssl_error
service_to_afc_error ServiceError.not_enough_data = not_enough_data
service_to_afc_error ServiceError.timeout = op_timeout
service_to_afc_error _ = unknown_error
