-- ===== src/Afc/Op.antt =====
-- The AFC_OP_* operation codes that the client sends or understands.
use Prim.Native.Nat.{ℕ}

abbrev pub status : ℕ
status = 0x1

abbrev pub op_data : ℕ
op_data = 0x2

abbrev pub read_dir : ℕ
read_dir = 0x3

abbrev pub truncate : ℕ
truncate = 0x7

abbrev pub remove_path : ℕ
remove_path = 0x8

abbrev pub make_dir : ℕ
make_dir = 0x9

abbrev pub get_file_info : ℕ
get_file_info = 0xa

abbrev pub get_devinfo : ℕ
get_devinfo = 0xb

abbrev pub file_open : ℕ
file_open = 0xd

abbrev pub file_open_res : ℕ
file_open_res = 0xe

abbrev pub file_read : ℕ
file_read = 0xf

abbrev pub file_write : ℕ
file_write = 0x10

abbrev pub file_seek : ℕ
file_seek = 0x11

abbrev pub file_tell : ℕ
file_tell = 0x12

abbrev pub file_tell_res : ℕ
file_tell_res = 0x13

abbrev pub file_close : ℕ
file_close = 0x14

abbrev pub file_set_size : ℕ
file_set_size = 0x15

abbrev pub rename_path : ℕ
rename_path = 0x18

abbrev pub file_lock : ℕ
file_lock = 0x1b

abbrev pub make_link : ℕ
make_link = 0x1c

abbrev pub set_file_mod_time : ℕ
set_file_mod_time = 0x1e

abbrev pub remove_path_and_contents : ℕ
remove_path_and_contents = 0x22
