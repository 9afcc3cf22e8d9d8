-- ===== src/Proto/MessageType.antt =====
-- The message types of src/common/proto.hpp. A type is the number in the header, since the reader
-- casts whatever number it finds there.
use ckmux.Prelude.{ℕ}

abbrev pub hello : ℕ
hello = 0x0001

abbrev pub hello_ack : ℕ
hello_ack = 0x0002

abbrev pub refuse : ℕ
refuse = 0x0003

abbrev pub ping : ℕ
ping = 0x0004

abbrev pub pong : ℕ
pong = 0x0005

abbrev pub list_sessions : ℕ
list_sessions = 0x0101

abbrev pub new_session : ℕ
new_session = 0x0102

abbrev pub attach : ℕ
attach = 0x0103

abbrev pub detach : ℕ
detach = 0x0104

abbrev pub client_resize : ℕ
client_resize = 0x0105

abbrev pub rename_session : ℕ
rename_session = 0x0106

abbrev pub kill_session : ℕ
kill_session = 0x0107

abbrev pub kill_server : ℕ
kill_server = 0x0108

abbrev pub session_list : ℕ
session_list = 0x0109

abbrev pub sessions_changed : ℕ
sessions_changed = 0x010a

abbrev pub attached : ℕ
attached = 0x010b

abbrev pub detached : ℕ
detached = 0x010c

abbrev pub new_terminal : ℕ
new_terminal = 0x0201

abbrev pub close_terminal : ℕ
close_terminal = 0x0202

abbrev pub kill_terminal : ℕ
kill_terminal = 0x0203

abbrev pub respawn_terminal : ℕ
respawn_terminal = 0x0204

abbrev pub move_terminal : ℕ
move_terminal = 0x0205

abbrev pub move_resize : ℕ
move_resize = 0x0206

abbrev pub raise : ℕ
raise = 0x0207

abbrev pub focus_term : ℕ
focus_term = 0x0208

abbrev pub zoom_term : ℕ
zoom_term = 0x0209

abbrev pub rename_terminal : ℕ
rename_terminal = 0x020a

abbrev pub input : ℕ
input = 0x020b

abbrev pub paste_chunk : ℕ
paste_chunk = 0x020c

abbrev pub paste_ack : ℕ
paste_ack = 0x020d

abbrev pub set_layout : ℕ
set_layout = 0x020e

abbrev pub watch_stats : ℕ
watch_stats = 0x020f

abbrev pub set_desktop_size : ℕ
set_desktop_size = 0x0210

abbrev pub set_reader_mode : ℕ
set_reader_mode = 0x0211

abbrev pub layout_delta : ℕ
layout_delta = 0x0301

abbrev pub term_opened : ℕ
term_opened = 0x0302

abbrev pub term_closed : ℕ
term_closed = 0x0303

abbrev pub term_meta : ℕ
term_meta = 0x0304

abbrev pub grid_delta : ℕ
grid_delta = 0x0305

abbrev pub image_add_begin : ℕ
image_add_begin = 0x0306

abbrev pub image_chunk : ℕ
image_chunk = 0x0307

abbrev pub image_end : ℕ
image_end = 0x0308

abbrev pub image_place : ℕ
image_place = 0x0309

abbrev pub image_remove : ℕ
image_remove = 0x030a

abbrev pub clipboard_set : ℕ
clipboard_set = 0x030b

abbrev pub term_diagnostic : ℕ
term_diagnostic = 0x030c

abbrev pub term_stats : ℕ
term_stats = 0x030d

abbrev pub reader_mode : ℕ
reader_mode = 0x030e

abbrev pub error : ℕ
error = 0x0401

abbrev pub set_printer_policy : ℕ
set_printer_policy = 0x0402

abbrev pub print_state : ℕ
print_state = 0x0403

abbrev pub print_job_added : ℕ
print_job_added = 0x0404

abbrev pub print_job_fetch : ℕ
print_job_fetch = 0x0405

abbrev pub print_job_data : ℕ
print_job_data = 0x0406

abbrev pub print_job_discard : ℕ
print_job_discard = 0x0407
