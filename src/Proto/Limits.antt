-- ===== src/Proto/Limits.antt =====
-- The constants of src/common/proto.hpp.
use ckmux.Prelude.{ℕ, ◌*◌}

abbrev pub header_bytes : ℕ
header_bytes = 8

abbrev pub max_payload_bytes : ℕ
max_payload_bytes = 1024 * 1024

abbrev pub max_chunk_payload_bytes : ℕ
max_chunk_payload_bytes = 256 * 1024

abbrev pub max_snapshot_payload_bytes : ℕ
max_snapshot_payload_bytes = 16 * 1024 * 1024

abbrev pub max_string_bytes : ℕ
max_string_bytes = 64 * 1024

abbrev pub max_cell_text_bytes : ℕ
max_cell_text_bytes = 15

abbrev pub max_grid_columns : ℕ
max_grid_columns = 1000

abbrev pub max_grid_rows : ℕ
max_grid_rows = 1000

abbrev pub max_grid_cells : ℕ
max_grid_cells = max_grid_columns * max_grid_rows
