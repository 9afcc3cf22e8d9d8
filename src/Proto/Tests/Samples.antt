-- ===== src/Proto/Tests/Samples.antt =====
-- Messages of src/common/proto.hpp for the tests.
use ckmux.Prelude.{length, ℕ, ◌≡◌, inr, refl, false, List, [], ◌∷◌, arith}
use ckmux.Prelude.Int.{pos, negsuc}
use ckmux.Proto.Wire.{◌▸◌, nothing}
use ckmux.Proto.Writer
use ckmux.Proto.Enums.{ClientKind, client_kind_code, grid_op_tag_code}
use ckmux.Proto.Handshake.{write_nonce, write_hello}
use ckmux.Proto.Cells.{write_color, write_cell, write_run, write_runs}
use ckmux.Proto.Cells.Fits.{FitsCell, FitsRuns}
use ckmux.Proto.GridOps.{write_scroll_op, write_cells_op}
use ckmux.Proto.Grid.{GridOp, write_grid_op, write_grid_ops}
use ckmux.Proto.Deltas.{write_grid_delta}
use ckmux.Proto.Carried.{carried_cell, carried_style, carried_color}
use ckmux.Proto.Carried.Exact.{IsPlainMessage}
use ckmux.Proto.Message.{Message, type_of, write_message}
use ckmux.Proto.Message.Fits.{FitsMessage}
use ckmux.Proto.Codec.{payload_cap, write_header, encode}
use ckmux.Proto.Frames.Split.{IsSent}
use ckmux.Proto.Tests.Plain.{plain, Color, Cell}

abbrev pub ping : Message plain
ping = Message.ping (record { nonce = 0x1234_5678_9abc })

pub ping-IsSent : IsSent plain ping
unfolding encode write_message type_of payload_cap write_header write_nonce Writer.u64 Writer.u32
    Writer.u16 Writer.u8 ◌▸◌
ping-IsSent = record { fits = record { nonce = omega arith }; accepted = refl }

-- "ck" says hello.
abbrev pub hello : Message plain
hello =
    Message.hello (record { proto_version = 7; build = 99 ∷ 107 ∷ []; client_kind = ClientKind.ui })

pub hello-IsSent : IsSent plain hello
unfolding encode write_message type_of payload_cap write_header write_hello client_kind_code
    Writer.str Writer.append Writer.u32 Writer.u16 Writer.u8 ◌▸◌
hello-IsSent = record {
  fits = record { proto_version = omega arith; build = omega arith };
  accepted = refl;
}

-- The frames of the two: their payloads' lengths, their types, no flags, and their fields.
abbrev pub ping_frame : List ℕ
ping_frame = 8 ∷ 0 ∷ 0 ∷ 0 ∷ 4 ∷ 0 ∷ 0 ∷ 0 ∷ 0xbc ∷ 0x9a ∷ 0x78 ∷ 0x56 ∷ 0x34 ∷ 0x12 ∷ 0 ∷ 0 ∷ []

pub encode-ping : encode plain ping ≡ (ping_frame, false)
unfolding encode write_message type_of payload_cap write_header write_nonce Writer.u64 Writer.u32
    Writer.u16 Writer.u8 ◌▸◌
encode-ping = refl

abbrev pub hello_frame : List ℕ
hello_frame = 9 ∷ 0 ∷ 0 ∷ 0 ∷ 1 ∷ 0 ∷ 0 ∷ 0 ∷ 7 ∷ 0 ∷ 0 ∷ 0 ∷ 2 ∷ 0 ∷ 99 ∷ 107 ∷ 0 ∷ []

pub encode-hello : encode plain hello ≡ (hello_frame, false)
unfolding encode write_message type_of payload_cap write_header write_hello client_kind_code
    Writer.str Writer.append Writer.u32 Writer.u16 Writer.u8 ◌▸◌
encode-hello = refl

-- A letter on an indexed colour.
abbrev pub letter : Cell
letter = record {
  grapheme = 97 ∷ [];
  width = pos 1;
  style = record {
    fg = Color.rgb 1 2 255;
    bg = Color.indexed 9;
    attrs = 3;
    underline = 0;
    underline_color = Color.default_color;
  };
}

-- The letter under a curly line of a colour.
abbrev pub underlined : Cell
underlined = record letter {
  style = record letter.style { underline = 3; underline_color = Color.indexed 9 };
}

-- A screen scrolls up by a line, and a cell is drawn three times.
abbrev draws : Cell → Message plain
draws cell = Message.grid_delta (record {
  term = 4;
  seq = 70000;
  ops =
      GridOp.scroll (record { top = 0; bottom = 23; lines = negsuc 0 })
      ∷ GridOp.cells
          (record { row = 23; column = 2; runs = record { run_length = 3; cell = cell } ∷ [] })
      ∷ [];
})

abbrev pub drawing : Message plain
drawing = draws underlined

abbrev pub sketch : Message plain
sketch = draws letter

pub letter-FitsCell : FitsCell plain letter
letter-FitsCell = record {
  text = omega arith;
  fg = record { red = omega arith; green = omega arith; blue = omega arith; index = omega arith };
  bg = record { red = omega arith; green = omega arith; blue = omega arith; index = omega arith };
  attrs = omega arith;
  shape = inr (record { columns = 0; width = refl; text = λ e. cc e });
}

pub underlined-FitsCell : FitsCell plain underlined
underlined-FitsCell = record {
  text = omega arith;
  fg = record { red = omega arith; green = omega arith; blue = omega arith; index = omega arith };
  bg = record { red = omega arith; green = omega arith; blue = omega arith; index = omega arith };
  attrs = omega arith;
  shape = inr (record { columns = 0; width = refl; text = λ e. cc e });
}

pub letters-FitsRuns : FitsRuns plain (record { run_length = 3; cell = letter } ∷ [])
letters-FitsRuns = record {
  count = omega arith;
  each =
      (record { some_cells = omega arith; run_length = omega arith; cell = letter-FitsCell }, tt);
}

draws-fits : (cell : Cell) → FitsCell plain cell → FitsMessage plain (draws cell)
draws-fits cell h = record {
  term = omega arith;
  seq = omega arith;
  ops = record {
    count = omega arith;
    each = (
      record { top = omega arith; bottom = omega arith; lines = omega arith },
      (
        record {
          row = omega arith;
          column = omega arith;
          runs = record {
            count = omega arith;
            each = (record { some_cells = omega arith; run_length = omega arith; cell = h }, tt);
          };
        },
        tt,
      ),
    );
  };
}

pub drawing-IsSent : IsSent plain drawing
unfolding encode write_message type_of payload_cap write_header write_grid_delta write_grid_ops
    write_grid_op grid_op_tag_code write_scroll_op write_cells_op write_runs write_run write_cell
    write_color Writer.counted Writer.each Writer.str Writer.append Writer.u64 Writer.u32 Writer.u16
    Writer.i16 Writer.u8 ◌▸◌ nothing
drawing-IsSent = record { fits = draws-fits underlined underlined-FitsCell; accepted = refl }

pub length-encode-drawing : length (encode plain drawing).0 ≡ 57
unfolding encode write_message type_of payload_cap write_header write_grid_delta write_grid_ops
    write_grid_op grid_op_tag_code write_scroll_op write_cells_op write_runs write_run write_cell
    write_color Writer.counted Writer.each Writer.str Writer.append Writer.u64 Writer.u32 Writer.u16
    Writer.i16 Writer.u8 ◌▸◌ nothing
length-encode-drawing = refl

pub sketch-IsSent : IsSent plain sketch
unfolding encode write_message type_of payload_cap write_header write_grid_delta write_grid_ops
    write_grid_op grid_op_tag_code write_scroll_op write_cells_op write_runs write_run write_cell
    write_color Writer.counted Writer.each Writer.str Writer.append Writer.u64 Writer.u32 Writer.u16
    Writer.i16 Writer.u8 ◌▸◌ nothing
sketch-IsSent = record { fits = draws-fits letter letter-FitsCell; accepted = refl }

-- The letter has nothing that is not sent.
pub sketch-IsPlainMessage : IsPlainMessage plain sketch
unfolding carried_cell carried_style carried_color
sketch-IsPlainMessage = (tt, ((refl, tt), tt))

-- The line under the other one is not sent.
carried_cell-underlined : carried_cell plain underlined ≡ letter
unfolding carried_cell carried_style carried_color
carried_cell-underlined = refl
