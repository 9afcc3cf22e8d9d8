-- ===== src/Lib.antt =====
-- ckmux is a terminal multiplexer: a server owns the terminals of its sessions, and clients attach
-- to a session over a local stream, show its terminals and send it what is typed. This library
-- models the protocol between the two, which every other part stands on, the algebra of screens and
-- their changes, the statistics that the server reports, and the spelling of the keys that a
-- configuration binds.
--
-- The program's parts. src/common/proto.{hpp,cpp} says every message as bytes and reads it back:
-- a frame is a header of eight bytes (the payload's length, the message's type, flags that are
-- zero) and a payload that the type's `write` makes and its `read` takes apart. A stream's reads
-- end anywhere, so `FrameReader` keeps what has arrived until a frame is whole. `Server::serve` of
-- src/server/server.cpp appends what a client sent and hands every message to `handle`, until
-- there is no whole frame, or a frame is bad, or the client is closing. src/server/terminals.cpp
-- and src/server/diff_engine.cpp turn a terminal's screen into rows of runs (`to_runs`), and the
-- client's mirror turns them back (`from_runs`). src/common/grid_delta.{hpp,cpp} says what a change of
-- a screen is: the server keeps what it believes a client holds, `diff` makes the operations that
-- lead from there to the terminal's screen, and the client's mirror checks and performs them
-- (`apply_delta`), or refuses them all and asks for a snapshot. `TerminalDiffer` of
-- src/server/diff_engine.cpp holds that belief, sends a numbered delta per tick, and performs it on
-- the belief too; `TerminalMirror` of src/client/mirror.cpp takes the next number only.
-- src/common/stats.cpp computes how much of a processor a terminal uses. src/common/keymap.cpp reads and writes key chords: the configuration
-- binds them, and the client dispatches and shows them, by their spelling.
--
-- Which file models which part, all of them under src/common/proto.{hpp,cpp} unless it is said:
--   Prelude               the shared names, tests, lists and signed integers
--   Proto.Wire            the state of `Writer` and `Reader`: what is written, or what is left to
--                         read, and `ok_`; methods are put in sequence with ▸ and do
--   Proto.Writer          u8 … i64, str, blob, and the loops that write a sequence
--   Proto.Reader          u8 … i64, str, blob, count, enum_of, and the loops that read a sequence
--   Proto.CellLib         ckVision's colours, styles and cells, which are parameters; nothing is
--                         asked of them, and a style may have members that are not sent
--   Proto.Cells           color, cell, runs and lines of both classes; Cells.Size encoded_size
--   Proto.Enums           the enumerations, each with its number and the check of its range
--   Proto.Shapes          rect, tile, cursor and job
--   Proto.Handshake, Sessions, SessionLists, Terminals, Layout, Arrangements, State, Snapshots,
--   Attaching, GridOps, Grid, Deltas, Images, Events, Printing
--                         the structs of proto.hpp with their write and read, and encoded_size of
--                         a terminal and a snapshot in State and Snapshots
--   Proto.MessageType, Proto.Message
--                         the types, the variant of all messages, type_of, decode_alternative and
--                         is_known_type
--   Proto.Carried         not of the source: the message that the other end gets, in which a cell
--                         has its text and a fresh style of its two colours and its attributes,
--                         since the writer's `cell` sends no underline; Carried.Exact says which
--                         messages are sent whole
--   Proto.DecodeError, Proto.Codec
--                         payload_cap, encode and decode
--   Proto.Frames          FrameReader, and `Server::serve` of src/server/server.cpp (arrive, drain,
--                         serve)
--   Proto.Runs            to_runs and from_runs
--   Delta.State           GridState of src/common/grid_delta.hpp; blank_state, the history's
--                         functions and resize_state of src/common/grid_delta.cpp, as all of Delta
--   Delta.Rows            row_of, shift_rows, and the copy of cells into a grid
--   Delta.Hash            row_hash
--   Delta.Repaint         emit_changed_row: a round per run, on fuel, with the span that is pending
--   Delta.Search          the band of changed rows and the shift that explains most of it, in `diff`
--   Delta.Diff            the rest of diff, emit_every_row and full_repaint
--   Delta.Apply           apply_delta: the check of all operations, then each one performed
--   Delta.Compare         same_state
--   Delta.Encode          encode_grid and decode_grid
--   Client.Mirror         TerminalMirror of src/client/mirror.{hpp,cpp}: adopt, apply, open and the
--                         history's limit
--   Server.Differ         TerminalDiffer::flush of src/server/diff_engine.cpp, with row_hints,
--                         state_of and newest_history_lines; what a tick reads of ckVision's
--                         terminal is a record
--   Stats.Rate            cpu_rate of src/common/stats.cpp
--   Stats.Sample          CpuBaseline of src/common/stats.hpp and make_term_stats; the sample of a
--                         process tree is ckVision's and a parameter
--   Keymap                parse_chord and chord_spelling of src/common/keymap.cpp; ckVision's keys
--                         and their names are parameters
-- Beside each stands what is proved of it: RoundTrip, Fits, Size, Bounds, Streaming and so on.
-- Proto.Codes says what it is for a writer and a reader to agree on a value, and how fields that
-- agree make a struct that does; every message's round trip is put together from it.
--
-- Numbers. A byte is a natural number below 256, text is a list of bytes, and an unsigned field is a
-- natural number; a cast to a narrower type is a remainder. A signed field is an integer, and goes
-- over the wire as its two's-complement word. A message fits when every number is in its C++ type,
-- every text's length is in its length field and under the reader's cap (64 KiB for a clipboard's
-- text, which the writer does not hold to it), and a cell's width is zero exactly when it has no text,
-- as ckVision's constructors make them.
--
-- Bounds and fuel. The caps are the source's: 1 MiB for a payload, 256 KiB and 64 bytes for a
-- chunk, 16 MiB for a snapshot. The loops over sequences run as often as the count that was read,
-- which was checked against the bytes left. `drain` is given one round more than there are bytes
-- buffered: every message takes at least eight. The loop
-- over the runs of a row has as many rounds as the row has cells, and each takes at least one.
--
-- Screens. A grid is the list of its cells, row after row, and the grid of a mirror is one too; a
-- region's shift and a copy are equations between lists. A size is two integers, and a negative one
-- counts as zero, also where the source would index by it. The comparisons of graphemes, widths and
-- styles are ckVision's and parameters, of which it is asked that equal ones are equal.
--
-- Not modelled: ckVision and the operating system, which are not in the repository; `describe`,
-- `to_wire` and `from_wire`; what `handle` does, which is a parameter that tells whether a message
-- leaves the client closing; the tables of
-- names of keymap.cpp; src/common/config.cpp and shell.cpp,
-- the pictures, the fetched print jobs and the drawing of mirror.cpp, the snapshots, pictures and the
-- loop over terminals of src/server/diff_engine.cpp, src/server/terminals.cpp, the rest of server.cpp
-- and of src/client, which build on this; and src/platform, which is input and output.
pub mod Client
pub mod Delta
pub mod Keymap
pub mod Prelude
pub mod Proto
pub mod Server
pub mod Stats
