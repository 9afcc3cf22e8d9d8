-- ===== src/Proto/Message.antt =====
-- Every message of the protocol, and the walk over the alternatives that finds a decoder for a type:
-- `Message`, `type_of`, `decode_alternative` and `is_known_type` of src/common/proto.hpp and
-- src/common/proto.cpp.
pub mod Fits
pub mod RoundTrip
pub mod Says
use ckmux.Prelude.{ℕ, Bool, true, false, Option, none, some, List, [], ◌∷◌, ◌==◌, if◌then◌else◌}
use ckmux.Proto.Wire.{Put, nothing, Reader, Get, ◌>>=◌, pure}
use ckmux.Proto.CellLib.{CellLib}
use ckmux.Proto.MessageType
use ckmux.Proto.Handshake.{
  Error, write_error, read_error, Hello, write_hello, read_hello, HelloAck, write_hello_ack,
  read_hello_ack, Nonce, write_nonce, read_nonce, Refuse, write_refuse, read_refuse,
}
use ckmux.Proto.Sessions.{
  Attach, write_attach, read_attach, ClientResize, write_client_resize, read_client_resize,
  Detached, write_detached, read_detached, KillSession, write_kill_session, read_kill_session,
  NewSession, write_new_session, read_new_session, ReaderMode, write_reader_mode, read_reader_mode,
  RenameSession, write_rename_session, read_rename_session, SetDesktopSize, write_set_desktop_size,
  read_set_desktop_size, SetReaderMode, write_set_reader_mode, read_set_reader_mode,
}
use ckmux.Proto.Terminals.{
  CloseTerminal, write_close_terminal, read_close_terminal, Input, write_input, read_input,
  MoveResize, write_move_resize, read_move_resize, MoveTerminal, write_move_terminal,
  read_move_terminal, NewTerminal, write_new_terminal, read_new_terminal, PasteAck, write_paste_ack,
  read_paste_ack, PasteChunk, write_paste_chunk, read_paste_chunk, RenameTerminal,
  write_rename_terminal, read_rename_terminal, TerminalRef, write_terminal_ref, read_terminal_ref,
  WatchStats, write_watch_stats, read_watch_stats, ZoomTerm, write_zoom_term, read_zoom_term,
}
use ckmux.Proto.Events.{
  ClipboardSet, write_clipboard_set, read_clipboard_set, TermClosed, write_term_closed,
  read_term_closed, TermDiagnostic, write_term_diagnostic, read_term_diagnostic, TermMeta,
  write_term_meta, read_term_meta, TermOpened, write_term_opened, read_term_opened, TermStats,
  write_term_stats, read_term_stats,
}
use ckmux.Proto.Images.{
  ImageAddBegin, write_image_add_begin, read_image_add_begin, ImageChunk, write_image_chunk,
  read_image_chunk, ImagePlace, write_image_place, read_image_place, ImageRef, write_image_ref,
  read_image_ref, ImageRemove, write_image_remove, read_image_remove,
}
use ckmux.Proto.Printing.{
  PrintJobAdded, write_print_job_added, read_print_job_added, PrintJobData, write_print_job_data,
  read_print_job_data, PrintJobDiscard, write_print_job_discard, read_print_job_discard,
  PrintJobFetch, write_print_job_fetch, read_print_job_fetch, PrintState, write_print_state,
  read_print_state, SetPrinterPolicy, write_set_printer_policy, read_set_printer_policy,
}
use ckmux.Proto.SessionLists.{SessionList, write_session_list, read_session_list}
use ckmux.Proto.Arrangements.{
  LayoutDelta, write_layout_delta, read_layout_delta, SetLayout, write_set_layout, read_set_layout,
}
use ckmux.Proto.Attaching.{Attached, write_attached, read_attached}
use ckmux.Proto.Deltas.{GridDelta, write_grid_delta, read_grid_delta}

abbrev pub Empty : Type 0
Empty = Unit

pub data Message (L : CellLib) : Type 0 where
  hello : Hello → Message L
  hello_ack : HelloAck → Message L
  refuse : Refuse → Message L
  ping : Nonce → Message L
  pong : Nonce → Message L
  list_sessions : Empty → Message L
  new_session : NewSession → Message L
  attach : Attach → Message L
  detach : Empty → Message L
  client_resize : ClientResize → Message L
  rename_session : RenameSession → Message L
  kill_session : KillSession → Message L
  kill_server : Empty → Message L
  session_list : SessionList → Message L
  sessions_changed : Empty → Message L
  attached : Attached L → Message L
  detached : Detached → Message L
  new_terminal : NewTerminal → Message L
  close_terminal : CloseTerminal → Message L
  kill_terminal : TerminalRef → Message L
  respawn_terminal : TerminalRef → Message L
  set_desktop_size : SetDesktopSize → Message L
  set_reader_mode : SetReaderMode → Message L
  reader_mode : ReaderMode → Message L
  move_terminal : MoveTerminal → Message L
  move_resize : MoveResize → Message L
  raise : TerminalRef → Message L
  focus_term : TerminalRef → Message L
  zoom_term : ZoomTerm → Message L
  set_layout : SetLayout → Message L
  rename_terminal : RenameTerminal → Message L
  input : Input → Message L
  paste_chunk : PasteChunk → Message L
  paste_ack : PasteAck → Message L
  layout_delta : LayoutDelta → Message L
  term_opened : TermOpened → Message L
  term_closed : TermClosed → Message L
  term_meta : TermMeta → Message L
  grid_delta : GridDelta L → Message L
  image_add_begin : ImageAddBegin → Message L
  image_chunk : ImageChunk → Message L
  image_end : ImageRef → Message L
  image_place : ImagePlace → Message L
  image_remove : ImageRemove → Message L
  clipboard_set : ClipboardSet → Message L
  term_diagnostic : TermDiagnostic → Message L
  error : Error → Message L
  set_printer_policy : SetPrinterPolicy → Message L
  print_state : PrintState → Message L
  print_job_added : PrintJobAdded → Message L
  print_job_fetch : PrintJobFetch → Message L
  print_job_data : PrintJobData → Message L
  print_job_discard : PrintJobDiscard → Message L
  watch_stats : WatchStats → Message L
  term_stats : TermStats → Message L

unfoldable pub write_empty : Empty → Put
write_empty m = nothing

unfoldable pub read_empty : Get Empty
read_empty = pure tt

unfoldable pub type_of : {L : CellLib} → Message L → ℕ
type_of (Message.hello m) = MessageType.hello
type_of (Message.hello_ack m) = MessageType.hello_ack
type_of (Message.refuse m) = MessageType.refuse
type_of (Message.ping m) = MessageType.ping
type_of (Message.pong m) = MessageType.pong
type_of (Message.list_sessions m) = MessageType.list_sessions
type_of (Message.new_session m) = MessageType.new_session
type_of (Message.attach m) = MessageType.attach
type_of (Message.detach m) = MessageType.detach
type_of (Message.client_resize m) = MessageType.client_resize
type_of (Message.rename_session m) = MessageType.rename_session
type_of (Message.kill_session m) = MessageType.kill_session
type_of (Message.kill_server m) = MessageType.kill_server
type_of (Message.session_list m) = MessageType.session_list
type_of (Message.sessions_changed m) = MessageType.sessions_changed
type_of (Message.attached m) = MessageType.attached
type_of (Message.detached m) = MessageType.detached
type_of (Message.new_terminal m) = MessageType.new_terminal
type_of (Message.close_terminal m) = MessageType.close_terminal
type_of (Message.kill_terminal m) = MessageType.kill_terminal
type_of (Message.respawn_terminal m) = MessageType.respawn_terminal
type_of (Message.set_desktop_size m) = MessageType.set_desktop_size
type_of (Message.set_reader_mode m) = MessageType.set_reader_mode
type_of (Message.reader_mode m) = MessageType.reader_mode
type_of (Message.move_terminal m) = MessageType.move_terminal
type_of (Message.move_resize m) = MessageType.move_resize
type_of (Message.raise m) = MessageType.raise
type_of (Message.focus_term m) = MessageType.focus_term
type_of (Message.zoom_term m) = MessageType.zoom_term
type_of (Message.set_layout m) = MessageType.set_layout
type_of (Message.rename_terminal m) = MessageType.rename_terminal
type_of (Message.input m) = MessageType.input
type_of (Message.paste_chunk m) = MessageType.paste_chunk
type_of (Message.paste_ack m) = MessageType.paste_ack
type_of (Message.layout_delta m) = MessageType.layout_delta
type_of (Message.term_opened m) = MessageType.term_opened
type_of (Message.term_closed m) = MessageType.term_closed
type_of (Message.term_meta m) = MessageType.term_meta
type_of (Message.grid_delta m) = MessageType.grid_delta
type_of (Message.image_add_begin m) = MessageType.image_add_begin
type_of (Message.image_chunk m) = MessageType.image_chunk
type_of (Message.image_end m) = MessageType.image_end
type_of (Message.image_place m) = MessageType.image_place
type_of (Message.image_remove m) = MessageType.image_remove
type_of (Message.clipboard_set m) = MessageType.clipboard_set
type_of (Message.term_diagnostic m) = MessageType.term_diagnostic
type_of (Message.error m) = MessageType.error
type_of (Message.set_printer_policy m) = MessageType.set_printer_policy
type_of (Message.print_state m) = MessageType.print_state
type_of (Message.print_job_added m) = MessageType.print_job_added
type_of (Message.print_job_fetch m) = MessageType.print_job_fetch
type_of (Message.print_job_data m) = MessageType.print_job_data
type_of (Message.print_job_discard m) = MessageType.print_job_discard
type_of (Message.watch_stats m) = MessageType.watch_stats
type_of (Message.term_stats m) = MessageType.term_stats

-- std::visit over `write`.
unfoldable pub write_message : (L : CellLib) → Message L → Put
write_message L (Message.hello m) = write_hello m
write_message L (Message.hello_ack m) = write_hello_ack m
write_message L (Message.refuse m) = write_refuse m
write_message L (Message.ping m) = write_nonce m
write_message L (Message.pong m) = write_nonce m
write_message L (Message.list_sessions m) = write_empty m
write_message L (Message.new_session m) = write_new_session m
write_message L (Message.attach m) = write_attach m
write_message L (Message.detach m) = write_empty m
write_message L (Message.client_resize m) = write_client_resize m
write_message L (Message.rename_session m) = write_rename_session m
write_message L (Message.kill_session m) = write_kill_session m
write_message L (Message.kill_server m) = write_empty m
write_message L (Message.session_list m) = write_session_list m
write_message L (Message.sessions_changed m) = write_empty m
write_message L (Message.attached m) = write_attached L m
write_message L (Message.detached m) = write_detached m
write_message L (Message.new_terminal m) = write_new_terminal m
write_message L (Message.close_terminal m) = write_close_terminal m
write_message L (Message.kill_terminal m) = write_terminal_ref m
write_message L (Message.respawn_terminal m) = write_terminal_ref m
write_message L (Message.set_desktop_size m) = write_set_desktop_size m
write_message L (Message.set_reader_mode m) = write_set_reader_mode m
write_message L (Message.reader_mode m) = write_reader_mode m
write_message L (Message.move_terminal m) = write_move_terminal m
write_message L (Message.move_resize m) = write_move_resize m
write_message L (Message.raise m) = write_terminal_ref m
write_message L (Message.focus_term m) = write_terminal_ref m
write_message L (Message.zoom_term m) = write_zoom_term m
write_message L (Message.set_layout m) = write_set_layout m
write_message L (Message.rename_terminal m) = write_rename_terminal m
write_message L (Message.input m) = write_input m
write_message L (Message.paste_chunk m) = write_paste_chunk m
write_message L (Message.paste_ack m) = write_paste_ack m
write_message L (Message.layout_delta m) = write_layout_delta m
write_message L (Message.term_opened m) = write_term_opened m
write_message L (Message.term_closed m) = write_term_closed m
write_message L (Message.term_meta m) = write_term_meta m
write_message L (Message.grid_delta m) = write_grid_delta L m
write_message L (Message.image_add_begin m) = write_image_add_begin m
write_message L (Message.image_chunk m) = write_image_chunk m
write_message L (Message.image_end m) = write_image_ref m
write_message L (Message.image_place m) = write_image_place m
write_message L (Message.image_remove m) = write_image_remove m
write_message L (Message.clipboard_set m) = write_clipboard_set m
write_message L (Message.term_diagnostic m) = write_term_diagnostic m
write_message L (Message.error m) = write_error m
write_message L (Message.set_printer_policy m) = write_set_printer_policy m
write_message L (Message.print_state m) = write_print_state m
write_message L (Message.print_job_added m) = write_print_job_added m
write_message L (Message.print_job_fetch m) = write_print_job_fetch m
write_message L (Message.print_job_data m) = write_print_job_data m
write_message L (Message.print_job_discard m) = write_print_job_discard m
write_message L (Message.watch_stats m) = write_watch_stats m
write_message L (Message.term_stats m) = write_term_stats m

-- An alternative of the variant: its `kType`, and how it is read.
abbrev pub Alternative : CellLib → Type 0
Alternative L = ℕ × Get (Message L)

unfoldable pub alternative :
    {L : CellLib} {A : Type 0} → ℕ → (A → Message L) → Get A → Alternative L
alternative type make get = (type, do m ← get; pure (make m))

unfoldable pub alternatives : (L : CellLib) → List (Alternative L)
unfolding alternative
alternatives L =
    alternative MessageType.hello Message.hello read_hello
    ∷ alternative MessageType.hello_ack Message.hello_ack read_hello_ack
    ∷ alternative MessageType.refuse Message.refuse read_refuse
    ∷ alternative MessageType.ping Message.ping read_nonce
    ∷ alternative MessageType.pong Message.pong read_nonce
    ∷ alternative MessageType.list_sessions Message.list_sessions read_empty
    ∷ alternative MessageType.new_session Message.new_session read_new_session
    ∷ alternative MessageType.attach Message.attach read_attach
    ∷ alternative MessageType.detach Message.detach read_empty
    ∷ alternative MessageType.client_resize Message.client_resize read_client_resize
    ∷ alternative MessageType.rename_session Message.rename_session read_rename_session
    ∷ alternative MessageType.kill_session Message.kill_session read_kill_session
    ∷ alternative MessageType.kill_server Message.kill_server read_empty
    ∷ alternative MessageType.session_list Message.session_list read_session_list
    ∷ alternative MessageType.sessions_changed Message.sessions_changed read_empty
    ∷ alternative MessageType.attached Message.attached (read_attached L)
    ∷ alternative MessageType.detached Message.detached read_detached
    ∷ alternative MessageType.new_terminal Message.new_terminal read_new_terminal
    ∷ alternative MessageType.close_terminal Message.close_terminal read_close_terminal
    ∷ alternative MessageType.kill_terminal Message.kill_terminal read_terminal_ref
    ∷ alternative MessageType.respawn_terminal Message.respawn_terminal read_terminal_ref
    ∷ alternative MessageType.set_desktop_size Message.set_desktop_size read_set_desktop_size
    ∷ alternative MessageType.set_reader_mode Message.set_reader_mode read_set_reader_mode
    ∷ alternative MessageType.reader_mode Message.reader_mode read_reader_mode
    ∷ alternative MessageType.move_terminal Message.move_terminal read_move_terminal
    ∷ alternative MessageType.move_resize Message.move_resize read_move_resize
    ∷ alternative MessageType.raise Message.raise read_terminal_ref
    ∷ alternative MessageType.focus_term Message.focus_term read_terminal_ref
    ∷ alternative MessageType.zoom_term Message.zoom_term read_zoom_term
    ∷ alternative MessageType.set_layout Message.set_layout read_set_layout
    ∷ alternative MessageType.rename_terminal Message.rename_terminal read_rename_terminal
    ∷ alternative MessageType.input Message.input read_input
    ∷ alternative MessageType.paste_chunk Message.paste_chunk read_paste_chunk
    ∷ alternative MessageType.paste_ack Message.paste_ack read_paste_ack
    ∷ alternative MessageType.layout_delta Message.layout_delta read_layout_delta
    ∷ alternative MessageType.term_opened Message.term_opened read_term_opened
    ∷ alternative MessageType.term_closed Message.term_closed read_term_closed
    ∷ alternative MessageType.term_meta Message.term_meta read_term_meta
    ∷ alternative MessageType.grid_delta Message.grid_delta (read_grid_delta L)
    ∷ alternative MessageType.image_add_begin Message.image_add_begin read_image_add_begin
    ∷ alternative MessageType.image_chunk Message.image_chunk read_image_chunk
    ∷ alternative MessageType.image_end Message.image_end read_image_ref
    ∷ alternative MessageType.image_place Message.image_place read_image_place
    ∷ alternative MessageType.image_remove Message.image_remove read_image_remove
    ∷ alternative MessageType.clipboard_set Message.clipboard_set read_clipboard_set
    ∷ alternative MessageType.term_diagnostic Message.term_diagnostic read_term_diagnostic
    ∷ alternative MessageType.error Message.error read_error
    ∷ alternative MessageType.set_printer_policy Message.set_printer_policy read_set_printer_policy
    ∷ alternative MessageType.print_state Message.print_state read_print_state
    ∷ alternative MessageType.print_job_added Message.print_job_added read_print_job_added
    ∷ alternative MessageType.print_job_fetch Message.print_job_fetch read_print_job_fetch
    ∷ alternative MessageType.print_job_data Message.print_job_data read_print_job_data
    ∷ alternative MessageType.print_job_discard Message.print_job_discard read_print_job_discard
    ∷ alternative MessageType.watch_stats Message.watch_stats read_watch_stats
    ∷ alternative MessageType.term_stats Message.term_stats read_term_stats
    ∷ []

-- What is left of the reader goes with the message.
unfoldable pub decode_alternative :
    {L : CellLib} → ℕ → List (Alternative L) → Reader → Option (Message L × Reader)
decode_alternative type [] r = none
decode_alternative type ((k, get) ∷ others) r =
    let (m, r') = get r in
    let next = decode_alternative type others r in
    if k == type then (if r'.ok then some (m, r') else none) else next

unfoldable pub is_known_type : {L : CellLib} → ℕ → List (Alternative L) → Bool
is_known_type type [] = false
is_known_type type ((k, get) ∷ others) =
    let next = is_known_type type others in if k == type then true else next
