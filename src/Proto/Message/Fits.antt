-- ===== src/Proto/Message/Fits.antt =====
-- Which messages the protocol can say, each by its own struct.
use ckmux.Proto.CellLib.{CellLib}
use ckmux.Proto.Message.{Message}
use ckmux.Proto.Handshake.RoundTrip.{FitsError, FitsHello, FitsHelloAck, FitsNonce, FitsRefuse}
use ckmux.Proto.Sessions.RoundTrip.{
  FitsAttach, FitsClientResize, FitsDetached, FitsKillSession, FitsNewSession, FitsReaderMode,
  FitsRenameSession, FitsSetDesktopSize, FitsSetReaderMode,
}
use ckmux.Proto.Terminals.RoundTrip.{
  FitsCloseTerminal, FitsInput, FitsMoveResize, FitsMoveTerminal, FitsNewTerminal, FitsPasteAck,
  FitsPasteChunk, FitsRenameTerminal, FitsTerminalRef, FitsWatchStats, FitsZoomTerm,
}
use ckmux.Proto.Events.RoundTrip.{
  FitsClipboardSet, FitsTermClosed, FitsTermDiagnostic, FitsTermMeta, FitsTermOpened, FitsTermStats,
}
use ckmux.Proto.Images.RoundTrip.{
  FitsImageAddBegin, FitsImageChunk, FitsImagePlace, FitsImageRef, FitsImageRemove,
}
use ckmux.Proto.Printing.RoundTrip.{
  FitsPrintJobAdded, FitsPrintJobData, FitsPrintJobDiscard, FitsPrintJobFetch, FitsPrintState,
  FitsSetPrinterPolicy,
}
use ckmux.Proto.SessionLists.RoundTrip.{FitsSessionList}
use ckmux.Proto.Arrangements.RoundTrip.{FitsLayoutDelta, FitsSetLayout}
use ckmux.Proto.Attaching.RoundTrip.{FitsAttached}
use ckmux.Proto.Deltas.RoundTrip.{FitsGridDelta}

abbrev pub FitsMessage : (L : CellLib) → Message L → Type 0
FitsMessage L (Message.hello m) = FitsHello m
FitsMessage L (Message.hello_ack m) = FitsHelloAck m
FitsMessage L (Message.refuse m) = FitsRefuse m
FitsMessage L (Message.ping m) = FitsNonce m
FitsMessage L (Message.pong m) = FitsNonce m
FitsMessage L (Message.list_sessions m) = Unit
FitsMessage L (Message.new_session m) = FitsNewSession m
FitsMessage L (Message.attach m) = FitsAttach m
FitsMessage L (Message.detach m) = Unit
FitsMessage L (Message.client_resize m) = FitsClientResize m
FitsMessage L (Message.rename_session m) = FitsRenameSession m
FitsMessage L (Message.kill_session m) = FitsKillSession m
FitsMessage L (Message.kill_server m) = Unit
FitsMessage L (Message.session_list m) = FitsSessionList m
FitsMessage L (Message.sessions_changed m) = Unit
FitsMessage L (Message.attached m) = FitsAttached L m
FitsMessage L (Message.detached m) = FitsDetached m
FitsMessage L (Message.new_terminal m) = FitsNewTerminal m
FitsMessage L (Message.close_terminal m) = FitsCloseTerminal m
FitsMessage L (Message.kill_terminal m) = FitsTerminalRef m
FitsMessage L (Message.respawn_terminal m) = FitsTerminalRef m
FitsMessage L (Message.set_desktop_size m) = FitsSetDesktopSize m
FitsMessage L (Message.set_reader_mode m) = FitsSetReaderMode m
FitsMessage L (Message.reader_mode m) = FitsReaderMode m
FitsMessage L (Message.move_terminal m) = FitsMoveTerminal m
FitsMessage L (Message.move_resize m) = FitsMoveResize m
FitsMessage L (Message.raise m) = FitsTerminalRef m
FitsMessage L (Message.focus_term m) = FitsTerminalRef m
FitsMessage L (Message.zoom_term m) = FitsZoomTerm m
FitsMessage L (Message.set_layout m) = FitsSetLayout m
FitsMessage L (Message.rename_terminal m) = FitsRenameTerminal m
FitsMessage L (Message.input m) = FitsInput m
FitsMessage L (Message.paste_chunk m) = FitsPasteChunk m
FitsMessage L (Message.paste_ack m) = FitsPasteAck m
FitsMessage L (Message.layout_delta m) = FitsLayoutDelta m
FitsMessage L (Message.term_opened m) = FitsTermOpened m
FitsMessage L (Message.term_closed m) = FitsTermClosed m
FitsMessage L (Message.term_meta m) = FitsTermMeta m
FitsMessage L (Message.grid_delta m) = FitsGridDelta L m
FitsMessage L (Message.image_add_begin m) = FitsImageAddBegin m
FitsMessage L (Message.image_chunk m) = FitsImageChunk m
FitsMessage L (Message.image_end m) = FitsImageRef m
FitsMessage L (Message.image_place m) = FitsImagePlace m
FitsMessage L (Message.image_remove m) = FitsImageRemove m
FitsMessage L (Message.clipboard_set m) = FitsClipboardSet m
FitsMessage L (Message.term_diagnostic m) = FitsTermDiagnostic m
FitsMessage L (Message.error m) = FitsError m
FitsMessage L (Message.set_printer_policy m) = FitsSetPrinterPolicy m
FitsMessage L (Message.print_state m) = FitsPrintState m
FitsMessage L (Message.print_job_added m) = FitsPrintJobAdded m
FitsMessage L (Message.print_job_fetch m) = FitsPrintJobFetch m
FitsMessage L (Message.print_job_data m) = FitsPrintJobData m
FitsMessage L (Message.print_job_discard m) = FitsPrintJobDiscard m
FitsMessage L (Message.watch_stats m) = FitsWatchStats m
FitsMessage L (Message.term_stats m) = FitsTermStats m
