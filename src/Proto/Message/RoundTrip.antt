-- ===== src/Proto/Message/RoundTrip.antt =====
-- Every alternative of the variant is found by its type and read as the wire carries it.
use ckmux.Proto.Snapshots.{snapshot_size}
use ckmux.Prelude.{◌+◌, arith, ◌≡◌, refl, length}
use ckmux.Proto.Wire.{◌>>=◌, pure}
use ckmux.Proto.CellLib.{CellLib}
use ckmux.Proto.Codes.{Codes, Codes-pure}
use ckmux.Proto.Message.{
  Message, type_of, write_message, alternatives, decode_alternative, is_known_type, write_empty,
  read_empty,
}
use ckmux.Proto.Message.Says.{Says, say}
use ckmux.Proto.Message.Fits.{FitsMessage}
use ckmux.Proto.Attaching.{Attached}
use ckmux.Proto.Handshake.RoundTrip.{
  Codes-error, Codes-hello, Codes-hello_ack, Codes-nonce, Codes-refuse,
}
use ckmux.Proto.Sessions.RoundTrip.{
  Codes-attach, Codes-client_resize, Codes-detached, Codes-kill_session, Codes-new_session,
  Codes-reader_mode, Codes-rename_session, Codes-set_desktop_size, Codes-set_reader_mode,
}
use ckmux.Proto.Terminals.RoundTrip.{
  Codes-close_terminal, Codes-input, Codes-move_resize, Codes-move_terminal, Codes-new_terminal,
  Codes-paste_ack, Codes-paste_chunk, Codes-rename_terminal, Codes-terminal_ref, Codes-watch_stats,
  Codes-zoom_term,
}
use ckmux.Proto.Events.RoundTrip.{
  Codes-clipboard_set, Codes-term_closed, Codes-term_diagnostic, Codes-term_meta, Codes-term_opened,
  Codes-term_stats,
}
use ckmux.Proto.Images.RoundTrip.{
  Codes-image_add_begin, Codes-image_chunk, Codes-image_place, Codes-image_ref, Codes-image_remove,
}
use ckmux.Proto.Printing.RoundTrip.{
  Codes-print_job_added, Codes-print_job_data, Codes-print_job_discard, Codes-print_job_fetch,
  Codes-print_state, Codes-set_printer_policy,
}
use ckmux.Proto.SessionLists.RoundTrip.{Codes-session_list}
use ckmux.Proto.Arrangements.RoundTrip.{Codes-layout_delta, Codes-set_layout}
use ckmux.Proto.Attaching.RoundTrip.{FitsAttached, Codes-attached}
use ckmux.Proto.Deltas.RoundTrip.{Codes-grid_delta}

Codes-empty : (m : Unit {0}) → Codes (write_empty m) read_empty m 0
unfolding write_empty read_empty
Codes-empty m = Codes-pure tt

pub says : (L : CellLib) (m : Message L) → FitsMessage L m → Says L m
unfolding type_of write_message alternatives decode_alternative is_known_type ◌>>=◌ pure
says L (Message.hello m) h =
    say Message.hello (Codes-hello m h) refl (λ w. refl) (omega arith) refl (λ r. refl)
says L (Message.hello_ack m) h =
    say Message.hello_ack (Codes-hello_ack m h) refl (λ w. refl) (omega arith) refl (λ r. refl)
says L (Message.refuse m) h =
    say Message.refuse (Codes-refuse m h) refl (λ w. refl) (omega arith) refl (λ r. refl)
says L (Message.ping m) h =
    say Message.ping (Codes-nonce m h) refl (λ w. refl) (omega arith) refl (λ r. refl)
says L (Message.pong m) h =
    say Message.pong (Codes-nonce m h) refl (λ w. refl) (omega arith) refl (λ r. refl)
says L (Message.list_sessions m) h =
    say Message.list_sessions (Codes-empty m) refl (λ w. refl) (omega arith) refl (λ r. refl)
says L (Message.new_session m) h =
    say Message.new_session (Codes-new_session m h) refl (λ w. refl) (omega arith) refl (λ r. refl)
says L (Message.attach m) h =
    say Message.attach (Codes-attach m h) refl (λ w. refl) (omega arith) refl (λ r. refl)
says L (Message.detach m) h =
    say Message.detach (Codes-empty m) refl (λ w. refl) (omega arith) refl (λ r. refl)
says L (Message.client_resize m) h =
    say Message.client_resize (Codes-client_resize m h) refl (λ w. refl) (omega arith) refl
      (λ r. refl)
says L (Message.rename_session m) h =
    say Message.rename_session (Codes-rename_session m h) refl (λ w. refl) (omega arith) refl
      (λ r. refl)
says L (Message.kill_session m) h =
    say Message.kill_session (Codes-kill_session m h) refl (λ w. refl) (omega arith) refl
      (λ r. refl)
says L (Message.kill_server m) h =
    say Message.kill_server (Codes-empty m) refl (λ w. refl) (omega arith) refl (λ r. refl)
says L (Message.session_list m) h =
    say Message.session_list (Codes-session_list m h) refl (λ w. refl) (omega arith) refl
      (λ r. refl)
says L (Message.sessions_changed m) h =
    say Message.sessions_changed (Codes-empty m) refl (λ w. refl) (omega arith) refl (λ r. refl)
says L (Message.attached m) h =
    say Message.attached (Codes-attached L m h) refl (λ w. refl) (omega arith) refl (λ r. refl)
says L (Message.detached m) h =
    say Message.detached (Codes-detached m h) refl (λ w. refl) (omega arith) refl (λ r. refl)
says L (Message.new_terminal m) h =
    say Message.new_terminal (Codes-new_terminal m h) refl (λ w. refl) (omega arith) refl
      (λ r. refl)
says L (Message.close_terminal m) h =
    say Message.close_terminal (Codes-close_terminal m h) refl (λ w. refl) (omega arith) refl
      (λ r. refl)
says L (Message.kill_terminal m) h =
    say Message.kill_terminal (Codes-terminal_ref m h) refl (λ w. refl) (omega arith) refl
      (λ r. refl)
says L (Message.respawn_terminal m) h =
    say Message.respawn_terminal (Codes-terminal_ref m h) refl (λ w. refl) (omega arith) refl
      (λ r. refl)
says L (Message.set_desktop_size m) h =
    say Message.set_desktop_size (Codes-set_desktop_size m h) refl (λ w. refl) (omega arith) refl
      (λ r. refl)
says L (Message.set_reader_mode m) h =
    say Message.set_reader_mode (Codes-set_reader_mode m h) refl (λ w. refl) (omega arith) refl
      (λ r. refl)
says L (Message.reader_mode m) h =
    say Message.reader_mode (Codes-reader_mode m h) refl (λ w. refl) (omega arith) refl (λ r. refl)
says L (Message.move_terminal m) h =
    say Message.move_terminal (Codes-move_terminal m h) refl (λ w. refl) (omega arith) refl
      (λ r. refl)
says L (Message.move_resize m) h =
    say Message.move_resize (Codes-move_resize m h) refl (λ w. refl) (omega arith) refl (λ r. refl)
says L (Message.raise m) h =
    say Message.raise (Codes-terminal_ref m h) refl (λ w. refl) (omega arith) refl (λ r. refl)
says L (Message.focus_term m) h =
    say Message.focus_term (Codes-terminal_ref m h) refl (λ w. refl) (omega arith) refl (λ r. refl)
says L (Message.zoom_term m) h =
    say Message.zoom_term (Codes-zoom_term m h) refl (λ w. refl) (omega arith) refl (λ r. refl)
says L (Message.set_layout m) h =
    say Message.set_layout (Codes-set_layout m h) refl (λ w. refl) (omega arith) refl (λ r. refl)
says L (Message.rename_terminal m) h =
    say Message.rename_terminal (Codes-rename_terminal m h) refl (λ w. refl) (omega arith) refl
      (λ r. refl)
says L (Message.input m) h =
    say Message.input (Codes-input m h) refl (λ w. refl) (omega arith) refl (λ r. refl)
says L (Message.paste_chunk m) h =
    say Message.paste_chunk (Codes-paste_chunk m h) refl (λ w. refl) (omega arith) refl (λ r. refl)
says L (Message.paste_ack m) h =
    say Message.paste_ack (Codes-paste_ack m h) refl (λ w. refl) (omega arith) refl (λ r. refl)
says L (Message.layout_delta m) h =
    say Message.layout_delta (Codes-layout_delta m h) refl (λ w. refl) (omega arith) refl
      (λ r. refl)
says L (Message.term_opened m) h =
    say Message.term_opened (Codes-term_opened m h) refl (λ w. refl) (omega arith) refl (λ r. refl)
says L (Message.term_closed m) h =
    say Message.term_closed (Codes-term_closed m h) refl (λ w. refl) (omega arith) refl (λ r. refl)
says L (Message.term_meta m) h =
    say Message.term_meta (Codes-term_meta m h) refl (λ w. refl) (omega arith) refl (λ r. refl)
says L (Message.grid_delta m) h =
    say Message.grid_delta (Codes-grid_delta L m h) refl (λ w. refl) (omega arith) refl (λ r. refl)
says L (Message.image_add_begin m) h =
    say Message.image_add_begin (Codes-image_add_begin m h) refl (λ w. refl) (omega arith) refl
      (λ r. refl)
says L (Message.image_chunk m) h =
    say Message.image_chunk (Codes-image_chunk m h) refl (λ w. refl) (omega arith) refl (λ r. refl)
says L (Message.image_end m) h =
    say Message.image_end (Codes-image_ref m h) refl (λ w. refl) (omega arith) refl (λ r. refl)
says L (Message.image_place m) h =
    say Message.image_place (Codes-image_place m h) refl (λ w. refl) (omega arith) refl (λ r. refl)
says L (Message.image_remove m) h =
    say Message.image_remove (Codes-image_remove m h) refl (λ w. refl) (omega arith) refl
      (λ r. refl)
says L (Message.clipboard_set m) h =
    say Message.clipboard_set (Codes-clipboard_set m h) refl (λ w. refl) (omega arith) refl
      (λ r. refl)
says L (Message.term_diagnostic m) h =
    say Message.term_diagnostic (Codes-term_diagnostic m h) refl (λ w. refl) (omega arith) refl
      (λ r. refl)
says L (Message.error m) h =
    say Message.error (Codes-error m h) refl (λ w. refl) (omega arith) refl (λ r. refl)
says L (Message.set_printer_policy m) h =
    say Message.set_printer_policy (Codes-set_printer_policy m h) refl (λ w. refl) (omega arith)
      refl (λ r. refl)
says L (Message.print_state m) h =
    say Message.print_state (Codes-print_state m h) refl (λ w. refl) (omega arith) refl (λ r. refl)
says L (Message.print_job_added m) h =
    say Message.print_job_added (Codes-print_job_added m h) refl (λ w. refl) (omega arith) refl
      (λ r. refl)
says L (Message.print_job_fetch m) h =
    say Message.print_job_fetch (Codes-print_job_fetch m h) refl (λ w. refl) (omega arith) refl
      (λ r. refl)
says L (Message.print_job_data m) h =
    say Message.print_job_data (Codes-print_job_data m h) refl (λ w. refl) (omega arith) refl
      (λ r. refl)
says L (Message.print_job_discard m) h =
    say Message.print_job_discard (Codes-print_job_discard m h) refl (λ w. refl) (omega arith) refl
      (λ r. refl)
says L (Message.watch_stats m) h =
    say Message.watch_stats (Codes-watch_stats m h) refl (λ w. refl) (omega arith) refl (λ r. refl)
says L (Message.term_stats m) h =
    say Message.term_stats (Codes-term_stats m h) refl (λ w. refl) (omega arith) refl (λ r. refl)

-- What an attach puts on the wire is as long as `encoded_size` predicts.
pub length-says-attached :
    (L : CellLib) (m : Attached L) (h : FitsAttached L m)
    → length (says L (Message.attached m) h).bytes ≡ 8 + snapshot_size L m.snapshot
unfolding says say
length-says-attached L m h = (Codes-attached L m h).sized
