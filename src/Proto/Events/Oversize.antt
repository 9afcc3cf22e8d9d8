-- ===== src/Proto/Events/Oversize.antt =====
-- A blob of more than `max_string_bytes` is written by src/common/proto.cpp and not read.
use ckmux.Prelude.{
  ℕ, ◌%◌, ◌^◌, ◌<◌, ◌≡◌, refl, ap, ◌∙◌, true, false, List, ◌++◌, append_assoc, length, arith,
  lt→ltb, le→ltb_false,
}
use ckmux.Proto.Wire.{Writer, ◌▸◌, Reader, ◌>>=◌, pure, ready}
use ckmux.Proto.Writer
use ckmux.Proto.Reader
use ckmux.Proto.Limits.{max_string_bytes}
use ckmux.Proto.Codes.Numbers.{Codes-u32, Codes-u64}
use ckmux.Proto.Codec.{empty_writer}
use ckmux.Proto.Events.{ClipboardSet, write_clipboard_set, read_clipboard_set}

-- The length of a blob that is too long for its reader stops it.
blob-fails :
    (limit : ℕ) (r r' : Reader) (n : ℕ)
    → Reader.u32 r ≡ (n, r')
    → limit < n
    → (Reader.blob limit r).1.ok ≡ false
unfolding Reader.blob Reader.blob_body ◌>>=◌
blob-fails limit r r' n e big = rw e (rw (lt→ltb limit n big))

blob-writes :
    (text : List ℕ) (fits : length text < 2 ^ 32) (w : Writer)
    → Writer.blob text w
      ≡ record { out = w.out ++ ((Codes-u32 (length text) fits).bytes ++ text); ok = w.ok }
unfolding Writer.blob Writer.append ◌▸◌
blob-writes text fits w =
    let whole : length text % 2 ^ 32 ≡ length text = omega arith in
    rw (le→ltb_false 0xffff_ffff (length text) (omega arith), whole)
      (rw ((Codes-u32 (length text) fits).writes w) (rw append_assoc))

-- A clipboard of more than `max_string_bytes` bytes is written without a failure, and reading back
-- exactly what was written fails.
pub clipboard_set-asymmetric :
    (m : ClipboardSet)
    → m.term < 2 ^ 64
    → max_string_bytes < length m.text
    → length m.text < 2 ^ 32
    → ((write_clipboard_set m empty_writer).ok ≡ true)
      × ((read_clipboard_set (ready (write_clipboard_set m empty_writer).out)).1.ok ≡ false)
unfolding write_clipboard_set read_clipboard_set ◌▸◌ ◌>>=◌ pure
clipboard_set-asymmetric m small big fits =
    let t = Codes-u64 m.term small in
    let n = Codes-u32 (length m.text) fits in
    let out : (write_clipboard_set m empty_writer)
        ≡ record { out = t.bytes ++ (n.bytes ++ m.text); ok = true } =
      ap (Writer.blob m.text) (t.writes empty_writer)
      ∙ blob-writes m.text fits _
      ∙ ap (λ (l : List ℕ). let w : Writer = record { out = l; ok = true } in w) refl in
    (
      ap (λ (w : Writer). w.ok) out,
      rw out (
          rw (t.reads (n.bytes ++ m.text))
            (blob-fails max_string_bytes _ _ (length m.text) (n.reads m.text) big)),
    )
