-- ===== src/Proto/Tests/Witnesses.antt =====
-- The theorems on src/common/proto.cpp applied to those messages.
use ckmux.Prelude.{
  ◌∙◌, ℕ, ◌+◌, ◌*◌, ◌≤◌, ◌<◌, ◌≡◌, ◌≢◌, refl, ap, inr, Bool, true, false, not, some, List, [], ◌∷◌,
  ◌++◌, length, take, drop, ltb, append-nil, length-append, length-take, length-drop,
  take-append-drop, if◌then◌else◌, replicate, length-replicate, arith,
}
use ckmux.Proto.Wire.{Reader, ready, ◌>>=◌, pure}
use ckmux.Proto.Reader
use ckmux.Proto.Reader.Counts.{counted-fits}
use ckmux.Proto.Limits.{header_bytes, max_snapshot_payload_bytes}
use ckmux.Proto.DecodeError.{DecodeError}
use ckmux.Proto.Events.{ClipboardSet, write_clipboard_set, read_clipboard_set}
use ckmux.Proto.Events.Oversize.{clipboard_set-asymmetric}
use ckmux.Proto.Snapshots.{snapshot_size}
use mathlib.Core.List.{map}
use ckmux.Proto.Carried.{carried, carried_cell}
use ckmux.Proto.Message.{Message, is_known_type, alternatives}
use ckmux.Proto.Codec.{encode, decode, read_header, decode_frame, refused, empty_writer}
use ckmux.Proto.Codec.RoundTrip.{decode-encode, decode-encode_plain, decode-take-encode}
use ckmux.Proto.Codec.Bounds.{decode-consumed-le, decode-incomplete-lt}
use ckmux.Proto.Codec.Streaming.{decode-append}
use ckmux.Proto.Codec.Sizes.{encode-attached}
use ckmux.Proto.Frames.{FrameReader, max_buffered, append, waiting, starved, serve}
use ckmux.Proto.Frames.Termination.{serve-ends}
use ckmux.Proto.Frames.Next.{unread, unread-append}
use ckmux.Proto.Frames.Split.{frame, stream}
use ckmux.Proto.Frames.Stream.{joined, serve_all, fresh, serve_all-delivers}
use ckmux.Proto.Cells.{write_runs, read_runs}
use ckmux.Proto.Cells.Size.{runs_size}
use ckmux.Proto.Cells.Fits.{FitsCell}
use ckmux.Proto.Runs.Transfer.{from_runs-read_runs}
use ckmux.Proto.Runs.{to_runs, from_runs}
use ckmux.Proto.Runs.RoundTrip.{from_runs-to_runs}
use ckmux.Proto.Tests.Plain.{plain}
use ckmux.Proto.Tests.Comparing.{plain-tests, plain-CellTestsLaws, blank}
use ckmux.Proto.Tests.Samples.{
  ping, ping-IsSent, encode-ping, hello, hello-IsSent, encode-hello, drawing, drawing-IsSent,
  length-encode-drawing, sketch, sketch-IsSent, sketch-IsPlainMessage, letter, letter-FitsCell,
  underlined, underlined-FitsCell,
}
use ckmux.Proto.Tests.Snapshot.{answer, answer-FitsAttached}

decode-encode_example : decode plain ((encode plain drawing).0 ++ 1 ∷ 2 ∷ []) ≡ (
  record { error = DecodeError.none; consumed = length (encode plain drawing).0 },
  some (carried plain drawing),
)
decode-encode_example =
    decode-encode plain drawing drawing-IsSent.fits drawing-IsSent.accepted (1 ∷ 2 ∷ [])

decode-encode_plain_example :
    decode plain ((encode plain sketch).0 ++ 1 ∷ 2 ∷ [])
    ≡ (record { error = DecodeError.none; consumed = length (encode plain sketch).0 }, some sketch)
decode-encode_plain_example =
    decode-encode_plain plain sketch sketch-IsSent.fits sketch-IsPlainMessage sketch-IsSent.accepted
      (1 ∷ 2 ∷ [])

cut : 11 < length (encode plain hello).0
cut = rw encode-hello (omega arith)

decode-take-encode_example :
    decode plain (take 11 (encode plain hello).0) ≡ refused DecodeError.incomplete 0
decode-take-encode_example =
    decode-take-encode plain hello hello-IsSent.fits 11 hello-IsSent.accepted cut

-- A frame that claims a type that there is not.
abbrev unknown : List ℕ
unknown = 0 ∷ 0 ∷ 0 ∷ 0 ∷ 255 ∷ 255 ∷ 0 ∷ 0 ∷ []

unknown-decided : (decode plain unknown).0.error ≢ DecodeError.incomplete
unfolding decode read_header decode_frame is_known_type alternatives Reader.u32 Reader.u16 Reader.u8
    ◌>>=◌ pure
unknown-decided = λ e. cc e

decode-append_example : decode plain (unknown ++ 5 ∷ []) ≡ decode plain unknown
decode-append_example = decode-append plain unknown (5 ∷ []) unknown-decided

decode-consumed-le_example : (decode plain unknown).0.consumed ≤ length unknown
decode-consumed-le_example = decode-consumed-le plain unknown

-- Three bytes of a header.
abbrev few : List ℕ
few = 4 ∷ 0 ∷ 0 ∷ []

few-incomplete : (decode plain few).0.error ≡ DecodeError.incomplete
unfolding decode
few-incomplete = refl

decode-incomplete-lt_example : length few < header_bytes + max_snapshot_payload_bytes
decode-incomplete-lt_example = decode-incomplete-lt plain few few-incomplete

encode-attached_example :
    (let payload = 8 + snapshot_size plain answer.snapshot in
      ((encode plain (Message.attached answer)).1 ≡ ltb max_snapshot_payload_bytes payload)
      × (length (encode plain (Message.attached answer)).0
          ≡ (if ltb max_snapshot_payload_bytes payload then 0 else header_bytes + payload)))
encode-attached_example = encode-attached plain answer answer-FitsAttached

-- The frames of a ping and of a drawing, in two reads: the first ends inside the drawing.
abbrev first : List ℕ
first = take 30 (stream plain (ping ∷ drawing ∷ []))

abbrev second : List ℕ
second = drop 30 (stream plain (ping ∷ drawing ∷ []))

length-frame-ping : length (frame plain ping) ≡ 16
length-frame-ping = ap (λ (p : List ℕ × Bool). length p.0) encode-ping

length-stream-drawing : length (stream plain (ping ∷ drawing ∷ [])) ≡ 73
length-stream-drawing = omega (
  arith,
  length-append (frame plain ping) (stream plain (drawing ∷ [])),
  length-append (frame plain drawing) [],
  length-frame-ping,
  length-encode-drawing,
)

sent : joined (first ∷ second ∷ []) ≡ stream plain (ping ∷ drawing ∷ [])
sent =
    ap (λ l. first ++ l) (append-nil second)
    ∙ take-append-drop 30 (stream plain (ping ∷ drawing ∷ []))

serve_all-delivers_example :
    ((serve_all plain (λ m. false) (first ∷ second ∷ []) fresh).0
      ≡ map (carried plain) (ping ∷ drawing ∷ []))
    × ((serve_all plain (λ m. false) (first ∷ second ∷ []) fresh).1 ≡ waiting)
    × (unread (serve_all plain (λ m. false) (first ∷ second ∷ []) fresh).2 ≡ [])
serve_all-delivers_example =
    serve_all-delivers plain (λ m. false) 57 (ping ∷ drawing ∷ []) (first ∷ second ∷ [])
      (ping-IsSent, (drawing-IsSent, tt)) (refl, (refl, tt))
      (omega (arith, length-frame-ping), (omega (arith, length-encode-drawing), tt))
      (
        omega (arith, length-take 30 (stream plain (ping ∷ drawing ∷ []))),
        (
          omega (arith, length-drop 30 (stream plain (ping ∷ drawing ∷ [])), length-stream-drawing),
          tt,
        ),
      )
      sent

abbrev held : FrameReader
held = record { buffer = 8 ∷ 9 ∷ 10 ∷ []; consumed = 2 }

unread-append_example :
    ((append (11 ∷ []) held).1 ≡ not (ltb max_buffered (length (unread held) + 1)))
    × (unread (append (11 ∷ []) held).0
        ≡ (if (append (11 ∷ []) held).1 then unread held ++ 11 ∷ [] else unread held))
    × (length (append (11 ∷ []) held).0.buffer ≤ length (unread held) + 1)
unread-append_example = unread-append (11 ∷ []) held

-- A count that lies: two hundred entries of four bytes, and five bytes left.
abbrev lying : Reader
lying = ready (200 ∷ 0 ∷ 0 ∷ 0 ∷ 1 ∷ 2 ∷ 3 ∷ 4 ∷ 5 ∷ [])

counted-fits_example : length ((Reader.count 4 >>= λ n. Reader.repeat n Reader.u32) lying).0 * 4 ≤ 9
counted-fits_example = counted-fits 4 Reader.u32 lying

abbrev pasted : ClipboardSet
pasted = record { term = 4; text = replicate 70000 97 }

clipboard_set-asymmetric_example :
    ((write_clipboard_set pasted empty_writer).ok ≡ true)
    × ((read_clipboard_set (ready (write_clipboard_set pasted empty_writer).out)).1.ok ≡ false)
clipboard_set-asymmetric_example =
    clipboard_set-asymmetric pasted (omega arith) (omega (arith, length-replicate {A = ℕ} 70000 97))
      (omega (arith, length-replicate {A = ℕ} 70000 97))

-- Three letters and a blank.
from_runs-to_runs_example :
    from_runs plain (to_runs plain plain-tests (letter ∷ letter ∷ letter ∷ blank ∷ []))
    ≡ letter ∷ letter ∷ letter ∷ blank ∷ []
from_runs-to_runs_example =
    from_runs-to_runs plain plain-tests plain-CellTestsLaws (letter ∷ letter ∷ letter ∷ blank ∷ [])
      (omega arith)

-- The unknown frame, on a stream that closes.
serve-ends_example : (serve plain (λ m. false) false unknown fresh).1 ≢ starved
serve-ends_example = serve-ends plain (λ m. false) false unknown fresh

blank-FitsCell : FitsCell plain blank
blank-FitsCell = record {
  text = omega arith;
  fg = record { red = omega arith; green = omega arith; blue = omega arith; index = omega arith };
  bg = record { red = omega arith; green = omega arith; blue = omega arith; index = omega arith };
  attrs = omega arith;
  shape = inr (record { columns = 0; width = refl; text = λ e. cc e });
}

from_runs-read_runs_example :
    (let sent =
        write_runs plain
          (to_runs plain plain-tests (letter ∷ underlined ∷ blank ∷ []))
          empty_writer in
      let got = read_runs plain (ready (sent.out ++ 5 ∷ 6 ∷ [])) in
      (sent.ok ≡ true)
      × (length sent.out
          ≡ runs_size plain (to_runs plain plain-tests (letter ∷ underlined ∷ blank ∷ [])))
      × (from_runs plain got.0 ≡ map (carried_cell plain) (letter ∷ underlined ∷ blank ∷ []))
      × (got.1 ≡ ready (5 ∷ 6 ∷ [])))
from_runs-read_runs_example =
    from_runs-read_runs plain plain-tests plain-CellTestsLaws (letter ∷ underlined ∷ blank ∷ [])
      (5 ∷ 6 ∷ []) (omega arith) (letter-FitsCell, (underlined-FitsCell, (blank-FitsCell, tt)))
