-- ===== src/Tests/Arrivals.antt =====
-- A client whose messages and bytes have arrived.
use ssnproj.Base.{
  ℕ, ◌≡◌, refl, ap, [], ◌∷◌, List, ◌++◌, map, take, drop, length, ltb, if◌then◌else◌, arith,
}
use ssnproj.Base.{Result, ok, err, eof}
use ssnproj.Bytes.BigEndian.{Bytes}
use ssnproj.Protocol.Types.{Message, new_message, message_type_response}
use ssnproj.Protocol.Message.{serialize}
use ssnproj.Effects.{Action}
use ssnproj.Server.World.{text}
use ssnproj.Server.Transfer.{chunk_message}
use ssnproj.Server.Transfer.Chunks.{file_chunks}
use ssnproj.Client.{Conn}
use ssnproj.Client.Download.{ClientOs, receive_file_chunks}
use ssnproj.Client.Download.Whole.{Channel}
use ssnproj.Client.Download.FileChunks.{receive_file_chunks-file_chunks}

-- The messages and the bytes that have arrived, and what the one output file holds.
pub record Line : Type 0 where
  pub messages : List Message
  pub bytes : Bytes
  pub output : Bytes

abbrev next_message : List Message → Line → Result Message × Line
next_message [] w = (err eof, w)
next_message (m ∷ ms) w = (ok m, record w { messages = ms })

abbrev receive_next : Action Line Message
receive_next w = next_message w.messages w

abbrev pub line_os : ClientOs Line
line_os = record {
  read_local = λ _ w. err eof;
  create = λ _ w. (ok 0, record w { output = [] });
  append = λ f xs w. (ok tt, record w { output = w.output ++ xs });
  size = λ f w. ok (length w.output);
  close = λ f w. (ok tt, w);
}

line-Channel : Channel line_os receive_next (λ w ms. w.messages ≡ ms) (λ f w. w.output)
line-Channel = record {
  received =
      λ m ms w e. (record w { messages = ms }, ap (λ l. next_message l w) e, refl, λ f. refl);
  created = λ path ms w e. (0, record w { output = [] }, refl, e, refl);
  appended = λ f xs ms w e. (record w { output = w.output ++ xs }, refl, e, refl);
  sized = λ f w. refl;
  closed_kept = λ f ms w e. (e, refl);
}

abbrev small_file : Bytes
small_file = 1 ∷ 2 ∷ 3 ∷ []

abbrev hello : Message
hello = new_message message_type_response (text "hi")

abbrev pub full_line : Line
full_line = record {
  messages = map chunk_message (file_chunks (text "a.txt") small_file) ++ (hello ∷ []);
  bytes = serialize hello ++ (7 ∷ []);
  output = [];
}

receive_file_chunks-file_chunks_example :
    (f : ℕ) × (v : Line) × ((line_os.create (text "out") full_line).0 ≡ ok f)
    × (receive_file_chunks line_os receive_next (text "a.txt") (text "out") full_line ≡ (ok tt, v))
    × (v.output ≡ small_file)
    × (v.messages ≡ hello ∷ [])
receive_file_chunks-file_chunks_example =
    receive_file_chunks-file_chunks line_os receive_next (λ w ms. w.messages ≡ ms) (λ f w. w.output)
      line-Channel (text "a.txt") (text "out") small_file (hello ∷ []) full_line (omega arith)
      (omega arith) (omega arith) refl

abbrev read_bytes : ℕ → Action Line Bytes
read_bytes n w =
    if ltb (length w.bytes) n
    then (err eof, w)
    else (ok (take n w.bytes), record w { bytes = drop n w.bytes })

abbrev pub line_conn : Conn Line
line_conn = record { write = λ _ w. (ok tt, w); read_full = read_bytes }
