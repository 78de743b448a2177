-- ===== src/Tests/Uploads.antt =====
-- A client and a server that are connected, and an upload of three bytes and a listing.
use ssnproj.Base.{
  List, true, false, ℕ, ◌-◌, ◌≡◌, refl, sym, ap, ◌∙◌, [], ◌∷◌, ◌++◌, length, length-append,
  length-replicate, take, take-length, drop, replicate, arith, if◌then◌else◌, Option, none, some,
}
use ssnproj.Base.{Result, ok, err, not_exist, eof, append-nil, take-append-drop}
use ssnproj.Base.{ok_injective}
use ssnproj.Bytes.BigEndian.{Bytes}
use ssnproj.Protocol.Types.{CommandMessage, command_upload, command_list}
use ssnproj.Protocol.Command.{serialize_command}
use ssnproj.Paths.{base, bytes_eq, has_prefix, is_abs, split, push, clean, join, abs_path}
use ssnproj.Paths.Names.{bytes_eq_refl}
use ssnproj.Crypto.{CryptoLib, encrypt}
use ssnproj.Crypto.RoundTrip.{Documented}
use ssnproj.Effects.{Action, check, wrapping}
use ssnproj.Server.World.{Os, DirEntry, CommandHandler, text}
use ssnproj.Server.Directory.{client_id, get_client_dir, client_root, path_under, validate_path}
use ssnproj.Server.Handlers.{respond, handle_upload, handle_list}
use ssnproj.Server.Handlers.Stored.{FileStore}
use ssnproj.Server.Connection.{send_secure_message, secure_sender}
use ssnproj.Client.{upload_file, list_files}
use ssnproj.Client.Download.{ClientOs}
use ssnproj.Session.{Link, Network, client_lib, link_conn}
use ssnproj.Session.Exchange.{Delivers, ready_link}
use ssnproj.Session.Replies.{GcmSizes, Carries}
use ssnproj.Session.Upload.{upload_file-handle_upload}
use ssnproj.Server.Handlers.Listed.{Listed, empty, directory, file, last_line}
use ssnproj.Session.Listing.{list_files-handle_list}
use ssnproj.Tests.Disk.{plain_lib, plain_hash, contents_of}

-- What each path of the server holds, what was written to the connection and not read, and the
-- path and the contents of the client's output file.
pub record Wired : Type 0 where
  pub files : Bytes → Option Bytes
  pub out : Bytes
  pub output : Bytes
  pub output_path : Bytes

abbrev two_entries : List DirEntry
two_entries =
    record { name = text "notes"; is_dir = false }
    ∷ record { name = text "old"; is_dir = true }
    ∷ []

abbrev pub wired_os : Os Wired
wired_os = record {
  getwd = λ _. ok (text "/home");
  mkdir_all = λ _ w. (ok tt, w);
  write_file = λ p contents w.
      (ok tt, record w { files = λ q. if bytes_eq q p then some contents else w.files q });
  read_file = λ p w. contents_of (w.files p);
  read_dir = λ _ _. ok two_entries;
  stat = λ p w. elim (w.files p) [ none ↦ err not_exist | some _ ↦ ok tt ];
  remove = λ p w. (ok tt, record w { files = λ q. if bytes_eq q p then none else w.files q });
}

abbrev pub wire : Bytes → Action Wired (Unit {0})
wire bytes w = (ok tt, record w { out = w.out ++ bytes })

abbrev pub wired_network : Network Wired
wired_network = record {
  pending = λ w. w.out;
  dropped = λ n w. record w { out = drop n w.out };
  cuts = λ bytes. (take 2 bytes, drop 2 bytes ∷ []);
}

-- A tag of 16 zeros behind the text, and a one in front of an encrypted key.
abbrev pub tagged_lib : CryptoLib Wired
tagged_lib = record plain_lib {
  seal = λ key nonce plaintext. plaintext ++ replicate 16 0;
  open_sealed = λ key nonce sealed. ok (take (length sealed - 16) sealed);
  encrypt_oaep = λ plaintext w. (ok (1 ∷ plaintext), w);
  decrypt_oaep = λ ciphertext w. (ok (drop 1 ciphertext), w);
}

untagged :
    (plaintext : Bytes)
    → take (length (plaintext ++ replicate 16 0) - 16) (plaintext ++ replicate 16 0) ≡ plaintext
untagged plaintext =
    ap (λ (n : ℕ). take n (plaintext ++ replicate 16 0)) size
    ∙ take-length plaintext (replicate 16 0)
  where
    size : length (plaintext ++ replicate 16 0) - 16 ≡ length plaintext
    size = omega (arith, length-append plaintext (replicate 16 0))

pub tagged-Documented : Documented tagged_lib
tagged-Documented = record {
  random_length = λ n w w' bytes e.
      ap (λ (b : Bytes). length b) (sym (ok_injective (ap (λ (q : Result Bytes × Wired). q.0) e)))
      ∙ length-replicate n 0;
  opens = λ key nonce plaintext _ _. ap ok (untagged plaintext);
}

pub tagged-GcmSizes : GcmSizes tagged_lib
tagged-GcmSizes = record {
  nonce = refl;
  sealed = λ key nonce plaintext. length-append plaintext (replicate 16 0);
}

pub wired-Carries : Carries wired_os tagged_lib wire wired_network
wired-Carries = record {
  by_net = λ bytes w v e. sym (ap (λ (q : Result (Unit {0}) × Wired). q.1.out) e);
  by_random = λ n w. refl;
  by_mkdir = λ d w. refl;
  by_write = λ p contents w. refl;
  by_remove = λ p w. refl;
}

pub wired-Delivers : Delivers wired_os wired_network
wired-Delivers = record {
  rest = λ n w. refl;
  files = λ n q w. refl;
  joins =
      λ bytes. ap (λ b. take 2 bytes ++ b) (append-nil (drop 2 bytes)) ∙ take-append-drop 2 bytes;
}

abbrev pub session_key : Bytes
session_key = text "a"

pub wired-FileStore :
    (hash : Bytes → Bytes) (key : Bytes)
    → FileStore wired_os (secure_sender wired_os tagged_lib wire hash (some key))
unfolding send_secure_message encrypt check
wired-FileStore hash key = record {
  by_send = λ m q w. refl;
  by_mkdir = λ d q contents w h. h;
  written = λ p contents w done. rw (bytes_eq_refl p) refl;
}

abbrev local_os : ClientOs (Link Wired)
local_os = record {
  read_local = λ _ w. ok (1 ∷ 2 ∷ 3 ∷ []);
  create = λ _ w. (err eof, w);
  append = λ f xs w. (err eof, w);
  size = λ f w. err eof;
  close = λ f w. (ok tt, w);
}

abbrev pub at_start : Wired
at_start = record { files = λ _. none; out = []; output = []; output_path = [] }

abbrev body : Bytes
body = serialize_command command_upload (base (text "dir/notes")) (1 ∷ 2 ∷ 3 ∷ [])

abbrev sealed_body : Bytes
sealed_body = replicate 12 0 ++ (body ++ replicate 16 0)

body_sealed : encrypt tagged_lib body session_key at_start ≡ (ok sealed_body, at_start)
unfolding encrypt check
body_sealed = refl

abbrev pub handler : CommandHandler
handler = record { root_dir = text "/srv"; aes_key = some session_key }

abbrev command : CommandMessage
command = record {
  command = command_upload;
  filename = base (text "dir/notes");
  contents = 1 ∷ 2 ∷ 3 ∷ [];
}

abbrev upload_run : Result (Unit {0}) × Wired
upload_run =
    handle_upload wired_os (secure_sender wired_os tagged_lib wire plain_hash (some session_key))
      plain_hash handler command at_start

upload_done : upload_run ≡ (ok tt, upload_run.1)
unfolding handle_upload respond send_secure_message encrypt check wrapping validate_path client_root
    path_under get_client_dir client_id abs_path join clean split push is_abs has_prefix bytes_eq
    base
upload_done = refl

path_found :
    validate_path wired_os plain_hash handler (base (text "dir/notes")) at_start
    ≡ (ok (text "/srv/61/notes"), at_start)
unfolding check wrapping validate_path client_root path_under get_client_dir client_id abs_path join
    clean split push is_abs has_prefix bytes_eq base
path_found = refl

short_name : length (base (text "dir/notes")) ≡ 5
unfolding base bytes_eq split
short_name = refl

upload_file-handle_upload_example :
    (t : Wired) × (upload_file
        (client_lib tagged_lib)
        (link_conn wired_os tagged_lib wire plain_hash wired_network)
        local_os
        session_key
        (text "dir/notes")
        (ready_link (text "/srv") session_key at_start)
      ≡ (ok tt, ready_link (text "/srv") session_key t))
    × (wired_os.read_file (text "/srv/61/notes") t ≡ ok (1 ∷ 2 ∷ 3 ∷ []))
    × (t.out ≡ [])
upload_file-handle_upload_example =
    upload_file-handle_upload wired_os tagged_lib wire plain_hash wired_network (text "/srv")
      session_key local_os sealed_body (text "dir/notes") (1 ∷ 2 ∷ 3 ∷ []) (text "/srv/61/notes")
      at_start at_start at_start upload_run.1 tagged-Documented tagged-GcmSizes wired-Carries
      wired-Delivers (wired-FileStore plain_hash session_key) (omega (arith, short_name))
      (omega arith) refl refl body_sealed path_found upload_done

abbrev list_body : Bytes
list_body = serialize_command command_list [] []

list_sealed :
    encrypt tagged_lib list_body session_key at_start
    ≡ (ok (replicate 12 0 ++ (list_body ++ replicate 16 0)), at_start)
unfolding encrypt check
list_sealed = refl

abbrev listing : CommandMessage
listing = record { command = command_list; filename = []; contents = [] }

abbrev list_run : Result (Unit {0}) × Wired
list_run =
    handle_list wired_os (secure_sender wired_os tagged_lib wire plain_hash (some session_key))
      plain_hash handler listing at_start

list_done : list_run ≡ (ok tt, list_run.1)
unfolding handle_list respond send_secure_message encrypt check wrapping get_client_dir client_id
list_done = refl

dir_found : get_client_dir wired_os plain_hash handler at_start ≡ (ok (text "/srv/61"), at_start)
unfolding get_client_dir client_id check wrapping join clean split push is_abs bytes_eq
dir_found = refl

two_entries-Listed : Listed two_entries (text "notes" ∷ [])
two_entries-Listed = file _ _ _ refl (directory _ _ _ refl empty)

list_files-handle_list_example :
    (t : Wired) × (list_files
        (client_lib tagged_lib)
        (link_conn wired_os tagged_lib wire plain_hash wired_network)
        session_key
        (ready_link (text "/srv") session_key at_start)
      ≡ (ok (text "notes"), ready_link (text "/srv") session_key t))
    × (t.out ≡ [])
list_files-handle_list_example =
    list_files-handle_list wired_os tagged_lib wire plain_hash wired_network (text "/srv")
      session_key (replicate 12 0 ++ (list_body ++ replicate 16 0)) (text "/srv/61") (text "notes")
      two_entries (text "notes" ∷ []) at_start at_start at_start list_run.1 tagged-Documented
      tagged-GcmSizes wired-Carries wired-Delivers two_entries-Listed (last_line (text "notes"))
      (omega arith) refl list_sealed dir_found refl list_done
