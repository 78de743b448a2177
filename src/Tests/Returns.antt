-- ===== src/Tests/Returns.antt =====
-- A client with a disk of its own: the handshake, and downloads of what was uploaded.
use ssnproj.Base.{
  ℕ, ◌≡◌, refl, ap, sym, ◌∙◌, Result, [], ◌∷◌, ◌++◌, length, replicate, arith, none, some, ok, true,
  if◌then◌else◌,
}
use ssnproj.Bytes.BigEndian.{Bytes}
use ssnproj.Paths.{base, bytes_eq, split, is_abs, push, clean, join, abs_path, has_prefix}
use ssnproj.Paths.Clean.{IsName}
use ssnproj.Paths.Absolute.{abs_names, abs_names-IsName}
use ssnproj.Server.World.{text}
use ssnproj.Protocol.Types.{command_download}
use ssnproj.Protocol.Command.{serialize_command}
use ssnproj.Crypto.{encrypt}
use ssnproj.Effects.{check, wrapping}
use ssnproj.Server.World.{CommandHandler}
use ssnproj.Server.Directory.{client_id, get_client_dir, client_root, path_under, validate_path}
use ssnproj.Server.Handlers.{handle_download}
use ssnproj.Server.Connection.{secure_sender}
use ssnproj.Session.Download.{download_file-handle_download}
use ssnproj.Session.Working.{handle_download-Succeeds}
use ssnproj.Client.{download_file, perform_handshake}
use ssnproj.Client.Download.{ClientOs}
use ssnproj.Session.{Link, client_lib, link_conn}
use ssnproj.Session.Exchange.{ready_link}
use ssnproj.Session.Inbox.{LocalDisk, LocalPaths}
use ssnproj.Session.Whole.{LocalFiles}
use ssnproj.Paths.Names.{bytes_eq_refl}
use ssnproj.Session.Working.{Working}
use ssnproj.Session.RoundTrip.{Sound}
use ssnproj.Session.Handshake.{new_link, OaepOpens, perform_handshake-handle_handshake}
use ssnproj.Tests.Uploads.{
  Wired, wired_os, wire, wired_network, tagged_lib, at_start, tagged-Documented, tagged-GcmSizes,
  wired-Carries, wired-Delivers, wired-FileStore,
}

abbrev pub one_hash : Bytes → Bytes
one_hash _ = 9 ∷ []

abbrev pub three_bytes : Bytes
three_bytes = 1 ∷ 2 ∷ 3 ∷ []

-- The client has one local file and one output file.
abbrev pub own_os : ClientOs (Link Wired)
own_os = record {
  read_local =
      λ path v. if bytes_eq path v.server.output_path then ok v.server.output else ok three_bytes;
  create =
      λ path v. (ok 0, record v { server = record v.server { output = []; output_path = path } });
  append =
      λ f xs v. (ok tt, record v { server = record v.server { output = v.server.output ++ xs } });
  size = λ f v. ok (length v.server.output);
  close = λ f v. (ok tt, v);
}

pub own-LocalDisk : LocalDisk own_os wired_os wired_network (λ f v. v.server.output)
own-LocalDisk = record {
  created = λ path v. (
    0,
    record v.server { output = []; output_path = path },
    refl,
    record { pending = refl; files = λ q. refl },
    refl,
  );
  appended = λ f xs v. (
    record v.server { output = v.server.output ++ xs },
    refl,
    record { pending = refl; files = λ q. refl },
    refl,
  );
  sized = λ f v. refl;
  closed = λ f v. (v.server, refl, record { pending = refl; files = λ q. refl }, refl);
  by_read = λ n f v. refl;
}

-- The file that is open has the path that it was created at.
abbrev pub Named : ℕ → Bytes → Link Wired → Type 0
Named f path v = path ≡ v.server.output_path

pub own-LocalPaths : LocalPaths own_os wired_network (λ f v. v.server.output) Named
own-LocalPaths = record {
  by_create = λ f path w v made. ap (λ (q : Result ℕ × Link Wired). q.1.server.output_path) made;
  by_append = λ f path xs w e. e;
  by_close = λ f path w e. e;
  by_take = λ n f path w e. e;
  shown = λ f path w e.
      ap (λ b. if b then ok w.server.output else ok three_bytes)
        (ap (bytes_eq path) (sym e) ∙ bytes_eq_refl path);
}

pub own-LocalFiles : LocalFiles own_os tagged_lib wire wired_network (text "/srv")
own-LocalFiles = record {
  by_world = λ path v w e.
      ap (λ (x : Wired). if bytes_eq path x.output_path then ok x.output else ok three_bytes) e;
  kept = λ path contents. record {
    by_random = λ n w h. h;
    by_encrypt = λ key w h. h;
    by_decrypt = λ c w h. h;
    by_net = λ bytes w h. h;
    by_take = λ n w h. h;
  };
}

wired-Working : Working wired_os tagged_lib wire
wired-Working = record {
  draws = λ n w. (replicate n 0, w, refl);
  accepts = λ key long. refl;
  carries = λ bytes w. (tt, record w { out = w.out ++ bytes }, refl);
  makes = λ d w. (tt, w, refl);
  writes = λ p contents w.
      (tt, record w { files = λ q. if bytes_eq q p then some contents else w.files q }, refl);
}

pub wired-Sound : (key : Bytes) → Sound wired_os tagged_lib wire one_hash wired_network key
wired-Sound key = record {
  documented = tagged-Documented;
  sizes = tagged-GcmSizes;
  carries = wired-Carries;
  delivers = wired-Delivers;
  store = wired-FileStore one_hash key;
  by_random = λ n q w. refl;
  working = wired-Working;
}

pub tagged-OaepOpens : OaepOpens tagged_lib wired_network
tagged-OaepOpens = record {
  encrypts =
      λ key w long. (1 ∷ key, w, refl, omega (arith, long), omega (arith, long), λ u. (u, refl));
  by_encrypt = λ key w. refl;
  by_decrypt = λ c w. refl;
}

perform_handshake-handle_handshake_example :
    (key : Bytes) × (t : Wired) × (perform_handshake
        (client_lib tagged_lib)
        (link_conn wired_os tagged_lib wire one_hash wired_network)
        (none, new_link (text "/srv") at_start)
      ≡ some (ok tt, (some key, ready_link (text "/srv") key t)))
    × (length key ≡ 32)
    × (t.out ≡ [])
perform_handshake-handle_handshake_example =
    perform_handshake-handle_handshake wired_os tagged_lib wire one_hash wired_network (text "/srv")
      none at_start tagged-Documented tagged-OaepOpens wired-Carries wired-Delivers wired-Working
      refl

pub notes-IsName : IsName (base (text "dir/notes"))
unfolding base abs_names split push bytes_eq
notes-IsName = (abs_names-IsName (text "/notes")).0

pub srv_rooted : is_abs (text "/srv") ≡ true
unfolding is_abs
srv_rooted = refl

pub short_notes : length (base (text "dir/notes")) ≡ 5
unfolding base bytes_eq split
short_notes = refl

abbrev pub seven_key : Bytes
seven_key = replicate 31 7

abbrev pub key : Bytes
key = 7 ∷ seven_key

abbrev pub handler : CommandHandler
handler = record { root_dir = text "/srv"; aes_key = some key }

-- A server that has the file.
abbrev pub with_file : Wired
with_file = record at_start { files = λ _. some three_bytes }

abbrev download_body : Bytes
download_body = serialize_command command_download (text "notes") []

abbrev sealed_body : Bytes
sealed_body = replicate 12 0 ++ (download_body ++ replicate 16 0)

body_sealed : encrypt tagged_lib download_body key with_file ≡ (ok sealed_body, with_file)
unfolding encrypt check
body_sealed = refl

pub name_found :
    validate_path wired_os one_hash handler (text "notes") with_file
    ≡ (ok (text "/srv/09/notes"), with_file)
unfolding check wrapping validate_path client_root path_under get_client_dir client_id abs_path join
    clean split push is_abs has_prefix bytes_eq
name_found = refl

download_done :
    (u : Wired) × (handle_download wired_os
        (secure_sender wired_os tagged_lib wire one_hash (some key))
        one_hash
        handler
        (record { command = command_download; filename = text "notes"; contents = [] })
        with_file
      ≡ some (ok tt, u))
download_done =
    handle_download-Succeeds wired_os tagged_lib wire one_hash wired-Working key refl handler
      (text "notes") [] (text "/srv/09/notes") three_bytes with_file with_file (omega arith)
      name_found refl

download_file-handle_download_example :
    (t : Wired) × (download_file
        (client_lib tagged_lib)
        (link_conn wired_os tagged_lib wire one_hash wired_network)
        own_os
        key
        (text "notes")
        (text "copy")
        (ready_link (text "/srv") key with_file)
      ≡ (ok tt, ready_link (text "/srv") key t))
    × (own_os.read_local (text "copy") (ready_link (text "/srv") key t) ≡ ok three_bytes)
    × (wired_os.read_file (text "/srv/09/notes") t ≡ ok three_bytes)
    × (t.out ≡ [])
download_file-handle_download_example =
    download_file-handle_download wired_os tagged_lib wire one_hash wired_network (text "/srv") key
      own_os (λ f v. v.server.output) Named sealed_body (text "notes") (text "copy") three_bytes
      (text "/srv/09/notes") with_file with_file with_file download_done.0 tagged-Documented
      tagged-GcmSizes wired-Carries wired-Delivers (wired-FileStore one_hash key) own-LocalDisk
      own-LocalPaths (omega arith) (omega arith) (omega arith) refl body_sealed name_found refl
      download_done.1
