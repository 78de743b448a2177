-- ===== src/Tests/Refusals.antt =====
-- Requests that the server refuses, and a deletion.
use ssnproj.Base.{
  ◌≡◌, none, some, if◌then◌else◌, refl, inl, append-nil, [], ◌∷◌, ◌++◌, replicate, arith, ok, err,
  send_upload, upload_failed, download_failed, path_traversal, not_exist,
}
use ssnproj.Bytes.BigEndian.{Bytes, put_uint16}
use ssnproj.Protocol.Types.{
  Message, new_message, message_type_command, command_upload, command_download, command_delete,
}
use ssnproj.Protocol.Command.{serialize_command}
use ssnproj.Paths.{bytes_eq, split, is_abs, push, clean, join, abs_path, has_prefix}
use ssnproj.Crypto.{encrypt}
use ssnproj.Effects.{check, wrapping}
use ssnproj.Server.World.{text}
use ssnproj.Server.Directory.{client_id, get_client_dir, client_root, path_under, validate_path}
use ssnproj.Client.{request, download_file, delete_file}
use ssnproj.Session.{client_lib, link_conn}
use ssnproj.Session.Exchange.{ready_link, left_link}
use ssnproj.Protocol.Buffer.{new_message_buffer}
use ssnproj.Server.Loop.{serve, closed}
use ssnproj.Server.Loop.Messages.{stream}
use ssnproj.Server.Connection.{handle_message}
use ssnproj.Server.Connection.Commands.{ready}
use ssnproj.Session.Refusals.{request_refused}
use ssnproj.Session.Missing.{download_file_missing}
use ssnproj.Session.Deletion.{delete_file-handle_delete}
use ssnproj.Session.Gone.{Removes, download_file-delete_file}
use ssnproj.Server.World.{is_not_exist}
use ssnproj.Paths.Names.{bytes_eq_refl}
use ssnproj.Paths.{base}
use ssnproj.Base.{Option, false}
use ssnproj.Tests.Returns.{seven_key, srv_rooted, notes-IsName, short_notes}
use ssnproj.Tests.Disk.{contents_of}
use ssnproj.Tests.Uploads.{Wired, wired_os, wire, wired_network, tagged_lib, at_start}
use ssnproj.Tests.Returns.{
  own_os, one_hash, key, handler, with_file, wired-Sound, name_found, three_bytes,
}

-- What the client of these tests encrypts in each world.
abbrev sealed : Bytes → Bytes
sealed body = replicate 12 0 ++ (body ++ replicate 16 0)

body_sealed : (body : Bytes) (w : Wired) → encrypt tagged_lib body key w ≡ (ok (sealed body), w)
unfolding encrypt check
body_sealed body w = refl

outside :
    validate_path wired_os one_hash handler (text "../x") with_file
    ≡ (err path_traversal, with_file)
unfolding check wrapping validate_path client_root path_under get_client_dir client_id abs_path join
    clean split push is_abs has_prefix bytes_eq
outside = refl

abbrev refused_request : Message
refused_request =
    new_message message_type_command
      (sealed (serialize_command command_upload (text "../x") (1 ∷ [])))

request_refused_example :
    (t u : Wired) × (request
        (client_lib tagged_lib)
        (link_conn wired_os tagged_lib wire one_hash wired_network)
        key
        send_upload
        upload_failed
        command_upload
        (text "../x")
        (1 ∷ [])
        (ready_link (text "/srv") key with_file)
      ≡ (
        err (upload_failed (text "Invalid filename")),
        left_link (text "/srv") key (err path_traversal) t,
      ))
    × (t.out ≡ [])
    × ((q held : Bytes)
        → wired_os.read_file q with_file ≡ ok held
        → wired_os.read_file q t ≡ ok held)
    × (serve
          (handle_message wired_os tagged_lib wire one_hash)
          (stream (refused_request ∷ refused_request ∷ []) ∷ [])
          new_message_buffer
          (ready (text "/srv") key, with_file)
        ≡ closed path_traversal (ready (text "/srv") key, u))
    × ((q held : Bytes)
        → wired_os.read_file q with_file ≡ ok held
        → wired_os.read_file q u ≡ ok held)
unfolding serialize_command put_uint16
request_refused_example =
    request_refused wired_os tagged_lib wire one_hash wired_network (text "/srv") key refl
      send_upload upload_failed command_upload
      (sealed (serialize_command command_upload (text "../x") (1 ∷ []))) (text "../x") (1 ∷ [])
      (stream (refused_request ∷ refused_request ∷ [])) [] (refused_request ∷ []) path_traversal
      with_file with_file with_file (wired-Sound key) (inl refl) (omega arith) (omega arith) refl
      (body_sealed _ with_file) outside
      ((omega arith, omega arith), ((omega arith, omega arith), tt)) (append-nil _)

nothing_there :
    validate_path wired_os one_hash handler (text "notes") at_start
    ≡ (ok (text "/srv/09/notes"), at_start)
unfolding check wrapping validate_path client_root path_under get_client_dir client_id abs_path join
    clean split push is_abs has_prefix bytes_eq
nothing_there = refl

download_file_missing_example :
    (t : Wired) × (download_file
        (client_lib tagged_lib)
        (link_conn wired_os tagged_lib wire one_hash wired_network)
        own_os
        key
        (text "notes")
        (text "copy")
        (ready_link (text "/srv") key at_start)
      ≡ (
        err (download_failed (text "File not found or failed to read")),
        ready_link (text "/srv") key t,
      ))
    × ((q held : Bytes)
        → wired_os.read_file q at_start ≡ ok held
        → wired_os.read_file q t ≡ ok held)
    × (t.out ≡ [])
download_file_missing_example =
    download_file_missing wired_os tagged_lib wire one_hash wired_network (text "/srv") key refl
      own_os (sealed (serialize_command command_download (text "notes") [])) (text "notes")
      (text "copy") (text "/srv/09/notes") not_exist at_start at_start at_start (wired-Sound key)
      (omega arith) refl (body_sealed _ at_start) nothing_there refl

delete_file-handle_delete_example :
    (t : Wired) × (delete_file
        (client_lib tagged_lib)
        (link_conn wired_os tagged_lib wire one_hash wired_network)
        key
        (text "notes")
        (ready_link (text "/srv") key with_file)
      ≡ (ok tt, ready_link (text "/srv") key t))
    × ((q : Bytes)
        → wired_os.read_file q t
          ≡ contents_of (if bytes_eq q (text "/srv/09/notes") then none else some three_bytes))
    × (t.out ≡ [])
delete_file-handle_delete_example =
    delete_file-handle_delete wired_os tagged_lib wire one_hash wired_network (text "/srv") key refl
      (sealed (serialize_command command_delete (text "notes") [])) (text "notes")
      (text "/srv/09/notes") with_file with_file with_file (wired-Sound key) (omega arith) refl
      (body_sealed _ with_file) name_found

held_there :
    (o : Option Bytes) (contents : Bytes)
    → contents_of o ≡ ok contents
    → is_not_exist (elim o [ none ↦ err not_exist | some _ ↦ ok tt ]) ≡ false
held_there none contents e = cc
held_there (some xs) contents e = refl

wired-Removes : Removes wired_os
wired-Removes = record {
  there = λ p contents w e. held_there (w.files p) contents e;
  removes = λ p contents w e. refl;
  gone = λ p w e. (not_exist, rw (bytes_eq_refl p) refl);
  by_mkdir = λ d p w h. h;
}

download_file-delete_file_example :
    (x : Wired) × (t : Wired) × (delete_file
        (client_lib tagged_lib)
        (link_conn wired_os tagged_lib wire one_hash wired_network)
        (7 ∷ seven_key)
        (base (text "dir/notes"))
        (ready_link (text "/srv") (7 ∷ seven_key) with_file)
      ≡ (ok tt, ready_link (text "/srv") (7 ∷ seven_key) x))
    × (download_file
          (client_lib tagged_lib)
          (link_conn wired_os tagged_lib wire one_hash wired_network)
          own_os
          (7 ∷ seven_key)
          (base (text "dir/notes"))
          (text "copy")
          (ready_link (text "/srv") (7 ∷ seven_key) x)
        ≡ (
          err (download_failed (text "File not found or failed to read")),
          ready_link (text "/srv") (7 ∷ seven_key) t,
        ))
    × (t.out ≡ [])
download_file-delete_file_example =
    download_file-delete_file wired_os tagged_lib wire one_hash wired_network (text "/srv") 7
      seven_key own_os (base (text "dir/notes")) (text "copy") three_bytes with_file
      (wired-Sound key) wired-Removes refl srv_rooted (omega arith) notes-IsName
      (omega (arith, short_notes)) refl refl
