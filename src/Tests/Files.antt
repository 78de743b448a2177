-- ===== src/Tests/Files.antt =====
-- Paths, commands and the blocks of a file, on the disk of `ssnproj.Tests.Disk`.
use ssnproj.Base.{
  ℕ, ◌-◌, ◌^◌, ◌≡◌, ◌≢◌, refl, sym, ap, [], ◌∷◌, List, ◌++◌, length, replicate, length-replicate,
  Bool, true, arith, All, Option, none, some,
}
use ssnproj.Base.{Result, ok, err}
use ssnproj.Bytes.BigEndian.{Bytes}
use ssnproj.Protocol.Types.{
  ChunkDataMessage, CommandMessage, command_upload, command_download, command_delete,
}
use ssnproj.Effects.{◌>>◌, check, wrapping}
use ssnproj.Paths.{bytes_eq, has_prefix, is_abs, split, push, clean, join, abs_path, print_abs}
use ssnproj.Paths.Clean.{IsName}
use ssnproj.Paths.Absolute.{abs_names, abs_names-IsName}
use ssnproj.Server.World.{CommandHandler, text}
use ssnproj.Server.Directory.{client_id, get_client_dir, client_root, path_under, validate_path}
use ssnproj.Server.Directory.Containment.{validate_path_contained}
use ssnproj.Server.Directory.Isolation.{validate_path_isolated}
use ssnproj.Server.Transfer.{send_file_in_chunks}
use ssnproj.Server.Transfer.Blocks.{IsTransfer}
use ssnproj.Server.Transfer.Sends.{send_all, send_file_in_chunks-eq-send_all}
use ssnproj.Server.Transfer.Overflow.{send_file_in_chunks_crash}
use ssnproj.Server.Handlers.{
  respond, handle_upload, handle_download, remove_if_there, handle_delete, handle,
}
use ssnproj.Server.Handlers.Others.{handle_others}
use ssnproj.Server.Handlers.Stored.{handle_download-upload}
use mathlib.Core.Path.{subst}
use ssnproj.Tests.Disk.{Disk, empty_disk, disk_os, recorder, disk-frame, disk-store, plain_hash}

abbrev key_a : Bytes
key_a = text "a"

abbrev key_b : Bytes
key_b = text "b"

abbrev handler_of : Bytes → CommandHandler
handler_of key = record { root_dir = text "/srv"; aes_key = some key }

abbrev upload : CommandMessage
upload = record { command = command_upload; filename = text "notes"; contents = 1 ∷ 2 ∷ 3 ∷ [] }

abbrev same_again : CommandMessage
same_again = record { command = command_download; filename = text "x/../notes"; contents = [] }

abbrev disk_after : Option (Result (Unit {0}) × Disk) → Disk
disk_after none = empty_disk
disk_after (some (r, w)) = w

abbrev after_upload : Disk
after_upload = (handle_upload disk_os recorder plain_hash (handler_of key_a) upload empty_disk).1

-- The names of both clients' directories, and a file in each.
abbrev path_a : Bytes
path_a = text "/srv/61/notes"

abbrev path_b : Bytes
path_b = text "/srv/62/notes"

accepted_a :
    (w : Disk)
    → validate_path disk_os plain_hash (handler_of key_a) (text "notes") w ≡ (ok path_a, w)
unfolding validate_path client_root path_under get_client_dir client_id check wrapping abs_path join
    clean split push is_abs has_prefix bytes_eq
accepted_a w = refl

accepted_b :
    (w : Disk)
    → validate_path disk_os plain_hash (handler_of key_b) (text "notes") w ≡ (ok path_b, w)
unfolding validate_path client_root path_under get_client_dir client_id check wrapping abs_path join
    clean split push is_abs has_prefix bytes_eq
accepted_b w = refl

accepted_again :
    (w : Disk)
    → validate_path disk_os plain_hash (handler_of key_a) (text "x/../notes") w ≡ (ok path_a, w)
unfolding validate_path client_root path_under get_client_dir client_id check wrapping abs_path join
    clean split push is_abs has_prefix bytes_eq
accepted_again w = refl

root_rooted : is_abs (text "/srv") ≡ true
unfolding is_abs
root_rooted = refl

abbrev second : Bytes → ℕ
second [] = 0
second (_ ∷ []) = 0
second (_ ∷ b ∷ _) = b

other_ids : client_id disk_os plain_hash key_a ≢ client_id disk_os plain_hash key_b
unfolding client_id
other_ids e = let digits : ◌≡◌ {A = ℕ} 49 50 = ap second e in absurd (omega arith)

validate_path_isolated_example : path_a ≢ path_b
validate_path_isolated_example =
    validate_path_isolated disk_os plain_hash (text "/srv") 97 98 [] [] (text "notes")
      (text "notes") empty_disk empty_disk empty_disk empty_disk root_rooted (omega arith)
      (omega arith) other_ids (accepted_a empty_disk) (accepted_b empty_disk)

abbrev rooted : Result Bytes → Bool
rooted (ok path) = is_abs path
rooted (err e) = true

getwd_rooted : (v : Disk) (wd : Bytes) → disk_os.getwd v ≡ ok wd → is_abs wd ≡ true
unfolding is_abs
getwd_rooted v wd e = subst (λ r. rooted r ≡ true) e refl

validate_path_contained_example :
    (dir : Bytes) × (rs cs : List Bytes) × (get_client_dir disk_os plain_hash
        (handler_of key_a)
        empty_disk
      ≡ (ok dir, empty_disk))
    × (abs_path (disk_os.getwd empty_disk) dir ≡ ok (print_abs rs))
    × (path_a ≡ print_abs (rs ++ cs))
    × All IsName rs
    × All IsName cs
validate_path_contained_example =
    validate_path_contained disk_os plain_hash (handler_of key_a) (text "notes") empty_disk
      empty_disk getwd_rooted (accepted_a empty_disk)

uploaded_ok :
    handle_upload disk_os recorder plain_hash (handler_of key_a) upload empty_disk
    ≡ (ok tt, after_upload)
unfolding handle_upload respond validate_path client_root path_under get_client_dir client_id check
    wrapping abs_path join clean split push is_abs has_prefix bytes_eq
uploaded_ok = refl

handle_download-upload_example :
    (chunks : List ChunkDataMessage) × IsTransfer (text "x/../notes") (1 ∷ 2 ∷ 3 ∷ []) chunks
    × (handle_download disk_os recorder plain_hash (handler_of key_a) same_again after_upload
        ≡ some (
            (do
              respond disk_os recorder plain_hash true (text "Starting chunked download")
              send_all recorder chunks)
              after_upload))
handle_download-upload_example =
    handle_download-upload disk_os recorder plain_hash (handler_of key_a) upload same_again path_a
      empty_disk empty_disk after_upload after_upload disk-store (omega arith)
      (accepted_a empty_disk) uploaded_ok (accepted_again after_upload)

send_file_in_chunks-eq-send_all_example :
    (chunks : List ChunkDataMessage) × IsTransfer (text "notes") (1 ∷ 2 ∷ 3 ∷ []) chunks
    × (send_file_in_chunks recorder (text "notes") (1 ∷ 2 ∷ 3 ∷ []) empty_disk
        ≡ some (send_all recorder chunks empty_disk))
send_file_in_chunks-eq-send_all_example =
    send_file_in_chunks-eq-send_all recorder (text "notes") (1 ∷ 2 ∷ 3 ∷ []) empty_disk
      (omega arith)

-- Alice deletes her file, and Bob's stays.
abbrev deletion : CommandMessage
deletion = record { command = command_delete; filename = text "notes"; contents = [] }

abbrev after_deletion : Disk
after_deletion =
    disk_after (handle disk_os recorder plain_hash (handler_of key_a) deletion after_upload)

deleted :
    handle disk_os recorder plain_hash (handler_of key_a) deletion after_upload
    ≡ some (ok tt, after_deletion)
unfolding handle handle_delete remove_if_there handle_upload respond validate_path client_root
    path_under get_client_dir client_id check wrapping abs_path join clean split push is_abs
    has_prefix bytes_eq
deleted = refl

b_names :
    All IsName (
      (abs_names (text "/srv") ++ (client_id disk_os plain_hash key_b ∷ [])) ++ (text "notes" ∷ []))
unfolding abs_names split push bytes_eq client_id
b_names = abs_names-IsName path_b

handle_others_example :
    let theirs = print_abs (
      (abs_names (text "/srv") ++ (client_id disk_os plain_hash key_b ∷ []))
      ++ (text "notes" ∷ [])) in
    disk_os.read_file theirs after_deletion ≡ disk_os.read_file theirs after_upload
handle_others_example =
    handle_others disk_os recorder plain_hash (text "/srv") 98 97 [] [] (text "notes" ∷ []) deletion
      after_upload after_deletion disk-frame root_rooted (omega arith) (λ e. other_ids (sym e))
      b_names deleted

-- A file of a length, shut so that a long one is not computed.
file_of : (n : ℕ) → (xs : Bytes) × (length xs ≡ n)
file_of n = (replicate n 0, length-replicate n 0)

send_file_in_chunks_crash_example :
    send_file_in_chunks recorder (text "notes") (file_of (2 ^ 32 - 1)).0 empty_disk ≡ none
send_file_in_chunks_crash_example =
    send_file_in_chunks_crash recorder (text "notes") (file_of (2 ^ 32 - 1)).0 empty_disk
      (omega (arith, (file_of (2 ^ 32 - 1)).1)) (omega (arith, (file_of (2 ^ 32 - 1)).1))
      (λ m v. refl)
