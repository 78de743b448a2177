-- ===== src/Tests/Startup.antt =====
-- A server that starts in an empty file system, and the keys that it makes.
use ssnproj.Base.{
  ◌≡◌, ◌≢◌, refl, sym, ap, arith, length, length-append, [], ◌∷◌, map, Bool, false, Bool-cases, inl,
  inr, if◌then◌else◌, Option, none, some, Result, ok, err, eof, not_exist,
}
use ssnproj.Bytes.BigEndian.{Bytes}
use ssnproj.Paths.{bytes_eq}
use ssnproj.Paths.Names.{bytes_eq_refl, ne→bytes_eq}
use ssnproj.Effects.{Action, wrapping}
use ssnproj.Effects.Processes.{◌>>=◌, fatal, or_end, need}
use ssnproj.Server.World.{Os, text, is_not_exist}
use ssnproj.Server.Setup.{ServerOf, new_server}
use ssnproj.Keys.{
  KeyPair, KeyLib, private_path, public_path, generate_key_pair, private_key_to_bytes,
  public_key_to_bytes, ensure_folder, make_keys, make_or_read_keys, load_keypair,
}
use ssnproj.Keys.Made.{KeyCodec, KeyFiles}
use ssnproj.Keys.Reload.{load_keypair_again}
use ssnproj.Flags.{parse_flags, read_arg, read_name, split_value, value_of}
use ssnproj.Flags.RoundTrip.{spelled}
use ssnproj.ServerMain.{
  Config, loaded, load_config, logger_config, validate_config, server_config, serving, start,
  run_main,
}
use ssnproj.ServerMain.Starts.{IsComplete, flags_of, load_config-map-spelled}
use ssnproj.ServerMain.Life.{returned, MainReach, started_up, more, work, signal, main_serves_root}
use ssnproj.Server.System.{Peer, System, accepted, listening, accept}
use ssnproj.Server.System.Untouched.{IsOurs}
use ssnproj.ClientMain.{parse_pem}
use ssnproj.ClientMain.Accepts.{parse_pem-make_keys}
use ssnproj.Client.Dial.{new_client_with_server_pub_key, new_client_with_server_pub_key-make_keys}
use mathlib.Core.Path.{subst}
use ssnproj.Tests.Disk.{Disk, empty_disk, disk_os, plain_lib}
use ssnproj.Base.{List, All, ℕ}

-- The disk of the other tests, with folders: a folder is a file with nothing in it.
abbrev folder_os : Os Disk
folder_os = record disk_os { mkdir_all = λ d w. disk_os.write_file d [] w }

-- Keys are byte strings, and the files hold them as they are.
abbrev key_lib : KeyLib Disk Bytes Bytes Bytes Bytes
key_lib = record {
  generate = λ n w. (ok (7 ∷ []), w);
  public_of = λ p. 8 ∷ p;
  marshal_pkcs1 = λ p. p;
  marshal_pkix = λ p. ok p;
  parse_pkcs1 = λ b. ok b;
  parse_pkix = λ b. ok b;
  as_rsa = λ k. some k;
  pem_encode = λ kind bytes. bytes;
  pem_decode = λ bytes. some bytes;
  block_bytes = λ block. block;
  is_encrypted = λ _. false;
  decrypt_block = λ _. err eof;
}

key-codec : KeyCodec key_lib
key-codec = record {
  decoded = λ kind bytes. (bytes, refl, refl, refl);
  parsed_pkcs1 = λ p. refl;
  parsed_pkix = λ p bytes e. (bytes, refl, cc);
}

abbrev some_keys : KeyPair Bytes Bytes
some_keys = record { private_key = 7 ∷ []; public_key = 8 ∷ 7 ∷ [] }

abbrev written_to : Bytes → Bytes → Disk → Disk
written_to p contents w = (disk_os.write_file p contents w).1

abbrev with_keys : Bytes → Disk → Disk
with_keys c w = written_to (public_path c) (8 ∷ 7 ∷ []) (written_to (private_path c) (7 ∷ []) w)

abbrev keys_folder : Bytes
keys_folder = text "k"

keys_made :
    make_keys key_lib folder_os keys_folder (written_to keys_folder [] empty_disk)
    ≡ some (ok some_keys, with_keys keys_folder (written_to keys_folder [] empty_disk))
unfolding make_keys generate_key_pair private_key_to_bytes public_key_to_bytes fatal wrapping ◌>>=◌
keys_made = refl

folder_there :
    is_not_exist (folder_os.stat keys_folder (written_to keys_folder [] empty_disk)) ≡ false
unfolding bytes_eq
folder_there = refl

keys_loaded :
    load_keypair key_lib folder_os keys_folder empty_disk
    ≡ some (ok some_keys, with_keys keys_folder (written_to keys_folder [] empty_disk))
unfolding load_keypair ensure_folder make_or_read_keys make_keys generate_key_pair
    private_key_to_bytes public_key_to_bytes fatal wrapping ◌>>=◌ bytes_eq
keys_loaded = refl

wrote :
    (p contents : Bytes) (w v : Disk)
    → disk_os.write_file p contents w ≡ (ok tt, v)
    → written_to p contents w ≡ v
wrote p contents w v e = ap (λ (q : Result (Unit {0}) × Disk). q.1) e

paths_differ : (c : Bytes) → private_path c ≢ public_path c
paths_differ c e = absurd (
    omega (
      arith,
      length-append c (text "/private.pem"),
      length-append c (text "/public.pem"),
      ap (λ (b : Bytes). length b) e,
    ))

abbrev missing : Option Bytes → Bool
missing o = is_not_exist (elim o [ none ↦ err not_exist | some _ ↦ ok tt ])

kept_there :
    (p contents q : Bytes) (w : Disk)
    → is_not_exist (folder_os.stat q w) ≡ false
    → is_not_exist (folder_os.stat q (written_to p contents w)) ≡ false
kept_there p contents q w there = elim (Bool-cases (bytes_eq q p)) [
  | inl same ↦ subst (λ b. missing (if b then some contents else w.files q) ≡ false) (sym same) refl
  | inr other ↦
      subst (λ b. missing (if b then some contents else w.files q) ≡ false) (sym other) there
]

written_there :
    (p contents : Bytes) (w : Disk)
    → is_not_exist (folder_os.stat p (written_to p contents w)) ≡ false
written_there p contents w =
    subst (λ b. missing (if b then some contents else w.files p) ≡ false) (sym (bytes_eq_refl p))
      refl

key-files : KeyFiles key_lib folder_os
key-files = record {
  made = λ d w v e.
      subst (λ (u : Disk). is_not_exist (folder_os.stat d u) ≡ false) (wrote d [] w v e)
        (written_there d [] w);
  written = λ p contents w v e.
      subst
        (λ (u : Disk).
          (folder_os.read_file p u ≡ ok contents) × (is_not_exist (folder_os.stat p u) ≡ false))
        (wrote p contents w v e) (rw (bytes_eq_refl p) refl, written_there p contents w);
  apart = λ c contents w v e.
      subst
        (λ (u : Disk).
          folder_os.read_file (private_path c) u ≡ folder_os.read_file (private_path c) w)
        (wrote (public_path c) contents w v e)
        (rw (ne→bytes_eq (private_path c) (public_path c) (paths_differ c)) refl);
  stays = λ p contents q w v e there.
      subst (λ (u : Disk). is_not_exist (folder_os.stat q u) ≡ false) (wrote p contents w v e)
        (kept_there p contents q w there);
  drawn = λ n q w there. there;
}

load_keypair_again_example :
    load_keypair key_lib folder_os keys_folder
      (with_keys keys_folder (written_to keys_folder [] empty_disk))
    ≡ some (ok some_keys, with_keys keys_folder (written_to keys_folder [] empty_disk))
load_keypair_again_example =
    load_keypair_again key_lib folder_os key-codec keys_folder some_keys empty_disk _ key-files
      keys_loaded

parse_pem-make_keys_example :
    (pem_key : Bytes) × (folder_os.read_file
        (public_path keys_folder)
        (with_keys keys_folder (written_to keys_folder [] empty_disk))
      ≡ ok pem_key)
    × (parse_pem key_lib pem_key ≡ ok some_keys.public_key)
parse_pem-make_keys_example =
    parse_pem-make_keys key_lib folder_os key-codec keys_folder some_keys
      (written_to keys_folder [] empty_disk) _ key-files folder_there keys_made

new_client_with_server_pub_key-make_keys_example :
    new_client_with_server_pub_key key_lib folder_os
      (λ _ w. (ok tt, w))
      (λ w. (ok tt, w))
      (text "h")
      (text "80")
      (public_path keys_folder)
      (with_keys keys_folder (written_to keys_folder [] empty_disk))
    ≡ some (ok some_keys.public_key, with_keys keys_folder (written_to keys_folder [] empty_disk))
new_client_with_server_pub_key-make_keys_example =
    new_client_with_server_pub_key-make_keys key_lib folder_os (λ _ w. (ok tt, w)) (λ w. (ok tt, w))
      keys_folder (text "h") (text "80") some_keys (written_to keys_folder [] empty_disk) _ _
      key-codec key-files folder_there keys_made refl refl

abbrev own_config : Config
own_config = record {
  host = text "0.0.0.0";
  port = text "99";
  config_folder = text "k";
  root_dir = text "d";
  log_level = text "debug";
}

load_config-map-spelled_example :
    load_config (λ _. text "none") (map spelled (flags_of own_config)) ≡ loaded own_config
load_config-map-spelled_example = load_config-map-spelled (λ _. text "none") own_config

abbrev own_server : ServerOf Bytes Bytes
own_server = record { config = server_config own_config; rsa_key_pair = some_keys }

abbrev started : Disk
started = with_keys keys_folder (written_to keys_folder [] (written_to (text "d") [] empty_disk))

server_started :
    run_main key_lib folder_os
      (λ _. ok tt)
      (λ _. [])
      (text "server" ∷ map spelled (flags_of own_config))
      empty_disk
    ≡ some (ok (serving own_server), started)
unfolding run_main load_config start validate_config logger_config parse_flags read_arg read_name
    split_value value_of new_server load_keypair ensure_folder make_or_read_keys make_keys
    generate_key_pair private_key_to_bytes public_key_to_bytes fatal or_end need wrapping ◌>>=◌
    bytes_eq
server_started = refl

-- Two connections are accepted, and a signal arrives.
abbrev first_peers : List Peer
first_peers = accepted (text "d") 1 ∷ []

abbrev one_peer : System Disk
one_peer = record { peers = first_peers; world = started }

abbrev two_peers : System Disk
two_peers = record { peers = accepted (text "d") 2 ∷ first_peers; world = started }

abbrev quiet_net : ℕ → Bytes → Action Disk (Unit {0})
quiet_net _ _ w = (ok tt, w)

signalled :
    MainReach {Priv = Bytes} {Pub = Bytes} folder_os plain_lib quiet_net
      (λ key. key)
      own_server
      started
      (returned two_peers)
signalled =
    more
      (more
        (more started_up (work (text "d") (listening started) one_peer refl (accept 1 [] started)))
        (work (text "d") one_peer two_peers refl (accept 2 first_peers started)))
      (signal two_peers)

main_serves_root_example :
    (config : Config) × (load_config (λ _. []) (map spelled (flags_of own_config)) ≡ loaded config)
    × IsComplete config
    × (own_server.config ≡ server_config config)
    × All (IsOurs folder_os plain_lib quiet_net (λ key. key) config.root_dir) two_peers.peers
main_serves_root_example =
    main_serves_root key_lib folder_os (λ _. ok tt) (λ _. []) plain_lib quiet_net (λ key. key)
      (text "server" ∷ map spelled (flags_of own_config)) own_server empty_disk started
      (returned two_peers) server_started signalled
