-- ===== src/Tests/Systems.antt =====
-- A server with a connection that comes, shakes hands and waits.
use ssnproj.Base.{
  ℕ, ◌≡◌, ◌≢◌, refl, ap, [], ◌∷◌, ◌++◌, All, arith, true, some, Result, ok, err, eof,
}
use ssnproj.Bytes.BigEndian.{Bytes, from_be}
use ssnproj.Bytes.Reader.{read, read_uint}
use ssnproj.Protocol.Message.{deserialize}
use ssnproj.Protocol.Buffer.{new_message_buffer, try_deserialize}
use ssnproj.Crypto.{CryptoLib, decrypt_with_private_key, or_fatal}
use ssnproj.Effects.{Action}
use ssnproj.Paths.{bytes_eq, is_abs, split, push, print_abs}
use ssnproj.Paths.Names.{ne→bytes_eq}
use ssnproj.Paths.Clean.{IsName}
use ssnproj.Paths.Absolute.{abs_names, abs_names-IsName}
use ssnproj.Server.World.{text}
use ssnproj.Server.Directory.{client_id}
use ssnproj.Server.Connection.{new_connection_handler, handle_message, handle_handshake}
use ssnproj.Server.Connection.Frame.{QuietWorld, KeysUsable}
use ssnproj.Server.Connection.Commands.{ready}
use ssnproj.Server.System.{
  Peer, System, reading, draining, accepted, with_data, round, accept, receive, turn, Reach, here,
  next, listening,
}
use ssnproj.Server.System.Untouched.{IsOurs, IsAway, Reach-IsConsistent, Reach-untouched}
use ssnproj.Server.System.Progress.{Ending, serve-Ending}
use ssnproj.Server.Loop.{serve}
use ssnproj.Tests.Disk.{Disk, empty_disk, disk_os, plain_lib}

-- A cipher that takes no empty key, and a hash that is never empty.
abbrev takes_key : Bytes → Result (Unit {0})
takes_key [] = err eof
takes_key (k ∷ ks) = ok tt

abbrev keyed_lib : CryptoLib Disk
keyed_lib = record plain_lib { new_gcm = takes_key }

abbrev marked_hash : Bytes → Bytes
marked_hash key = 1 ∷ key

abbrev silent : ℕ → Bytes → Action Disk (Unit {0})
silent socket bytes w = (ok tt, w)

silent-QuietWorld : (socket : ℕ) → QuietWorld disk_os keyed_lib (silent socket)
silent-QuietWorld socket = record {
  by_net = λ bytes q w. refl;
  by_random = λ n q w. refl;
  by_oaep = λ c q w. refl;
  by_mkdir = λ ds qs w _ _ _. refl;
  by_write = λ ps qs contents w _ _ ne. rw (ne→bytes_eq (print_abs qs) (print_abs ps) ne);
  by_remove = λ ps qs w _ _ ne. rw (ne→bytes_eq (print_abs qs) (print_abs ps) ne);
}

keyed-KeysUsable : KeysUsable keyed_lib marked_hash
keyed-KeysUsable = record { no_empty_key = λ e. cc; hashed = λ key. omega arith }

abbrev srv : Bytes
srv = text "/srv"

srv_rooted : is_abs srv ≡ true
unfolding is_abs
srv_rooted = refl

abbrev away_key : Bytes
away_key = 5 ∷ []

away_names :
    All IsName ((abs_names srv ++ (client_id disk_os marked_hash away_key ∷ [])) ++ (text "f" ∷ []))
unfolding abs_names split push bytes_eq client_id
away_names = abs_names-IsName (text "/srv/0105/f")

-- The handshake of a client with the key 9, as it arrives.
abbrev arriving : Bytes
arriving = 1 ∷ 0 ∷ 0 ∷ 0 ∷ 1 ∷ 9 ∷ []

abbrev the_first : Peer
the_first = accepted srv 3

abbrev awake : Peer
awake = with_data arriving the_first

abbrev shaken : Peer
shaken = record {
  socket = 3;
  phase = draining;
  handler = ready srv (9 ∷ []);
  buffer = new_message_buffer;
}

abbrev of_one : Peer → System Disk
of_one p = record { peers = p ∷ []; world = empty_disk }

shakes :
    round disk_os keyed_lib silent marked_hash awake empty_disk ≡ some (some shaken, empty_disk)
unfolding round try_deserialize deserialize handle_message handle_handshake decrypt_with_private_key
    or_fatal from_be read_uint read
shakes = refl

waits :
    round disk_os keyed_lib silent marked_hash shaken empty_disk
    ≡ some (some (record shaken { phase = reading }), empty_disk)
unfolding round try_deserialize
waits = refl

away_apart : client_id disk_os marked_hash away_key ≢ client_id disk_os marked_hash (9 ∷ [])
unfolding client_id
away_apart e = absurd (omega (arith, ap digit e))
  where
    digit : Bytes → ℕ
    digit (a ∷ b ∷ c ∷ d ∷ _) = d
    digit _ = 0

-- The connection is accepted, sends its handshake, is confirmed, and waits.
a_run :
    Reach disk_os keyed_lib silent marked_hash srv
      (IsAway disk_os marked_hash away_key)
      (listening empty_disk)
      (of_one (record shaken { phase = reading }))
a_run =
    next
      (next
        (next (next here tt (accept 3 [] empty_disk)) (tt, tt)
          (receive [] [] the_first arriving empty_disk refl))
        (tt, tt) (turn [] [] awake empty_disk empty_disk (some shaken) refl shakes))
      (away_apart, tt)
      (turn [] [] shaken empty_disk empty_disk (some (record shaken { phase = reading })) refl
        waits)

Reach-IsConsistent_example :
    All
      (IsOurs disk_os keyed_lib silent marked_hash srv)
      (of_one (record shaken { phase = reading })).peers
Reach-IsConsistent_example =
    Reach-IsConsistent disk_os keyed_lib silent marked_hash srv empty_disk a_run

Reach-untouched_example :
    let theirs =
      print_abs
        ((abs_names srv ++ (client_id disk_os marked_hash away_key ∷ [])) ++ (text "f" ∷ [])) in
    disk_os.read_file theirs (of_one (record shaken { phase = reading })).world
    ≡ disk_os.read_file theirs empty_disk
Reach-untouched_example =
    Reach-untouched disk_os keyed_lib silent marked_hash srv 5 [] (text "f" ∷ []) silent-QuietWorld
      srv_rooted keyed-KeysUsable away_names empty_disk a_run

serve-Ending_example :
    Ending disk_os keyed_lib silent marked_hash srv []
      (the_first ∷ [])
      4
      (record { peers = accepted srv 4 ∷ the_first ∷ []; world = empty_disk })
      (serve
        (handle_message disk_os keyed_lib (silent 4) marked_hash)
        (arriving ∷ [])
        new_message_buffer
        (new_connection_handler srv, empty_disk))
serve-Ending_example =
    serve-Ending disk_os keyed_lib silent marked_hash srv [] (the_first ∷ []) 4
      (new_connection_handler srv) new_message_buffer empty_disk arriving
