-- ===== src/Server/Connection/States.antt =====
-- The states of a connection: what is refused before the handshake, and what a handshake sets up.
use ssnproj.Base.{
  ◌≡◌, ◌≢◌, refl, sym, ap, ◌∙◌, ◌∷◌, List, ◌==◌, arith, Bool, true, false, inl, inr, ◌⊎◌,
  if◌then◌else◌,
}
use ssnproj.Base.{Option, none, some, Result, Error, ok, err, before_handshake, All}
use ssnproj.Bytes.BigEndian.{Bytes}
use ssnproj.Protocol.Types.{Message, CommandMessage, message_type_handshake, message_type_command}
use ssnproj.Protocol.Command.{deserialize_command}
use ssnproj.Protocol.Decrypt.{decrypt_message}
use ssnproj.Crypto.{CryptoLib, decrypt_with_private_key, or_fatal}
use ssnproj.Effects.{Action}
use ssnproj.Effects.Keeps.{Ends, KeepsProcess}
use ssnproj.Server.World.{Os, CommandHandler}
use ssnproj.Protocol.Buffer.{new_message_buffer}
use ssnproj.Server.Loop.{closed, ended, after}
use ssnproj.Server.Loop.Fragments.{join_reads}
use ssnproj.Server.Loop.Messages.{IsSendable, stream, handle_all, serve-stream}
use ssnproj.Server.Loop.Invariant.{Stands, serve-Stands}
use mathlib.Core.Path.{subst}
use ssnproj.Server.Connection.{
  ConnectionState, new, handshake, authenticated, ConnectionHandler, Session,
  new_connection_handler, beside, confirmed, with_key, handle_handshake, run_command, on_command,
  handle_command, on_decrypted, on_secure, handle_message, handle_raw_request,
}

-- The command handler and the key are those of the same handshake, or there is neither.
abbrev pub handler_for : Bytes → Option Bytes → Option CommandHandler
handler_for root_dir none = none
handler_for root_dir (some key) = some (record { root_dir = root_dir; aes_key = some key })

-- Without a key no handshake has begun.
abbrev StateFor : Option Bytes → ConnectionState → Type 0
StateFor none state = state ≡ new
StateFor (some key) state = (state ≡ handshake) ⊎ (state ≡ authenticated)

pub record IsConsistent (root_dir : Bytes) (h : ConnectionHandler) : Type 0 where
  pub same_root : h.root_dir ≡ root_dir
  pub same_key : h.cmd_handler ≡ handler_for root_dir h.aes_key
  pub key_state : StateFor h.aes_key h.state

module _ {W : Type 0} (os : Os W) (lib : CryptoLib W) (write : Bytes → Action W (Unit {0}))
    (sha256 : Bytes → Bytes) where
  refused :
      (root_dir : Bytes) (m : Message) (w : W)
      → m.kind ≢ message_type_handshake
      → handle_message os lib write sha256 m (new_connection_handler root_dir, w)
        ≡ some (err before_handshake, (new_connection_handler root_dir, w))
  unfolding handle_message
  refused root_dir m w other = ground (arith, other)

  fatal :
      (root_dir : Bytes) (m : Message) (w : W)
      → m.kind ≡ message_type_handshake
      → (e : Error) → (lib.decrypt_oaep m.payload w).0 ≡ err e
      → handle_message os lib write sha256 m (new_connection_handler root_dir, w) ≡ none
  unfolding handle_message handle_handshake decrypt_with_private_key or_fatal
  fatal root_dir m w shake e bad = ground (arith, shake, bad)

  -- A connection whose first message is no handshake is closed with nothing done, however the
  -- stream is cut and whatever follows.
  pub handle_raw_request_first :
      (root_dir : Bytes) (m : Message) (ms : List Message) (read : Bytes) (reads : List Bytes)
      (w : W)
      → m.kind ≢ message_type_handshake
      → All IsSendable (m ∷ ms)
      → join_reads (read ∷ reads) ≡ stream (m ∷ ms)
      → handle_raw_request os lib write sha256 root_dir (read ∷ reads) w
        ≡ closed before_handshake (new_connection_handler root_dir, w)
  unfolding handle_raw_request
  handle_raw_request_first root_dir m ms read reads w other sendable same =
      serve-stream (handle_message os lib write sha256) (m ∷ ms) read reads _ sendable same
      ∙ ap (after (λ mb. handle_all (handle_message os lib write sha256) ms) new_message_buffer)
          (refused root_dir m w other)

  -- A handshake whose payload cannot be decrypted ends the whole server process, on a new
  -- connection too, before anything that follows is handled.
  pub handle_raw_request_fatal :
      (root_dir : Bytes) (m : Message) (ms : List Message) (read : Bytes) (reads : List Bytes)
      (w : W)
      → m.kind ≡ message_type_handshake
      → (e : Error) → (lib.decrypt_oaep m.payload w).0 ≡ err e
      → All IsSendable (m ∷ ms)
      → join_reads (read ∷ reads) ≡ stream (m ∷ ms)
      → handle_raw_request os lib write sha256 root_dir (read ∷ reads) w ≡ ended
  unfolding handle_raw_request
  handle_raw_request_fatal root_dir m ms read reads w shake e bad sendable same =
      serve-stream (handle_message os lib write sha256) (m ∷ ms) read reads _ sendable same
      ∙ ap (after (λ mb. handle_all (handle_message os lib write sha256) ms) new_message_buffer)
          (fatal root_dir m w shake e bad)

  abbrev P : Bytes → Session W → Type 0
  P root_dir s = IsConsistent root_dir s.0

  if-Keeps :
      (root_dir : Bytes) (b : Bool) (x y : Option (Result (Unit {0}) × Session W))
      → Ends (P root_dir) x
      → Ends (P root_dir) y
      → Ends (P root_dir) (if b then x else y)
  if-Keeps root_dir true x y p q = p
  if-Keeps root_dir false x y p q = q

  beside-Keeps :
      (root_dir : Bytes) (h : ConnectionHandler) (o : Option (Result (Unit {0}) × W))
      → IsConsistent root_dir h
      → Ends (P root_dir) (beside h o)
  beside-Keeps root_dir h none c = tt
  beside-Keeps root_dir h (some (r, w)) c = c

  confirmed-Keeps :
      (root_dir : Bytes) (h : ConnectionHandler) (key : Bytes) (q : Result (Unit {0}) × W)
      → h.aes_key ≡ some key
      → IsConsistent root_dir h
      → Ends (P root_dir) (confirmed os lib write sha256 h q)
  confirmed-Keeps root_dir h key (ok _, w) e c = record {
    same_root = c.same_root;
    same_key = c.same_key;
    key_state = subst (λ k. StateFor k authenticated) (sym e) (inr refl);
  }
  confirmed-Keeps root_dir h key (err x, w) e c = c

  with_key-Keeps :
      (root_dir : Bytes) (h : ConnectionHandler) (o : Option (Bytes × W))
      → h.root_dir ≡ root_dir
      → h.state ≡ handshake
      → Ends (P root_dir) (with_key os lib write sha256 h o)
  with_key-Keeps root_dir h none same began = tt
  with_key-Keeps root_dir h (some (key, w)) same began =
      confirmed-Keeps root_dir _ key _ refl (record {
        same_root = same;
        same_key = ap (λ (d : Bytes). some (record { root_dir = d; aes_key = some key })) same;
        key_state = inl began;
      })

  run_command-Keeps :
      (root_dir : Bytes) (h : ConnectionHandler) (w : W) (o : Option CommandHandler)
      (command : CommandMessage)
      → IsConsistent root_dir h
      → Ends (P root_dir) (run_command os lib write sha256 h w o command)
  run_command-Keeps root_dir h w none command c = tt
  run_command-Keeps root_dir h w (some ch) command c = beside-Keeps root_dir h _ c

  on_command-Keeps :
      (root_dir : Bytes) (h : ConnectionHandler) (w : W) (r : Result CommandMessage)
      → IsConsistent root_dir h
      → Ends (P root_dir) (on_command os lib write sha256 h w r)
  on_command-Keeps root_dir h w (err e) c = c
  on_command-Keeps root_dir h w (ok command) c =
      run_command-Keeps root_dir h w h.cmd_handler command c

  on_decrypted-Keeps :
      (root_dir : Bytes) (r : Result Message) (h : ConnectionHandler) (w : W)
      → IsConsistent root_dir h
      → Ends (P root_dir) (on_decrypted os lib write sha256 r (h, w))
  unfolding handle_command
  on_decrypted-Keeps root_dir (err e) h w c = c
  on_decrypted-Keeps root_dir (ok message) h w c =
      if-Keeps root_dir (message.kind == message_type_command) _ _
        (on_command-Keeps root_dir h w (deserialize_command message.payload) c) c

  on_secure-Keeps :
      (root_dir : Bytes) (m : Message) (key : Option Bytes) (h : ConnectionHandler) (w : W)
      → IsConsistent root_dir h
      → Ends (P root_dir) (on_secure os lib write sha256 m key (h, w))
  on_secure-Keeps root_dir m none h w c = c
  on_secure-Keeps root_dir m (some key) h w c =
      on_decrypted-Keeps root_dir (decrypt_message lib key m) h w c

  -- Every message keeps the command handler and the key together.
  pub handle_message-Keeps :
      (root_dir : Bytes) (m : Message)
      → KeepsProcess (P root_dir) (handle_message os lib write sha256 m)
  unfolding handle_message handle_handshake
  handle_message-Keeps root_dir m (h, w) c =
      if-Keeps root_dir (m.kind == message_type_handshake) _ _
        (with_key-Keeps root_dir (record h { state = handshake }) _ c.same_root refl)
        (on_secure-Keeps root_dir m h.aes_key h w c)

  -- Whatever arrives, a run of `HandleRawRequest` ends: with the process, or with the connection
  -- waiting or closed and its fields in agreement. There is a command handler exactly if there is a
  -- key, it has this key and the server's root, and the state is `new` exactly as long as there is
  -- no key.
  pub handle_raw_request-Stands :
      (root_dir : Bytes) (reads : List Bytes) (w : W)
      → Stands
          (λ (s : Session W). IsConsistent root_dir s.0)
          (handle_raw_request os lib write sha256 root_dir reads w)
  unfolding handle_raw_request
  handle_raw_request-Stands root_dir reads w =
      serve-Stands (P root_dir) (handle_message os lib write sha256) (handle_message-Keeps root_dir)
        reads _ _ (record { same_root = refl; same_key = refl; key_state = refl })
