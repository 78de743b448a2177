-- ===== src/Server/Connection/Frame.antt =====
-- What a connection may change: nothing that belongs to a client with another identifier.
use ssnproj.Base.{
  ℕ, ◌<◌, ◌≡◌, ◌≢◌, refl, sym, ap, ◌∙◌, [], ◌∷◌, List, ◌++◌, All, length, ◌==◌, Bool, true, false,
  if◌then◌else◌,
}
use ssnproj.Base.{Option, none, some, Result, ok, err}
use ssnproj.Bytes.BigEndian.{Bytes}
use ssnproj.Protocol.Types.{Message, CommandMessage, message_type_handshake, message_type_command}
use ssnproj.Protocol.Command.{deserialize_command}
use ssnproj.Paths.{is_abs, print_abs}
use ssnproj.Paths.Clean.{IsName}
use ssnproj.Paths.Absolute.{abs_names}
use ssnproj.Crypto.{CryptoLib, encrypt, decrypt, decrypt_with_private_key, or_fatal}
use ssnproj.Effects.{Action, gets}
use ssnproj.Base.{andthen-eq-ok}
use ssnproj.Effects.Keeps.{Ends, Keeps, check-Keeps}
use ssnproj.Server.World.{Os, CommandHandler}
use ssnproj.Server.Directory.{client_id}
use ssnproj.Server.Handlers.{handle}
use ssnproj.Server.Handlers.Others.{FileFrame, handle_others}
use ssnproj.Server.Connection.{
  key_bytes, handshake, ConnectionHandler, Session, send_secure_message, secure_sender, beside,
  confirmed, with_key, handle_handshake, run_command, on_command, handle_command, on_decrypted,
  on_secure, handle_message,
}
use ssnproj.Protocol.Decrypt.{decrypt_message}
use ssnproj.Protocol.Types.{new_message}
use ssnproj.Base.{◌>>=◌}
use ssnproj.Server.Connection.States.{IsConsistent, handler_for}
use mathlib.Core.Path.{subst}

-- Files change only by calls that name them, or that make directories at or below them: not by the
-- network, random numbers or the private key. The paths are clean.
pub record QuietWorld {W : Type 0} (os : Os W) (lib : CryptoLib W)
    (write : Bytes → Action W (Unit {0})) : Type 0 where
  pub by_net : (bytes q : Bytes) (w : W) → os.read_file q (write bytes w).1 ≡ os.read_file q w
  pub by_random : (n : ℕ) (q : Bytes) (w : W) → os.read_file q (lib.random n w).1 ≡ os.read_file q w
  pub by_oaep : (c q : Bytes) (w : W) → os.read_file q (lib.decrypt_oaep c w).1 ≡ os.read_file q w
  pub by_mkdir :
      (ds qs : List Bytes) (w : W)
      → All IsName ds
      → All IsName qs
      → ((rest : List Bytes) → qs ++ rest ≢ ds)
      → os.read_file (print_abs qs) (os.mkdir_all (print_abs ds) w).1
        ≡ os.read_file (print_abs qs) w
  pub by_write :
      (ps qs : List Bytes) (contents : Bytes) (w : W)
      → All IsName ps
      → All IsName qs
      → print_abs qs ≢ print_abs ps
      → os.read_file (print_abs qs) (os.write_file (print_abs ps) contents w).1
        ≡ os.read_file (print_abs qs) w
  pub by_remove :
      (ps qs : List Bytes) (w : W)
      → All IsName ps
      → All IsName qs
      → print_abs qs ≢ print_abs ps
      → os.read_file (print_abs qs) (os.remove (print_abs ps) w).1 ≡ os.read_file (print_abs qs) w

-- AES takes no empty key, and no hash is empty.
pub record KeysUsable {W : Type 0} (lib : CryptoLib W) (sha256 : Bytes → Bytes) : Type 0 where
  pub no_empty_key : lib.new_gcm [] ≢ ok tt
  pub hashed : (key : Bytes) → 0 < length (sha256 key)

-- The key of a connection, if it has one, has another identifier than `own`.
abbrev pub IsForeign : {W : Type 0} → Os W → (Bytes → Bytes) → Bytes → Option Bytes → Type 0
IsForeign os sha256 own none = Unit
IsForeign os sha256 own (some key) = client_id os sha256 own ≢ client_id os sha256 key

module _ {W : Type 0} (os : Os W) (lib : CryptoLib W) (write : Bytes → Action W (Unit {0}))
    (sha256 : Bytes → Bytes) (quiet : QuietWorld os lib write) where
  -- Encryption and sending, one after the other, under any predicate that both keep.
  send-Keeps :
      (P : W → Type 0) (aes_key : Option Bytes) (m : Message)
      → ((n : ℕ) → Keeps P (lib.random n))
      → ((bytes : Bytes) → Keeps P (write bytes))
      → Keeps P (send_secure_message os lib write sha256 aes_key m)
  unfolding send_secure_message encrypt
  send-Keeps P aes_key m random net =
      check-Keeps P (encrypt lib m.payload (key_bytes aes_key)) _ _
        (check-Keeps P (gets (λ _. lib.new_gcm (key_bytes aes_key))) _ _ (λ w p. p) (λ e w p. p)
          (λ _ _ v _ p.
            check-Keeps P (lib.random lib.nonce_size) _ _ (random _) (λ e w p. p) (λ _ _ v _ p. p) v
              p))
        (λ e w p. p) (λ _ _ v _ p. net _ v p)

  sender-FileFrame :
      (aes_key : Option Bytes) → FileFrame os (secure_sender os lib write sha256 aes_key)
  sender-FileFrame aes_key = record {
    by_send = λ m q w.
        send-Keeps (λ v. os.read_file q v ≡ os.read_file q w) aes_key m
          (λ n v p. quiet.by_random n q v ∙ p) (λ bytes v p. quiet.by_net bytes q v ∙ p) w refl;
    by_mkdir = quiet.by_mkdir;
    by_write = quiet.by_write;
    by_remove = quiet.by_remove;
  }

  -- A file of the client with the key `j ∷ js`, and what it held to begin with.
  module _ (root : Bytes) (j : ℕ) (js : Bytes) (cs : List Bytes) (held : Result Bytes)
      (rooted : is_abs root ≡ true) (usable : KeysUsable lib sha256)
      (names : All IsName ((abs_names root ++ (client_id os sha256 (j ∷ js) ∷ [])) ++ cs)) where
    abbrev theirs : Bytes
    theirs = print_abs ((abs_names root ++ (client_id os sha256 (j ∷ js) ∷ [])) ++ cs)

    -- The file holds what it held.
    abbrev Rest : Session W → Type 0
    Rest s = os.read_file theirs s.1 ≡ held

    beside-Rest :
        (h : ConnectionHandler) (o : Option (Result (Unit {0}) × W))
        → Ends (λ v. os.read_file theirs v ≡ held) o
        → Ends Rest (beside h o)
    beside-Rest h none p = tt
    beside-Rest h (some (r, w)) p = p

    handle-Ends :
        (k : ℕ) (ks : Bytes) (c : CommandMessage) (w : W) (o : Option (Result (Unit {0}) × W))
        → client_id os sha256 (j ∷ js) ≢ client_id os sha256 (k ∷ ks)
        → os.read_file theirs w ≡ held
        → handle os
            (secure_sender os lib write sha256 (some (k ∷ ks)))
            sha256
            (record { root_dir = root; aes_key = some (k ∷ ks) })
            c
            w
          ≡ o
        → Ends (λ v. os.read_file theirs v ≡ held) o
    handle-Ends k ks c w none f p e = tt
    handle-Ends k ks c w (some (r, v)) f p e =
        handle_others os (secure_sender os lib write sha256 (some (k ∷ ks))) sha256 root j k js ks
          cs c w v {r = r} (sender-FileFrame (some (k ∷ ks))) rooted (usable.hashed (k ∷ ks)) f
          names e
        ∙ p

    -- A command under a key that the cipher takes.
    run_command-Rest :
        (h : ConnectionHandler) (key : Bytes) (w : W) (o : Option CommandHandler)
        (c : CommandMessage)
        → lib.new_gcm key ≡ ok tt
        → h.aes_key ≡ some key
        → o ≡ some (record { root_dir = root; aes_key = some key })
        → client_id os sha256 (j ∷ js) ≢ client_id os sha256 key
        → os.read_file theirs w ≡ held
        → Ends Rest (run_command os lib write sha256 h w o c)
    run_command-Rest h [] w o c takes same handler f p = absurd (usable.no_empty_key takes)
    run_command-Rest h (k ∷ ks) w o c takes same handler f p =
        subst (λ x. Ends Rest (run_command os lib write sha256 h w x c)) (sym handler)
          (beside-Rest h _ (
            subst
              (λ key.
                Ends (λ v. os.read_file theirs v ≡ held)
                  (handle os (secure_sender os lib write sha256 key) sha256
                    (record { root_dir = root; aes_key = some (k ∷ ks) }) c w))
              (sym same) (handle-Ends k ks c w _ f p refl)))

    -- The connection's key and its command handler, on a world in which the file is untouched.
    record Known (h : ConnectionHandler) (key : Bytes) (w : W) : Type 0 where
      same : h.aes_key ≡ some key
      handler : h.cmd_handler ≡ some (record { root_dir = root; aes_key = some key })
      apart : client_id os sha256 (j ∷ js) ≢ client_id os sha256 key
      kept : os.read_file theirs w ≡ held

    on_command-Rest :
        (h : ConnectionHandler) (key : Bytes) (w : W) (r : Result CommandMessage)
        → lib.new_gcm key ≡ ok tt
        → Known h key w
        → Ends Rest (on_command os lib write sha256 h w r)
    on_command-Rest h key w (err e) takes known = known.kept
    on_command-Rest h key w (ok c) takes known =
        run_command-Rest h key w h.cmd_handler c takes known.same known.handler known.apart
          known.kept

    if-Rest :
        (b : Bool) (x y : Option (Result (Unit {0}) × Session W))
        → Ends Rest x
        → Ends Rest y
        → Ends Rest (if b then x else y)
    if-Rest true x y hx hy = hx
    if-Rest false x y hx hy = hy

    on_decrypted-Rest :
        (h : ConnectionHandler) (key : Bytes) (w : W) (r : Result Message)
        → ((m : Message) → r ≡ ok m → lib.new_gcm key ≡ ok tt)
        → Known h key w
        → Ends Rest (on_decrypted os lib write sha256 r (h, w))
    unfolding handle_command
    on_decrypted-Rest h key w (err e) takes known = known.kept
    on_decrypted-Rest h key w (ok m) takes known =
        if-Rest (m.kind == message_type_command) _ _
          (on_command-Rest h key w (deserialize_command m.payload) (takes m refl) known) known.kept

    decrypt_takes : (c key p : Bytes) → decrypt lib c key ≡ ok p → lib.new_gcm key ≡ ok tt
    unfolding decrypt
    decrypt_takes c key p e = andthen-eq-ok (lib.new_gcm key) _ e

    decrypt_message_takes :
        (key : Bytes) (m n : Message) → decrypt_message lib key m ≡ ok n → lib.new_gcm key ≡ ok tt
    decrypt_message_takes key m n e = go (decrypt lib m.payload key) refl e
      where
        go :
            (r : Result Bytes)
            → decrypt lib m.payload key ≡ r
            → (r >>= λ payload. ok (new_message m.kind payload)) ≡ ok n
            → lib.new_gcm key ≡ ok tt
        go (ok p) same _ = decrypt_takes m.payload key p same
        go (err x) same f = cc

    on_secure-Rest :
        (m : Message) (key : Option Bytes) (h : ConnectionHandler) (w : W)
        → h.aes_key ≡ key
        → IsConsistent root h
        → IsForeign os sha256 (j ∷ js) key
        → os.read_file theirs w ≡ held
        → Ends Rest (on_secure os lib write sha256 m key (h, w))
    on_secure-Rest m none h w same c f p = p
    on_secure-Rest m (some key) h w same c f p =
        on_decrypted-Rest h key w (decrypt_message lib key m) (decrypt_message_takes key m)
          (record {
            same = same;
            handler = c.same_key ∙ ap (handler_for root) same;
            apart = f;
            kept = p;
          })

    confirmed-Rest :
        (h : ConnectionHandler) (q : Result (Unit {0}) × W)
        → os.read_file theirs q.1 ≡ held
        → Ends Rest (confirmed os lib write sha256 h q)
    confirmed-Rest h (ok _, w) p = p
    confirmed-Rest h (err e, w) p = p

    with_key-Rest :
        (h : ConnectionHandler) (payload : Bytes) (w : W) (q : Result Bytes × W)
        → lib.decrypt_oaep payload w ≡ q
        → os.read_file theirs w ≡ held
        → Ends Rest
            (with_key os lib write sha256 h (elim q.0 [ ok a ↦ some (a, q.1) | err e ↦ none ]))
    with_key-Rest h payload w (err e, v) got p = tt
    with_key-Rest h payload w (ok key, v) got p = confirmed-Rest _ _ (
        quiet.by_net _ theirs v
        ∙ subst (λ (u : W). os.read_file theirs u ≡ held) (ap (λ (q : Result Bytes × W). q.1) got)
            (quiet.by_oaep payload theirs w ∙ p))

    -- A message on a connection with another client's key, or with none, does not touch the file:
    -- neither a command under that key nor a handshake, whatever key it brings.
    pub handle_message-Rest :
        (m : Message) (h : ConnectionHandler) (w : W)
        → IsConsistent root h
        → IsForeign os sha256 (j ∷ js) h.aes_key
        → os.read_file theirs w ≡ held
        → Ends (λ s. os.read_file theirs s.1 ≡ held) (handle_message os lib write sha256 m (h, w))
    unfolding handle_message handle_handshake decrypt_with_private_key or_fatal
    handle_message-Rest m h w c f p =
        if-Rest (m.kind == message_type_handshake) _ _
          (with_key-Rest (record h { state = handshake }) m.payload w (lib.decrypt_oaep m.payload w)
            refl p)
          (on_secure-Rest m h.aes_key h w refl c f p)
