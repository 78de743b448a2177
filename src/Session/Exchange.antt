-- ===== src/Session/Exchange.antt =====
-- One command of the client over the link: what the server does with it, and what comes back.
use ssnproj.Base.{
  append-nil, ℕ, ◌^◌, ◌<◌, ◌≡◌, refl, sym, ap, ◌∙◌, ◌++◌, true, drop, length, length-append, ge→ltb,
  take-length, drop-length, [], ◌∷◌, arith,
}
use ssnproj.Base.{
  Bool, false, err, some, Result, ok, encrypt_payload, send_message as sending_message,
}
use ssnproj.Bytes.BigEndian.{Bytes}
use ssnproj.Protocol.Types.{Message, new_message, message_type_command}
use ssnproj.Protocol.Message.{serialize}
use ssnproj.Protocol.Buffer.{new_message_buffer}
use ssnproj.Protocol.Command.{serialize_command}
use ssnproj.Crypto.{CryptoLib, encrypt}
use ssnproj.Crypto.RoundTrip.{Documented}
use ssnproj.Effects.{Action, gets, pure, wrapping}
use ssnproj.Effects.Laws.{>>=-ok, >>=-eq-ok, wrapping-ok, gets-eq-ok}
use ssnproj.Server.World.{Os}
use ssnproj.Server.Handlers.{handle}
use ssnproj.Server.Loop.{after}
use ssnproj.Server.Loop.Fragments.{join_reads}
use ssnproj.Server.Loop.Messages.{handle_all, serve-stream}
use ssnproj.Server.Connection.{beside, secure_sender, handle_message}
use ssnproj.Server.Connection.Commands.{ready, commanded}
use ssnproj.Client.{send_message, client_send_secure}
use ssnproj.Client.Receive.{Arrives}
use ssnproj.Session.{
  Link, Network, at_server, client_lib, after_write, link_write, link_read_full, link_conn,
}

-- What was read is gone, and no file with it; the reads of the server together have what was written.
pub record Delivers {W : Type 0} (os : Os W) (network : Network W) : Type 0 where
  pub rest : (n : ℕ) (w : W) → network.pending (network.dropped n w) ≡ drop n (network.pending w)
  pub files : (n : ℕ) (q : Bytes) (w : W) → os.read_file q (network.dropped n w) ≡ os.read_file q w
  pub joins : (bytes : Bytes) → join_reads ((network.cuts bytes).0 ∷ (network.cuts bytes).1) ≡ bytes

-- The client's end of a link after the handshake.
abbrev pub ready_link : {W : Type 0} → Bytes → Bytes → W → Link W
ready_link root key w = record {
  is_open = true;
  handler = ready root key;
  buffer = new_message_buffer;
  server = w;
}

abbrev is_done : Result (Unit {0}) → Bool
is_done (ok _) = true
is_done (err e) = false

-- The same after a command with this result: the server closes the connection behind an error.
abbrev pub left_link : {W : Type 0} → Bytes → Bytes → Result (Unit {0}) → W → Link W
left_link root key r w = record {
  is_open = is_done r;
  handler = ready root key;
  buffer = new_message_buffer;
  server = w;
}

module _ {W : Type 0} (lib : CryptoLib W) where
  pub client_lib-Documented : Documented lib → Documented (client_lib lib)
  client_lib-Documented documented = record {
    random_length = λ n v v' bytes e.
        documented.random_length n v.server (lib.random n v.server).1 bytes (
          ap (λ (r : Result Bytes). (r, (lib.random n v.server).1))
            (ap (λ (q : Result Bytes × Link W). q.0) e));
    opens = documented.opens;
  }

  -- The client's encryption is the server's, on the link.
  pub encrypt-at_server :
      (plaintext key c : Bytes) (v : Link W) (w : W)
      → encrypt lib plaintext key v.server ≡ (ok c, w)
      → encrypt (client_lib lib) plaintext key v ≡ (ok c, record v { server = w })
  unfolding encrypt
  encrypt-at_server plaintext key c v w e =
      let (_, u, valid, e1) = >>=-eq-ok (gets (λ _. lib.new_gcm key)) _ v.server w {b = c} e in
      let (took, same_u) = gets-eq-ok (λ (_ : W). lib.new_gcm key) v.server u valid in
      let (nonce, x, drawn, e2) =
        >>=-eq-ok (lib.random lib.nonce_size) (λ n. pure (n ++ lib.seal key n plaintext)) u w
          {b = c} e1 in
      >>=-ok (gets (λ _. lib.new_gcm key)) _ v v (ap (λ (r : Result (Unit {0})). (r, v)) took)
      ∙ >>=-ok (at_server (lib.random lib.nonce_size)) _ v (record v { server = x })
          (ap (λ (q : Result Bytes × W). (q.0, record v { server = q.1 }))
            (ap (lib.random lib.nonce_size) (sym same_u) ∙ drawn))
      ∙ ap (λ (q : Result Bytes × W). (q.0, record v { server = q.1 })) e2

module _ {W : Type 0} (os : Os W) (lib : CryptoLib W) (net : Bytes → Action W (Unit {0}))
    (sha256 : Bytes → Bytes) (network : Network W) where
  pub link-Arrives :
      Delivers os network
      → Arrives (link_conn os lib net sha256 network) (λ v. network.pending v.server)
  unfolding link_read_full
  link-Arrives delivers = record {
    reads = λ xs ys v e. (
      record v { server = network.dropped (length xs) v.server },
      rw
          (
            e,
            ge→ltb (length (xs ++ ys)) (length xs) (omega (arith, length-append xs ys)),
            take-length xs ys,
          )
          refl,
      delivers.rest (length xs) v.server ∙ ap (drop (length xs)) e ∙ drop-length xs ys,
    );
  }

  handled :
      (root key : Bytes) (r : Result (Unit {0})) (v u : W)
      → after_write (ready_link root key v) (
          after
            (λ _. handle_all (handle_message os lib net sha256) [])
            new_message_buffer
            (some (r, (ready root key, u))))
        ≡ (ok tt, left_link root key r u)
  handled root key (ok _) v u = refl
  handled root key (err e) v u = refl

  -- A command that the client sends is handled by the server then and there.
  pub sent :
      (root key c : Bytes) (cmd : ℕ) (filename contents : Bytes) (r : Result (Unit {0})) (w v u : W)
      → Documented lib
      → Delivers os network
      → encrypt lib (serialize_command cmd filename contents) key w ≡ (ok c, v)
      → 0 < length c
      → length c < 2 ^ 32
      → length filename < 2 ^ 16
      → handle os
          (secure_sender os lib net sha256 (some key))
          sha256
          (record { root_dir = root; aes_key = some key })
          (record { command = cmd; filename = filename; contents = contents })
          v
        ≡ some (r, u)
      → client_send_secure
          (client_lib lib)
          (link_conn os lib net sha256 network)
          key
          (new_message message_type_command (serialize_command cmd filename contents))
          (ready_link root key w)
        ≡ (ok tt, left_link root key r u)
  unfolding client_send_secure send_message link_write
  sent root key c cmd filename contents r w v u documented delivers sealed some_bytes fits named
        worked =
      let conn = link_conn os lib net sha256 network in
      let body : Bytes = serialize_command cmd filename contents in
      let m : Message = new_message message_type_command c in
      let step = handle_message os lib net sha256 in
      >>=-ok (wrapping encrypt_payload (encrypt (client_lib lib) body key)) _
        (ready_link root key w) (ready_link root key v)
        (wrapping-ok encrypt_payload _ _ _
          (encrypt-at_server lib body key c (ready_link root key w) v sealed))
      ∙ wrapping-ok sending_message (conn.write (serialize m)) (ready_link root key v)
          (left_link root key r u)
          (ap (after_write (ready_link root key v)) (
              serve-stream step (m ∷ []) (network.cuts (serialize m)).0
                (network.cuts (serialize m)).1 (ready root key, v) ((some_bytes, fits), tt)
                (delivers.joins (serialize m) ∙ sym (append-nil (serialize m)))
              ∙ ap (after (λ _. handle_all step []) new_message_buffer) (
                  commanded os lib net sha256 root key c cmd filename contents v w v documented
                    sealed named
                  ∙ ap (beside (ready root key)) worked))
            ∙ handled root key r v u)
