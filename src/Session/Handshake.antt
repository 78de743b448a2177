-- ===== src/Session/Handshake.antt =====
-- The handshake over a new connection, after which the link is ready.
use ssnproj.Base.{
  ℕ, ◌^◌, ◌<◌, ◌≡◌, refl, sym, ap, ◌∙◌, append-nil, true, [], ◌∷◌, ◌++◌, length, arith, ◌==◌,
  if◌then◌else◌,
}
use ssnproj.Base.{
  Option, none, Result, ok, err, some, send_aes_key, receive_confirmation, unexpected_type,
  send_message as sending_message,
}
use ssnproj.Bytes.BigEndian.{Bytes}
use ssnproj.Protocol.Types.{Message, new_message, message_type_handshake, message_type_response}
use ssnproj.Protocol.Message.{serialize}
use ssnproj.Protocol.Buffer.{new_message_buffer}
use ssnproj.Crypto.{CryptoLib, generate_key, encrypt_with_public_key, or_fatal}
use ssnproj.Crypto.RoundTrip.{Documented}
use ssnproj.Effects.{Action, pure, raise, wrapping}
use ssnproj.Effects.Laws.{>>=-ok, wrapping-ok}
use ssnproj.Server.World.{Os, text}
use ssnproj.Server.Loop.{after}
use ssnproj.Server.Loop.Messages.{handle_all, serve-stream}
use ssnproj.Server.Connection.{new_connection_handler, handle_message}
use ssnproj.Server.Connection.Commands.{shaken}
use ssnproj.Client.{
  send_message, receive_message, exchange_key, with_encrypted, with_generated, perform_handshake,
}
use ssnproj.Client.Receive.{receive_message-serialize, receive_message-Keeps}
use ssnproj.Session.{Link, Network, client_lib, after_write, link_write, link_conn}
use ssnproj.Session.Exchange.{Delivers, ready_link, link-Arrives}
use ssnproj.Session.Replies.{Carries}
use ssnproj.Session.Requests.{reads-Keeps}
use ssnproj.Session.Working.{Working}
use mathlib.Core.Path.{subst}

-- The client's end of a link that has just been opened.
abbrev pub new_link : {W : Type 0} → Bytes → W → Link W
new_link root w = record {
  is_open = true;
  handler = new_connection_handler root;
  buffer = new_message_buffer;
  server = w;
}

-- OAEP with the server's pair of keys, as the package has it: a key of 32 bytes can be encrypted,
-- the text is as long as the modulus, and it is decrypted to that key.
pub record OaepOpens {W : Type 0} (lib : CryptoLib W) (network : Network W) : Type 0 where
  pub encrypts :
      (key : Bytes) (w : W)
      → length key ≡ 32
      → (c : Bytes) × (v : W) × (lib.encrypt_oaep key w ≡ (ok c, v))
        × (0 < length c)
        × (length c < 2 ^ 32)
        × ((u : W) → (x : W) × (lib.decrypt_oaep c u ≡ (ok key, x)))
  pub by_encrypt :
      (key : Bytes) (w : W) → network.pending (lib.encrypt_oaep key w).1 ≡ network.pending w
  pub by_decrypt :
      (c : Bytes) (w : W) → network.pending (lib.decrypt_oaep c w).1 ≡ network.pending w

-- The calls of a handshake keep `P`.
pub record Kept {W : Type 0} (lib : CryptoLib W) (net : Bytes → Action W (Unit {0}))
    (network : Network W) (P : W → Type 0) : Type 0 where
  pub by_random : (n : ℕ) (w : W) → P w → P (lib.random n w).1
  pub by_encrypt : (key : Bytes) (w : W) → P w → P (lib.encrypt_oaep key w).1
  pub by_decrypt : (c : Bytes) (w : W) → P w → P (lib.decrypt_oaep c w).1
  pub by_net : (bytes : Bytes) (w : W) → P w → P (net bytes w).1
  pub by_take : (n : ℕ) (w : W) → P w → P (network.dropped n w)

abbrev confirmation : Message
confirmation = new_message message_type_response (text "handshake complete")

module _ {W : Type 0} (os : Os W) (lib : CryptoLib W) (net : Bytes → Action W (Unit {0}))
    (sha256 : Bytes → Bytes) (network : Network W) (root : Bytes) where
  -- The server takes the key and confirms it.
  shook :
      (key c : Bytes) (w v u : W)
      → Delivers os network
      → 0 < length c
      → length c < 2 ^ 32
      → lib.decrypt_oaep c w ≡ (ok key, v)
      → net (serialize confirmation) v ≡ (ok tt, u)
      → send_message
          (client_lib lib)
          (link_conn os lib net sha256 network)
          (new_message message_type_handshake c)
          (new_link root w)
        ≡ (ok tt, ready_link root key u)
  unfolding send_message link_write
  shook key c w v u delivers some_bytes fits opened confirmed_to =
      let m : Message = new_message message_type_handshake c in
      let step = handle_message os lib net sha256 in
      wrapping-ok sending_message (link_write os lib net sha256 network (serialize m))
        (new_link root w) (ready_link root key u)
        (ap (after_write (new_link root w)) (
          serve-stream step (m ∷ []) (network.cuts (serialize m)).0 (network.cuts (serialize m)).1
            (new_connection_handler root, w) ((some_bytes, fits), tt)
            (delivers.joins (serialize m) ∙ sym (append-nil (serialize m)))
          ∙ ap (after (λ _. handle_all step []) new_message_buffer)
              (shaken os lib net sha256 root c key w v u opened confirmed_to)))

  -- The exchange of a key that the server can read.
  exchanged :
      (P : W → Type 0) (key c : Bytes) (w v u : W)
      → Carries os lib net network
      → Delivers os network
      → Kept lib net network P
      → 0 < length c
      → length c < 2 ^ 32
      → network.pending v ≡ []
      → lib.decrypt_oaep c w ≡ (ok key, v)
      → net (serialize confirmation) v ≡ (ok tt, u)
      → P v
      → (t : W) × (exchange_key
            (client_lib lib)
            (link_conn os lib net sha256 network)
            c
            (new_link root w)
          ≡ (ok tt, ready_link root key t))
        × (network.pending t ≡ [])
        × P t
  exchanged P key c w v u carries delivers keeps some_bytes fits empty opened confirmed_to at_v =
      let conn = link_conn os lib net sha256 network in
      let clib = client_lib lib in
      let Q : Link W → Type 0 = λ x. (x ≡ ready_link root key x.server) × P x.server in
      let at_u =
        subst (λ (q : Result (Unit {0}) × W). P q.1) confirmed_to (keeps.by_net _ v at_v) in
      let waits : network.pending u ≡ serialize confirmation ++ [] =
        carries.by_net (serialize confirmation) v u confirmed_to
        ∙ ap (λ b. b ++ serialize confirmation) empty
        ∙ sym (append-nil (serialize confirmation)) in
      let (x, got, left) =
        receive_message-serialize clib conn (λ y. network.pending y.server)
          (link-Arrives os lib net sha256 network delivers) confirmation [] (ready_link root key u)
          (omega arith) waits in
      let (same, at_x) =
        subst (λ (q : Result Message × Link W). Q q.1) got
          (receive_message-Keeps clib conn Q
            (reads-Keeps os lib net sha256 network root key Q (λ n y (e, p). (
              ap (λ (z : Link W). record z { server = network.dropped n y.server }) e,
              keeps.by_take n y.server p,
            )))
            (ready_link root key u) (refl, at_u)) in
      let expected : Action (Link W) (Unit {0}) =
        if message_type_response == message_type_response
        then pure tt
        else raise (unexpected_type message_type_response) in
      let first = send_message clib conn (new_message message_type_handshake c) in
      (
        x.server,
        >>=-ok (wrapping send_aes_key first) _ (new_link root w) (ready_link root key u) (
              wrapping-ok send_aes_key first _ _
                (shook key c w v u delivers some_bytes fits opened confirmed_to))
            ∙ >>=-ok (wrapping receive_confirmation (receive_message clib conn)) _
                (ready_link root key u) x
                (wrapping-ok receive_confirmation (receive_message clib conn) _ _ got)
            ∙ ap (λ (z : Link W). (ok tt, z)) same,
        left,
        at_x,
      )

  -- The handshake, with a predicate that its calls keep.
  pub handshake_kept :
      (P : W → Type 0) (old : Option Bytes) (w : W)
      → Documented lib
      → OaepOpens lib network
      → Carries os lib net network
      → Delivers os network
      → Working os lib net
      → Kept lib net network P
      → network.pending w ≡ []
      → P w
      → (key : Bytes) × (t : W) × (perform_handshake
            (client_lib lib)
            (link_conn os lib net sha256 network)
            (old, new_link root w)
          ≡ some (ok tt, (some key, ready_link root key t)))
        × (length key ≡ 32)
        × (network.pending t ≡ [])
        × P t
  unfolding perform_handshake generate_key encrypt_with_public_key or_fatal
  handshake_kept P old w documented oaep carries delivers working keeps empty at_w =
      let conn = link_conn os lib net sha256 network in
      let clib = client_lib lib in
      let (key, v, drawn) = working.draws 32 w in
      let long = documented.random_length 32 w v key drawn in
      let (c, u, sealed, some_bytes, fits, decrypts) = oaep.encrypts key v long in
      let (x, opened) = decrypts u in
      let (_, y, confirmed_to) = working.carries (serialize confirmation) x in
      let quiet_v : network.pending v ≡ [] =
        subst (λ (q : Result Bytes × W). network.pending q.1 ≡ []) drawn
          (carries.by_random 32 w ∙ empty) in
      let quiet_u : network.pending u ≡ [] =
        subst (λ (q : Result Bytes × W). network.pending q.1 ≡ []) sealed
          (oaep.by_encrypt key v ∙ quiet_v) in
      let quiet_x : network.pending x ≡ [] =
        subst (λ (q : Result Bytes × W). network.pending q.1 ≡ []) opened
          (oaep.by_decrypt c u ∙ quiet_u) in
      let at_v = subst (λ (q : Result Bytes × W). P q.1) drawn (keeps.by_random 32 w at_w) in
      let at_u = subst (λ (q : Result Bytes × W). P q.1) sealed (keeps.by_encrypt key v at_v) in
      let at_x = subst (λ (q : Result Bytes × W). P q.1) opened (keeps.by_decrypt c u at_u) in
      let (t, went, left, at_t) =
        exchanged P key c u x y carries delivers keeps some_bytes fits quiet_x opened confirmed_to
          at_x in
      (
        key,
        t,
        ap (λ (q : Result Bytes × W). with_generated clib conn old (q.0, new_link root q.1)) drawn
            ∙ ap
                (λ (q : Result Bytes × W).
                  with_encrypted clib conn key
                    (elim q.0 [ ok a ↦ some (a, new_link root q.1) | err e ↦ none ]))
                sealed
            ∙ ap (λ (q : Result (Unit {0}) × Link W). some (q.0, (some key, q.1))) went,
        long,
        left,
        at_t,
      )

  -- A client that shakes hands over a new connection gets a key of 32 bytes, whatever key it had,
  -- and the server's connection handler has the same key and takes commands; nothing is left to
  -- read. The client has the server's public key, the packages are as documented, the network
  -- delivers what is written, no call fails, and nothing was waiting for the client.
  pub perform_handshake-handle_handshake :
      (old : Option Bytes) (w : W)
      → Documented lib
      → OaepOpens lib network
      → Carries os lib net network
      → Delivers os network
      → Working os lib net
      → network.pending w ≡ []
      → (key : Bytes) × (t : W) × (perform_handshake
            (client_lib lib)
            (link_conn os lib net sha256 network)
            (old, new_link root w)
          ≡ some (ok tt, (some key, ready_link root key t)))
        × (length key ≡ 32)
        × (network.pending t ≡ [])
  perform_handshake-handle_handshake old w documented oaep carries delivers working empty =
      let any : Kept lib net network (λ _. Unit {0}) = record {
        by_random = λ _ _ _. tt;
        by_encrypt = λ _ _ _. tt;
        by_decrypt = λ _ _ _. tt;
        by_net = λ _ _ _. tt;
        by_take = λ _ _ _. tt;
      } in
      let (key, t, went, long, left, _) =
        handshake_kept (λ _. Unit) old w documented oaep carries delivers working any empty tt in
      (key, t, went, long, left)
