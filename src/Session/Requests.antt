-- ===== src/Session/Requests.antt =====
-- A request of the client over the link, from its command to the answer that comes back.
use ssnproj.Base.{
  ℕ, ◌+◌, ◌-◌, ◌^◌, ◌<◌, ◌≡◌, refl, ap, ◌∙◌, length-append, take_all, drop_all, drop, ◌%◌, Bool,
  true, false, take, length, ltb, if◌then◌else◌, [], arith, ◌==◌,
}
use ssnproj.Base.{
  Context, Error, Result, ok, err, some, eof, unexpected_response, receive_response, parse_response,
}
use ssnproj.Bytes.BigEndian.{Bytes, put_uint16}
use ssnproj.Protocol.Types.{
  Message, ResponseMessage, new_message, message_type_command, message_type_response,
}
use ssnproj.Protocol.Command.{serialize_command}
use ssnproj.Protocol.Response.{serialize_response, deserialize_response}
use ssnproj.Protocol.Response.RoundTrip.{deserialize_response-serialize_response}
use ssnproj.Crypto.{CryptoLib, encrypt}
use ssnproj.Crypto.RoundTrip.{Documented}
use ssnproj.Effects.{Action, gets, pure, raise, wrapping}
use ssnproj.Effects.Laws.{>>=-ok, wrapping-ok}
use ssnproj.Effects.Keeps.{Keeps}
use ssnproj.Server.World.{Os}
use ssnproj.Server.Handlers.{handle}
use ssnproj.Server.Connection.{secure_sender}
use ssnproj.Client.{client_send_secure, receive_secure_message, request}
use ssnproj.Client.Receive.{receive_secure_message-encrypt, receive_secure_message-Keeps}
use ssnproj.Session.{Link, Network, client_lib, link_read_full, link_conn}
use ssnproj.Session.Exchange.{
  Delivers, ready_link, left_link, client_lib-Documented, link-Arrives, encrypt-at_server, sent,
}
use ssnproj.Session.Replies.{GcmSizes, length-encrypt, Answer}
use mathlib.Core.Path.{subst}

length-serialize_command :
    (cmd : ℕ) (name contents : Bytes)
    → length (serialize_command cmd name contents) ≡ 3 + length name + length contents
unfolding serialize_command put_uint16
length-serialize_command cmd name contents = omega (arith, length-append name contents)

length-serialize_response :
    (success : Bool) (message : Bytes)
    → length (serialize_response success message []) ≡ 3 + length message
unfolding serialize_response put_uint16
length-serialize_response success message = omega (arith, length-append message [])

-- A response that carries a text only.
abbrev pub told : Bool → Bytes → ResponseMessage
told success message = record { success = success; message = message; contents = [] }

told_read :
    (success : Bool) (message : Bytes)
    → length message < 2 ^ 16
    → deserialize_response (serialize_response success message []) ≡ ok (told success message)
told_read success message fits =
    let n : ℕ = length message % 2 ^ 16 in
    let front : take n message ≡ message = take_all n message (omega arith) in
    let back : drop n message ≡ [] = drop_all n message (omega arith) in
    deserialize_response-serialize_response success message [] ∙ rw (front, back)

-- How a request ends.
abbrev pub outcome : (Bytes → Error) → Bool → Bytes → Result ResponseMessage
outcome failed true message = ok (told true message)
outcome failed false message = err (failed message)

module _ {W : Type 0} (os : Os W) (lib : CryptoLib W) (net : Bytes → Action W (Unit {0}))
    (sha256 : Bytes → Bytes) (network : Network W) (root key : Bytes) where
  -- The client's reads leave the server's end of the link alone, and the files.
  abbrev pub Untaken : Result (Unit {0}) → (Bytes → Result Bytes) → Link W → Type 0
  Untaken r files v =
      (v ≡ left_link root key r v.server) × ((q : Bytes) → os.read_file q v.server ≡ files q)

  -- A read keeps what the loss of the bytes that were read keeps.
  pub reads-Keeps :
      (P : Link W → Type 0)
      → ((n : ℕ) (v : Link W) → P v → P (record v { server = network.dropped n v.server }))
      → (n : ℕ) → Keeps P (link_read_full os lib net sha256 network n)
  unfolding link_read_full
  reads-Keeps P drops n v p = go (ltb (length (network.pending v.server)) n)
    where
      go :
          (b : Bool)
          → P
              (if◌then◌else◌ {A = Result Bytes × Link W} b
                (err eof, v)
                (
                  ok (take n (network.pending v.server)),
                  record v { server = network.dropped n v.server },
                )).1
      go true = p
      go false = drops n v p

  pub drops-Untaken :
      (r : Result (Unit {0})) (files : Bytes → Result Bytes)
      → Delivers os network
      → (n : ℕ) (v : Link W) → Untaken r files v
      → Untaken r files (record v { server = network.dropped n v.server })
  drops-Untaken r files delivers n v (same, kept) = (
    ap (λ (t : Link W). record t { server = network.dropped n v.server }) same,
    λ q. delivers.files n q v.server ∙ kept q,
  )

  judged :
      (failed : Bytes → Error) (success : Bool) (message : Bytes) (t : Link W)
      → (if (told success message).success
            then pure (told success message)
            else raise (failed message))
          t
        ≡ (outcome failed success message, t)
  judged failed true message t = refl
  judged failed false message t = refl

  -- The client's part: it reads and judges the answer that is in the outbox.
  answered :
      (sending : Context) (failed : Bytes → Error) (cmd : ℕ)
      (filename contents message rest : Bytes) (success : Bool) (r : Result (Unit {0})) (w u : W)
      → Documented lib
      → GcmSizes lib
      → Delivers os network
      → length message < 2 ^ 16
      → client_send_secure
          (client_lib lib)
          (link_conn os lib net sha256 network)
          key
          (new_message message_type_command (serialize_command cmd filename contents))
          (ready_link root key w)
        ≡ (ok tt, left_link root key r u)
      → Answer lib network key success message rest u
      → (t : W) × (request
            (client_lib lib)
            (link_conn os lib net sha256 network)
            key
            sending
            failed
            cmd
            filename
            contents
            (ready_link root key w)
          ≡ (outcome failed success message, left_link root key r t))
        × ((q : Bytes) → os.read_file q t ≡ os.read_file q u)
        × (network.pending t ≡ rest)
  unfolding request
  answered sending failed cmd filename contents message rest success r w u documented sizes delivers
        fits went answer =
      let conn = link_conn os lib net sha256 network in
      let clib = client_lib lib in
      let body : Bytes = serialize_response success message [] in
      let files : Bytes → Result Bytes = λ q. os.read_file q u in
      let size =
        length-encrypt lib body key answer.sealed answer.before answer.later documented sizes
          answer.encrypted in
      let (t, got, left) =
        receive_secure_message-encrypt clib conn (λ v. network.pending v.server)
          (link-Arrives os lib net sha256 network delivers) message_type_response body key
          answer.sealed rest (left_link root key r u) (ready_link root key answer.before)
          (ready_link root key answer.later) (client_lib-Documented lib documented)
          (encrypt-at_server lib _ key answer.sealed (ready_link root key answer.before)
            answer.later answer.encrypted)
          (omega (arith, size, length-serialize_response success message)) answer.waits in
      let expected : Action (Link W) (Unit {0}) =
        if message_type_response == message_type_response
        then pure tt
        else raise (unexpected_response message_type_response) in
      let kept =
        subst (λ (q : Result Message × Link W). Untaken r files q.1) got
          (receive_secure_message-Keeps clib conn (Untaken r files)
            (reads-Keeps (Untaken r files) (drops-Untaken r files delivers)) key
            (left_link root key r u) (refl, λ q. refl)) in
      (
        t.server,
        >>=-ok (wrapping sending (client_send_secure clib conn key _)) _ (ready_link root key w)
              (left_link root key r u) (wrapping-ok sending _ _ _ went)
            ∙ >>=-ok (wrapping receive_response (receive_secure_message clib conn key)) _
                (left_link root key r u) t (wrapping-ok receive_response _ _ _ got)
            ∙ >>=-ok expected _ t t refl
            ∙ >>=-ok (wrapping parse_response (gets (λ (_ : Link W). deserialize_response body))) _
                t t
                (wrapping-ok parse_response _ _ _
                  (ap (λ (q : Result ResponseMessage). (q, t)) (told_read success message fits)))
            ∙ judged failed success message t
            ∙ ap (λ (v : Link W). (outcome failed success message, v)) kept.0,
        kept.1,
        left,
      )

  -- A request on a link that is ready, whose command the server's handler ends with
  -- an answer and maybe more: the client ends as the answer says, the server takes more commands
  -- unless the handler failed, and what the handler wrote behind the answer waits.
  pub request-handle :
      (sending : Context) (failed : Bytes → Error) (cmd : ℕ)
      (c filename contents message rest : Bytes) (success : Bool) (r : Result (Unit {0}))
      (w v u : W)
      → Documented lib
      → GcmSizes lib
      → Delivers os network
      → length filename < 2 ^ 16
      → length contents < 2 ^ 32 - 2 ^ 17
      → length message < 2 ^ 16
      → encrypt lib (serialize_command cmd filename contents) key w ≡ (ok c, v)
      → handle os
          (secure_sender os lib net sha256 (some key))
          sha256
          (record { root_dir = root; aes_key = some key })
          (record { command = cmd; filename = filename; contents = contents })
          v
        ≡ some (r, u)
      → Answer lib network key success message rest u
      → (t : W) × (request
            (client_lib lib)
            (link_conn os lib net sha256 network)
            key
            sending
            failed
            cmd
            filename
            contents
            (ready_link root key w)
          ≡ (outcome failed success message, left_link root key r t))
        × ((q : Bytes) → os.read_file q t ≡ os.read_file q u)
        × (network.pending t ≡ rest)
  request-handle sending failed cmd c filename contents message rest success r w v u documented
        sizes delivers named fits short sealed handled answer =
      let size =
        length-encrypt lib (serialize_command cmd filename contents) key c w v documented sizes
          sealed in
      let body_size = length-serialize_command cmd filename contents in
      answered sending failed cmd filename contents message rest success r w u documented sizes
        delivers short
        (sent os lib net sha256 network root key c cmd filename contents r w v u documented delivers
          sealed (omega (arith, size, body_size)) (omega (arith, size, body_size, named, fits))
          named handled)
        answer
