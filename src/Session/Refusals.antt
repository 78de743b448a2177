-- ===== src/Session/Refusals.antt =====
-- Requests that the server answers with a failure: the client gets the server's text, and the
-- connection stays open only if the handler itself did not fail.
use ssnproj.Base.{
  ℕ, ◌-◌, ◌^◌, ◌<◌, ◌≡◌, ◌⊎◌, inl, inr, ap, ◌∙◌, false, [], length, arith, ◌∷◌, List, All,
}
use ssnproj.Base.{Context, Error, Result, ok, err, some}
use ssnproj.Bytes.BigEndian.{Bytes}
use ssnproj.Protocol.Types.{
  Message, new_message, message_type_command, command_upload, command_download, command_delete,
}
use ssnproj.Protocol.Command.{serialize_command}
use ssnproj.Crypto.{CryptoLib, encrypt}
use ssnproj.Effects.{Action, check, ignoring}
use ssnproj.Effects.Laws.{check-err, check_process-err}
use ssnproj.Server.World.{Os, CommandHandler, text}
use ssnproj.Server.Directory.{validate_path}
use ssnproj.Server.Directory.Keeps.{validate_path-Keeps}
use ssnproj.Server.Handlers.{respond, refuse, handle, handle_upload, handle_download, handle_delete}
use ssnproj.Crypto.RoundTrip.{Documented}
use ssnproj.Protocol.Buffer.{new_message_buffer}
use ssnproj.Server.Loop.{serve, after, closed}
use ssnproj.Server.Loop.Fragments.{join_reads}
use ssnproj.Server.Loop.Messages.{IsSendable, stream, handle_all, serve-stream}
use ssnproj.Server.Connection.{beside, secure_sender, handle_message}
use ssnproj.Server.Connection.Commands.{ready, commanded}
use ssnproj.Client.{request}
use ssnproj.Session.{Network, client_lib, link_conn}
use ssnproj.Session.Exchange.{ready_link, left_link}
use ssnproj.Session.Replies.{encrypt_quiet, encrypt-Keeps, respond-Answer}
use ssnproj.Session.Requests.{request-handle}
use ssnproj.Session.Working.{respond-Succeeds}
use ssnproj.Session.RoundTrip.{Sound}
use mathlib.Core.Path.{subst}

-- The commands that carry a name.
abbrev pub IsNaming : ℕ → Type 0
IsNaming cmd = (cmd ≡ command_upload) ⊎ ((cmd ≡ command_download) ⊎ (cmd ≡ command_delete))

module _ {W : Type 0} (os : Os W) (lib : CryptoLib W) (net : Bytes → Action W (Unit {0}))
    (sha256 : Bytes → Bytes) (key : Bytes) where
  pub refuse_ends :
      (message : Bytes) (e : Error) (w u : W)
      → respond os (secure_sender os lib net sha256 (some key)) sha256 false message w ≡ (ok tt, u)
      → refuse os (secure_sender os lib net sha256 (some key)) sha256 message e w ≡ (err e, u)
  unfolding refuse check ignoring
  refuse_ends message e w u told = ap (λ (q : Result (Unit {0}) × W). (err e, q.1)) told

  -- A name that is not accepted ends each of the three handlers.
  handle_refuses :
      (handler : CommandHandler) (cmd : ℕ) (filename contents : Bytes) (e : Error) (w v : W)
      → IsNaming cmd
      → validate_path os sha256 handler filename w ≡ (err e, v)
      → handle os
          (secure_sender os lib net sha256 (some key))
          sha256
          handler
          (record { command = cmd; filename = filename; contents = contents })
          w
        ≡ some (
            refuse os
              (secure_sender os lib net sha256 (some key))
              sha256
              (text "Invalid filename")
              e
              v)
  unfolding handle handle_upload handle_download handle_delete
  handle_refuses handler cmd filename contents e w v (inl is) bad =
      rw is (ap some (check-err (validate_path os sha256 handler filename) _ _ w v bad))
  handle_refuses handler cmd filename contents e w v (inr (inl is)) bad =
      rw is (check_process-err (validate_path os sha256 handler filename) _ _ w v bad)
  handle_refuses handler cmd filename contents e w v (inr (inr is)) bad =
      rw is (ap some (check-err (validate_path os sha256 handler filename) _ _ w v bad))

module _ {W : Type 0} (os : Os W) (lib : CryptoLib W) (net : Bytes → Action W (Unit {0}))
    (sha256 : Bytes → Bytes) (network : Network W) (root key : Bytes) (long : length key ≡ 32) where
  -- Each file that is there stays as it is while a name is looked at, and nothing is sent.
  pub looked_at :
      (body filename c : Bytes) (w v v' : W) (r : Result Bytes)
      → Sound os lib net sha256 network key
      → network.pending w ≡ []
      → encrypt lib body key w ≡ (ok c, v)
      → validate_path os sha256 (record { root_dir = root; aes_key = some key }) filename v
        ≡ (r, v')
      → ((q contents : Bytes) → os.read_file q w ≡ ok contents → os.read_file q v' ≡ ok contents)
        × (network.pending v' ≡ [])
  looked_at body filename c w v v' r sound empty sealed found =
      let handler : CommandHandler = record { root_dir = root; aes_key = some key } in
      let quiet = encrypt_quiet os lib net network body key c w v sound.carries empty sealed in
      (
        λ q contents held.
            let P : W → Type 0 = λ x. os.read_file q x ≡ ok contents in
            let held_v =
              subst (λ (q : Result Bytes × W). P q.1) sealed
                (encrypt-Keeps lib P body key (λ n x e. sound.by_random n q x ∙ e) w held) in
            subst (λ (q : Result Bytes × W). P q.1) found
              (validate_path-Keeps os sha256 P handler
                (λ _ _ _ x e. sound.store.by_mkdir _ q contents x e) filename v held_v),
        subst (λ (q : Result Bytes × W). network.pending q.1 ≡ []) found
            (validate_path-Keeps os sha256 (λ v. network.pending v ≡ []) handler
              (λ k key _ v e. sound.carries.by_mkdir _ v ∙ e) filename v quiet),
      )

  -- The loops stop at a command that is refused, whatever is behind it.
  closes_behind :
      (cmd : ℕ) (c filename contents read : Bytes) (reads : List Bytes) (ms : List Message)
      (e : Error) (w v u : W)
      → Documented lib
      → length filename < 2 ^ 16
      → All IsSendable (new_message message_type_command c ∷ ms)
      → join_reads (read ∷ reads) ≡ stream (new_message message_type_command c ∷ ms)
      → encrypt lib (serialize_command cmd filename contents) key w ≡ (ok c, v)
      → handle os
          (secure_sender os lib net sha256 (some key))
          sha256
          (record { root_dir = root; aes_key = some key })
          (record { command = cmd; filename = filename; contents = contents })
          v
        ≡ some (err e, u)
      → serve
          (handle_message os lib net sha256)
          (read ∷ reads)
          new_message_buffer
          (ready root key, v)
        ≡ closed e (ready root key, u)
  closes_behind cmd c filename contents read reads ms e w v u documented named sendable cut sealed
        ended =
      let step = handle_message os lib net sha256 in
      serve-stream step (new_message message_type_command c ∷ ms) read reads (ready root key, v)
        sendable cut
      ∙ ap (after (λ _. handle_all step ms) new_message_buffer) (
          commanded os lib net sha256 root key c cmd filename contents v w v documented sealed named
          ∙ ap (beside (ready root key)) ended)

  -- An upload, a download or a deletion under a name that the server does not accept: the client
  -- gets the text of the refusal as an error and nothing else, and every file that the server had is
  -- as it was. However the bytes of the request and of any messages behind it are cut into reads, the
  -- server's loops close the connection at the request, and handle none of the messages behind it.
  -- The packages, the disk and the network do what they document and no call fails; the key has 32
  -- bytes, the name is shorter than `2 ^ 16` bytes, the contents than `2 ^ 32 - 2 ^ 17`, nothing was
  -- left to read, and no message is empty or of `2 ^ 32` bytes or more.
  pub request_refused :
      (sending : Context) (failed : Bytes → Error) (cmd : ℕ) (c filename contents read : Bytes)
      (reads : List Bytes) (ms : List Message) (e : Error) (w v v' : W)
      → Sound os lib net sha256 network key
      → IsNaming cmd
      → length filename < 2 ^ 16
      → length contents < 2 ^ 32 - 2 ^ 17
      → network.pending w ≡ []
      → encrypt lib (serialize_command cmd filename contents) key w ≡ (ok c, v)
      → validate_path os sha256 (record { root_dir = root; aes_key = some key }) filename v
        ≡ (err e, v')
      → All IsSendable (new_message message_type_command c ∷ ms)
      → join_reads (read ∷ reads) ≡ stream (new_message message_type_command c ∷ ms)
      → (t u : W) × (request
            (client_lib lib)
            (link_conn os lib net sha256 network)
            key
            sending
            failed
            cmd
            filename
            contents
            (ready_link root key w)
          ≡ (err (failed (text "Invalid filename")), left_link root key (err e) t))
        × (network.pending t ≡ [])
        × ((q held : Bytes) → os.read_file q w ≡ ok held → os.read_file q t ≡ ok held)
        × (serve
              (handle_message os lib net sha256)
              (read ∷ reads)
              new_message_buffer
              (ready root key, v)
            ≡ closed e (ready root key, u))
        × ((q held : Bytes) → os.read_file q w ≡ ok held → os.read_file q u ≡ ok held)
  unfolding respond
  request_refused sending failed cmd c filename contents read reads ms e w v v' sound naming named
        fits empty sealed bad sendable cut =
      let handler : CommandHandler = record { root_dir = root; aes_key = some key } in
      let (kept, quiet) =
        looked_at (serialize_command cmd filename contents) filename c w v v' (err e) sound empty
          sealed bad in
      let (_, u, told) =
        respond-Succeeds os lib net sha256 sound.working key long false (text "Invalid filename")
          v' in
      let answer =
        respond-Answer os lib net sha256 network key (text "Invalid filename") false v' u
          sound.carries quiet told in
      let ended =
        handle_refuses os lib net sha256 key handler cmd filename contents e v v' naming bad
        ∙ ap some (refuse_ends os lib net sha256 key (text "Invalid filename") e v' u told) in
      let (t, requested, same, left) =
        request-handle os lib net sha256 network root key sending failed cmd c filename contents _
          [] false (err e) w v u sound.documented sound.sizes sound.delivers named fits
          (omega arith) sealed ended answer in
      let kept_u : (q held : Bytes) → os.read_file q w ≡ ok held → os.read_file q u ≡ ok held =
        λ q held there.
          subst (λ (x : Result (Unit {0}) × W). os.read_file q x.1 ≡ ok held) told
            (sound.store.by_send _ q v' ∙ kept q held there) in
      (
        t,
        u,
        requested,
        left,
        λ q held there. same q ∙ kept_u q held there,
        closes_behind cmd c filename contents read reads ms e w v u sound.documented named sendable
            cut sealed ended,
        kept_u,
      )
