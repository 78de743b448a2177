-- ===== src/Session/Inbox.antt =====
-- What the server has sent, as the channel from which the client's download reads.
use ssnproj.Base.{ℕ, ◌≡◌, refl, sym, ap, ◌∙◌, [], ◌∷◌, ◌++◌, List, length, Result, ok}
use ssnproj.Bytes.BigEndian.{Bytes}
use ssnproj.Protocol.Types.{Message}
use ssnproj.Crypto.{CryptoLib}
use ssnproj.Crypto.RoundTrip.{Documented}
use ssnproj.Effects.{Action}
use ssnproj.Server.World.{Os}
use ssnproj.Client.{receive_secure_message}
use ssnproj.Client.Receive.{receive_secure_message-encrypt, receive_secure_message-Keeps}
use ssnproj.Client.Download.{ClientOs, receive_file_chunks}
use ssnproj.Client.Download.Kept.{receive_file_chunks_kept}
use ssnproj.Client.Download.Whole.{Channel}
use ssnproj.Session.{Link, Network, client_lib, link_conn}
use ssnproj.Session.Exchange.{
  Delivers, ready_link, client_lib-Documented, link-Arrives, encrypt-at_server,
}
use ssnproj.Session.Requests.{Untaken, reads-Keeps, drops-Untaken}
use ssnproj.Session.Stream.{Waiting}
use mathlib.Core.Path.{subst}

-- Nothing that waits for the client and no file of the server has changed.
pub record Apart {W : Type 0} (os : Os W) (network : Network W) (w v : W) : Type 0 where
  pub pending : network.pending v ≡ network.pending w
  pub files : (q : Bytes) → os.read_file q v ≡ os.read_file q w

-- The client's disk: a file that is created is empty, it holds what is written to it, and it is not
-- on the server. Reads from the connection do not change it.
pub record LocalDisk {W : Type 0} (client_os : ClientOs (Link W)) (os : Os W) (network : Network W)
    (held : ℕ → Link W → Bytes) : Type 0 where
  pub created :
      (path : Bytes) (w : Link W)
      → (f : ℕ) × (v : W) × (client_os.create path w ≡ (ok f, record w { server = v }))
        × Apart os network w.server v
        × (held f (record w { server = v }) ≡ [])
  pub appended :
      (f : ℕ) (xs : Bytes) (w : Link W)
      → (v : W) × (client_os.append f xs w ≡ (ok tt, record w { server = v }))
        × Apart os network w.server v
        × (held f (record w { server = v }) ≡ held f w ++ xs)
  pub sized : (f : ℕ) (w : Link W) → client_os.size f w ≡ ok (length (held f w))
  pub closed :
      (f : ℕ) (w : Link W)
      → (v : W) × ((client_os.close f w).1 ≡ record w { server = v })
        × Apart os network w.server v
        × (held f (record w { server = v }) ≡ held f w)
  pub by_read :
      (n f : ℕ) (w : Link W) → held f (record w { server = network.dropped n w.server }) ≡ held f w

-- The paths of the client's disk: a file that was created at a path is there, also after it was
-- written to or closed and after reads from the connection, and a read of the path gives what the
-- file holds.
pub record LocalPaths {W : Type 0} (client_os : ClientOs (Link W)) (network : Network W)
    (held : ℕ → Link W → Bytes) (Opened : ℕ → Bytes → Link W → Type 0) : Type 0 where
  pub by_create :
      (f : ℕ) (path : Bytes) (w v : Link W) → client_os.create path w ≡ (ok f, v) → Opened f path v
  pub by_append :
      (f : ℕ) (path xs : Bytes) (w : Link W)
      → Opened f path w
      → Opened f path (client_os.append f xs w).1
  pub by_close :
      (f : ℕ) (path : Bytes) (w : Link W) → Opened f path w → Opened f path (client_os.close f w).1
  pub by_take :
      (n f : ℕ) (path : Bytes) (w : Link W)
      → Opened f path w
      → Opened f path (record w { server = network.dropped n w.server })
  pub shown :
      (f : ℕ) (path : Bytes) (w : Link W)
      → Opened f path w
      → client_os.read_local path w ≡ ok (held f w)

module _ {W : Type 0} (os : Os W) (lib : CryptoLib W) (net : Bytes → Action W (Unit {0}))
    (sha256 : Bytes → Bytes) (network : Network W) (root key : Bytes) where
  -- A file stays open under its path while chunks are received into it.
  pub receive_file_chunks_opened :
      (client_os : ClientOs (Link W)) (held : ℕ → Link W → Bytes)
      (Opened : ℕ → Bytes → Link W → Type 0) (filename output_path : Bytes) (f : ℕ) (w : Link W)
      → LocalPaths client_os network held Opened
      → (client_os.create output_path w).0 ≡ ok f
      → Opened f output_path
          (receive_file_chunks client_os
            (receive_secure_message (client_lib lib) (link_conn os lib net sha256 network) key)
            filename
            output_path
            w).1
  receive_file_chunks_opened client_os held Opened filename output_path f w paths made =
      let conn = link_conn os lib net sha256 network in
      let P : Link W → Type 0 = Opened f output_path in
      let u = (client_os.create output_path w).1 in
      let created : client_os.create output_path w ≡ (ok f, u) =
        ap (λ (r : Result ℕ). (r, u)) made in
      receive_file_chunks_kept client_os (receive_secure_message (client_lib lib) conn key) P f
        (receive_secure_message-Keeps (client_lib lib) conn P
          (reads-Keeps os lib net sha256 network root key P
            (λ n v. paths.by_take n f output_path v))
          key)
        (λ xs v. paths.by_append f output_path xs v) filename output_path w u
        (λ v. paths.by_close f output_path v) created (paths.by_create f output_path w u created)

  -- A ready link over which these messages are to be read, with these files on the server.
  abbrev pub Inbox : (Bytes → Result Bytes) → Link W → List Message → Type 0
  Inbox files v ms =
      Untaken os lib net sha256 network root key (ok tt) files v
      × Waiting lib key ms (network.pending v.server)

  aside :
      (files : Bytes → Result Bytes) (ms : List Message) (w : Link W) (v : W)
      → Apart os network w.server v
      → Inbox files w ms
      → Inbox files (record w { server = v }) ms
  aside files ms w v apart ((same, kept), waiting) = (
    (ap (λ (t : Link W). record t { server = v }) same, λ q. apart.files q ∙ kept q),
    subst (Waiting lib key ms) (sym apart.pending) waiting,
  )

  -- The next message of the inbox is the next that the client receives.
  next_received :
      (client_os : ClientOs (Link W)) (held : ℕ → Link W → Bytes) (files : Bytes → Result Bytes)
      → Documented lib
      → Delivers os network
      → LocalDisk client_os os network held
      → (m : Message) (ms : List Message) (w : Link W) → Inbox files w (m ∷ ms)
      → (v : Link W) × (receive_secure_message
            (client_lib lib)
            (link_conn os lib net sha256 network)
            key
            w
          ≡ (ok m, v))
        × Inbox files v ms
        × ((f : ℕ) → held f v ≡ held f w)
  next_received client_os held files documented delivers disk m ms w
        (untaken, (s, rest, split, waiting)) =
      let conn = link_conn os lib net sha256 network in
      let clib = client_lib lib in
      let (u, got, left) =
        receive_secure_message-encrypt clib conn (λ v. network.pending v.server)
          (link-Arrives os lib net sha256 network delivers) m.kind m.payload key s.sealed rest w
          (ready_link root key s.before) (ready_link root key s.later)
          (client_lib-Documented lib documented)
          (encrypt-at_server lib m.payload key s.sealed (ready_link root key s.before) s.later
            s.encrypted)
          s.fits split in
      let P : Link W → Type 0 = λ v.
        Untaken os lib net sha256 network root key (ok tt) files v
        × ((f : ℕ) → held f v ≡ held f w) in
      let (still, same) =
        subst (λ (q : Result Message × Link W). P q.1) got
          (receive_secure_message-Keeps clib conn P
            (reads-Keeps os lib net sha256 network root key P (λ n v (p, h). (
              drops-Untaken os lib net sha256 network root key (ok tt) files delivers n v p,
              λ f. disk.by_read n f v ∙ h f,
            )))
            key w (untaken, λ f. refl)) in
      (u, got, (still, subst (Waiting lib key ms) (sym left) waiting), same)

  pub link-Channel :
      (client_os : ClientOs (Link W)) (held : ℕ → Link W → Bytes) (files : Bytes → Result Bytes)
      → Documented lib
      → Delivers os network
      → LocalDisk client_os os network held
      → Channel client_os
          (receive_secure_message (client_lib lib) (link_conn os lib net sha256 network) key)
          (Inbox files)
          held
  link-Channel client_os held files documented delivers disk = record {
    received = next_received client_os held files documented delivers disk;
    created = λ path ms w e.
        let (f, v, made, apart, empty) = disk.created path w in
        (f, record w { server = v }, made, aside files ms w v apart e, empty);
    appended = λ f xs ms w e.
        let (v, wrote, apart, more) = disk.appended f xs w in
        (record w { server = v }, wrote, aside files ms w v apart e, more);
    sized = disk.sized;
    closed_kept = λ f ms w e.
        let (v, done, apart, same) = disk.closed f w in
        (
          subst (λ (x : Link W). Inbox files x ms) (sym done) (aside files ms w v apart e),
          subst (λ (x : Link W). held f x ≡ held f w) (sym done) same,
        );
  }
