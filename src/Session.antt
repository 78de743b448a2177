-- ===== src/Session.antt =====
-- pkg/client and pkg/server together: a client whose writes reach one connection of the server at
-- once, in any reads, and which reads what this connection wrote. The network between them is not
-- part of the repository; here it loses and delays nothing.
pub mod Exchange
pub mod Replies
pub mod Requests
pub mod Upload
pub mod Listing
pub mod Stream
pub mod Inbox
pub mod Announced
pub mod Download
pub mod Working
pub mod RoundTrip
pub mod Handshake
pub mod Whole
pub mod Refusals
pub mod Missing
pub mod Reports
pub mod Deletion
pub mod Program
pub mod Gone
use ssnproj.Base.{
  ℕ, ◌++◌, ◌≡◌, Bool, true, false, take, drop, length, ltb, if◌then◌else◌, List, ◌∷◌,
}
use ssnproj.Base.{Result, Error, ok, err, eof}
use ssnproj.Bytes.BigEndian.{Bytes}
use ssnproj.Protocol.Buffer.{MessageBuffer}
use ssnproj.Crypto.{CryptoLib}
use ssnproj.Effects.{Action}
use ssnproj.Server.World.{Os}
use ssnproj.Server.Loop.{Status, waiting, closed, ended, stuck, serve}
use ssnproj.Server.Connection.{ConnectionHandler, Session, handle_message}
use ssnproj.Client.{Conn}

-- The server's end of the connection, and the server's world.
pub record Link (W : Type 0) : Type 0 where
  pub is_open : Bool
  pub handler : ConnectionHandler
  pub buffer : MessageBuffer
  pub server : W

-- The network: its outbox, which is what the server wrote and the client has not read, the world
-- without the first bytes of it, and the reads in which the server gets what the client writes.
pub record Network (W : Type 0) : Type 0 where
  pub pending : W → Bytes
  pub dropped : ℕ → W → W
  pub cuts : Bytes → Bytes × List Bytes

module _ {W : Type 0} where
  -- A step on the server's world, for the client.
  abbrev pub at_server : {A : Type 0} → Action W A → Action (Link W) A
  at_server m v = ((m v.server).0, record v { server = (m v.server).1 })

  -- The client has the same cryptographic packages.
  abbrev pub client_lib : CryptoLib W → CryptoLib (Link W)
  client_lib lib = record {
    random = λ n. at_server (lib.random n);
    new_gcm = lib.new_gcm;
    nonce_size = lib.nonce_size;
    seal = lib.seal;
    open_sealed = lib.open_sealed;
    encrypt_oaep = λ plaintext. at_server (lib.encrypt_oaep plaintext);
    decrypt_oaep = λ ciphertext. at_server (lib.decrypt_oaep ciphertext);
  }

  -- The link after the server has handled what was written. A server that has closed the
  -- connection or has ended takes no more.
  abbrev pub after_write : Link W → Status (Session W) → Result (Unit {0}) × Link W
  after_write v (waiting mb (h, w)) =
      (ok tt, record { is_open = true; handler = h; buffer = mb; server = w })
  after_write v (closed e (h, w)) =
      (ok tt, record { is_open = false; handler = h; buffer = v.buffer; server = w })
  after_write v ended = (err eof, record v { is_open = false })
  after_write v stuck = (err eof, record v { is_open = false })

  module _ (os : Os W) (lib : CryptoLib W) (net : Bytes → Action W (Unit {0}))
      (sha256 : Bytes → Bytes) (network : Network W) where
    unfoldable pub link_write : Bytes → Action (Link W) (Unit {0})
    link_write bytes v =
        if v.is_open
        then after_write v (
            serve (handle_message os lib net sha256)
              ((network.cuts bytes).0 ∷ (network.cuts bytes).1) v.buffer (v.handler, v.server))
        else (err eof, v)

    unfoldable pub link_read_full : ℕ → Action (Link W) Bytes
    link_read_full n v = if ltb (length (network.pending v.server)) n then (err eof, v) else (
      ok (take n (network.pending v.server)),
      record v { server = network.dropped n v.server },
    )

    abbrev pub link_conn : Conn (Link W)
    link_conn = record { write = link_write; read_full = link_read_full }
