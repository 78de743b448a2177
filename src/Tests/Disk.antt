-- ===== src/Tests/Disk.antt =====
-- A small file system, a connection and a cryptographic library by concrete functions.
use ssnproj.Base.{
  length, length-replicate, ap, sym, ◌∙◌, length, refl, [], ◌∷◌, List, replicate, if◌then◌else◌,
  Option, none, some,
}
use ssnproj.Base.{Result, ok, err, not_exist, eof}
use ssnproj.Base.{ok_injective}
use ssnproj.Bytes.BigEndian.{Bytes}
use ssnproj.Protocol.Types.{Message}
use ssnproj.Paths.{bytes_eq, print_abs}
use ssnproj.Paths.Names.{bytes_eq_refl, ne→bytes_eq}
use ssnproj.Crypto.{CryptoLib}
use ssnproj.Crypto.RoundTrip.{Documented}
use ssnproj.Server.World.{Os, ConnectionSender, text}
use ssnproj.Server.Handlers.Others.{FileFrame}
use ssnproj.Server.Handlers.Stored.{FileStore}

-- What each path holds, and the messages that were sent, the last one first.
pub record Disk : Type 0 where
  pub files : Bytes → Option Bytes
  pub sent : List Message

abbrev pub empty_disk : Disk
empty_disk = record { files = λ _. none; sent = [] }

abbrev pub contents_of : Option Bytes → Result Bytes
contents_of none = err not_exist
contents_of (some contents) = ok contents

abbrev pub disk_os : Os Disk
disk_os = record {
  getwd = λ _. ok (text "/home");
  mkdir_all = λ _ w. (ok tt, w);
  write_file = λ p contents w.
      (ok tt, record w { files = λ q. if bytes_eq q p then some contents else w.files q });
  read_file = λ p w. contents_of (w.files p);
  read_dir = λ _ _. ok [];
  stat = λ p w. elim (w.files p) [ none ↦ err not_exist | some _ ↦ ok tt ];
  remove = λ p w. (ok tt, record w { files = λ q. if bytes_eq q p then none else w.files q });
}

abbrev pub recorder : ConnectionSender Disk
recorder = record { send_secure_message = λ m w. (ok tt, record w { sent = m ∷ w.sent }) }

pub disk-frame : FileFrame disk_os recorder
disk-frame = record {
  by_send = λ m q w. refl;
  by_mkdir = λ ds qs w _ _ _. refl;
  by_write = λ ps qs contents w _ _ ne. rw (ne→bytes_eq (print_abs qs) (print_abs ps) ne);
  by_remove = λ ps qs w _ _ ne. rw (ne→bytes_eq (print_abs qs) (print_abs ps) ne);
}

pub disk-store : FileStore disk_os recorder
disk-store = record {
  by_send = λ m q w. refl;
  by_mkdir = λ d q contents w h. h;
  written = λ p contents w done. rw (bytes_eq_refl p);
}

-- The first bytes of a key stand for its hash.
abbrev pub plain_hash : Bytes → Bytes
plain_hash key = key

-- A cipher that leaves the text as it is, and zeros for random bytes.
abbrev pub plain_lib : {W : Type 0} → CryptoLib W
plain_lib = record {
  random = λ n w. (ok (replicate n 0), w);
  new_gcm = λ _. ok tt;
  nonce_size = 12;
  seal = λ key nonce plaintext. plaintext;
  open_sealed = λ key nonce sealed. ok sealed;
  encrypt_oaep = λ plaintext w. (ok plaintext, w);
  decrypt_oaep = λ ciphertext w. (ok ciphertext, w);
}

-- The same with a pair of keys that decrypts nothing.
abbrev pub failing_lib : CryptoLib Disk
failing_lib = record plain_lib { decrypt_oaep = λ ciphertext w. (err eof, w) }

pub plain-Documented : {W : Type 0} → Documented (plain_lib {W = W})
plain-Documented {W} = record {
  random_length = λ n w w' bytes e.
      ap (λ (b : Bytes). length b) (sym (ok_injective (ap (λ (q : Result Bytes × W). q.0) e)))
      ∙ length-replicate n 0;
  opens = λ key nonce plaintext _ _. refl;
}
