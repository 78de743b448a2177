-- ===== src/Client/Dial.antt =====
-- pkg/client/client.go: `NewClientWithServerPubKey`, a client that takes the server's key from a
-- file. The connection is that of the calls `dial` and `close`; what is returned is the key.
use ssnproj.Base.{
  ◌≡◌, false, ap, ◌∙◌, ◌++◌, ◌∷◌, some, Result, Error, ok, wrap, connect, read_server_key,
}
use ssnproj.Bytes.BigEndian.{Bytes}
use ssnproj.Effects.{Action, Process, pure, raise, gets, check, ignoring, wrapping, lift}
use ssnproj.Effects.Laws.{wrapping-ok, check-ok}
use ssnproj.Effects.Processes.{◌>>=◌, ◌>>◌, >>=-ok}
use ssnproj.Server.World.{Os, is_not_exist, text}
use ssnproj.Keys.{KeyPair, KeyLib, public_path, bytes_to_public_key, make_keys}
use ssnproj.Keys.Made.{KeyCodec, KeyFiles, made_keys}
use ssnproj.Keys.Reload.{public_back}
use ssnproj.Client.{new_client}

module _ {W Priv Pub Block Parsed : Type 0} (lib : KeyLib W Priv Pub Block Parsed) (os : Os W)
    (dial : Bytes → Action W (Unit {0})) (close : Action W (Unit {0})) where
  -- A file that cannot be read closes the connection.
  abbrev unread_key : Error → Action W Bytes
  unread_key e w = raise (wrap read_server_key e) (ignoring close w).1

  unfoldable pub new_client_with_server_pub_key : Bytes → Bytes → Bytes → Process W Pub
  new_client_with_server_pub_key host port server_pub_key_path = do
    lift (new_client dial host port)
    server_pub_key_bytes ← lift (check (gets (os.read_file server_pub_key_path)) unread_key pure)
    bytes_to_public_key lib server_pub_key_bytes

  -- A client that is given the key file that the server wrote gets the server's public key, if it
  -- can connect and the file is unchanged then. The packages and the file system are as documented.
  pub new_client_with_server_pub_key-make_keys :
      (config_folder host port : Bytes) (pair : KeyPair Priv Pub) (w v u : W)
      → KeyCodec lib
      → KeyFiles lib os
      → is_not_exist (os.stat config_folder w) ≡ false
      → make_keys lib os config_folder w ≡ some (ok pair, v)
      → dial (host ++ (b':' ∷ port)) v ≡ (ok tt, u)
      → os.read_file (public_path config_folder) u ≡ os.read_file (public_path config_folder) v
      → new_client_with_server_pub_key host port (public_path config_folder) v
        ≡ some (ok pair.public_key, u)
  unfolding new_client_with_server_pub_key new_client
  new_client_with_server_pub_key-make_keys c host port pair w v u codec files there made dialled
        same =
      let held = made_keys lib os c pair w v files there made in
      let bytes : Bytes = lib.pem_encode (text "RSA PUBLIC KEY") held.asn1 in
      >>=-ok (lift (wrapping connect (dial (host ++ (b':' ∷ port))))) _ v u
        (ap some (wrapping-ok connect (dial (host ++ (b':' ∷ port))) v u dialled))
      ∙ >>=-ok (lift (check (gets (os.read_file (public_path c))) unread_key pure)) _ u u (
          ap some (
            check-ok (gets (os.read_file (public_path c))) unread_key pure u u
              (ap (λ (r : Result Bytes). (r, u)) (same ∙ held.public_held))))
      ∙ public_back lib os codec pair.public_key (text "RSA PUBLIC KEY") held.asn1 u held.marshalled
