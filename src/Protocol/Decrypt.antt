-- ===== src/Protocol/Decrypt.antt =====
-- pkg/protocol/message.go: `Message.Decrypt`.
use ssnproj.Base.{◌>>=◌, Result, ok}
use ssnproj.Bytes.BigEndian.{Bytes}
use ssnproj.Protocol.Types.{Message, new_message}
use ssnproj.Crypto.{CryptoLib, decrypt}

-- The message with its payload decrypted, or the error of the decryption.
abbrev pub decrypt_message : {W : Type 0} → CryptoLib W → Bytes → Message → Result Message
decrypt_message lib aes_key m = do
  payload ← decrypt lib m.payload aes_key
  ok (new_message m.kind payload)
