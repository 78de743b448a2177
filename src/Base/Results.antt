-- ===== src/Base/Results.antt =====
-- Go's (value, error) pairs.
use Prim.Native.Nat.{ℕ}
use mathlib.Core.List.{List}
use mathlib.Core.Option.{some}
use mathlib.Core.Path.{◌≡◌, refl}
use mathlib.Core.Logic.{◌⊎◌, inl, inr}

-- What a wrapping `fmt.Errorf("...: %w", err)` says in front of the error that it wraps.
pub data Context : Type 0 where
  create_client_dir resolve_root resolve_file serialize_chunk send_chunk send_handshake : Context
  send_message read_header read_payload encrypt_payload decrypt_payload : Context
  generate_aes_key send_aes_key receive_confirmation : Context
  read_local_file send_upload send_download send_list send_delete : Context
  receive_response parse_response : Context
  create_output receive_chunk parse_chunk write_chunk file_info : Context
  create_config save_private_key save_public_key read_private_key read_public_key : Context
  create_root connect read_server_key close_connection : Context
  create_client handshake_failed read_input parse_public_key : Context

-- The error values of the program, one constructor for each text, and those of Go's readers.
pub data Error : Type 0 where
  eof unexpected_eof : Error
  data_too_short command_too_short response_too_short chunk_too_short : Error
  insufficient_data incomplete_payload : Error
  ciphertext_too_short : Error
  empty_filename absolute_path path_traversal : Error
  unknown_command unexpected_type : ℕ → Error
  before_handshake : Error
  payload_too_large unexpected_response : ℕ → Error
  upload_failed download_failed list_failed delete_failed : List ℕ → Error
  filename_mismatch incomplete_download size_mismatch : Error
  not_exist : Error
  empty_host empty_port empty_config_folder empty_root_dir : Error
  no_pem_block not_rsa_key exit_requested : Error
  external : ℕ → Error
  wrap : Context → Error → Error

pub data Result {ℓ} (V : Type ℓ) : Type ℓ where
  err : Error → Result V
  ok : V → Result V

pub ok_injective {ℓ} : {A : Type ℓ} {a b : A} → ◌≡◌ {A = Result A} (ok a) (ok b) → a ≡ b
ok_injective e = cc

pub some_injective {ℓ} : {A : Type ℓ} {a b : A} → some a ≡ some b → a ≡ b
some_injective e = cc

pub Result-cases {ℓ} :
    {A : Type ℓ} (r : Result A) → ((a : A) × (r ≡ ok a)) ⊎ ((e : Error) × (r ≡ err e))
Result-cases (ok a) = inl (a, refl)
Result-cases (err e) = inr (e, refl)

-- `v, err := m; if err != nil { return err }`, with what follows.
abbrev pub ◌>>=◌ {ℓ κ} : {V : Type ℓ} {U : Type κ} → Result V → (V → Result U) → Result U
err failure >>= next = err failure
ok v >>= next = next v

abbrev pub ◌>>◌ {ℓ} : {U : Type ℓ} → Result (Unit {0}) → Result U → Result U
first >> second = first >>= λ _. second

infixl 5 ◌>>=◌ ◌>>◌
pub andthen-eq-ok {ℓ} :
    {U : Type ℓ} (m : Result (Unit {0})) (k : Result U) {u : U} → m >> k ≡ ok u → m ≡ ok tt
andthen-eq-ok (err e) k h = cc
andthen-eq-ok (ok tt) k h = refl
