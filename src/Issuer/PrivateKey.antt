-- ===== src/Issuer/PrivateKey.antt =====
-- The text of a private key in internal/issuer/keygen.go: DecodePrivateKey, LoadPrivateKey and their helpers.
pub mod Text
use grantseal.Prelude.{
  ℕ, ◌%◌, ◌==◌, if◌then◌else◌, Bool, true, false, ◌&&◌, ◌||◌, not, Option, none, some, List, [],
  ◌∷◌, ◌++◌, reverse, Bytes, codes, length, is_nil,
}
use grantseal.Prelude.Results.{Result, ok, err, ◌>>=◌, fail_if}

-- The errors of the package, one for each message.
pub data KeyError : Type 0 where
  empty_key_id : KeyError
  generate_key : KeyError
  mkdir : KeyError
  refusing_to_overwrite : KeyError
  stat_key : KeyError
  stage_key : KeyError
  verify_pair : KeyError
  back_up_private : KeyError
  back_up_public : KeyError
  commit_private : KeyError
  sync_after_private : KeyError
  commit_public : KeyError
  sync_after_public : KeyError
  chmod_private : KeyError
  permissive_mode : KeyError
  read_key : KeyError
  decode_base64 : KeyError
  key_length : KeyError

-- Base64 with the URL alphabet, and Ed25519: NewKeyFromSeed, Seed and Public of a private key.
pub record KeyLibrary : Type 0 where
  pub b64_encode : Bytes → Bytes
  pub b64_decode : Bytes → Option Bytes
  pub new_key_from_seed : Bytes → Bytes
  pub seed : Bytes → Bytes
  pub public_part : Bytes → Bytes

-- A file: its bytes and its permission bits.
pub record KeyFile : Type 0 where
  pub content : Bytes
  pub mode : ℕ

abbrev pub seed_size : ℕ
seed_size = 32

abbrev pub private_key_size : ℕ
private_key_size = 64

-- isSpace
unfoldable pub is_space : ℕ → Bool
is_space b = b == 32 || b == 9 || b == 10 || b == 13

-- The first loop of trimSpace; the second is the same from the other end.
unfoldable pub skip_spaces : Bytes → Bytes
skip_spaces [] = []
skip_spaces (b ∷ s) = let rest = skip_spaces s in if is_space b then rest else b ∷ s

-- trimSpace
unfoldable pub trim_space : Bytes → Bytes
trim_space s = reverse (skip_spaces (reverse (skip_spaces s)))

abbrev pub or_decode_base64 : Option Bytes → Result KeyError Bytes
or_decode_base64 none = err decode_base64
or_decode_base64 (some b) = ok b

module _ (lib : KeyLibrary) where
  -- The switch of DecodePrivateKey
  unfoldable pub key_of_length : Bytes → Result KeyError Bytes
  key_of_length raw =
      if length raw == seed_size
      then ok (lib.new_key_from_seed raw)
      else if length raw == private_key_size
      then ok raw
      else err key_length

  -- DecodePrivateKey
  unfoldable pub decode_private_key : Bytes → Result KeyError Bytes
  decode_private_key encoded =
      or_decode_base64 (lib.b64_decode (trim_space encoded)) >>= key_of_length

  -- LoadPrivateKey of a file that is there: `unread` is a failure of the reading.
  unfoldable pub load_private_key : Bool → Bool → KeyFile → Result KeyError Bytes
  load_private_key on_windows unread file =
      if not on_windows && not (file.mode % 64 == 0)
      then err permissive_mode
      else if unread
      then err read_key
      else decode_private_key file.content

  -- PublicKeyBase64
  unfoldable pub public_key_base64 : Bytes → Bytes
  public_key_base64 public = lib.b64_encode public

  -- privateKeyBase64
  unfoldable pub private_key_base64 : Bytes → Bytes
  private_key_base64 private = lib.b64_encode (lib.seed private)
