-- ===== src/Cascade.antt =====
-- supernode/services/cascade: the data of a registration and of a download, what the service calls,
-- and results. Texts and `[]byte` are lists of bytes. `uint32` and `uint64` are below 2 ^ 32 and
-- 2 ^ 64, and a size is not negative.
pub mod Results
pub mod IdFiles
pub mod Signatures
pub mod Steps
pub mod Register
pub mod Restore
pub mod Download
mod Network
mod Examples
use supernode.Base.{ℕ, Bool, true, false, Option, none, some, List, [], ◌∷◌, ◌++◌, Bytes}
use supernode.Base.Int.{ℤ}

-- pkg/codec/codec.go
pub record Block : Type 0 where
  pub block_id : ℤ
  pub encoder_parameters : List ℤ
  pub original_offset : ℤ
  pub size : ℤ
  pub symbols : List Bytes
  pub hash : Bytes

pub record Layout : Type 0 where
  pub blocks : List Block

pub record IndexFile : Type 0 where
  pub version : ℤ
  pub layout_ids : List Bytes
  pub layout_signature : Bytes

-- The chain's types, as far as the service reads them.
pub record Coin : Type 0 where
  pub denom : Bytes
  pub amount : ℤ

pub record Action : Type 0 where
  pub action_id : Bytes
  pub creator : Bytes
  pub block_height : ℕ
  pub metadata : Bytes
  pub price : Coin
  pub is_done : Bool

pub record CascadeMetadata : Type 0 where
  pub data_hash : Bytes
  pub rq_ids_ic : ℕ
  pub rq_ids_max : ℕ
  pub rq_ids_ids : List Bytes
  pub signatures : Bytes

pub record EncodeResult : Type 0 where
  pub symbols_dir : Bytes
  pub encoded : Layout

pub record DecodeResult : Type 0 where
  pub file_path : Bytes
  pub decode_tmp_dir : Bytes

-- The interfaces `LumeraClient`, `P2P`, `P2PClient` and `RQ` of the service, and the packages for
-- JSON, protobuf, base64, base58, zstd, blake3 and coins. `none` is an error. For the two on coins
-- `none` is a panic.
pub record Services : Type 0 where
  pub get_action : Bytes → Option Action
  pub get_top_supernodes : ℕ → Option (List Bytes)
  pub get_action_fee : Bytes → Option Bytes
  pub verify : Bytes → Bytes → Bytes → Bool
  pub finalize_action : Bytes → List Bytes → Option Bytes
  pub encode_input : Bytes → Bytes → ℕ → Option EncodeResult
  pub decode : Bytes → List Bytes → Layout → Option DecodeResult
  pub store_artefacts : List Bytes → Bytes → Bytes → Bool
  pub retrieve : Bytes → Option Bytes
  pub batch_retrieve : List Bytes → ℕ → Bytes → Option (List Bytes)
  pub hash_file : Bytes → Option Bytes
  pub new_coin : Bytes → ℤ → Option Coin
  pub is_lt : Coin → Coin → Option Bool
  pub unmarshal_metadata : Bytes → Option CascadeMetadata
  pub marshal_layout : Layout → Option Bytes
  pub unmarshal_layout : Bytes → Option Layout
  pub unmarshal_index_file : Bytes → Option IndexFile
  pub b64_encode : Bytes → Bytes
  pub b64_decode : Bytes → Option Bytes
  pub base58_encode : Bytes → Bytes
  pub zstd_compress : Bytes → Option Bytes
  pub zstd_decompress : Bytes → Option Bytes
  pub blake3 : Bytes → Bytes

-- The texts that `wrapErr` is given, each by its words.
pub data Message : Type 0 where
  failed_to_get_action action_not_found : Message
  failed_to_get_action_fee failed_to_parse_fee_amount insufficient_fee : Message
  failed_to_get_top_sns not_in_top_sns : Message
  failed_to_unmarshal_metadata data_hash_does_not_match failed_to_encode_data : Message
  failed_to_extract_index_file failed_to_decode_creator_signature : Message
  failed_to_verify_creator_signature failed_to_decode_index_file : Message
  failed_to_decode_layout_signature failed_to_marshal_layout : Message
  failed_to_verify_layout_signature failed_to_generate_layout_files : Message
  failed_to_generate_index_files failed_to_verify_ids : Message
  failed_to_store_artefacts failed_to_finalize_action : Message
  failed_to_decode_signature failed_to_verify_download_signature : Message
  error_decoding_metadata failed_to_download_artifacts : Message

pub data Result (A : Type 0) : Type 0 where
  ok : A → Result A
  failed : Message → Result A
  panicked : Result A

abbrev pub or_fail : {A : Type 0} → Message → Option A → Result A
or_fail m none = failed m
or_fail m (some a) = ok a

abbrev pub require : Message → Bool → Result Bool
require m true = ok true
require m false = failed m

abbrev pub or_panic : {A : Type 0} → Option A → Result A
or_panic none = panicked
or_panic (some a) = ok a

-- What a call does to the outside, in order: an event that is streamed to the client with its hash
-- of a transaction, the last event of a download with the path and the directory of the file, the
-- two calls that write, and the removal of the input file.
pub data EventType : Type 0 where
  action_retrieved action_fee_verified top_supernode_check_passed metadata_decoded : EventType
  data_hash_verified input_encoded signature_verified rq_ids_generated rq_ids_verified : EventType
  artefacts_stored action_finalized artefacts_downloaded : EventType

pub data Effect : Type 0 where
  streamed : EventType → Bytes → Effect
  delivers : Bytes → Bytes → Effect
  stores : List Bytes → Bytes → Bytes → Effect
  finalizes : Bytes → List Bytes → Effect
  removes : Bytes → Effect

-- A run with the effects so far.
abbrev pub Run : Type 0 → Type 0
Run A = List Effect → Result A × List Effect

abbrev pub emit : Effect → Run Bool
emit e log = (ok true, log ++ e ∷ [])

abbrev pub lift : {A : Type 0} → Result A → Run A
lift r log = (r, log)

module _ {A B : Type 0} where
  abbrev pub continue : Result A → List Effect → (A → Run B) → Result B × List Effect
  continue (ok a) log f = f a log
  continue (failed m) log f = (failed m, log)
  continue panicked log f = (panicked, log)

  infixl 5 ◌>>=◌ ◌>>◌
  abbrev pub ◌>>=◌ : Run A → (A → Run B) → Run B
  (m >>= f) log = let (r, log') = m log in continue r log' f

  abbrev pub ◌>>◌ : Run A → Run B → Run B
  m >> n = m >>= λ _. n
