-- ===== src/Cascade/Restore.antt =====
-- supernode/services/cascade/download.go: the search for a layout, and the file restored from it.
-- Retrieving a key twice is taken to give the same answer within one call.
pub mod Search
pub mod Reading
use supernode.Base.{
  ℕ, ◌+◌, ◌*◌, ◌/◌, ◌%◌, ◌^◌, Bool, true, false, not, ◌||◌, Option, none, some, List, [], ◌∷◌, ◌++◌,
  Bytes, bytes_eq, bytes_lt, length, if◌then◌else◌,
}
use supernode.SnManager.Version.{split_on}
use supernode.Cascade.IdFiles.{parse_rq_metadata_file, separator_byte}
use supernode.Cascade.Signatures.{decode_index_file, first_two}
use supernode.Cascade.Steps.{verify_data_hash}
use supernode.Cascade.Results.{◌>>=◌, ◌>>◌}
use supernode.Cascade.{
  Services, Layout, Block, IndexFile, Coin, Action, CascadeMetadata, EncodeResult, DecodeResult,
  Message, failed_to_get_action, action_not_found, failed_to_get_action_fee,
  failed_to_parse_fee_amount, insufficient_fee, failed_to_get_top_sns, not_in_top_sns,
  failed_to_unmarshal_metadata, data_hash_does_not_match, failed_to_encode_data,
  failed_to_generate_layout_files, failed_to_generate_index_files, failed_to_verify_ids,
  failed_to_store_artefacts, failed_to_finalize_action, error_decoding_metadata,
  failed_to_download_artifacts, Result, ok, failed, panicked, or_fail, require, or_panic, EventType,
  action_retrieved, action_fee_verified, top_supernode_check_passed, metadata_decoded,
  data_hash_verified, input_encoded, signature_verified, rq_ids_generated, rq_ids_verified,
  artefacts_stored, action_finalized, artefacts_downloaded, Effect, streamed, delivers, stores,
  finalizes, removes, Run, emit, lift,
}

-- `P2PClient.Retrieve`, where an empty file counts as missing.
retrieve_file : Services → Bytes → Option Bytes
retrieve_file s id = elim (s.retrieve id) [
  | none ↦ none
  | some file ↦ elim file [ [] ↦ none | b ∷ bs ↦ some (b ∷ bs) ]
]

pub parse_index_file : Services → Bytes → Option IndexFile
unfolding decode_index_file first_two split_on
parse_index_file s data_ = elim (s.zstd_decompress data_) [
  | none ↦ none
  | some decompressed ↦ elim (first_two (split_on separator_byte decompressed)) [
    | none ↦ none
    | some parts ↦ decode_index_file s parts.0
  ]
]

abbrev pub has_blocks : Layout → Bool
has_blocks layout = elim layout.blocks [ [] ↦ false | b ∷ bs ↦ true ]

-- What one layout identifier gives.
pub read_layout : Services → Bytes → Option Layout
unfolding retrieve_file
read_layout s id = elim (retrieve_file s id) [
  | none ↦ none
  | some file ↦ elim (parse_rq_metadata_file s file) [
    | none ↦ none
    | some parsed ↦ if has_blocks parsed.0 then some parsed.0 else none
  ]
]

-- The loop of `retrieveLayoutFromIndex`.
pub retrieve_layout_from_index : Services → List Bytes → Option Layout
unfolding read_layout
retrieve_layout_from_index s [] = none
retrieve_layout_from_index s (id ∷ ids) = elim (read_layout s id) [
  | none ↦ retrieve_layout_from_index s ids
  | some layout ↦ some layout
]

abbrev pub no_layout : Layout
no_layout = record { blocks = [] }

pub read_index : Services → Bytes → Option IndexFile
unfolding retrieve_file parse_index_file
read_index s id = elim (retrieve_file s id) [ none ↦ none | some file ↦ parse_index_file s file ]

-- The loop of `downloadArtifacts`, where an error leaves the empty layout.
unfoldable pub layout_via_index : Services → Layout → List Bytes → Layout
unfolding read_index retrieve_layout_from_index
layout_via_index s layout [] = layout
layout_via_index s layout (id ∷ ids) = elim (read_index s id) [
  | none ↦ layout_via_index s layout ids
  | some index ↦ elim (retrieve_layout_from_index s index.layout_ids) [
    | none ↦ layout_via_index s no_layout ids
    | some found ↦ elim (has_blocks found) [ true ↦ found | false ↦ layout_via_index s found ids ]
  ]
]

all_symbols : List Block → List Bytes
all_symbols [] = []
all_symbols (b ∷ bs) = b.symbols ++ all_symbols bs

-- `sort.Strings`.
insert_string : Bytes → List Bytes → List Bytes
insert_string x [] = x ∷ []
insert_string x (y ∷ ys) = elim (bytes_lt y x) [
  | true ↦ y ∷ insert_string x ys
  | false ↦ x ∷ y ∷ ys
]

sort_strings : List Bytes → List Bytes
unfolding insert_string
sort_strings [] = []
sort_strings (x ∷ xs) = insert_string x (sort_strings xs)

abbrev required_symbol_percent : ℕ
required_symbol_percent = 9

pub required_symbols : ℕ → ℕ
required_symbols total = (total * required_symbol_percent + 99) / 100

-- The path and the directory of the file. A hash that is nil is an error of `hash_file`.
unfoldable pub restore_file_from_layout : Services → Layout → Bytes → Bytes → Result (Bytes × Bytes)
unfolding all_symbols sort_strings required_symbols verify_data_hash
restore_file_from_layout s layout data_hash action_id = do
  let symbols = sort_strings (all_symbols layout.blocks)
  retrieved ←
      or_fail failed_to_download_artifacts
        (s.batch_retrieve symbols (required_symbols (length symbols)) action_id)
  decoded ← or_fail failed_to_download_artifacts (s.decode action_id retrieved layout)
  hash ← or_fail failed_to_download_artifacts (s.hash_file decoded.file_path)
  verify_data_hash s hash data_hash
  ok (decoded.file_path, decoded.decode_tmp_dir)

unfoldable pub download_artifacts : Services → Bytes → CascadeMetadata → Result (Bytes × Bytes)
unfolding layout_via_index restore_file_from_layout
download_artifacts s action_id metadata =
    let layout = layout_via_index s no_layout metadata.rq_ids_ids in
    if has_blocks layout
    then restore_file_from_layout s layout metadata.data_hash action_id
    else failed failed_to_download_artifacts
