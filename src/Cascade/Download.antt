-- ===== src/Cascade/Download.antt =====
-- supernode/services/cascade/download.go: `Download` and `CleanupDownload`.
pub mod Safety
use supernode.Base.{
  ℕ, ◌+◌, ◌*◌, ◌/◌, ◌%◌, ◌^◌, Bool, true, false, not, ◌||◌, Option, none, some, List, [], ◌∷◌, ◌++◌,
  Bytes, bytes_eq, bytes_lt, length, if◌then◌else◌,
}
use supernode.Cascade.Steps.{decode_cascade_metadata}
use supernode.Cascade.Restore.{download_artifacts}
use supernode.Cascade.{
  Services, Layout, Block, IndexFile, Coin, Action, CascadeMetadata, EncodeResult, DecodeResult,
  Message, failed_to_get_action, action_not_found, failed_to_get_action_fee,
  failed_to_parse_fee_amount, insufficient_fee, failed_to_get_top_sns, not_in_top_sns,
  failed_to_unmarshal_metadata, data_hash_does_not_match, failed_to_encode_data,
  failed_to_generate_layout_files, failed_to_generate_index_files, failed_to_verify_ids,
  failed_to_store_artefacts, failed_to_finalize_action, error_decoding_metadata,
  failed_to_download_artifacts, Result, ok, failed, panicked, or_fail, require, or_panic, EventType,
  action_retrieved, action_fee_verified, top_supernode_check_passed, metadata_decoded,
  data_hash_verified, input_encoded, signature_verified, rq_ids_generated, rq_ids_verified,
  artefacts_stored, action_finalized, artefacts_downloaded, Effect, streamed, delivers, stores,
  finalizes, removes, Run, emit, lift, continue, ◌>>=◌, ◌>>◌,
}

-- `wrapErr` around an error gives it the new message.
abbrev rewrap : {A : Type 0} → Message → Result A → Result A
rewrap m (ok a) = ok a
rewrap m (failed n) = failed m
rewrap m panicked = panicked

unfoldable pub download : Services → Bytes → Run Bool
unfolding download_artifacts decode_cascade_metadata
download s action_id = do
  action ← lift (or_fail failed_to_get_action (s.get_action action_id))
  emit (streamed action_retrieved [])
  lift (require action_not_found action.is_done)
  emit (streamed action_finalized [])
  metadata ← lift (rewrap error_decoding_metadata (decode_cascade_metadata s action.metadata))
  emit (streamed metadata_decoded [])
  (path, dir) ←
      lift (rewrap failed_to_download_artifacts (download_artifacts s action.action_id metadata))
  emit (delivers path dir)

-- `CleanupDownload`: the directory that is removed, or an error.
unfoldable cleanup_download : Bytes → Option Bytes
cleanup_download [] = none
cleanup_download (c ∷ cs) = some (c ∷ cs)
