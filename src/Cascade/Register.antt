-- ===== src/Cascade/Register.antt =====
-- supernode/services/cascade/register.go: `Register`, with the calls that write.
pub mod Safety
pub mod Script
use supernode.Base.{
  ℕ, ◌+◌, ◌*◌, ◌/◌, ◌%◌, ◌^◌, Bool, true, false, not, ◌||◌, Option, none, some, List, [], ◌∷◌, ◌++◌,
  Bytes, bytes_eq, bytes_lt, length, if◌then◌else◌,
}
use supernode.Cascade.Signatures.{verify_signature_and_decode_layout, verify_ids}
use supernode.Cascade.Steps.{
  RegisterRequest, fetch_action, verify_action_fee, ensure_is_top_supernode,
  decode_cascade_metadata, verify_data_hash, encode_input, generate_rqid_files, supernode_exists,
}
use supernode.Cascade.{
  Services, Layout, Block, IndexFile, Coin, Action, CascadeMetadata, EncodeResult, DecodeResult,
  Message, failed_to_get_action, action_not_found, failed_to_get_action_fee,
  failed_to_parse_fee_amount, insufficient_fee, failed_to_get_top_sns, not_in_top_sns,
  failed_to_unmarshal_metadata, data_hash_does_not_match, failed_to_encode_data,
  failed_to_generate_layout_files, failed_to_generate_index_files, failed_to_verify_ids,
  failed_to_store_artefacts, failed_to_finalize_action, error_decoding_metadata,
  failed_to_download_artifacts, Result, ok, failed, panicked, or_fail, require, or_panic, EventType,
  action_retrieved, action_fee_verified, top_supernode_check_passed, metadata_decoded,
  data_hash_verified, input_encoded, signature_verified, rq_ids_generated, rq_ids_verified,
  artefacts_stored, action_finalized, artefacts_downloaded, Effect, streamed, delivers, stores,
  finalizes, removes, Run, emit, lift, continue, ◌>>=◌, ◌>>◌,
}

-- The call that writes to the network is an effect also where it fails.
pub store_artefacts : Services → Bytes → List Bytes → Bytes → Run Bool
store_artefacts s action_id id_files symbols_dir = do
  emit (stores id_files symbols_dir action_id)
  lift (require failed_to_store_artefacts (s.store_artefacts id_files symbols_dir action_id))

pub finalize : Services → Bytes → List Bytes → Run Bytes
finalize s action_id rqids = do
  emit (finalizes action_id rqids)
  lift (or_fail failed_to_finalize_action (s.finalize_action action_id rqids))

-- `account` is the address of this supernode. An error of `send` is dropped by the source.
unfoldable pub register : Services → Bytes → RegisterRequest → Run Bool
unfolding fetch_action verify_action_fee ensure_is_top_supernode decode_cascade_metadata
    verify_data_hash encode_input verify_signature_and_decode_layout generate_rqid_files verify_ids
    store_artefacts finalize
register s account req = do
  action ← lift (fetch_action s req.action_id)
  emit (streamed action_retrieved [])
  lift (verify_action_fee s action req.data_size)
  emit (streamed action_fee_verified [])
  lift (ensure_is_top_supernode s account action.block_height)
  emit (streamed top_supernode_check_passed [])
  meta ← lift (decode_cascade_metadata s action.metadata)
  emit (streamed metadata_decoded [])
  lift (verify_data_hash s req.data_hash meta.data_hash)
  emit (streamed data_hash_verified [])
  enc ← lift (encode_input s req)
  emit (streamed input_encoded [])
  (layout, signature) ←
      lift (verify_signature_and_decode_layout s meta.signatures action.creator enc.encoded)
  emit (streamed signature_verified [])
  (rqids, files) ← lift (generate_rqid_files s meta signature enc.encoded)
  emit (streamed rq_ids_generated [])
  lift (verify_ids layout enc.encoded)
  emit (streamed rq_ids_verified [])
  store_artefacts s action.action_id files enc.symbols_dir
  emit (streamed artefacts_stored [])
  tx_hash ← finalize s action.action_id rqids
  emit (streamed action_finalized tx_hash)
  emit (removes req.file_path)
