-- ===== src/Cascade/Steps.antt =====
-- supernode/services/cascade/helper.go: the steps of `Register`, each a result.
use supernode.Base.{
  ℕ, ◌/◌, ◌%◌, ◌^◌, Bool, false, not, ◌||◌, List, [], ◌∷◌, ◌++◌, Bytes, bytes_eq, if◌then◌else◌,
}
use supernode.SnManager.Version.{atoi}
use supernode.Cascade.IdFiles.{itoa, gen_rq_identifiers_files, gen_index_files}
use supernode.Cascade.Results.{◌>>=◌, ◌>>◌}
use supernode.Cascade.{
  Services, Layout, Action, CascadeMetadata, EncodeResult, failed_to_get_action, action_not_found,
  failed_to_get_action_fee, failed_to_parse_fee_amount, insufficient_fee, failed_to_get_top_sns,
  not_in_top_sns, failed_to_unmarshal_metadata, data_hash_does_not_match, failed_to_encode_data,
  failed_to_generate_layout_files, failed_to_generate_index_files, Result, ok, failed, or_fail,
  require, or_panic,
}

pub record RegisterRequest : Type 0 where
  pub action_id : Bytes
  pub data_hash : Bytes
  pub data_size : ℕ
  pub file_path : Bytes

unfoldable pub fetch_action : Services → Bytes → Result Action
fetch_action s action_id = do
  action ← or_fail failed_to_get_action (s.get_action action_id)
  if bytes_eq action.action_id [] then failed action_not_found else ok action

-- The text "ulume".
abbrev ulume : Bytes
ulume = b'u' ∷ b'l' ∷ b'u' ∷ b'm' ∷ b'e' ∷ []

unfoldable pub verify_action_fee : Services → Action → ℕ → Result Bool
unfolding itoa atoi
verify_action_fee s action data_size = do
  fee ← or_fail failed_to_get_action_fee (s.get_action_fee (itoa (data_size / 1024)))
  require failed_to_parse_fee_amount (atoi fee).1
  required_fee ← or_panic (s.new_coin ulume (atoi fee).0)
  lower ← or_panic (s.is_lt action.price required_fee)
  require insufficient_fee (not lower)

-- `supernode.Exists` of pkg/lumera/modules/supernode/impl.go.
pub supernode_exists : List Bytes → Bytes → Bool
supernode_exists [] account = false
supernode_exists (sn ∷ sns) account = bytes_eq sn account || supernode_exists sns account

unfoldable pub ensure_is_top_supernode : Services → Bytes → ℕ → Result Bool
unfolding supernode_exists
ensure_is_top_supernode s account block_height = do
  top ← or_fail failed_to_get_top_sns (s.get_top_supernodes block_height)
  require not_in_top_sns (supernode_exists top account)

unfoldable pub decode_cascade_metadata : Services → Bytes → Result CascadeMetadata
decode_cascade_metadata s raw = or_fail failed_to_unmarshal_metadata (s.unmarshal_metadata raw)

unfoldable pub verify_data_hash : Services → Bytes → Bytes → Result Bool
verify_data_hash s hash expected =
    require data_hash_does_not_match (bytes_eq (s.b64_encode hash) expected)

unfoldable pub encode_input : Services → RegisterRequest → Result EncodeResult
encode_input s req =
    or_fail failed_to_encode_data (s.encode_input req.action_id req.file_path req.data_size)

-- `uint32(x)`.
abbrev to_uint32 : ℕ → ℕ
to_uint32 x = x % 2 ^ 32

-- The identifiers of the index files, and the layout files with the index files behind them.
unfoldable pub generate_rqid_files :
    Services → CascadeMetadata → Bytes → Layout → Result (List Bytes × List Bytes)
unfolding gen_rq_identifiers_files gen_index_files
generate_rqid_files s meta sig encoded_meta = do
  let ic = to_uint32 meta.rq_ids_ic
  let max = to_uint32 meta.rq_ids_max
  (layout_ids, layout_files) ←
      or_fail failed_to_generate_layout_files (gen_rq_identifiers_files s encoded_meta sig ic max)
  (index_ids, index_files) ←
      or_fail failed_to_generate_index_files
        (gen_index_files s layout_files sig meta.signatures ic max)
  ok (index_ids, layout_files ++ index_files)
