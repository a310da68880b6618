-- ===== src/Cascade/Signatures.antt =====
-- supernode/services/cascade/helper.go: the creator's signatures on an action, and `verifyIDs`.
pub mod Validity
use supernode.Base.{
  Bool, true, false, ◌&&◌, Option, none, some, List, [], ◌∷◌, ◌++◌, Bytes, bytes_eq,
}
use supernode.SnManager.Version.{split_on}
use supernode.Cascade.Results.{◌>>=◌, ◌>>◌}
use supernode.Cascade.{
  Services, Layout, IndexFile, failed_to_extract_index_file, failed_to_decode_creator_signature,
  failed_to_verify_creator_signature, failed_to_decode_index_file,
  failed_to_decode_layout_signature, failed_to_marshal_layout, failed_to_verify_layout_signature,
  failed_to_verify_ids, failed_to_get_action, failed_to_decode_signature,
  failed_to_verify_download_signature, Result, ok, panicked, or_fail, require,
}

-- The first two parts of a text at the points.
unfoldable pub first_two : List Bytes → Option (Bytes × Bytes)
first_two (a ∷ b ∷ rest) = some (a, b)
first_two _ = none

unfoldable pub extract_index_file_and_signature : Bytes → Option (Bytes × Bytes)
unfolding first_two split_on
extract_index_file_and_signature data_ = first_two (split_on b'.' data_)

unfoldable pub decode_index_file : Services → Bytes → Option IndexFile
decode_index_file s data_ = elim (s.b64_decode data_) [
  | none ↦ none
  | some decoded ↦ s.unmarshal_index_file decoded
]

-- The layout's signature of the index file, on the layout that was generated here.
unfoldable pub verify_layout : Services → Bytes → Layout → IndexFile → Result (Layout × Bytes)
verify_layout s creator encoded_meta index_file = do
  signature ← or_fail failed_to_decode_layout_signature (s.b64_decode index_file.layout_signature)
  layout_json ← or_fail failed_to_marshal_layout (s.marshal_layout encoded_meta)
  require failed_to_verify_layout_signature (s.verify creator (s.b64_encode layout_json) signature)
  ok (encoded_meta, index_file.layout_signature)

unfoldable pub verify_signature_and_decode_layout :
    Services → Bytes → Bytes → Layout → Result (Layout × Bytes)
unfolding extract_index_file_and_signature decode_index_file verify_layout
verify_signature_and_decode_layout s encoded creator encoded_meta = do
  (index_file_b64, creator_sig) ←
      or_fail failed_to_extract_index_file (extract_index_file_and_signature encoded)
  signature ← or_fail failed_to_decode_creator_signature (s.b64_decode creator_sig)
  require failed_to_verify_creator_signature (s.verify creator index_file_b64 signature)
  index_file ← or_fail failed_to_decode_index_file (decode_index_file s index_file_b64)
  verify_layout s creator encoded_meta index_file

-- `utils.EqualStrList`: whether it gives no error.
unfoldable pub equal_str_list : List Bytes → List Bytes → Bool
equal_str_list [] [] = true
equal_str_list [] (y ∷ ys) = false
equal_str_list (x ∷ xs) [] = false
equal_str_list (x ∷ xs) (y ∷ ys) = bytes_eq x y && equal_str_list xs ys

-- The first blocks are compared. `Blocks[0]` of an empty list is a panic.
unfoldable pub verify_ids : Layout → Layout → Result Bool
unfolding equal_str_list
verify_ids ticket_metadata metadata = elim ticket_metadata.blocks [
  | [] ↦ panicked
  | b ∷ bs ↦ elim metadata.blocks [
    | [] ↦ panicked
    | c ∷ cs ↦
        require failed_to_verify_ids (equal_str_list b.symbols c.symbols && bytes_eq b.hash c.hash)
  ]
]

-- `VerifyDownloadSignature`, on the action's identifier, a point and the creator's address.
unfoldable verify_download_signature : Services → Bytes → Bytes → Result Bool
verify_download_signature s action_id signature = do
  action ← or_fail failed_to_get_action (s.get_action action_id)
  signature_bytes ← or_fail failed_to_decode_signature (s.b64_decode signature)
  require failed_to_verify_download_signature
      (s.verify action.creator (action_id ++ b'.' ∷ action.creator) signature_bytes)
