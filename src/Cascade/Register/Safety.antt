-- ===== src/Cascade/Register/Safety.antt =====
-- What a registration does, and after which checks.
use supernode.Base.{
  ◌≡◌, ◌≢◌, refl, Bool, true, false, some, List, [], ◌∷◌, Bytes, bytes_eq, arith, bytes_eq_refl,
}
use supernode.Cascade.{
  Services, Layout, Block, Action, CascadeMetadata, EncodeResult, failed_to_verify_ids, Result, ok,
  failed, panicked, Effect, stores, finalizes, removes,
}
use supernode.Cascade.Signatures.{
  equal_str_list, verify_layout, verify_signature_and_decode_layout, verify_ids,
}
use supernode.Cascade.Steps.{
  RegisterRequest, fetch_action, verify_action_fee, ensure_is_top_supernode,
  decode_cascade_metadata, verify_data_hash, encode_input, generate_rqid_files,
}
use supernode.Cascade.Register.{store_artefacts, finalize, register}

abbrev removes_input : List Effect → Bool
removes_input [] = false
removes_input (removes path ∷ es) = true
removes_input (e ∷ es) = removes_input es

abbrev pub succeeds : {A : Type 0} → Result A → Bool
succeeds (ok b) = true
succeeds (failed m) = false
succeeds panicked = false

-- The input file is removed exactly if the registration succeeds.
register-removes :
    (s : Services) (account : Bytes) (req : RegisterRequest)
    → removes_input (register s account req []).1 ≡ succeeds (register s account req []).0
unfolding register store_artefacts finalize
register-removes s account req = ground arith

equal_str_list_self : (xs : List Bytes) → equal_str_list xs xs ≡ true
unfolding equal_str_list
equal_str_list_self [] = refl
equal_str_list_self (x ∷ xs) = ground (arith, bytes_eq_refl x, equal_str_list_self xs)

verify_ids_self : (l : Layout) → verify_ids l l ≢ failed failed_to_verify_ids
unfolding verify_ids
verify_ids_self l h = go l.blocks refl
  where
    go : (bs : List Block) → l.blocks ≡ bs → ⊥
    go [] e = ground arith
    go (b ∷ bs) e = ground (arith, bytes_eq_refl b.hash, equal_str_list_self b.symbols)

layout_returned :
    (s : Services) (encoded creator : Bytes) (meta layout : Layout) (signature : Bytes)
    → verify_signature_and_decode_layout s encoded creator meta ≡ ok (layout, signature)
    → layout ≡ meta
unfolding verify_signature_and_decode_layout verify_layout
layout_returned s encoded creator meta layout signature h = ground arith

-- The check of the identifiers in step 9 never fails: it compares the layout that was encoded here
-- with itself, and not with one from the action.
pub register-verify_ids_passes :
    (s : Services) (account : Bytes) (req : RegisterRequest)
    → (register s account req []).0 ≢ failed failed_to_verify_ids
unfolding register store_artefacts finalize fetch_action verify_action_fee ensure_is_top_supernode
    decode_cascade_metadata verify_data_hash encode_input generate_rqid_files
register-verify_ids_passes s account req h = grind (arith, layout_returned, verify_ids_self)

abbrev writes : List Effect → Bool
writes [] = false
writes (stores files dir id ∷ es) = true
writes (finalizes id rqids ∷ es) = true
writes (e ∷ es) = writes es

-- A registration that calls a write, of the artefacts or of the action's final state, has passed
-- the checks before, for the action, its metadata and the encoding that it read: `verifyActionFee`,
-- `ensureIsTopSupernode` at the action's height and `verifySignatureAndDecodeLayout` succeed, and
-- the base64 of the request's hash is the metadata's.
pub register-writes_checked :
    (s : Services) (account : Bytes) (req : RegisterRequest) (action : Action)
    (meta : CascadeMetadata) (enc : EncodeResult)
    → s.get_action req.action_id ≡ some action
    → s.unmarshal_metadata action.metadata ≡ some meta
    → s.encode_input req.action_id req.file_path req.data_size ≡ some enc
    → writes (register s account req []).1 ≡ true
    → (succeeds (verify_action_fee s action req.data_size) ≡ true)
      × (succeeds (ensure_is_top_supernode s account action.block_height) ≡ true)
      × (bytes_eq (s.b64_encode req.data_hash) meta.data_hash ≡ true)
      × (succeeds (verify_signature_and_decode_layout s meta.signatures action.creator enc.encoded)
          ≡ true)
unfolding register store_artefacts finalize fetch_action decode_cascade_metadata verify_data_hash
    encode_input
register-writes_checked s account req action meta enc ha hm he h = ground arith
