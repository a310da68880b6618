-- ===== src/Cascade/Download/Safety.antt =====
-- What a download delivers.
use supernode.Base.{
  ◌≡◌, Bool, true, false, Option, none, some, List, [], ◌∷◌, Bytes, bytes_eq, arith,
}
use supernode.Cascade.{Services, Layout, Action, CascadeMetadata, ok, Effect, delivers}
use supernode.Cascade.Steps.{decode_cascade_metadata, verify_data_hash}
use supernode.Cascade.Register.Safety.{succeeds}
use supernode.Cascade.Restore.{
  layout_via_index, no_layout, restore_file_from_layout, download_artifacts,
}
use supernode.Cascade.Download.{download}

-- The file that a download delivers.
abbrev delivered : List Effect → Option (Bytes × Bytes)
delivered [] = none
delivered (delivers path dir ∷ es) = some (path, dir)
delivered (e ∷ es) = delivered es

abbrev pub hashes_to : Services → Bytes → Option Bytes → Bool
hashes_to s expected none = false
hashes_to s expected (some hash) = bytes_eq (s.b64_encode hash) expected

restored-hash :
    (s : Services) (layout : Layout) (data_hash action_id path dir : Bytes)
    → restore_file_from_layout s layout data_hash action_id ≡ ok (path, dir)
    → hashes_to s data_hash (s.hash_file path) ≡ true
unfolding restore_file_from_layout verify_data_hash
restored-hash s layout data_hash action_id path dir h = ground arith

downloaded-hash :
    (s : Services) (action_id : Bytes) (meta : CascadeMetadata) (path dir : Bytes)
    → download_artifacts s action_id meta ≡ ok (path, dir)
    → hashes_to s meta.data_hash (s.hash_file path) ≡ true
unfolding download_artifacts
downloaded-hash s action_id meta path dir h = ground (
  arith,
  restored-hash s (layout_via_index s no_layout meta.rq_ids_ids) meta.data_hash action_id path dir,
)

-- A file is delivered only for an action whose state is done, and only if the base64 of the file's
-- hash is the data hash of the action's metadata.
pub download-verified :
    (s : Services) (action_id : Bytes) (action : Action) (meta : CascadeMetadata) (path dir : Bytes)
    → s.get_action action_id ≡ some action
    → s.unmarshal_metadata action.metadata ≡ some meta
    → delivered (download s action_id []).1 ≡ some (path, dir)
    → (action.is_done ≡ true) × (hashes_to s meta.data_hash (s.hash_file path) ≡ true)
unfolding download decode_cascade_metadata
download-verified s action_id action meta path dir ha hm h =
    ground (arith, downloaded-hash s action.action_id meta path dir)

abbrev is_delivered : Option (Bytes × Bytes) → Bool
is_delivered none = false
is_delivered (some file) = true

-- A download succeeds exactly if it delivers a file: a failure before delivers none.
download-delivers :
    (s : Services) (action_id : Bytes)
    → succeeds (download s action_id []).0 ≡ is_delivered (delivered (download s action_id []).1)
unfolding download
download-delivers s action_id = ground arith
