-- ===== src/Cascade/Examples.antt =====
-- The theorems of the cascade service at a small network, and a test.
use supernode.Base.{
  ℕ, take, length, ◌==◌, ◌↔◌, ◌+◌, ◌-◌, ◌%◌, ◌^◌, ◌≡◌, ◌≢◌, refl, true, some, List, [], ◌∷◌, map,
  Bytes, bytes_eq,
}
use supernode.SnManager.Version.{atoi}
use supernode.SnManager.Gateway.{has_byte}
use supernode.Cascade.IdFiles.{
  gen_index_files, itoa, gen_rq_identifiers_files, parse_rq_metadata_file,
}
use supernode.Cascade.IdFiles.RoundTrip.{gen_rq_identifiers_files-parse}
use supernode.Cascade.Restore.Reading.{gen_index_files-read}
use supernode.Cascade.Signatures.{
  extract_index_file_and_signature, decode_index_file, verify_signature_and_decode_layout,
}
use supernode.Cascade.Signatures.Validity.{
  is_accepted, IsSigned, verify_signature_and_decode_layout-accepted,
}
use supernode.Cascade.Steps.{
  fetch_action, verify_action_fee, ensure_is_top_supernode, decode_cascade_metadata,
  verify_data_hash, encode_input, generate_rqid_files,
}
use supernode.Cascade.Register.{register}
use supernode.Cascade.Register.Script.{marks, all_target, script, register-follows_script}
use supernode.Cascade.Register.Safety.{
  succeeds, register-verify_ids_passes, register-writes_checked,
}
use supernode.Cascade.Restore.{parse_index_file, layout_via_index, no_layout, has_blocks}
use supernode.Cascade.Download.{download}
use supernode.Cascade.Restore.Search.{any_leads, layout_via_index_complete}
use supernode.Cascade.Download.Safety.{hashes_to, download-verified}
use supernode.Cascade.{EncodeResult, failed_to_verify_ids, failed}
use supernode.Cascade.Network.{
  shift, unshift, hash_layout, the_action, the_metadata, net, request, unshift-shift,
  shift-has_byte, unzips, unmarshals,
}

abbrev one_file : List Bytes
one_file = (0 ∷ b'.' ∷ b'7' ∷ []) ∷ []

-- The two files of counters 2 ^ 32 - 1 and 0.
abbrev wrapped : List Bytes
wrapped =
    (b'.' ∷ b'4' ∷ b'2' ∷ b'9' ∷ b'4' ∷ b'9' ∷ b'6' ∷ b'7' ∷ b'2' ∷ b'9' ∷ b'5' ∷ [])
    ∷ (b'.' ∷ b'0' ∷ [])
    ∷ []

abbrev second : ℕ
second = 1

gen_rq_identifiers_files-parse_example :
    parse_rq_metadata_file net ((b'h' + 1) ∷ b'.' ∷ b's' ∷ b'.' ∷ b'0' ∷ [])
    ≡ some (hash_layout (b'h' ∷ []), b's' ∷ [], itoa ((2 ^ 32 - 1 + 1) % 2 ^ 32))
unfolding gen_rq_identifiers_files has_byte
gen_rq_identifiers_files-parse_example =
    gen_rq_identifiers_files-parse net unzips unshift-shift shift-has_byte unmarshals
      (hash_layout (b'h' ∷ [])) (b's' ∷ []) (2 ^ 32 - 1) 2
      (map (λ t. (b'h' + 1) ∷ b'.' ∷ b's' ∷ t) wrapped)
      (map (λ t. (b'h' + 1) ∷ b'.' ∷ b's' ∷ t) wrapped) refl refl 1
      ((b'h' + 1) ∷ b'.' ∷ b's' ∷ b'.' ∷ b'0' ∷ []) refl

register-verify_ids_passes_example :
    (register net (6 ∷ []) request []).0 ≢ failed failed_to_verify_ids
register-verify_ids_passes_example = register-verify_ids_passes net (6 ∷ []) request

abbrev the_encoding : EncodeResult
the_encoding = record { symbols_dir = b'd' ∷ []; encoded = hash_layout (b'h' ∷ []) }

register-writes_checked_example :
    (succeeds (verify_action_fee net the_action 2048) ≡ true)
    × (succeeds (ensure_is_top_supernode net (6 ∷ []) 5) ≡ true)
    × (bytes_eq (shift (3 ∷ [])) (3 ∷ []) ≡ true)
    × (succeeds (
          verify_signature_and_decode_layout net the_metadata.signatures
            (8 ∷ [])
            (hash_layout (b'h' ∷ [])))
        ≡ true)
unfolding register bytes_eq atoi
register-writes_checked_example =
    register-writes_checked net (6 ∷ []) request the_action the_metadata the_encoding refl refl refl
      refl

abbrev layout_files : List Bytes
layout_files = map (λ t. (b'h' + 1) ∷ b'.' ∷ b'l' ∷ t) wrapped

abbrev index_files : List Bytes
index_files = map (λ t. b'i' ∷ b'.' ∷ b's' ∷ t) wrapped

register-follows_script_example :
    (marks (register net (6 ∷ []) request []).1
      ≡ take (length (register net (6 ∷ []) request []).1) script)
    × (succeeds (register net (6 ∷ []) request []).0
        ≡ (length (register net (6 ∷ []) request []).1 == 14))
    × (all_target net request (register net (6 ∷ []) request []).1 ≡ true)
register-follows_script_example = register-follows_script net (6 ∷ []) request

test_registered : succeeds (register net (6 ∷ []) request []).0 ≡ true
unfolding register fetch_action verify_action_fee ensure_is_top_supernode decode_cascade_metadata
    verify_data_hash encode_input verify_signature_and_decode_layout generate_rqid_files bytes_eq
    atoi
test_registered = refl

download-verified_example : (true ≡ true) × (hashes_to net (3 ∷ []) (some (3 ∷ [])) ≡ true)
unfolding download bytes_eq parse_rq_metadata_file
download-verified_example =
    download-verified net (7 ∷ []) the_action the_metadata (b'p' ∷ []) (b'd' ∷ []) refl refl refl

layout_via_index_complete_example :
    has_blocks (layout_via_index net no_layout ([] ∷ (1 ∷ []) ∷ []))
    ≡ any_leads net ([] ∷ (1 ∷ []) ∷ [])
layout_via_index_complete_example =
    layout_via_index_complete net no_layout ([] ∷ (1 ∷ []) ∷ []) refl

test_layout :
    layout_via_index net no_layout ([] ∷ (1 ∷ []) ∷ []) ≡ hash_layout (unshift (b'h' ∷ []))
unfolding layout_via_index parse_rq_metadata_file
test_layout = refl

gen_index_files-read_example :
    parse_index_file net (b'i' ∷ b'.' ∷ b's' ∷ b'.' ∷ b'0' ∷ []) ≡ decode_index_file net (b'i' ∷ [])
unfolding gen_index_files extract_index_file_and_signature
gen_index_files-read_example =
    gen_index_files-read net unzips layout_files (b'l' ∷ []) the_metadata.signatures (b'i' ∷ [])
      (b's' ∷ []) (2 ^ 32 - 1) 2 index_files index_files refl refl second
      (b'i' ∷ b'.' ∷ b's' ∷ b'.' ∷ b'0' ∷ []) refl

verify_signature_and_decode_layout-accepted_example :
    (is_accepted (
        verify_signature_and_decode_layout net the_metadata.signatures
          (8 ∷ [])
          (hash_layout (b'h' ∷ [])))
      ≡ true)
    ↔ IsSigned net the_metadata.signatures (8 ∷ []) (hash_layout (b'h' ∷ []))
verify_signature_and_decode_layout-accepted_example =
    verify_signature_and_decode_layout-accepted net the_metadata.signatures (8 ∷ [])
      (hash_layout (b'h' ∷ []))

test_accepted :
    is_accepted (
      verify_signature_and_decode_layout net the_metadata.signatures
        (8 ∷ [])
        (hash_layout (b'h' ∷ [])))
    ≡ true
unfolding verify_signature_and_decode_layout extract_index_file_and_signature decode_index_file
test_accepted = refl
