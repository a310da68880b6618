-- ===== src/Cascade/IdFiles.antt =====
-- supernode/services/cascade/metadata.go, and `parseRQMetadataFile` of helper.go: the files that
-- carry a layout or an index, a signature and a counter, and their identifiers.
pub mod Digits
pub mod RoundTrip
use supernode.Base.{
  ℕ, zero, suc, ◌+◌, ◌*◌, ◌/◌, ◌%◌, ◌^◌, Bool, true, false, Option, none, some, List, [], ◌∷◌, ◌++◌,
  Bytes, ltb, if◌then◌else◌, map,
}
use supernode.Base.Options.{◌>>=◌}
use supernode.SnManager.Version.{split_on}
use supernode.Cascade.{Services, Layout}

abbrev pub separator_byte : ℕ
separator_byte = 46

-- `strconv.Itoa` on a number that is not negative: the digits in front of `acc`, at most one for
-- each unit of fuel.
pub digits : ℕ → ℕ → Bytes → Bytes
digits zero n acc = (b'0' + n % 10) ∷ acc
digits (suc fuel) n acc =
    let more = digits fuel (n / 10) ((b'0' + n % 10) ∷ acc) in
    if ltb n 10 then (b'0' + n % 10) ∷ acc else more

unfoldable pub itoa : ℕ → Bytes
unfolding digits
itoa n = digits n n []

-- `counter := ic + i`, of type `uint32`.
pub counter : ℕ → ℕ → ℕ
counter ic i = (ic + i) % 2 ^ 32

-- What round `i` writes to the buffer.
pub buffer : Bytes → ℕ → ℕ → Bytes
unfolding itoa counter
buffer content ic i = content ++ separator_byte ∷ itoa (counter ic i)

-- The loop of `GetIDFiles` from round `i`, with `rounds` left: the identifiers and the files. An
-- error discards what is there, as both callers do.
pub id_files_from : Services → Bytes → ℕ → ℕ → ℕ → Option (List Bytes × List Bytes)
unfolding buffer
id_files_from s content ic i zero = some ([], [])
id_files_from s content ic i (suc rounds) = do
  compressed_data ← s.zstd_compress (buffer content ic i)
  (ids, files) ← id_files_from s content ic (i + 1) rounds
  some (s.base58_encode (s.blake3 compressed_data) ∷ ids, compressed_data ∷ files)

pub get_id_files : Services → Bytes → ℕ → ℕ → Option (List Bytes × List Bytes)
unfolding id_files_from
get_id_files s content ic max = id_files_from s content ic 0 max

unfoldable pub gen_rq_identifiers_files :
    Services → Layout → Bytes → ℕ → ℕ → Option (List Bytes × List Bytes)
unfolding get_id_files
gen_rq_identifiers_files s metadata signature ic rq_max = do
  metadata_file ← s.marshal_layout metadata
  get_id_files s (s.b64_encode metadata_file ++ separator_byte ∷ signature) ic rq_max

-- The identifiers of the layout files, which the code computes and does not use.
pub layout_ids : Services → List Bytes → List Bytes
layout_ids s layout_files = map (λ f. s.base58_encode (s.blake3 f)) layout_files

unfoldable pub gen_index_files :
    Services → List Bytes → Bytes → Bytes → ℕ → ℕ → Option (List Bytes × List Bytes)
unfolding get_id_files layout_ids
gen_index_files s layout_files layout_signature signatures_format ic max =
    let ids = layout_ids s layout_files in get_id_files s signatures_format ic max

-- The layout, the signature and the counter.
pub parse_parts : Services → List Bytes → Option (Layout × Bytes × Bytes)
parse_parts s (layout_b64 ∷ signature ∷ count ∷ []) = do
  layout_json ← s.b64_decode layout_b64
  layout ← s.unmarshal_layout layout_json
  some (layout, signature, count)
parse_parts s _ = none

unfoldable pub parse_rq_metadata_file : Services → Bytes → Option (Layout × Bytes × Bytes)
unfolding parse_parts split_on
parse_rq_metadata_file s data_ = do
  decompressed ← s.zstd_decompress data_
  parse_parts s (split_on separator_byte decompressed)
