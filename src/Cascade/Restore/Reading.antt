-- ===== src/Cascade/Restore/Reading.antt =====
-- What a download reads of the index files that a registration stored.
use supernode.Base.{
  ℕ, ◌+◌, ◌%◌, ◌^◌, ◌≡◌, ◌≢◌, refl, some, List, [], ◌∷◌, ◌++◌, Bytes, arith, get_elem?,
}
use supernode.SnManager.Version.{split_on, push_front}
use supernode.Cascade.IdFiles.{separator_byte, itoa, gen_index_files}
use supernode.Cascade.IdFiles.RoundTrip.{get_id_files-contents}
use supernode.Cascade.Signatures.{first_two, extract_index_file_and_signature, decode_index_file}
use supernode.Cascade.Restore.{parse_index_file}
use supernode.Cascade.{Services}

push_front-append :
    (x : ℕ) (ws vs : List Bytes) → ws ≢ [] → push_front x (ws ++ vs) ≡ push_front x ws ++ vs
push_front-append x [] vs h = ground arith
push_front-append x (w ∷ ws) vs h = refl

push_front_nonempty : (x : ℕ) (ws : List Bytes) → push_front x ws ≢ []
push_front_nonempty x [] h = cc
push_front_nonempty x (w ∷ ws) h = cc

split_on_nonempty : (c : ℕ) (s : Bytes) → split_on c s ≢ []
unfolding split_on
split_on_nonempty c [] h = cc
split_on_nonempty c (x ∷ s) h = ground (arith, push_front_nonempty x (split_on c s))

split_on_joined : (c : ℕ) (s t : Bytes) → split_on c (s ++ c ∷ t) ≡ split_on c s ++ split_on c t
unfolding split_on
split_on_joined c [] t = ground arith
split_on_joined c (x ∷ s) t = ground (
  arith,
  split_on_joined c s t,
  push_front-append x (split_on c s) (split_on c t) (split_on_nonempty c s),
)

first_two-append :
    (xs ys : List Bytes) (p : Bytes × Bytes) → first_two xs ≡ some p → first_two (xs ++ ys) ≡ some p
unfolding first_two
first_two-append [] ys p h = ground arith
first_two-append (x ∷ []) ys p h = ground arith
first_two-append (x ∷ y ∷ xs) ys p h = h

-- Where zstd decodes what it encodes, every index file of a registration is read back, by the
-- parser of a download, to the index file that stands in the action's signatures, whatever the
-- layout files are.
pub gen_index_files-read :
    (s : Services)
    → ((x y : Bytes) → s.zstd_compress x ≡ some y → s.zstd_decompress y ≡ some x)
    → (layout_files : List Bytes) (layout_signature signatures index_b64 signature : Bytes)
      (ic max : ℕ) (ids files : List Bytes)
    → extract_index_file_and_signature signatures ≡ some (index_b64, signature)
    → gen_index_files s layout_files layout_signature signatures ic max ≡ some (ids, files)
    → (k : ℕ) (f : Bytes) → get_elem? files k ≡ some f
    → parse_index_file s f ≡ decode_index_file s index_b64
unfolding gen_index_files parse_index_file extract_index_file_and_signature
gen_index_files-read s unzip layout_files layout_signature signatures index_b64 signature ic max ids
      files parts h k f e =
    let (_, _, nth) = get_id_files-contents s signatures ic max ids files h in
    let joined = split_on_joined separator_byte signatures (itoa ((ic + k) % 2 ^ 32)) in
    rw (unzip _ _ (nth k f e), parse_index_file)
      (rw joined (
        rw
          (first_two-append (split_on separator_byte signatures)
            (split_on separator_byte (itoa ((ic + k) % 2 ^ 32))) (index_b64, signature) parts)
          refl))
