-- ===== src/Cascade/IdFiles/RoundTrip.antt =====
-- What the identifier files hold.
use supernode.Base.{
  ℕ, zero, suc, ◌+◌, ◌%◌, ◌^◌, ◌≤◌, ◌<◌, ◌≡◌, refl, subst, ap, ◌∙◌, false, some, List, [], ◌∷◌,
  ◌++◌, map, Bytes, length, get_elem?, arith, append_assoc, Option-cases, inl, inr,
}
use supernode.SnManager.Version.{split_on}
use supernode.SnManager.Gateway.{has_byte}
use supernode.Cascade.{Services, Layout}
use supernode.Cascade.IdFiles.Digits.{
  split_on_whole, split_on-append, itoa-has_byte, append_cancel, itoa-injective,
}
use supernode.Cascade.IdFiles.{
  itoa, counter, buffer, id_files_from, get_id_files, gen_rq_identifiers_files, parse_parts,
  parse_rq_metadata_file, separator_byte,
}

counter-distinct : (ic i j : ℕ) → i < 2 ^ 32 → j < 2 ^ 32 → counter ic i ≡ counter ic j → i ≡ j
unfolding counter
counter-distinct ic i j hi hj e = ground arith

-- One round of the loop.
id_files_round :
    (s : Services) (content : Bytes) (ic i rounds : ℕ) (ids files : List Bytes)
    → id_files_from s content ic i (suc rounds) ≡ some (ids, files)
    → (f : Bytes) × (rest : List Bytes × List Bytes) × (s.zstd_compress (buffer content ic i)
        ≡ some f)
      × (id_files_from s content ic (i + 1) rounds ≡ some rest)
      × (ids ≡ s.base58_encode (s.blake3 f) ∷ rest.0)
      × (files ≡ f ∷ rest.1)
unfolding id_files_from
id_files_round s content ic i rounds ids files h =
    elim (Option-cases (s.zstd_compress (buffer content ic i))) [
      | inl fails ↦ cc
      | inr (f, e) ↦ elim (Option-cases (id_files_from s content ic (i + 1) rounds)) [
        | inl fails ↦ ground arith
        | inr (rest, e') ↦ (f, rest, e, e', ground arith, ground arith)
      ]
    ]

-- File `k` compresses the content with the counter of round `k`.
file_at :
    (s : Services) (content : Bytes) (ic i rounds : ℕ) (ids files : List Bytes)
    → id_files_from s content ic i rounds ≡ some (ids, files)
    → (k : ℕ) (f : Bytes) → get_elem? files k ≡ some f
    → s.zstd_compress (buffer content ic (i + k)) ≡ some f
unfolding id_files_from
file_at s content ic i zero ids files h k f e = ground arith
file_at s content ic i (suc rounds) ids files h zero f e =
    let (g, rest, compressed, more, _, all) = id_files_round s content ic i rounds ids files h in
    ground arith
file_at s content ic i (suc rounds) ids files h (suc k) f e =
    let (g, rest, compressed, more, _, all) = id_files_round s content ic i rounds ids files h in
    ground (arith, file_at s content ic (i + 1) rounds rest.0 rest.1 more k f)

id_files-length :
    (s : Services) (content : Bytes) (ic i rounds : ℕ) (ids files : List Bytes)
    → id_files_from s content ic i rounds ≡ some (ids, files)
    → (length files ≡ rounds) × (ids ≡ map (λ f. s.base58_encode (s.blake3 f)) files)
unfolding id_files_from
id_files-length s content ic i zero ids files h = ground arith
id_files-length s content ic i (suc rounds) ids files h =
    let (g, rest, compressed, more, heads, all) =
      id_files_round s content ic i rounds ids files h in
    ground (arith, id_files-length s content ic (i + 1) rounds rest.0 rest.1 more)

nth_file :
    (s : Services) (content : Bytes) (ic max : ℕ) (ids files : List Bytes)
    → get_id_files s content ic max ≡ some (ids, files)
    → (k : ℕ) (f : Bytes) → get_elem? files k ≡ some f
    → s.zstd_compress (buffer content ic k) ≡ some f
unfolding get_id_files
nth_file s content ic max ids files h k f e =
    subst (λ n. s.zstd_compress (buffer content ic n) ≡ some f) zero_plus
      (file_at s content ic 0 max ids files h k f e)
  where
    zero_plus : 0 + k ≡ k
    zero_plus = omega arith

get_elem?-bound : (xs : List Bytes) (k : ℕ) (f : Bytes) → get_elem? xs k ≡ some f → k < length xs
get_elem?-bound [] k f e = ground arith
get_elem?-bound (x ∷ xs) zero f e = ground arith
get_elem?-bound (x ∷ xs) (suc k) f e = ground (arith, get_elem?-bound xs k f)

three_parts :
    (content signature : Bytes) (ic k : ℕ)
    → has_byte separator_byte content ≡ false
    → has_byte separator_byte signature ≡ false
    → split_on separator_byte (buffer (content ++ separator_byte ∷ signature) ic k)
      ≡ content ∷ signature ∷ itoa ((ic + k) % 2 ^ 32) ∷ []
unfolding buffer counter
three_parts content signature ic k h h' =
    ap (split_on separator_byte) (append_assoc content (separator_byte ∷ signature) _)
    ∙ split_on-append separator_byte content _ h
    ∙ ap (λ l. content ∷ l)
        (split_on-append separator_byte signature _ h'
          ∙ ap (λ l. signature ∷ l)
              (split_on_whole separator_byte _ (itoa-has_byte separator_byte (counter ic k) refl)))

-- The content of a file with its counter is read back.
parse-buffer :
    (s : Services)
    → ((x : Bytes) → s.b64_decode (s.b64_encode x) ≡ some x)
    → ((x : Bytes) → has_byte separator_byte (s.b64_encode x) ≡ false)
    → (layout : Layout) (json signature f : Bytes) (ic k : ℕ)
    → s.unmarshal_layout json ≡ some layout
    → has_byte separator_byte signature ≡ false
    → s.zstd_decompress f ≡ some (buffer (s.b64_encode json ++ separator_byte ∷ signature) ic k)
    → parse_rq_metadata_file s f ≡ some (layout, signature, itoa ((ic + k) % 2 ^ 32))
unfolding parse_rq_metadata_file parse_parts
parse-buffer s unb64 no_point layout json signature f ic k unjson clean e = rw e (
    rw (three_parts (s.b64_encode json) signature ic k (no_point json) clean)
      (rw (unb64 json) (rw unjson refl)))

-- `GetIDFiles` gives as many files as asked for. File `k` is the compression of the content, a
-- point and the decimal counter `(ic + k) % 2 ^ 32`. The identifiers are the base58 texts of the
-- files' blake3 hashes, in the same order.
pub get_id_files-contents :
    (s : Services) (content : Bytes) (ic max : ℕ) (ids files : List Bytes)
    → get_id_files s content ic max ≡ some (ids, files)
    → (length files ≡ max)
      × (ids ≡ map (λ f. s.base58_encode (s.blake3 f)) files)
      × ((k : ℕ) (f : Bytes)
          → get_elem? files k ≡ some f
          → s.zstd_compress (content ++ separator_byte ∷ itoa ((ic + k) % 2 ^ 32)) ≡ some f)
unfolding get_id_files buffer counter
get_id_files-contents s content ic max ids files h =
    let (size, names) = id_files-length s content ic 0 max ids files h in
    (size, names, nth_file s content ic max ids files h)

buffer-injective :
    (content : Bytes) (ic i j : ℕ)
    → buffer content ic i ≡ buffer content ic j
    → counter ic i ≡ counter ic j
unfolding buffer
buffer-injective content ic i j e =
    let tails : separator_byte ∷ itoa (counter ic i) ≡ separator_byte ∷ itoa (counter ic j) =
      append_cancel content _ _ e in
    itoa-injective _ _ cc

-- Where decompressing inverts compressing, no two of the files of `GetIDFiles` are equal: the
-- counters do not repeat in at most 2 ^ 32 rounds, also where `ic + i` wraps around.
get_id_files-distinct :
    (s : Services)
    → ((x y : Bytes) → s.zstd_compress x ≡ some y → s.zstd_decompress y ≡ some x)
    → (content : Bytes) (ic max : ℕ) (ids files : List Bytes) → max ≤ 2 ^ 32
    → get_id_files s content ic max ≡ some (ids, files)
    → (j k : ℕ) (f : Bytes) → get_elem? files j ≡ some f
    → get_elem? files k ≡ some f
    → j ≡ k
unfolding get_id_files
get_id_files-distinct s unzip content ic max ids files small h j k f ej ek =
    let one = unzip _ _ (nth_file s content ic max ids files h j f ej) in
    let two = unzip _ _ (nth_file s content ic max ids files h k f ek) in
    let size = (id_files-length s content ic 0 max ids files h).0 in
    counter-distinct ic j k (ground (arith, get_elem?-bound files j f ej))
      (ground (arith, get_elem?-bound files k f ek)) (buffer-injective content ic j k cc)

-- Where base64, JSON and zstd decode what they encode, and neither base64 nor the signature has a
-- point, `parseRQMetadataFile` reads every file of `GenRQIdentifiersFiles` back: it gives the
-- layout, the signature and the counter `(ic + k) % 2 ^ 32` of file `k`.
pub gen_rq_identifiers_files-parse :
    (s : Services)
    → ((x y : Bytes) → s.zstd_compress x ≡ some y → s.zstd_decompress y ≡ some x)
    → ((x : Bytes) → s.b64_decode (s.b64_encode x) ≡ some x)
    → ((x : Bytes) → has_byte separator_byte (s.b64_encode x) ≡ false)
    → ((l : Layout) (x : Bytes) → s.marshal_layout l ≡ some x → s.unmarshal_layout x ≡ some l)
    → (layout : Layout) (signature : Bytes) (ic max : ℕ) (ids files : List Bytes)
    → has_byte separator_byte signature ≡ false
    → gen_rq_identifiers_files s layout signature ic max ≡ some (ids, files)
    → (k : ℕ) (f : Bytes) → get_elem? files k ≡ some f
    → parse_rq_metadata_file s f ≡ some (layout, signature, itoa ((ic + k) % 2 ^ 32))
unfolding gen_rq_identifiers_files parse_rq_metadata_file
gen_rq_identifiers_files-parse s unzip unb64 no_point unjson layout signature ic max ids files clean
      h k f e =
    elim (Option-cases (s.marshal_layout layout)) [
      | inl fails ↦ ground arith
      | inr (json, marshalled) ↦
          parse-buffer s unb64 no_point layout json signature f ic k (unjson layout json marshalled)
            clean
            (unzip _ _ (
              nth_file s _ ic max ids files (rw (marshalled, gen_rq_identifiers_files) at h) k f e))
    ]
