-- ===== src/Cascade/Signatures/Validity.antt =====
-- Which signatures are accepted.
use supernode.Base.{
  ℕ, ◌==◌, ◌≡◌, ◌↔◌, ◌⊎◌, refl, ap, Bool, true, false, some, [], ◌∷◌, ◌++◌, Bytes, arith, inl, inr,
  Option-cases, Bool-cases,
}
use supernode.SnManager.Gateway.{has_byte}
use supernode.Cascade.IdFiles.Digits.{split_on_whole, split_on-append}
use supernode.Cascade.{Services, Layout, IndexFile, Result, ok, failed, panicked}
use supernode.Cascade.Signatures.{
  extract_index_file_and_signature, decode_index_file, verify_layout,
  verify_signature_and_decode_layout,
}

abbrev pub is_accepted : {A : Type 0} → Result A → Bool
is_accepted (ok a) = true
is_accepted (failed m) = false
is_accepted panicked = false

-- A text that starts with these two parts, between points.
pub record HasParts (text first second : Bytes) : Type 0 where
  tail : Bytes
  whole : (text ≡ first ++ b'.' ∷ second) ⊎ (text ≡ first ++ b'.' ∷ (second ++ b'.' ∷ tail))
  first_clean : has_byte b'.' first ≡ false
  second_clean : has_byte b'.' second ≡ false

-- A text has no such byte, or there is a first one.
Splits : ℕ → Bytes → Type 0
Splits c text =
    (has_byte c text ≡ false)
    ⊎ ((s : Bytes) × (t : Bytes) × (text ≡ s ++ c ∷ t) × (has_byte c s ≡ false))

find_byte : (c : ℕ) (text : Bytes) → Splits c text
unfolding has_byte Splits
find_byte c [] = inl refl
find_byte c (x ∷ xs) = elim (Bool-cases (x == c)) [
  | inl here ↦ inr ([], xs, ground (arith, here), refl)
  | inr other ↦ elim (find_byte c xs) [
    | inl clean ↦ inl (ground (arith, other, clean))
    | inr (s, t, e, clean) ↦ inr (x ∷ s, t, ap (λ r. x ∷ r) e, ground (arith, other, clean))
  ]
]

extract-HasParts :
    (text first second : Bytes)
    → extract_index_file_and_signature text ≡ some (first, second)
    → HasParts text first second
unfolding extract_index_file_and_signature Splits
extract-HasParts text first second h = elim (find_byte b'.' text) [
  | inl clean ↦ absurd (ground (arith, h, split_on_whole b'.' text clean))
  | inr (s, t, e, clean) ↦
      let outer = split_on-append b'.' s t clean in
      elim (find_byte b'.' t) [
        | inl clean' ↦
            let (same, same') : (s ≡ first) × (t ≡ second) =
              ground (arith, h, e, outer, split_on_whole b'.' t clean') in
            record {
              tail = [];
              whole = inl (ground (arith, e, same, same'));
              first_clean = ground (arith, clean, same);
              second_clean = ground (arith, clean', same');
            }
        | inr (s', t', e', clean') ↦
            let (same, same') : (s ≡ first) × (s' ≡ second) =
              ground (arith, h, e, e', outer, split_on-append b'.' s' t' clean') in
            record {
              tail = t';
              whole = inr (ground (arith, e, e', same, same'));
              first_clean = ground (arith, clean, same);
              second_clean = ground (arith, clean', same');
            }
      ]
]

HasParts-extract :
    (text first second : Bytes)
    → HasParts text first second
    → extract_index_file_and_signature text ≡ some (first, second)
unfolding extract_index_file_and_signature
HasParts-extract text first second p = elim p.whole [
  | inl e ↦ ground (
    arith,
    e,
    split_on-append b'.' first second p.first_clean,
    split_on_whole b'.' second p.second_clean,
  )
  | inr e ↦ ground (
    arith,
    e,
    split_on-append b'.' first (second ++ b'.' ∷ p.tail) p.first_clean,
    split_on-append b'.' second p.tail p.second_clean,
  )
]

-- The text of an action's signatures is the base64 of an index file and a signature, the creator
-- signed the index file's base64, and the index file has the creator's signature of the layout.
pub record IsSigned (s : Services) (encoded creator : Bytes) (layout : Layout) : Type 0 where
  index_b64 : Bytes
  creator_sig : Bytes
  signature : Bytes
  decoded : Bytes
  index_file : IndexFile
  layout_signature : Bytes
  layout_json : Bytes
  parts : HasParts encoded index_b64 creator_sig
  signature_decodes : s.b64_decode creator_sig ≡ some signature
  signs_index : s.verify creator index_b64 signature ≡ true
  index_decodes : s.b64_decode index_b64 ≡ some decoded
  index_parses : s.unmarshal_index_file decoded ≡ some index_file
  layout_decodes : s.b64_decode index_file.layout_signature ≡ some layout_signature
  layout_marshals : s.marshal_layout layout ≡ some layout_json
  signs_layout : s.verify creator (s.b64_encode layout_json) layout_signature ≡ true

module _ (s : Services) (encoded creator : Bytes) (layout : Layout) where
  IsSigned-accepted :
      IsSigned s encoded creator layout
      → is_accepted (verify_signature_and_decode_layout s encoded creator layout) ≡ true
  unfolding verify_signature_and_decode_layout verify_layout decode_index_file
  IsSigned-accepted h =
      let extracted = HasParts-extract encoded h.index_b64 h.creator_sig h.parts in
      ground (
        arith, extracted, h.signature_decodes, h.signs_index, h.index_decodes, h.index_parses,
        h.layout_decodes, h.layout_marshals, h.signs_layout,
      )

  accepted-IsSigned :
      is_accepted (verify_signature_and_decode_layout s encoded creator layout) ≡ true
      → IsSigned s encoded creator layout
  unfolding verify_signature_and_decode_layout verify_layout decode_index_file
  accepted-IsSigned h = elim (Option-cases (extract_index_file_and_signature encoded)) [
    | inl bad ↦ absurd (ground (arith, h, bad))
    | inr ((index_b64, creator_sig), parts) ↦ elim (Option-cases (s.b64_decode creator_sig)) [
      | inl bad ↦ absurd (ground (arith, h, parts, bad))
      | inr (signature, e1) ↦ elim (Option-cases (s.b64_decode index_b64)) [
        | inl bad ↦ absurd (ground (arith, h, parts, e1, bad))
        | inr (decoded, e2) ↦ elim (Option-cases (s.unmarshal_index_file decoded)) [
          | inl bad ↦ absurd (ground (arith, h, parts, e1, e2, bad))
          | inr (index_file, e3) ↦ elim (Option-cases (s.b64_decode index_file.layout_signature)) [
            | inl bad ↦ absurd (ground (arith, h, parts, e1, e2, e3, bad))
            | inr (layout_signature, e4) ↦ elim (Option-cases (s.marshal_layout layout)) [
              | inl bad ↦ absurd (ground (arith, h, parts, e1, e2, e3, e4, bad))
              | inr (layout_json, e5) ↦ record {
                index_b64 = index_b64;
                creator_sig = creator_sig;
                signature = signature;
                decoded = decoded;
                index_file = index_file;
                layout_signature = layout_signature;
                layout_json = layout_json;
                parts = extract-HasParts encoded index_b64 creator_sig parts;
                signature_decodes = e1;
                signs_index = ground (arith, h, parts, e1, e2, e3, e4, e5);
                index_decodes = e2;
                index_parses = e3;
                layout_decodes = e4;
                layout_marshals = e5;
                signs_layout = ground (arith, h, parts, e1, e2, e3, e4, e5);
              }
            ]
          ]
        ]
      ]
    ]
  ]

-- The signatures field of an action is accepted for a layout exactly if it starts with two parts
-- between points, the base64 of an index file and of a signature: the creator's signature on that
-- base64 is valid, and so is the signature in the index file on the base64 of the layout's JSON.
-- All of them decode.
pub verify_signature_and_decode_layout-accepted :
    (s : Services) (encoded creator : Bytes) (layout : Layout)
    → (is_accepted (verify_signature_and_decode_layout s encoded creator layout) ≡ true)
      ↔ IsSigned s encoded creator layout
verify_signature_and_decode_layout-accepted s encoded creator layout =
    (accepted-IsSigned s encoded creator layout, IsSigned-accepted s encoded creator layout)
