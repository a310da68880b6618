-- ===== src/Cascade/Network.antt =====
-- A small network for the examples: a chain with one action, an encoding with one block, and
-- packages that keep a text as it is or shift it past the point.
use supernode.Base.{
  ℕ, zero, suc, ◌+◌, ◌-◌, ◌^◌, ◌≡◌, refl, ap, true, false, Option, none, some, List, [], ◌∷◌, Bytes,
  ltb, ◌==◌, if◌then◌else◌, arith,
}
use supernode.Base.Int.{ℤ, pos, negsuc}
use supernode.SnManager.Gateway.{has_byte}
use supernode.Cascade.IdFiles.{separator_byte}
use supernode.Cascade.Steps.{RegisterRequest}
use supernode.Cascade.{Services, Layout, Block, Coin, Action, CascadeMetadata}

-- A text without the point, byte 46.
abbrev shift_byte : ℕ → ℕ
shift_byte b = if ltb b 46 then b else b + 1

abbrev unshift_byte : ℕ → ℕ
unshift_byte b = if ltb b 46 then b else b - 1

abbrev pub shift : Bytes → Bytes
shift [] = []
shift (b ∷ bs) = shift_byte b ∷ shift bs

abbrev pub unshift : Bytes → Bytes
unshift [] = []
unshift (b ∷ bs) = unshift_byte b ∷ unshift bs

-- The layouts of one block that has a hash and nothing else.
abbrev pub hash_layout : Bytes → Layout
hash_layout hash = record {
  blocks =
      record {
        block_id = pos 0;
        encoder_parameters = [];
        original_offset = pos 0;
        size = pos 0;
        symbols = [];
        hash = hash;
      }
      ∷ [];
}

abbrev block_text : ℤ → List ℤ → ℤ → ℤ → List Bytes → Bytes → Option Bytes
block_text (pos zero) [] (pos zero) (pos zero) [] hash = some hash
block_text _ _ _ _ _ _ = none

abbrev blocks_text : List Block → Option Bytes
blocks_text [] = none
blocks_text (b ∷ []) =
    block_text b.block_id b.encoder_parameters b.original_offset b.size b.symbols b.hash
blocks_text _ = none

abbrev coin : ℤ → Coin
coin n = record { denom = []; amount = n }

abbrev pub the_action : Action
the_action = record {
  action_id = 7 ∷ [];
  creator = 8 ∷ [];
  block_height = 5;
  metadata = [];
  price = coin (pos 9);
  is_done = true;
}

abbrev pub the_metadata : CascadeMetadata
the_metadata = record {
  data_hash = 3 ∷ [];
  rq_ids_ic = 2 ^ 32 - 1;
  rq_ids_max = 2;
  rq_ids_ids = [] ∷ (1 ∷ []) ∷ [];
  signatures = b'i' ∷ b'.' ∷ b's' ∷ [];
}

-- Identifier 1 gives an index file that names identifier 2, which gives a layout file.
abbrev the_files : Bytes → Option Bytes
the_files [] = none
the_files (b ∷ bs) =
    if b == 1
    then some (b'i' ∷ b'.' ∷ b's' ∷ b'.' ∷ b'4' ∷ [])
    else if b == 2
    then some (b'h' ∷ b'.' ∷ b'l' ∷ b'.' ∷ b'4' ∷ [])
    else none

abbrev pub net : Services
net = record {
  get_action = λ id. some the_action;
  get_top_supernodes = λ height. some ((5 ∷ []) ∷ (6 ∷ []) ∷ []);
  get_action_fee = λ size. some (b'4' ∷ []);
  verify = λ creator data_ signature. true;
  finalize_action = λ id rqids. some (b't' ∷ []);
  encode_input =
      λ id path size. some record { symbols_dir = b'd' ∷ []; encoded = hash_layout (b'h' ∷ []) };
  decode = λ id symbols layout. some record { file_path = b'p' ∷ []; decode_tmp_dir = b'd' ∷ [] };
  store_artefacts = λ files dir id. true;
  retrieve = the_files;
  batch_retrieve = λ symbols n id. some symbols;
  hash_file = λ path. some (3 ∷ []);
  new_coin = λ denom n. some (coin n);
  is_lt = λ price fee. some false;
  unmarshal_metadata = λ raw. some the_metadata;
  marshal_layout = λ layout. blocks_text layout.blocks;
  unmarshal_layout = λ text. some (hash_layout text);
  unmarshal_index_file = λ text.
      some record { version = pos 1; layout_ids = (2 ∷ []) ∷ []; layout_signature = b'l' ∷ [] };
  b64_encode = shift;
  b64_decode = λ text. some (unshift text);
  base58_encode = λ text. text;
  zstd_compress = λ text. some text;
  zstd_decompress = λ text. some text;
  blake3 = λ text. text;
}

abbrev pub request : RegisterRequest
request = record { action_id = 7 ∷ []; data_hash = 3 ∷ []; data_size = 2048; file_path = b'f' ∷ [] }

pub unshift-shift : (text : Bytes) → some (unshift (shift text)) ≡ some text
unshift-shift [] = refl
unshift-shift (b ∷ bs) = ground (arith, unshift-shift bs)

pub shift-has_byte : (text : Bytes) → has_byte separator_byte (shift text) ≡ false
unfolding has_byte
shift-has_byte [] = refl
shift-has_byte (b ∷ bs) = ground (arith, shift-has_byte bs)

pub unzips : (x y : Bytes) → some x ≡ some y → some y ≡ some x
unzips x y e = cc

block_unmarshals :
    (id : ℤ) (parameters : List ℤ) (offset size : ℤ) (symbols : List Bytes) (hash x : Bytes)
    → block_text id parameters offset size symbols hash ≡ some x
    → hash_layout x ≡ record {
      blocks =
          record {
            block_id = id;
            encoder_parameters = parameters;
            original_offset = offset;
            size = size;
            symbols = symbols;
            hash = hash;
          }
          ∷ [];
    }
block_unmarshals (pos zero) [] (pos zero) (pos zero) [] hash x e = cc
block_unmarshals (pos zero) [] (pos zero) (pos zero) (s ∷ ss) hash x e = cc
block_unmarshals (pos zero) [] (pos zero) (pos (suc n)) symbols hash x e = cc
block_unmarshals (pos zero) [] (pos zero) (negsuc n) symbols hash x e = cc
block_unmarshals (pos zero) [] (pos (suc n)) size symbols hash x e = cc
block_unmarshals (pos zero) [] (negsuc n) size symbols hash x e = cc
block_unmarshals (pos zero) (p ∷ ps) offset size symbols hash x e = cc
block_unmarshals (pos (suc n)) parameters offset size symbols hash x e = cc
block_unmarshals (negsuc n) parameters offset size symbols hash x e = cc

pub unmarshals :
    (l : Layout) (x : Bytes) → blocks_text l.blocks ≡ some x → some (hash_layout x) ≡ some l
unmarshals l x e = ap (λ k. some k) (go l.blocks e)
  where
    go : (bs : List Block) → blocks_text bs ≡ some x → hash_layout x ≡ record { blocks = bs }
    go [] e = cc
    go (b ∷ []) e =
        block_unmarshals b.block_id b.encoder_parameters b.original_offset b.size b.symbols b.hash x
          e
    go (b ∷ c ∷ bs) e = cc
