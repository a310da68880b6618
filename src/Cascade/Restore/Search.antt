-- ===== src/Cascade/Restore/Search.antt =====
-- What is searched for: a layout, and enough symbols.
use supernode.Base.{
  ℕ, ◌*◌, ◌≤◌, ◌≡◌, refl, Bool, true, false, ◌||◌, Option, none, some, List, [], ◌∷◌, Bytes, arith,
  inl, inr, Option-cases,
}
use supernode.Cascade.{Services, Layout}
use supernode.Cascade.IdFiles.{parse_rq_metadata_file}
use supernode.Cascade.Restore.{
  retrieve_file, parse_index_file, has_blocks, read_index, read_layout, retrieve_layout_from_index,
  layout_via_index, no_layout, required_symbols,
}

-- The required number of symbols is the least one that is at least 9 percent of them.
required_symbols-least :
    (total : ℕ)
    → (9 * total ≤ 100 * required_symbols total)
      × (required_symbols total ≤ total)
      × ((n : ℕ) → 9 * total ≤ 100 * n → required_symbols total ≤ n)
unfolding required_symbols
required_symbols-least total = ground arith

-- A layout file: it is there, not empty, and parses to a layout with blocks.
abbrev is_layout_file : Services → Option Bytes → Bool
is_layout_file s none = false
is_layout_file s (some []) = false
is_layout_file s (some (b ∷ bs)) = elim (parse_rq_metadata_file s (b ∷ bs)) [
  | none ↦ false
  | some parsed ↦ has_blocks parsed.0
]

-- One of the identifiers is of a layout file.
any_layout : Services → List Bytes → Bool
any_layout s [] = false
any_layout s (id ∷ ids) = is_layout_file s (s.retrieve id) || any_layout s ids

-- An index file: it is there, not empty, and names a layout file.
abbrev names_layout : Services → Option Bytes → Bool
names_layout s none = false
names_layout s (some []) = false
names_layout s (some (b ∷ bs)) = elim (parse_index_file s (b ∷ bs)) [
  | none ↦ false
  | some index ↦ any_layout s index.layout_ids
]

-- One of the identifiers is of an index file that names a layout file.
pub any_leads : Services → List Bytes → Bool
unfolding any_layout
any_leads s [] = false
any_leads s (id ∷ ids) = names_layout s (s.retrieve id) || any_leads s ids

abbrev is_some : Option Layout → Bool
is_some none = false
is_some (some layout) = true

read_layout-is_some :
    (s : Services) (id : Bytes) → is_some (read_layout s id) ≡ is_layout_file s (s.retrieve id)
unfolding read_layout retrieve_file
read_layout-is_some s id = ground arith

retrieve_layout_from_index-is_some :
    (s : Services) (ids : List Bytes)
    → is_some (retrieve_layout_from_index s ids) ≡ any_layout s ids
unfolding retrieve_layout_from_index any_layout
retrieve_layout_from_index-is_some s [] = refl
retrieve_layout_from_index-is_some s (id ∷ ids) =
    ground (arith, read_layout-is_some s id, retrieve_layout_from_index-is_some s ids)

retrieved-has_blocks :
    (s : Services) (ids : List Bytes) (layout : Layout)
    → retrieve_layout_from_index s ids ≡ some layout
    → has_blocks layout ≡ true
unfolding retrieve_layout_from_index read_layout
retrieved-has_blocks s [] layout h = ground arith
retrieved-has_blocks s (id ∷ ids) layout h = ground (arith, retrieved-has_blocks s ids layout)

-- What an index file that is read leads to.
names_layout-read_index :
    (s : Services) (id : Bytes)
    → names_layout s (s.retrieve id)
      ≡ elim (read_index s id) [ none ↦ false | some index ↦ any_layout s index.layout_ids ]
unfolding read_index retrieve_file
names_layout-read_index s id = ground arith

-- The search through the index files gives a layout with blocks exactly if one of the identifiers
-- is of an index file that names a layout file with blocks, at any place among its identifiers:
-- missing, empty and malformed files in front of either do not stop the search.
pub layout_via_index_complete :
    (s : Services) (layout : Layout) (ids : List Bytes)
    → has_blocks layout ≡ false
    → has_blocks (layout_via_index s layout ids) ≡ any_leads s ids
unfolding layout_via_index any_leads
layout_via_index_complete s layout [] h = ground arith
layout_via_index_complete s layout (id ∷ ids) h = elim (Option-cases (read_index s id)) [
  | inl missing ↦
      ground
        (arith, missing, names_layout-read_index s id, layout_via_index_complete s layout ids h)
  | inr (index, e) ↦
      let same = retrieve_layout_from_index-is_some s index.layout_ids in
      elim (Option-cases (retrieve_layout_from_index s index.layout_ids)) [
        | inl none_there ↦ ground (
          arith,
          e,
          none_there,
          same,
          names_layout-read_index s id,
          layout_via_index_complete s no_layout ids refl,
        )
        | inr (found, e') ↦ ground (
          arith,
          e,
          e',
          same,
          names_layout-read_index s id,
          retrieved-has_blocks s index.layout_ids found e',
        )
      ]
]
