-- ===== src/Kademlia/BanList/Purging.antt =====
-- The loop of `Purge` against a plain recursion.
use native.Mathlib.Numerals.{add-one}
use supernode.Base.{
  ℕ, zero, suc, ◌+◌, ◌≡◌, refl, ◌<◌, ◌≤◌, true, false, none, some, List, [], ◌∷◌, ◌++◌,
  append_assoc, append-nil, ltb, if◌then◌else◌, length, length-append, get_elem?, take, drop, arith,
  Bool-cases, inl, inr, ◌∙◌, ap,
}
use supernode.Kademlia.BanList.{BanNode, BanList, is_expired, purge_loop, purge}

-- The nodes that are not expired at the time at which their turn comes.
abbrev pub survivors : (ℕ → ℕ) → ℕ → List BanNode → List BanNode
survivors clock k [] = []
survivors clock k (b ∷ bs) =
    if is_expired (clock k) b then survivors clock (k + 1) bs else b ∷ survivors clock (k + 1) bs

get_elem?-mid :
    (p : List BanNode) (b : BanNode) (bs : List BanNode)
    → get_elem? (p ++ b ∷ bs) (length p) ≡ some b
get_elem?-mid [] b bs = refl
get_elem?-mid (x ∷ p) b bs = get_elem?-mid p b bs

get_elem?-end : (p : List BanNode) (i : ℕ) → length p ≤ i → get_elem? p i ≡ none
get_elem?-end [] i h = refl
get_elem?-end (x ∷ p) zero h = absurd (omega arith)
get_elem?-end (x ∷ p) (suc i) h = get_elem?-end p i (omega arith)

take-mid : (p bs : List BanNode) → take (length p) (p ++ bs) ≡ p
take-mid [] bs = refl
take-mid (x ∷ p) bs = ap (◌∷◌ x) (take-mid p bs)

drop-mid :
    (p : List BanNode) (b : BanNode) (bs : List BanNode) → drop (suc (length p)) (p ++ b ∷ bs) ≡ bs
drop-mid [] b bs = refl
drop-mid (x ∷ p) b bs = drop-mid p b bs

module _ (clock : ℕ → ℕ) where
  round_fresh :
      (fuel k : ℕ) (p : List BanNode) (b : BanNode) (bs : List BanNode)
      → is_expired (clock k) b ≡ false
      → purge_loop (suc fuel) clock k (length p) (p ++ b ∷ bs)
        ≡ purge_loop fuel clock (k + 1) (length (p ++ b ∷ [])) ((p ++ b ∷ []) ++ bs)
  unfolding purge_loop
  round_fresh fuel k p b bs fresh =
      rw (get_elem?-mid p b bs, purge_loop)
        (rw (fresh, length-append p (b ∷ []), append_assoc p (b ∷ []) bs))

  round_expired :
      (fuel k : ℕ) (p : List BanNode) (b c : BanNode) (cs : List BanNode)
      → is_expired (clock k) b ≡ true
      → purge_loop (suc fuel) clock k (length p) (p ++ b ∷ c ∷ cs)
        ≡ purge_loop fuel clock (k + 1) (length p) (p ++ c ∷ cs)
  unfolding purge_loop
  round_expired fuel k p b c cs old =
      let more : ltb (length p + 1) (length (p ++ b ∷ c ∷ cs)) ≡ true =
        ground (arith, length-append p (b ∷ c ∷ cs)) in
      rw (get_elem?-mid p b (c ∷ cs), purge_loop)
        (rw (old, more, take-mid p (b ∷ c ∷ cs), add-one (length p), drop-mid p b (c ∷ cs)))

  round_end :
      (fuel k i : ℕ) (p : List BanNode) → length p ≤ i → purge_loop (suc fuel) clock k i p ≡ some p
  unfolding purge_loop
  round_end fuel k i p h = rw (get_elem?-end p i h, purge_loop)

  round_last :
      (fuel k : ℕ) (p : List BanNode) (b : BanNode)
      → is_expired (clock k) b ≡ true
      → purge_loop (suc fuel) clock k (length p) (p ++ b ∷ [])
        ≡ purge_loop fuel clock (k + 1) (length p + 1) p
  unfolding purge_loop
  round_last fuel k p b old =
      let last : ltb (length p + 1) (length (p ++ b ∷ [])) ≡ false =
        ground (arith, length-append p (b ∷ [])) in
      rw (get_elem?-mid p b [], purge_loop) (rw (old, last, take-mid p (b ∷ [])))

  after_expired :
      (fuel k : ℕ) (p : List BanNode) (b : BanNode) (bs : List BanNode)
      → is_expired (clock k) b ≡ true
      → length (b ∷ bs) < suc fuel
      → (length bs < fuel
          → purge_loop fuel clock (k + 1) (length p) (p ++ bs)
            ≡ some (p ++ survivors clock (k + 1) bs))
      → purge_loop (suc fuel) clock k (length p) (p ++ b ∷ bs)
        ≡ some (p ++ survivors clock (k + 1) bs)
  after_expired zero k p b bs old h later = absurd (omega arith)
  after_expired (suc fuel) k p b [] old h later =
      round_last (suc fuel) k p b old
      ∙ round_end fuel (k + 1) (length p + 1) p (omega arith)
      ∙ rw (append-nil p)
  after_expired (suc fuel) k p b (c ∷ cs) old h later =
      round_expired (suc fuel) k p b c cs old ∙ later (omega arith)

  purge_loop-survivors :
      (fuel k : ℕ) (p rest : List BanNode)
      → length rest < fuel
      → purge_loop fuel clock k (length p) (p ++ rest) ≡ some (p ++ survivors clock k rest)
  purge_loop-survivors zero k p rest h = elim h [ ]
  purge_loop-survivors (suc fuel) k p [] h =
      rw (append-nil p) (round_end fuel k (length p) p (omega arith))
  purge_loop-survivors (suc fuel) k p (b ∷ bs) h = elim (Bool-cases (is_expired (clock k) b)) [
    | inr fresh ↦
        round_fresh fuel k p b bs fresh
        ∙ purge_loop-survivors fuel (k + 1) (p ++ b ∷ []) bs (omega arith)
        ∙ rw (fresh, append_assoc p (b ∷ []))
    | inl old ↦ rw old (after_expired fuel k p b bs old h (purge_loop-survivors fuel (k + 1) p bs))
  ]

-- `Purge` ends, and leaves exactly the nodes that are not past 3 hours after their creation at the
-- time read in their round, in their order.
pub purge-survivors :
    (s : BanList) (clock : ℕ → ℕ)
    → purge s clock ≡ some (record s { nodes = survivors clock 0 s.nodes })
unfolding purge
purge-survivors s clock =
    rw (purge_loop-survivors clock (suc (length s.nodes)) 0 [] s.nodes (omega arith), purge)
