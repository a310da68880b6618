-- ===== src/Kademlia/NodeKeys.antt =====
-- p2p/kademlia/common.go: nodes written as keys, and read from keys.
use supernode.Base.{
  ℕ, ◌^◌, ◌<◌, ◌≡◌, refl, ap, ◌∙◌, subst, true, false, Option, none, some, List, [], ◌∷◌, ◌++◌,
  Bytes, ltb, if◌then◌else◌, arith,
}
use supernode.Kademlia.Node.{Node}
use supernode.Kademlia.HashTable.{◌>>=◌}
use supernode.SnManager.Version.{split_on, digits_value}
use supernode.SnManager.Gateway.{has_byte}
use supernode.Cascade.IdFiles.{itoa}
use supernode.Cascade.IdFiles.Digits.{
  itoa-cons, split_on_whole, split_on-append, itoa-has_byte, digits_value-itoa,
}

pub generate_key_from_node : Node → Bytes
generate_key_from_node node = node.id ++ (b'^' ∷ (node.ip ++ (b'^' ∷ itoa node.port)))

-- `strconv.ParseUint(s, 10, 16)`; `none` is an error.
parse_uint16 : Bytes → Option ℕ
unfolding digits_value
parse_uint16 [] = none
parse_uint16 (d ∷ ds) = do n ← digits_value 0 (d ∷ ds); if ltb n (2 ^ 16) then some n else none

node_of_parts : List Bytes → Option Node
unfolding parse_uint16
node_of_parts (id ∷ ip ∷ port_text ∷ []) = do
  port ← parse_uint16 port_text
  some (record { id = id; ip = ip; port = port; hashed_id = [] })
node_of_parts _ = none

-- `none` is an error.
pub get_node_from_key : Bytes → Option Node
unfolding split_on node_of_parts
get_node_from_key key = node_of_parts (split_on b'^' key)

parse_uint16-itoa : (n : ℕ) → n < 2 ^ 16 → parse_uint16 (itoa n) ≡ some n
unfolding parse_uint16
parse_uint16-itoa n h =
    let (d, ds, e) = itoa-cons n in
    let value : digits_value 0 (d ∷ ds) ≡ some n =
      subst (λ text. digits_value 0 text ≡ some n) e (digits_value-itoa n) in
    let fits : ltb n (2 ^ 16) ≡ true = ground (arith, h) in rw e (rw value (rw fits refl))

-- A node is read again from its key, without its hash, if neither its id nor its address has the
-- byte `^`, and its port has 16 bits.
pub get_node_from_key-generate_key_from_node :
    (node : Node)
    → has_byte b'^' node.id ≡ false
    → has_byte b'^' node.ip ≡ false
    → node.port < 2 ^ 16
    → get_node_from_key (generate_key_from_node node) ≡ some (record node { hashed_id = [] })
unfolding get_node_from_key generate_key_from_node node_of_parts
get_node_from_key-generate_key_from_node node no_id no_ip port =
    let parts : split_on b'^' (generate_key_from_node node)
        ≡ node.id ∷ node.ip ∷ itoa node.port ∷ [] =
      split_on-append b'^' node.id (node.ip ++ (b'^' ∷ itoa node.port)) no_id
      ∙ ap (◌∷◌ node.id) (
          split_on-append b'^' node.ip (itoa node.port) no_ip
          ∙ ap (◌∷◌ node.ip)
              (split_on_whole b'^' (itoa node.port) (itoa-has_byte b'^' node.port refl))) in
    ap node_of_parts parts ∙ rw (parse_uint16-itoa node.port port) refl
