-- ===== src/Pubsub/Trie.antt =====
-- The trie of subscription patterns (commonspace/pubsub/trie.go). Pointers to levels and nodes are the
-- levels and nodes themselves, or nil; what Go changes through a pointer is put back.
pub mod Children
pub mod Counts
pub mod Removal
pub mod Removed
pub mod Matches
pub mod Subscriptions
pub mod Refines
mod Examples
use any_sync.Common.{
  ℕ, zero, suc, Bool, true, false, ◌&&◌, List, [], ◌∷◌, ◌++◌, ◌==◌, ltb, if◌then◌else◌, ◌+◌, ◌-◌,
}
use any_sync.Pubsub.{Bytes, wildcard_one, wildcard_tail, same_bytes, split_topic}

mutual
  pub data TrieLevel : Type 0 where
    nil_level : TrieLevel
    level : Nodes → TrieNode → TrieNode → TrieLevel

  pub data TrieNode : Type 0 where
    nil_node : TrieNode
    node : TrieLevel → Bytes → ℕ → TrieNode

  pub data Nodes : Type 0 where
    no_nodes : Nodes
    entry : Bytes → TrieNode → Nodes → Nodes

pub record PatternTrie : Type 0 where
  pub root : TrieLevel
  pub size : ℕ

abbrev pub new_level : TrieLevel
new_level = level no_nodes nil_node nil_node

abbrev pub new_pattern_trie : PatternTrie
new_pattern_trie = record { root = new_level; size = 0 }

-- The fields of a node, with what a new node has for nil.
abbrev pub next_of : TrieNode → TrieLevel
next_of nil_node = nil_level
next_of (node next pattern refs) = next

abbrev pub pattern_of : TrieNode → Bytes
pattern_of nil_node = []
pattern_of (node next pattern refs) = pattern

abbrev pub refs_of : TrieNode → ℕ
refs_of nil_node = 0
refs_of (node next pattern refs) = refs

-- The map of literal children.
unfoldable pub lookup : Bytes → Nodes → TrieNode
unfolding same_bytes
lookup seg no_nodes = nil_node
lookup seg (entry s n ns) = if same_bytes s seg then n else lookup seg ns

unfoldable pub store : Bytes → TrieNode → Nodes → Nodes
unfolding same_bytes
store seg n no_nodes = entry seg n no_nodes
store seg n (entry s m ns) = if same_bytes s seg then entry seg n ns else entry s m (store seg n ns)

unfoldable pub erase : Bytes → Nodes → Nodes
unfolding same_bytes
erase seg no_nodes = no_nodes
erase seg (entry s m ns) = if same_bytes s seg then erase seg ns else entry s m (erase seg ns)

unfoldable pub child : TrieLevel → Bytes → TrieNode
unfolding lookup
child nil_level seg = nil_node
child (level nodes pwc fwc) seg =
    if same_bytes seg wildcard_one
    then pwc
    else if same_bytes seg wildcard_tail
    then fwc
    else lookup seg nodes

unfoldable pub literal : TrieLevel → Bytes → TrieNode
unfolding lookup
literal nil_level seg = nil_node
literal (level nodes pwc fwc) seg = lookup seg nodes

-- Never asked for on nil.
unfoldable pub set_child : TrieLevel → Bytes → TrieNode → TrieLevel
unfolding store
set_child nil_level seg n = nil_level
set_child (level nodes pwc fwc) seg n =
    if same_bytes seg wildcard_one
    then level nodes n fwc
    else if same_bytes seg wildcard_tail
    then level nodes pwc n
    else level (store seg n nodes) pwc fwc

unfoldable pub delete_child : TrieLevel → Bytes → TrieLevel
unfolding erase
delete_child nil_level seg = nil_level
delete_child (level nodes pwc fwc) seg =
    if same_bytes seg wildcard_one
    then level nodes nil_node fwc
    else if same_bytes seg wildcard_tail
    then level nodes pwc nil_node
    else level (erase seg nodes) pwc fwc

-- `node.next == nil || node.next.empty()`
abbrev pub is_empty : TrieLevel → Bool
is_empty nil_level = true
is_empty (level no_nodes nil_node nil_node) = true
is_empty _ = false

-- The child that `Add` goes on with: one is made if there is none, and it gets a next level.
abbrev pub enter : TrieNode → TrieNode
enter nil_node = node new_level [] 0
enter (node nil_level pattern refs) = node new_level pattern refs
enter (node (level nodes pwc fwc) pattern refs) = node (level nodes pwc fwc) pattern refs

abbrev pub with_next : TrieLevel → TrieNode → TrieNode
with_next l nil_node = nil_node
with_next l (node next pattern refs) = node l pattern refs

abbrev pub add_ref : Bytes → TrieNode → TrieNode
add_ref p nil_node = nil_node
add_ref p (node next pattern refs) = node next p (refs + 1)

-- The loop of `Add`; segments are never lacking.
unfoldable pub add_at : Bytes → List Bytes → TrieLevel → TrieLevel
unfolding child set_child
add_at p [] l = l
add_at p (s ∷ []) l = set_child l s (add_ref p (enter (child l s)))
add_at p (s ∷ t ∷ ss) l =
    let n = enter (child l s) in set_child l s (with_next (add_at p (t ∷ ss) (next_of n)) n)

-- The node at the end of a path.
unfoldable pub node_at : TrieNode → List Bytes → TrieNode
unfolding child
node_at n [] = n
node_at n (s ∷ ss) = node_at (child (next_of n) s) ss

-- The root level as a node, which ends no pattern.
abbrev pub root_node : TrieLevel → TrieNode
root_node l = node l [] 0

-- `Add`: a pattern is new if it has one reference now.
unfoldable pub add_pattern : PatternTrie → Bytes → PatternTrie × Bool
unfolding add_at node_at
add_pattern t p =
    let root = add_at p (split_topic p) t.root in
    let is_new = refs_of (node_at (root_node root) (split_topic p)) == 1 in
    (record { root = root; size = if is_new then t.size + 1 else t.size }, is_new)

-- What `remove` makes of the node that it came through.
abbrev pub prune : TrieLevel → Bytes → TrieNode → TrieLevel
prune l s nil_node = delete_child l s
prune l s (node next pattern refs) =
    if refs == 0 && is_empty next then delete_child l s else set_child l s (node next pattern refs)

-- The last segment: the node loses a reference.
unfoldable pub remove_ref : TrieLevel → Bytes → TrieNode → TrieLevel × Bool
unfolding set_child delete_child
remove_ref l s nil_node = (l, false)
remove_ref l s (node next pattern refs) =
    if refs == 0
    then (l, false)
    else if ltb 0 (refs - 1)
    then (set_child l s (node next pattern (refs - 1)), false)
    else (prune l s (node next [] 0), true)

-- Another segment: what the call on the next level made of it is put back.
unfoldable pub remove_through : TrieLevel × Bool → TrieLevel → Bytes → TrieNode → TrieLevel × Bool
remove_through below l s nil_node = (l, false)
remove_through below l s (node nil_level pattern refs) = (l, false)
remove_through below l s (node (level nodes pwc fwc) pattern refs) =
    (prune l s (node below.0 pattern refs), below.1)

-- `remove`, without the count of patterns.
unfoldable pub remove_at : List Bytes → TrieLevel → TrieLevel × Bool
unfolding remove_ref remove_through child
remove_at [] l = (l, false)
remove_at (s ∷ []) l = remove_ref l s (child l s)
remove_at (s ∷ t ∷ ss) l = remove_through (remove_at (t ∷ ss) (next_of (child l s))) l s (child l s)

-- `Remove`
unfoldable pub remove_pattern : PatternTrie → Bytes → PatternTrie × Bool
unfolding remove_at
remove_pattern t p =
    let (root, removed) = remove_at (split_topic p) t.root in
    (record { root = root; size = if removed then t.size - 1 else t.size }, removed)

abbrev pub append_live : TrieNode → List Bytes → List Bytes
append_live nil_node dst = dst
append_live (node next pattern refs) dst = if ltb 0 refs then dst ++ pattern ∷ [] else dst

abbrev pub fwc_of : TrieLevel → TrieNode
fwc_of nil_level = nil_node
fwc_of (level nodes pwc fwc) = fwc

abbrev pub pwc_of : TrieLevel → TrieNode
pwc_of nil_level = nil_node
pwc_of (level nodes pwc fwc) = pwc

-- `matchNode`, with `matchLevel` in it.
unfoldable pub match_node : List Bytes → TrieNode → List Bytes → List Bytes
unfolding literal
match_node [] n dst = append_live n dst
match_node (s ∷ rest) n dst =
    let l = next_of n in
    let dst' = append_live (fwc_of l) dst in
    let dst'' = match_node rest (pwc_of l) dst' in match_node rest (literal l s) dst''

-- `Match`; a topic has at least one segment.
unfoldable pub match_topic : PatternTrie → Bytes → List Bytes
unfolding match_node
match_topic t topic = match_node (split_topic topic) (root_node t.root) []
