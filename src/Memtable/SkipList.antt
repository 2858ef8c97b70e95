-- ===== src/Memtable/SkipList.antt =====
-- memtable/skiplist.go. Nodes stand at addresses: 0 is nil, 1 is the head, and the field of a node
-- is a function of its address.
pub mod Chains
pub mod Search
pub mod Insert
use key_value_store.Prelude.{
  ℕ, zero, suc, ◌+◌, List, Bool, false, not, ◌&&◌, Option, none, some, length, ltb, leb, max, ◌==◌,
  if◌then◌else◌,
}
use key_value_store.Bytes.Order.{less, same}

abbrev pub max_height : ℕ
max_height = 16

abbrev pub node_overhead_bytes : ℕ
node_overhead_bytes = 48

abbrev pub nil : ℕ
nil = 0

abbrev pub head : ℕ
head = 1

-- `forward i a` is `a.forward[i]`, and `levels a` is `len(a.forward)`. `next_node` is the address
-- of the next node, and `rnd` holds the draws to come: whether Float64() is below p.
pub record SkipList : Type 0 where
  pub key : ℕ → List ℕ
  pub value : ℕ → List ℕ
  pub deleted : ℕ → Bool
  pub seq : ℕ → ℕ  -- uint64
  pub levels : ℕ → ℕ
  pub forward : ℕ → ℕ → ℕ
  pub height : ℕ
  pub length : ℕ
  pub next_node : ℕ
  pub rnd : ℕ → Bool

unfoldable pub entry_size : List ℕ → List ℕ → ℕ
entry_size key value = length key + length value + node_overhead_bytes

-- An assignment to one place.
abbrev pub write {ℓ} : {A : Type ℓ} → (ℕ → A) → ℕ → A → ℕ → A
write f a v b = if b == a then v else f b

unfoldable pub new_skip_list : (ℕ → Bool) → SkipList
new_skip_list rnd = record {
  key = λ _. List.[];
  value = λ _. List.[];
  deleted = λ _. false;
  seq = λ _. 0;
  levels = λ _. max_height;
  forward = λ _ _. nil;
  height = 1;
  length = 0;
  next_node = 2;
  rnd = rnd;
}

-- The levels that the loop of randomLevel adds, at most n of them.
unfoldable pub climb : ℕ → (ℕ → Bool) → ℕ × (ℕ → Bool)
climb zero rnd = (0, rnd)
climb (suc n) rnd =
    let (more, rest) = climb n (λ i. rnd (suc i)) in
    if rnd 0 then (suc more, rest) else (0, λ i. rnd (suc i))

unfoldable pub random_level : (ℕ → Bool) → ℕ × (ℕ → Bool)
random_level rnd = let (more, rest) = climb 15 rnd in (suc more, rest)

-- The inner loop of a search, at level i from x on. It visits each node once at most.
unfoldable pub walk : ℕ → SkipList → List ℕ → ℕ → ℕ → ℕ
walk zero s key i x = x
walk (suc fuel) s key i x =
    let rest = walk fuel s key i (s.forward i x) in
    if not (s.forward i x == nil) && less (s.key (s.forward i x)) key then rest else x

-- The outer loop, over the levels below a height: the last node, and the array `update`.
unfoldable pub descend : ℕ → SkipList → List ℕ → ℕ → (ℕ → ℕ) → ℕ × (ℕ → ℕ)
descend zero s key x update = (x, update)
descend (suc i) s key x update =
    let y = walk s.next_node s key i x in descend i s key y (write update i y)

abbrev pub search_path : SkipList → List ℕ → ℕ × (ℕ → ℕ)
search_path s key = descend s.height s key head (λ _. nil)

abbrev pub holds : SkipList → List ℕ → ℕ → Bool
holds s key x = not (x == nil) && same (s.key x) key

-- The list, and the sizes of what was added and of what was replaced: their difference is what the
-- code returns.
abbrev pub Sized : Type 0
Sized = SkipList × ℕ × ℕ

unfoldable pub overwrite : ℕ → List ℕ → ℕ → Bool → SkipList → Sized
overwrite existing value seq deleted s = (
  record s {
    value = write s.value existing value;
    deleted = write s.deleted existing deleted;
    seq = write s.seq existing seq;
  },
  entry_size (s.key existing) value,
  entry_size (s.key existing) (s.value existing),
)

-- `n.forward[i] = update[i].forward[i]; update[i].forward[i] = n`, for each i below a level.
unfoldable pub link : ℕ → ℕ → (ℕ → ℕ) → (ℕ → ℕ → ℕ) → ℕ → ℕ → ℕ
link zero n update forward = forward
link (suc i) n update forward =
    let f = link i n update forward in
    write f i (write (write (f i) n (f i (update i))) (update i) n)

-- The head precedes a node on the levels that come into use.
abbrev pub widen : ℕ → ℕ → (ℕ → ℕ) → ℕ → ℕ
widen height level update i = if leb height i && ltb i level then head else update i

unfoldable pub insert_node :
    (ℕ → ℕ) → List ℕ → List ℕ → ℕ → Bool → ℕ × (ℕ → Bool) → SkipList → Sized
insert_node update key value seq deleted (level, rnd) s = (
  record {
    key = write s.key s.next_node key;
    value = write s.value s.next_node value;
    deleted = write s.deleted s.next_node deleted;
    seq = write s.seq s.next_node seq;
    levels = write s.levels s.next_node level;
    forward = link level s.next_node (widen s.height level update) s.forward;
    height = max s.height level;
    length = s.length + 1;
    next_node = s.next_node + 1;
    rnd = rnd;
  },
  entry_size key value,
  0,
)

unfoldable pub put : List ℕ → List ℕ → ℕ → Bool → SkipList → Sized
put key value seq deleted s =
    let (x, update) = search_path s key in
    let existing = s.forward 0 x in
    if holds s key existing
    then overwrite existing value seq deleted s
    else insert_node update key value seq deleted (random_level s.rnd) s

-- The address of the node, if there is one.
unfoldable pub get : List ℕ → SkipList → Option ℕ
get key s = let x = s.forward 0 (search_path s key).0 in if holds s key x then some x else none
