-- ===== src/SsTable/Cache.antt =====
-- sstable/cache.go: the cache of blocks, which evicts the block that was used least recently.
pub mod Laws
pub mod Moves
pub mod Behaviour
use mathlib.Core.Option
use key_value_store.Prelude.{
  ℕ, zero, suc, ◌+◌, ◌-◌, List, [], ◌∷◌, ◌++◌, Bool, true, false, ◌&&◌, ◌==◌, Option, none, some,
  length, ltb, leb, if◌then◌else◌, Outcome, ok, stuck, ◌>>=◌,
}

-- cacheKey. A file is the number in its path.
pub record CacheKey : Type 0 where
  pub file : ℕ
  pub offset : ℕ  -- uint64

-- `==` of two keys.
unfoldable pub same_key : CacheKey → CacheKey → Bool
same_key a b = (a.file == b.file) && (a.offset == b.offset)

pub record CacheEntry : Type 0 where
  pub key : CacheKey
  pub bytes : List ℕ

-- *list.Element: what stands for the pointer is a number that no other element has.
pub record Element : Type 0 where
  pub id : ℕ
  pub entry : CacheEntry

-- BlockCache. `ll` has the back of the list, which is the oldest element, first; `items` is the map
-- from keys to elements. A limit below zero is one of zero, since both turn the cache off.
pub record BlockCache : Type 0 where
  pub max_bytes : ℕ
  pub cur_bytes : ℕ
  pub ll : List Element
  pub items : List (CacheKey × ℕ)
  pub next_id : ℕ

unfoldable pub new_block_cache : ℕ → BlockCache
new_block_cache max_bytes = record {
  max_bytes = max_bytes;
  cur_bytes = 0;
  ll = [];
  items = [];
  next_id = 0;
}

-- `c.items[key]`, and `delete(c.items, key)`.
unfoldable pub find_item : CacheKey → List (CacheKey × ℕ) → Option ℕ
find_item key [] = none
find_item key ((k, id) ∷ items) =
    let rest = find_item key items in if same_key k key then some id else rest

unfoldable pub delete_item : CacheKey → List (CacheKey × ℕ) → List (CacheKey × ℕ)
delete_item key [] = []
delete_item key ((k, id) ∷ items) =
    let rest = delete_item key items in if same_key k key then rest else (k, id) ∷ rest

-- What a pointer to an element of the list points to.
unfoldable pub find_element : ℕ → List Element → Option Element
find_element id [] = none
find_element id (el ∷ ll) = let rest = find_element id ll in if el.id == id then some el else rest

-- list.List's Remove, MoveToFront and PushFront.
unfoldable pub remove_element : ℕ → List Element → List Element
remove_element id [] = []
remove_element id (el ∷ ll) =
    let rest = remove_element id ll in if el.id == id then ll else el ∷ rest

unfoldable pub push_front : Element → List Element → List Element
push_front el ll = ll ++ el ∷ []

abbrev pub moved : ℕ → List Element → Option Element → List Element
moved id ll none = ll
moved id ll (some el) = push_front el (remove_element id ll)

unfoldable pub move_to_front : ℕ → List Element → List Element
move_to_front id ll = moved id ll (find_element id ll)

abbrev pub bytes_of : Element → List ℕ
bytes_of el = el.entry.bytes

-- A hit makes the block the newest.
abbrev pub hit : BlockCache → Option ℕ → BlockCache × Option (List ℕ)
hit c none = (c, none)
hit c (some id) =
    (record c { ll = move_to_front id c.ll }, Option.map bytes_of (find_element id c.ll))

unfoldable pub get : CacheKey → BlockCache → BlockCache × Option (List ℕ)
get key c = hit c (find_item key c.items)

unfoldable pub evict_oldest : List Element → BlockCache → BlockCache
evict_oldest [] c = c
evict_oldest (el ∷ ll) c = record c {
  ll = remove_element el.id c.ll;
  items = delete_item el.entry.key c.items;
  cur_bytes = c.cur_bytes - length el.entry.bytes;
}

-- The loop of put, for as many rounds as there are elements.
unfoldable pub evict : ℕ → BlockCache → Outcome BlockCache
evict zero c = if ltb c.max_bytes c.cur_bytes then stuck else ok c
evict (suc fuel) c =
    let rest = evict fuel (evict_oldest c.ll c) in
    if ltb c.max_bytes c.cur_bytes then rest else ok c

-- A block that is not in the cache.
unfoldable pub add_block : CacheKey → List ℕ → BlockCache → Outcome BlockCache
add_block key bytes c =
    let el : Element = record { id = c.next_id; entry = record { key = key; bytes = bytes } } in
    if ltb c.max_bytes (length bytes)
    then ok c
    else evict (suc (length c.ll)) (record c {
      ll = push_front el c.ll;
      items = (key, c.next_id) ∷ c.items;
      cur_bytes = c.cur_bytes + length bytes;
      next_id = c.next_id + 1;
    })

abbrev pub put_found : CacheKey → List ℕ → BlockCache → Option ℕ → Outcome BlockCache
put_found key bytes c none = add_block key bytes c
put_found key bytes c (some id) = ok (record c { ll = move_to_front id c.ll })

unfoldable pub put : CacheKey → List ℕ → BlockCache → Outcome BlockCache
put key bytes c = if leb c.max_bytes 0 then ok c else put_found key bytes c (find_item key c.items)

unfoldable pub entry_count : BlockCache → ℕ
entry_count c = length c.items

-- The methods on a pointer, which is nil where no cache is used.
unfoldable pub get_from : CacheKey → Option BlockCache → Option BlockCache × Option (List ℕ)
get_from key none = (none, none)
get_from key (some c) = let (c', found) = get key c in (some c', found)

unfoldable pub put_in : CacheKey → List ℕ → Option BlockCache → Outcome (Option BlockCache)
put_in key bytes none = ok none
put_in key bytes (some c) = do c' ← put key bytes c; ok (some c')
