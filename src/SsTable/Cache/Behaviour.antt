-- ===== src/SsTable/Cache/Behaviour.antt =====
-- sstable/cache.go: what get and put do.
use mathlib.Core.Option
use mathlib.Core.Path.{subst}
use key_value_store.Prelude.{
  ℕ, suc, ◌+◌, ◌≤◌, ◌<◌, ◌≡◌, ◌⊎◌, refl, sym, ap, ◌∙◌, inl, inr, List, [], ◌∷◌, ◌++◌, Bool, true,
  false, Option, none, some, All, All_mono, All_both, All-append, arith, length, ltb, leb, le→ltb,
  if◌then◌else◌, Bool-cases, ok,
}
use key_value_store.SsTable.Cache.{
  CacheKey, same_key, Element, BlockCache, new_block_cache, find_item, remove_element, push_front,
  moved, move_to_front, bytes_of, hit, get, evict, add_block, put_found, put,
}
use key_value_store.SsTable.Cache.Laws.{
  same_key_refl, find_key, total, Apart, state, Linked, id_of, WellFormed, evict_lem,
}
use key_value_store.SsTable.Cache.Moves.{
  find_key-last, Distinct-append, total-append, push_front_lem, IsIn, IsIn-All, All-remove_element,
  find_key-IsIn, find_element-IsIn, total-remove_element, Distinct-remove_element,
  find_key-remove_element,
}

-- The block of a key.
abbrev pub cached : CacheKey → BlockCache → Option (List ℕ)
cached key c = Option.map bytes_of (find_key key c.ll)

module _ (c : BlockCache) (wf : WellFormed c) where
  moved_lem :
      (el : Element)
      → IsIn el c.ll
      → WellFormed (record c { ll = push_front el (remove_element el.id c.ll) })
        × ((key : CacheKey)
            → find_key key (push_front el (remove_element el.id c.ll)) ≡ find_key key c.ll)
  unfolding push_front
  moved_lem el i =
      let rest = remove_element el.id c.ll in
      let (others, distinct) = Distinct-remove_element i wf.distinct in
      let same : (key : CacheKey) → find_key key (rest ++ el ∷ []) ≡ find_key key c.ll = λ key.
        push_front_lem key el rest others ∙ sym (find_key-remove_element key i wf.distinct) in
      (
        record {
          linked = λ key. wf.linked key ∙ ap (λ o. Option.map id_of o) (sym (same key));
          distinct = Distinct-append rest el distinct others;
          numbered =
              All-append (λ x. x.id < c.next_id) rest (el ∷ [])
                (All-remove_element (λ x. x.id < c.next_id) el.id c.ll wf.numbered)
                (IsIn-All (λ x. x.id < c.next_id) i wf.numbered, tt);
          size = omega (arith, wf.size, total-append rest el, total-remove_element i wf.distinct);
          bounded = wf.bounded;
        },
        same,
      )

none_of_map : (o : Option Element) → Option.map id_of o ≡ none → o ≡ none
none_of_map none h = refl
none_of_map (some el) h = cc

module _ (c : BlockCache) (wf : WellFormed c) where
  -- The element that a key is linked to, moved to the front.
  move_lem :
      (key : CacheKey) (el : Element)
      → find_key key c.ll ≡ some el
      → WellFormed (record c { ll = move_to_front el.id c.ll })
        × ((k : CacheKey) → find_key k (move_to_front el.id c.ll) ≡ find_key k c.ll)
  unfolding move_to_front
  move_lem key el h =
      let i = find_key-IsIn key c.ll el h in
      subst
        (λ ll.
          WellFormed (record c { ll = ll }) × ((k : CacheKey) → find_key k ll ≡ find_key k c.ll))
        (sym (ap (moved el.id c.ll) (find_element-IsIn i wf.distinct))) (moved_lem c wf el i)

  hit_lem :
      (key : CacheKey) (found : Option Element)
      → find_key key c.ll ≡ found
      → let (c', o) = hit c (Option.map id_of found) in
        WellFormed c'
        × (o ≡ Option.map bytes_of found)
        × ((k : CacheKey) → find_key k c'.ll ≡ find_key k c.ll)
  hit_lem key none h = (wf, refl, λ k. refl)
  hit_lem key (some el) h =
      let (moved, same) = move_lem key el h in
      (
        moved,
        ap (λ o. Option.map bytes_of o)
            (find_element-IsIn (find_key-IsIn key c.ll el h) wf.distinct),
        same,
      )

-- A lookup finds the block of the key, where there is one, and no block is lost or changed by it:
-- the cache stays well-formed.
pub get_lem :
    (c : BlockCache) (key : CacheKey)
    → WellFormed c
    → let (c', found) = get key c in
      WellFormed c' × (found ≡ cached key c) × ((k : CacheKey) → cached k c' ≡ cached k c)
unfolding get
get_lem c key wf =
    let (wf', found, same) = hit_lem c wf key (find_key key c.ll) refl in
    subst
      (λ o.
        let (c', b) = hit c o in
        WellFormed c' × (b ≡ cached key c) × ((k : CacheKey) → cached k c' ≡ cached k c))
      (sym (wf.linked key)) (wf', found, λ k. ap (λ o. Option.map bytes_of o) (same k))

other : (a b : CacheKey) → same_key b a ≡ false → same_key a b ≡ false
unfolding same_key
other a b h = ground arith

absent_all :
    (key : CacheKey) (ll : List Element)
    → find_key key ll ≡ none
    → All (λ x. same_key key x.entry.key ≡ false) ll
unfolding find_key
absent_all key [] h = tt
absent_all key (x ∷ ll) h = elim (Bool-cases (same_key x.entry.key key)) [
  | inl e ↦ cc (h, ap (λ b. if b then some x else find_key key ll) e)
  | inr e ↦ (other key x.entry.key e, absent_all key ll (sym (rw e refl) ∙ h))
]

module _ (c : BlockCache) (wf : WellFormed c) (key : CacheKey) (bytes : List ℕ) where
  abbrev newest : Element
  newest = record { id = c.next_id; entry = record { key = key; bytes = bytes } }

  -- What a put leaves of the blocks.
  abbrev pub Follows : BlockCache → Type 0
  Follows c' =
      (k : CacheKey)
      → (cached k c' ≡ none) ⊎ (cached k c' ≡ (if same_key key k then some bytes else cached k c))

  linked_new :
      (k : CacheKey)
      → find_item k ((key, c.next_id) ∷ c.items)
        ≡ Option.map id_of (if same_key key k then some newest else find_key k c.ll)
  unfolding find_item
  linked_new k = elim (Bool-cases (same_key key k)) [
    | inl e ↦ rw e refl
    | inr e ↦ rw e (wf.linked k)
  ]

  follow :
      {before : Option Element} (k : CacheKey) (found : Option Element)
      → before ≡ (if same_key key k then some newest else find_key k c.ll)
      → (found ≡ none) ⊎ (found ≡ before)
      → (Option.map bytes_of found ≡ none)
        ⊎ (Option.map bytes_of found ≡ (if same_key key k then some bytes else cached k c))
  follow k found pushed (inl h) = inl (ap (λ o. Option.map bytes_of o) h)
  follow k found pushed (inr h) =
      inr (ap (λ o. Option.map bytes_of o) (h ∙ pushed) ∙ each (same_key key k))
    where
      each :
          (b : Bool)
          → Option.map bytes_of (if b then some newest else find_key k c.ll)
            ≡ (if b then some bytes else cached k c)
      each true = refl
      each false = refl

  add_block_lem :
      find_key key c.ll ≡ none
      → length bytes ≤ c.max_bytes
      → (c' : BlockCache) × (add_block key bytes c ≡ ok c')
        × WellFormed c'
        × (cached key c' ≡ some bytes)
        × Follows c'
  unfolding add_block push_front
  add_block_lem absent fits =
      let far : All (λ x. Apart x newest) c.ll =
        All_both (λ x. x.id < c.next_id) (λ x. same_key key x.entry.key ≡ false)
          (λ x. Apart x newest) c.ll (λ x h k. (ground arith, k)) wf.numbered
          (absent_all key c.ll absent) in
      let pushed = λ (k : CacheKey). push_front_lem k newest c.ll far in
      let linked : Linked ((key, c.next_id) ∷ c.items) (c.ll ++ newest ∷ []) =
        λ k. linked_new k ∙ sym (ap (λ o. Option.map id_of o) (pushed k)) in
      let (c', ended, wf', (post, shape, keeps)) =
        evict_lem c.max_bytes (c.next_id + 1) newest (suc (length c.ll)) c.ll
          ((key, c.next_id) ∷ c.items) (omega arith) fits linked
          (Distinct-append c.ll newest wf.distinct far)
          (All-append (λ x. x.id < c.next_id + 1) c.ll (newest ∷ [])
            (All_mono (λ x. x.id < c.next_id) (λ x. x.id < c.next_id + 1) c.ll
              (λ x h. omega (arith, h)) wf.numbered)
            (omega arith, tt)) in
      let sized : c.cur_bytes + length bytes ≡ total (c.ll ++ newest ∷ []) =
        omega (arith, wf.size, total-append c.ll newest) in
      let start : add_block key bytes c
          ≡ evict (suc (length c.ll))
              (state c.max_bytes (c.next_id + 1) newest c.ll ((key, c.next_id) ∷ c.items)) =
        rw (le→ltb c.max_bytes (length bytes) fits, sized) refl in
      let here : (if same_key key key then some newest else find_key key c.ll) ≡ some newest =
        rw (same_key_refl key) refl in
      let found : find_key key c'.ll ≡ some newest = elim (keeps key) [
        | inl gone ↦ absurd (find_key-last post newest (sym (ap (find_key key) shape) ∙ gone))
        | inr kept ↦ kept ∙ pushed key ∙ here
      ] in
      (
        c',
        start ∙ ended,
        wf',
        ap (λ o. Option.map bytes_of o) found,
        λ k. follow k (find_key k c'.ll) (pushed k) (keeps k),
      )

module _ (c : BlockCache) (wf : WellFormed c) (key : CacheKey) (bytes : List ℕ) where
  put_lem_found :
      (found : Option Element)
      → find_key key c.ll ≡ found
      → (c' : BlockCache) × (put_found key bytes c (Option.map id_of found) ≡ ok c') × WellFormed c'
  unfolding add_block
  put_lem_found (some el) h = (_, refl, (move_lem c wf key el h).0)
  put_lem_found none h = elim (Bool-cases (ltb c.max_bytes (length bytes))) [
    | inl e ↦ (c, rw e refl, wf)
    | inr e ↦
        let (c', ended, wf', here, follows) = add_block_lem c wf key bytes h (ground arith) in
        (c', ended, wf')
  ]

-- A put ends, its loop within as many rounds as there are elements, and leaves the cache
-- well-formed: the map and the list have the same blocks, and the bytes in it, which are counted right,
-- are within the limit.
pub put-WellFormed :
    (c : BlockCache) (key : CacheKey) (bytes : List ℕ)
    → WellFormed c
    → (c' : BlockCache) × (put key bytes c ≡ ok c') × WellFormed c'
unfolding put
put-WellFormed c key bytes wf = elim (Bool-cases (leb c.max_bytes 0)) [
  | inl e ↦ (c, rw e refl, wf)
  | inr e ↦
      let (c', ended, wf') = put_lem_found c wf key bytes (find_key key c.ll) refl in
      (c', rw e (ap (put_found key bytes c) (wf.linked key) ∙ ended), wf')
]

-- A block that is not in the cache, and not larger than its limit, is found after it was put there.
-- Each other block is evicted, or found as it was.
pub put-get :
    (c : BlockCache) (key : CacheKey) (bytes : List ℕ)
    → WellFormed c
    → 0 < c.max_bytes
    → length bytes ≤ c.max_bytes
    → (get key c).1 ≡ none
    → (c' : BlockCache) × (put key bytes c ≡ ok c')
      × ((get key c').1 ≡ some bytes)
      × ((k : CacheKey)
          → ((get k c').1 ≡ none)
            ⊎ ((get k c').1 ≡ (if same_key key k then some bytes else (get k c).1)))
unfolding put
put-get c key bytes wf on fits absent =
    let found = λ (c : BlockCache) (wf : WellFormed c) (k : CacheKey). (get_lem c k wf).1 in
    let gone = none_of_bytes (find_key key c.ll) (sym (found c wf key) ∙ absent) in
    let (c', ended, wf', here, follows) = add_block_lem c wf key bytes gone fits in
    let unlinked : find_item key c.items ≡ none =
      wf.linked key ∙ ap (λ o. Option.map id_of o) gone in
    let off : leb c.max_bytes 0 ≡ false = ground arith in
    (
      c',
      rw (off, unlinked) ended,
      found c' wf' key ∙ here,
      λ k. rw (found c' wf' k, found c wf k) (follows k),
    )
  where
    none_of_bytes : (o : Option Element) → Option.map bytes_of o ≡ none → o ≡ none
    none_of_bytes none h = refl
    none_of_bytes (some el) h = cc

pub new_block_cache-WellFormed : (limit : ℕ) → WellFormed (new_block_cache limit)
unfolding new_block_cache find_item find_key total
new_block_cache-WellFormed limit = record {
  linked = λ key. refl;
  distinct = tt;
  numbered = tt;
  size = refl;
  bounded = omega arith;
}
