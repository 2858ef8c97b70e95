-- ===== src/SsTable/Cache/Laws.antt =====
-- sstable/cache.go: the map and the list of a cache agree, its size is within its limit, and a
-- block is found again.
use mathlib.Core.Option
use key_value_store.Prelude.{
  ℕ, zero, suc, ◌+◌, ◌-◌, ◌≤◌, ◌<◌, ◌≡◌, ◌⊎◌, refl, sym, ap, ◌∙◌, inl, inr, List, [], ◌∷◌, ◌++◌,
  Bool, true, false, ◌==◌, Option, none, some, All, All_mono, arith, length, ltb, if◌then◌else◌,
  Bool-cases, ok,
}
use key_value_store.SsTable.Cache.{
  CacheKey, same_key, Element, BlockCache, find_item, delete_item, remove_element, evict_oldest,
  evict,
}

pub eq_of_same_key : (a b : CacheKey) → same_key a b ≡ true → a ≡ b
unfolding same_key
eq_of_same_key a b h = ground arith

pub same_key_refl : (a : CacheKey) → same_key a a ≡ true
unfolding same_key
same_key_refl a = ground arith

-- The element of a key.
unfoldable pub find_key : CacheKey → List Element → Option Element
find_key key [] = none
find_key key (el ∷ ll) =
    let rest = find_key key ll in if same_key el.entry.key key then some el else rest

unfoldable pub total : List Element → ℕ
total [] = 0
total (el ∷ ll) = length el.entry.bytes + total ll

abbrev pub Apart : Element → Element → Type 0
Apart a b = ((b.id == a.id) ≡ false) × (same_key b.entry.key a.entry.key ≡ false)

-- No two elements have the same number, or the same key.
abbrev pub Distinct : List Element → Type 0
Distinct [] = Unit {0}
Distinct (el ∷ ll) = All (Apart el) ll × Distinct ll

abbrev pub id_of : Element → ℕ
id_of el = el.id

abbrev pub Linked : List (CacheKey × ℕ) → List Element → Type 0
Linked items ll = (key : CacheKey) → find_item key items ≡ Option.map id_of (find_key key ll)

pub record WellFormed (c : BlockCache) : Type 0 where
  pub linked : Linked c.items c.ll
  pub distinct : Distinct c.ll
  pub numbered : All (λ el. el.id < c.next_id) c.ll
  pub size : c.cur_bytes ≡ total c.ll
  pub bounded : c.cur_bytes ≤ c.max_bytes

find_key-absent :
    (key : CacheKey) (ll : List Element)
    → All (λ el. same_key el.entry.key key ≡ false) ll
    → find_key key ll ≡ none
unfolding find_key
find_key-absent key [] h = refl
find_key-absent key (el ∷ ll) h = rw h.0 (find_key-absent key ll h.1)

apart :
    (k key key' : CacheKey) (id : ℕ) (o d : Option ℕ)
    → same_key key' key ≡ false
    → d ≡ (if same_key key k then none else o)
    → (if same_key key' k then some id else d)
      ≡ (if same_key key k then none else (if same_key key' k then some id else o))
unfolding same_key
apart k key key' id o d h ih = ground (arith, ih)

find_item-delete_item :
    (k key : CacheKey) (items : List (CacheKey × ℕ))
    → find_item k (delete_item key items) ≡ (if same_key key k then none else find_item k items)
unfolding find_item delete_item
find_item-delete_item k key [] = ground arith
find_item-delete_item k key ((key', id) ∷ items) =
    let ih = find_item-delete_item k key items in
    elim (Bool-cases (same_key key' key)) [
      | inl e ↦ rw e (
          ih
          ∙ hidden (find_item k items) (same_key key k)
              (ap (λ t. same_key t k) (eq_of_same_key key' key e)))
      | inr e ↦
          rw e (apart k key key' id (find_item k items) (find_item k (delete_item key items)) e ih)
    ]
  where
    hidden :
        (o : Option ℕ) {b : Bool} (c : Bool)
        → b ≡ c
        → (if c then none else o) ≡ (if c then none else (if b then some id else o))
    hidden o true h = refl
    hidden o false h = rw h refl

-- Elements that are apart from that of a key do not have the key.
pub gone :
    (el : Element) (key : CacheKey) (ll : List Element)
    → All (Apart el) ll
    → same_key el.entry.key key ≡ true
    → find_key key ll ≡ none
gone el key ll far e =
    let same = eq_of_same_key el.entry.key key e in
    find_key-absent key ll (
      All_mono (Apart el) (λ b. same_key b.entry.key key ≡ false) ll
        (λ b a. sym (ap (λ t. same_key b.entry.key t) same) ∙ a.1) far)

-- The oldest element goes.
Linked-evict :
    (el : Element) (ll : List Element) (items : List (CacheKey × ℕ))
    → Linked items (el ∷ ll)
    → All (Apart el) ll
    → Linked (delete_item el.entry.key items) ll
unfolding find_key
Linked-evict el ll items h far key =
    find_item-delete_item key el.entry.key items ∙ elim (Bool-cases (same_key el.entry.key key)) [
      | inl e ↦ rw e (sym (ap (λ o. Option.map id_of o) (gone el key ll far e)))
      | inr e ↦ rw e (h key ∙ rw e refl)
    ]

-- What evictions leave: the newest element, and of the others what was there before.
abbrev pub Kept : List Element → Element → BlockCache → Type 0
Kept pre new c =
    (post : List Element) × (c.ll ≡ post ++ new ∷ [])
    × ((key : CacheKey)
        → (find_key key c.ll ≡ none) ⊎ (find_key key c.ll ≡ find_key key (pre ++ new ∷ [])))

module _ (limit next : ℕ) (new : Element) where
  abbrev pub state : List Element → List (CacheKey × ℕ) → BlockCache
  state pre items = record {
    max_bytes = limit;
    cur_bytes = total (pre ++ new ∷ []);
    ll = pre ++ new ∷ [];
    items = items;
    next_id = next;
  }

  oldest_lem :
      (el : Element) (pre : List Element) (items : List (CacheKey × ℕ))
      → evict_oldest (el ∷ (pre ++ new ∷ [])) (state (el ∷ pre) items)
        ≡ state pre (delete_item el.entry.key items)
  unfolding evict_oldest remove_element total
  oldest_lem el pre items =
      let same_id : (el.id == el.id) ≡ true = ground arith in
      let less : length el.entry.bytes + total (pre ++ new ∷ []) - length el.entry.bytes
          ≡ total (pre ++ new ∷ []) =
        omega arith in
      rw (same_id, less) refl

  stop_lem :
      (pre : List Element) (items : List (CacheKey × ℕ))
      → ltb limit (total (pre ++ new ∷ [])) ≡ false
      → Linked items (pre ++ new ∷ [])
      → Distinct (pre ++ new ∷ [])
      → All (λ el. el.id < next) (pre ++ new ∷ [])
      → WellFormed (state pre items) × Kept pre new (state pre items)
  stop_lem pre items within linked distinct numbered = (
    record {
      linked = linked;
      distinct = distinct;
      numbered = numbered;
      size = refl;
      bounded = ground arith;
    },
    (pre, refl, λ key. inr refl),
  )

  within_one : length new.entry.bytes ≤ limit → ltb limit (total (new ∷ [])) ≡ false
  unfolding total
  within_one fits = ground arith

  kept_more :
      (el : Element) (pre : List Element) (found : Option Element) (key : CacheKey)
      → All (Apart el) (pre ++ new ∷ [])
      → (found ≡ none) ⊎ (found ≡ find_key key (pre ++ new ∷ []))
      → (found ≡ none) ⊎ (found ≡ find_key key (el ∷ (pre ++ new ∷ [])))
  unfolding find_key
  kept_more el pre found key far (inl h) = inl h
  kept_more el pre found key far (inr h) = elim (Bool-cases (same_key el.entry.key key)) [
    | inl e ↦ inl (h ∙ gone el key (pre ++ new ∷ []) far e)
    | inr e ↦ inr (h ∙ rw e refl)
  ]

  -- The loop ends, within as many rounds as there are elements, and does not evict the newest one.
  pub evict_lem :
      (fuel : ℕ) (pre : List Element) (items : List (CacheKey × ℕ))
      → length pre < fuel
      → length new.entry.bytes ≤ limit
      → Linked items (pre ++ new ∷ [])
      → Distinct (pre ++ new ∷ [])
      → All (λ el. el.id < next) (pre ++ new ∷ [])
      → (c : BlockCache) × (evict fuel (state pre items) ≡ ok c) × WellFormed c × Kept pre new c
  unfolding evict
  evict_lem zero pre items f fits linked distinct numbered = absurd (omega arith)
  evict_lem (suc fuel) [] items f fits linked distinct numbered =
      let within = within_one fits in
      let (wf, kept) = stop_lem [] items within linked distinct numbered in
      (state [] items, rw within refl, wf, kept)
  evict_lem (suc fuel) (el ∷ pre) items f fits linked distinct numbered =
      elim (Bool-cases (ltb limit (total (el ∷ (pre ++ new ∷ []))))) [
        | inl over ↦
            let (c, ended, wf, (post, shape, keeps)) =
              evict_lem fuel pre (delete_item el.entry.key items) (omega arith) fits
                (Linked-evict el (pre ++ new ∷ []) items linked distinct.0) distinct.1 numbered.1 in
            (
              c,
              rw over (ap (evict fuel) (oldest_lem el pre items) ∙ ended),
              wf,
              (post, shape, λ key. kept_more el pre (find_key key c.ll) key distinct.0 (keeps key)),
            )
        | inr within ↦
            let (wf, kept) = stop_lem (el ∷ pre) items within linked distinct numbered in
            (state (el ∷ pre) items, rw within refl, wf, kept)
      ]
