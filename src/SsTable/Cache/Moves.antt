-- ===== src/SsTable/Cache/Moves.antt =====
-- sstable/cache.go: moving an element to the front of the list, and adding one there.
use mathlib.Core.Path.{subst}
use key_value_store.Prelude.{
  ℕ, ◌+◌, ◌≡◌, ◌≢◌, refl, sym, ap, ◌∙◌, inl, inr, List, [], ◌∷◌, ◌++◌, true, false, ◌==◌, Option,
  none, some, All, All_mono, All-append, arith, length, if◌then◌else◌, Bool-cases,
}
use key_value_store.SsTable.Cache.{
  CacheKey, same_key, Element, find_element, remove_element, push_front,
}
use key_value_store.SsTable.Cache.Laws.{
  find_key, total, Apart, Distinct, gone, eq_of_same_key, same_key_refl,
}

abbrev or_last : Option Element → Option Element → Option Element
or_last none o = o
or_last (some x) o = some x

find_key-append :
    (key : CacheKey) (ll : List Element) (el : Element)
    → find_key key (ll ++ el ∷ [])
      ≡ or_last (find_key key ll) (if same_key el.entry.key key then some el else none)
unfolding find_key
find_key-append key [] el = refl
find_key-append key (x ∷ ll) el = elim (Bool-cases (same_key x.entry.key key)) [
  | inl e ↦ rw e refl
  | inr e ↦ rw e (find_key-append key ll el)
]

pub Distinct-append :
    (ll : List Element) (el : Element)
    → Distinct ll
    → All (λ x. Apart x el) ll
    → Distinct (ll ++ el ∷ [])
Distinct-append [] el d far = (tt, tt)
Distinct-append (x ∷ ll) el d far =
    (All-append (Apart x) ll (el ∷ []) d.0 (far.0, tt), Distinct-append ll el d.1 far.1)

pub total-append :
    (ll : List Element) (el : Element) → total (ll ++ el ∷ []) ≡ total ll + length el.entry.bytes
unfolding total
total-append [] el = omega arith
total-append (x ∷ ll) el = omega (arith, total-append ll el)

-- An element of a list.
pub data IsIn (el : Element) : List Element → Type 0 where
  here : {ll : List Element} → IsIn el (el ∷ ll)
  there : {x : Element} {ll : List Element} → IsIn el ll → IsIn el (x ∷ ll)

module _ (P : Element → Type 0) where
  pub IsIn-All : {el : Element} {ll : List Element} → IsIn el ll → All P ll → P el
  IsIn-All here h = h.0
  IsIn-All (there i) h = IsIn-All i h.1

  pub All-remove_element : (id : ℕ) (ll : List Element) → All P ll → All P (remove_element id ll)
  unfolding remove_element
  All-remove_element id [] h = tt
  All-remove_element id (x ∷ ll) h = elim (Bool-cases (x.id == id)) [
    | inl e ↦ rw e h.1
    | inr e ↦ rw e (h.0, All-remove_element id ll h.1)
  ]

pub find_key-IsIn :
    (key : CacheKey) (ll : List Element) (el : Element) → find_key key ll ≡ some el → IsIn el ll
unfolding find_key
find_key-IsIn key [] el h = cc
find_key-IsIn key (x ∷ ll) el h = elim (Bool-cases (same_key x.entry.key key)) [
  | inl e ↦
      let found : some x ≡ some el = sym (rw e refl) ∙ h in
      subst (λ t. IsIn t (x ∷ ll)) (some_injective found) here
  | inr e ↦ there (find_key-IsIn key ll el (sym (rw e refl) ∙ h))
]
  where
    some_injective : {a b : Element} → some a ≡ some b → a ≡ b
    some_injective e = ground arith

own_id : (el : Element) → (el.id == el.id) ≡ true
own_id el = ground arith

other_id : (x el : Element) → Apart x el → (x.id == el.id) ≡ false
other_id x el a = ground arith

other_key : (x el : Element) → Apart x el → same_key x.entry.key el.entry.key ≡ false
unfolding same_key
other_key x el a = ground arith

Apart-sym : (x el : Element) → Apart x el → Apart el x
Apart-sym x el a = (other_id x el a, other_key x el a)

pub find_element-IsIn :
    {el : Element} {ll : List Element} → IsIn el ll → Distinct ll → find_element el.id ll ≡ some el
unfolding find_element
find_element-IsIn {el = el} (here {ll = ll}) d = rw (own_id el) refl
find_element-IsIn {el = el} (there {x = x} {ll = ll} i) d =
    rw (other_id x el (IsIn-All (Apart x) i d.0)) (find_element-IsIn i d.1)

pub total-remove_element :
    {el : Element} {ll : List Element}
    → IsIn el ll
    → Distinct ll
    → total (remove_element el.id ll) + length el.entry.bytes ≡ total ll
unfolding remove_element total
total-remove_element {el = el} (here {ll = ll}) d = rw (own_id el) (omega arith)
total-remove_element {el = el} (there {x = x} {ll = ll} i) d =
    rw (other_id x el (IsIn-All (Apart x) i d.0)) (omega (arith, total-remove_element i d.1))

pub Distinct-remove_element :
    {el : Element} {ll : List Element}
    → IsIn el ll
    → Distinct ll
    → All (λ x. Apart x el) (remove_element el.id ll) × Distinct (remove_element el.id ll)
unfolding remove_element
Distinct-remove_element {el = el} (here {ll = ll}) d =
    rw (own_id el) (All_mono (Apart el) (λ x. Apart x el) ll (λ x a. Apart-sym el x a) d.0, d.1)
Distinct-remove_element {el = el} (there {x = x} {ll = ll} i) d =
    let far = IsIn-All (Apart x) i d.0 in
    let (others, rest) = Distinct-remove_element i d.1 in
    rw (other_id x el far) ((far, others), (All-remove_element (Apart x) el.id ll d.0, rest))

pub find_key-remove_element :
    {el : Element} {ll : List Element} (key : CacheKey)
    → IsIn el ll
    → Distinct ll
    → find_key key ll
      ≡ (if same_key el.entry.key key then some el else find_key key (remove_element el.id ll))
unfolding remove_element find_key
find_key-remove_element {el = el} key (here {ll = ll}) d = rw (own_id el) refl
find_key-remove_element {el = el} key (there {x = x} {ll = ll} i) d =
    let far = IsIn-All (Apart x) i d.0 in
    let ih = find_key-remove_element key i d.1 in
    rw (other_id x el far) (elim (Bool-cases (same_key el.entry.key key)) [
      | inl e ↦
          let apart =
            sym (ap (λ t. same_key x.entry.key t) (eq_of_same_key el.entry.key key e))
            ∙ other_key x el far in
          rw (e, apart) (ih ∙ rw e refl)
      | inr e ↦ rw e (ap (λ o. if same_key x.entry.key key then some x else o) (ih ∙ rw e refl))
    ])

-- An element is put at the front, apart from the others.
pub push_front_lem :
    (key : CacheKey) (el : Element) (ll : List Element)
    → All (λ x. Apart x el) ll
    → find_key key (push_front el ll)
      ≡ (if same_key el.entry.key key then some el else find_key key ll)
unfolding push_front
push_front_lem key el ll far =
    find_key-append key ll el ∙ elim (Bool-cases (same_key el.entry.key key)) [
      | inl e ↦
          let none_else =
            gone el key ll (All_mono (λ x. Apart x el) (Apart el) ll (λ x a. Apart-sym x el a) far)
              e in
          rw (none_else, e) refl
      | inr e ↦ rw e (itself (find_key key ll))
    ]
  where
    itself : (o : Option Element) → or_last o none ≡ o
    itself none = refl
    itself (some x) = refl

-- The newest element has a key that is found.
pub find_key-last :
    (ll : List Element) (el : Element) → find_key el.entry.key (ll ++ el ∷ []) ≢ none
unfolding find_key
find_key-last [] el h =
    absurd (cc (sym h ∙ ap (λ b. if b then some el else none) (same_key_refl el.entry.key)))
find_key-last (x ∷ ll) el h = elim (Bool-cases (same_key x.entry.key el.entry.key)) [
  | inl e ↦
      let found : find_key el.entry.key (x ∷ (ll ++ el ∷ [])) ≡ some x = rw e refl in
      absurd (cc (h, found))
  | inr e ↦ find_key-last ll el (sym (rw e refl) ∙ h)
]
