-- ===== src/Engine/Layers.antt =====
-- engine/engine.go: what Get finds in the layers of an engine, each of which is the sequence of
-- writes that its memtable or table was made from. The newest layer comes first.
use mathlib.Core.Option
use key_value_store.Prelude.{
  ℕ, ◌≡◌, refl, sym, ap, ◌∙◌, inl, inr, List, [], ◌∷◌, ◌++◌, Option, none, some, ◌==◌,
  if◌then◌else◌, Bool-cases, Outcome, ok,
}
use key_value_store.Bytes.Order.{same}
use key_value_store.Wal.Record.{Record, record_delete}
use key_value_store.Memtable.Entries.{EntrySnapshot, find_entry}
use key_value_store.Memtable.Table
use key_value_store.Memtable.Table.{Memtable}
use key_value_store.Memtable.Table.Laws.{Holds, get-Holds, view}
use key_value_store.Memtable.Table.History.{
  Write, put_key, delete_key, insert_all, last_write, entry_of, find_entry-insert_all,
}
use key_value_store.Engine.State.{Reader, TableEntry, Hit, answer, or_else, get_tables}

-- The write that a record of the log stands for.
unfoldable pub write_of : Record → Write
write_of r =
    if r.type == record_delete then delete_key r.key r.seq_num else put_key r.key r.value r.seq_num

-- The last write of a key in the newest layer that has one.
unfoldable pub seen : List ℕ → List (List Write) → Option EntrySnapshot
seen key [] = none
seen key (ws ∷ layers) = last_write key ws (seen key layers)

abbrev pub value_of : Option EntrySnapshot → Option (List ℕ)
value_of none = none
value_of (some e) = answer (view e)

pub last_write-append :
    (key : List ℕ) (ws vs : List Write) (old : Option EntrySnapshot)
    → last_write key (ws ++ vs) old ≡ last_write key vs (last_write key ws old)
unfolding last_write
last_write-append key [] vs old = refl
last_write-append key (w ∷ ws) vs old =
    last_write-append key ws vs (if same (entry_of w).key key then some (entry_of w) else old)

abbrev pub or_old : Option EntrySnapshot → Option EntrySnapshot → Option EntrySnapshot
or_old none old = old
or_old (some e) old = some e

some_first :
    (o : Option EntrySnapshot) (x : EntrySnapshot) (old : Option EntrySnapshot)
    → or_old (or_old o (some x)) old ≡ or_old o (some x)
some_first none x old = refl
some_first (some y) x old = refl

-- Writes of a key hide what there was before.
pub last_write_old :
    (key : List ℕ) (ws : List Write) (old : Option EntrySnapshot)
    → last_write key ws old ≡ or_old (last_write key ws none) old
unfolding last_write
last_write_old key [] old = refl
last_write_old key (w ∷ ws) old =
    let x = entry_of w in
    let ih = last_write_old key ws (some x) in
    elim (Bool-cases (same x.key key)) [
      | inl e ↦
          rw e (ih ∙ sym (ap (λ p. or_old p old) ih ∙ some_first (last_write key ws none) x old))
      | inr e ↦ rw e (last_write_old key ws old)
    ]

-- A memtable, or a table, was made from these writes.
abbrev pub MadeFrom : Memtable → List Write → Type 0
MadeFrom m ws = Holds m (insert_all ws [])

abbrev pub ReadsAs : Reader → List Write → Type 0
ReadsAs r ws = (key : List ℕ) → r.get key ≡ ok (Option.map view (last_write key ws none))

pub get-MadeFrom :
    (m : Memtable) (ws : List Write) (key : List ℕ)
    → MadeFrom m ws
    → Table.get key m ≡ Option.map view (last_write key ws none)
unfolding find_entry
get-MadeFrom m ws key h =
    get-Holds m (insert_all ws []) key h
    ∙ ap (λ o. Option.map view o) (find_entry-insert_all key ws [])

-- A layer is asked first, and the older ones after it.
layer_lem :
    (o old : Option EntrySnapshot)
    → or_else (Option.map view o) (ok (value_of old)) ≡ ok (value_of (or_old o old))
layer_lem none old = refl
layer_lem (some e) old = refl

pub seen-cons :
    (key : List ℕ) (ws : List Write) (layers : List (List Write))
    → or_else (Option.map view (last_write key ws none)) (ok (value_of (seen key layers)))
      ≡ ok (value_of (seen key (ws ∷ layers)))
unfolding seen
seen-cons key ws layers =
    layer_lem (last_write key ws none) (seen key layers)
    ∙ ap (λ o. ok (value_of o)) (sym (last_write_old key ws (seen key layers)))

-- The tables were made from these layers.
abbrev pub TablesRead : List TableEntry → List (List Write) → Type 0
TablesRead [] layers = layers ≡ []
TablesRead (t ∷ ts) [] = ⊥
TablesRead (t ∷ ts) (ws ∷ layers) = ReadsAs t.reader ws × TablesRead ts layers

pub get_tables-seen :
    (key : List ℕ) (ts : List TableEntry) (layers : List (List Write))
    → TablesRead ts layers
    → get_tables key ts ≡ ok (value_of (seen key layers))
unfolding get_tables seen
get_tables-seen key [] layers h = rw h refl
get_tables-seen key (t ∷ ts) [] h = absurd h
get_tables-seen key (t ∷ ts) (ws ∷ layers) (reads, h) = rw (reads key) (
    from_hit (Option.map view (last_write key ws none)) (get_tables key ts)
    ∙ ap (λ r. or_else (Option.map view (last_write key ws none)) r)
        (get_tables-seen key ts layers h)
    ∙ seen-cons key ws layers)
  where
    from_hit :
        (o : Option Hit) (rest : Outcome (Option (List ℕ)))
        → elim o [ none ↦ rest | some h ↦ ok (answer h) ] ≡ or_else o rest
    from_hit none rest = refl
    from_hit (some h) rest = refl
