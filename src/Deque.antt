-- ===== src/Deque.antt =====
-- `IndexedDeqeue` of jormungandr/src/fragment/pool.rs: a doubly linked queue whose nodes are owned
-- by a hash map, so that a node can be removed by its key. A raw pointer to a node is the key of
-- that node: the map owns one box for each key. `none` outside is a panic, or a pointer that dangles.
pub mod Links
pub mod Refinement
use jormungandr.Prelude.{
  ℕ, Option, none, some, ◌>>=◌, is_some, if◌then◌else◌, Bool, HashMap, empty_map, put, erase,
}

-- `IndexedDequeueEntry`.
pub record Entry {ℓ} (V : Type ℓ) : Type ℓ where
  pub key : ℕ
  pub value : V
  pub prev : Option ℕ
  pub next : Option ℕ

pub record Deque {ℓ} (V : Type ℓ) : Type ℓ where
  pub head : Option ℕ
  pub tail : Option ℕ
  pub index : HashMap (Entry V)

-- A pointer that the code sets in the branch where the other pointer is null.
abbrev pub or_set : Option ℕ → Option ℕ → Option ℕ → Option ℕ
or_set none p old = p
or_set (some _) p old = old

module _ {ℓ} {V : Type ℓ} where
  unfoldable pub new : Deque V
  new = record { head = none; tail = none; index = empty_map }

  -- `if let Some(p) = p.as_mut() { p.prev = q }`: nothing happens at the null pointer.
  unfoldable pub link_prev : Option ℕ → Option ℕ → HashMap (Entry V) → Option (HashMap (Entry V))
  link_prev none q index = some index
  link_prev (some p) q index = do
    entry ← index.get p
    some (put p (record entry { prev = q }) index)

  -- The same of `p.next`.
  unfoldable pub link_next : Option ℕ → Option ℕ → HashMap (Entry V) → Option (HashMap (Entry V))
  link_next none q index = some index
  link_next (some p) q index = do
    entry ← index.get p
    some (put p (record entry { next = q }) index)

  unfoldable pub push_front : ℕ → V → Deque V → Option (Deque V)
  push_front key value d = do
    index ← link_prev d.head (some key) d.index
    if is_some (index.get key)
        then none
        else some (record {
          head = some key;
          tail = or_set d.head (some key) d.tail;
          index = put key (record { key = key; value = value; prev = none; next = d.head }) index;
        })

  unfoldable pub push_back : ℕ → V → Deque V → Option (Deque V)
  push_back key value d = do
    index ← link_next d.tail (some key) d.index
    if is_some (index.get key)
        then none
        else some (record {
          head = or_set d.tail (some key) d.head;
          tail = some key;
          index = put key (record { key = key; value = value; prev = d.tail; next = none }) index;
        })

  unfoldable pub pop_back : Deque V → Option (Option (ℕ × V) × Deque V)
  pop_back d = elim d.tail [
    | none ↦ some (none, d)
    | some t ↦ do
      tail ← d.index.get t
      index ← link_next tail.prev none d.index
      entry ← index.get tail.key
      some (
        some (entry.key, entry.value),
        record {
          head = or_set tail.prev none d.head;
          tail = tail.prev;
          index = erase tail.key index;
        },
      )
  ]

  unfoldable pub remove : ℕ → Deque V → Option (Option V × Deque V)
  remove key d = elim (d.index.get key) [
    | none ↦ some (none, d)
    | some entry ↦ do
      index ← link_next entry.prev entry.next (erase key d.index)
      index' ← link_prev entry.next entry.prev index
      some (
        some entry.value,
        record {
          head = or_set entry.prev entry.next d.head;
          tail = or_set entry.next entry.prev d.tail;
          index = index';
        },
      )
  ]

  unfoldable pub len : Deque V → ℕ
  len d = d.index.len

  unfoldable pub contains : ℕ → Deque V → Bool
  contains key d = is_some (d.index.get key)
