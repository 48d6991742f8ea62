-- ===== src/Logs/Lookup.antt =====
-- `logs_by_ids`: which logs are found.
use jormungandr.Prelude.{
  ℕ, ◌≡◌, refl, ap, Bool, false, ◌||◌, Option, none, some, List, [], ◌∷◌, HashMap, empty_map, put,
  ◌==◌, ==→≡, if◌then◌else◌, arith, Bool-cases, Option-cases, inl, inr,
}
use jormungandr.FragmentLog.{FragmentLog}
use jormungandr.Lru.{LruCache}
use jormungandr.Logs.{LogEntry, collect, logs_by_ids}

abbrev pub is_among : ℕ → List ℕ → Bool
is_among id [] = false
is_among id (j ∷ ids) = (j == id) || is_among id ids

module _ {Date Text : Type 0} (lru : LruCache (LogEntry Date Text)) where
  open lru use {Cache, peek}

  -- The log that a cache has for an id, or else another answer.
  abbrev pub log_or :
      Option (FragmentLog Date Text) → Option (LogEntry Date Text) → Option (FragmentLog Date Text)
  log_or other none = other
  log_or other (some (log, _)) = some log

  collect-get :
      (id : ℕ) (ids : List ℕ) (c : Cache) (m : HashMap (FragmentLog Date Text))
      → (collect lru ids c m).get id
        ≡ (if is_among id ids then log_or (m.get id) (peek c id) else m.get id)
  unfolding collect
  collect-get id [] c m = refl
  collect-get id (j ∷ ids) c m = elim (Bool-cases (j == id)) [
    | inl hit ↦
        let same = ap (peek c) (==→≡ j id hit) in
        elim (Option-cases (peek c j)) [
          | inl e ↦ ground (arith, e, same, hit, collect-get id ids c m)
          | inr ((log, d), e) ↦ ground (arith, e, same, hit, collect-get id ids c (put j log m))
        ]
    | inr miss ↦ elim (Option-cases (peek c j)) [
      | inl e ↦ ground (arith, e, miss, collect-get id ids c m)
      | inr ((log, d), e) ↦ ground (arith, e, miss, collect-get id ids c (put j log m))
    ]
  ]

  -- `logs_by_ids` has for each of the ids the log that the cache has, and for no other id any.
  pub logs_by_ids-get :
      (id : ℕ) (ids : List ℕ) (c : Cache)
      → (logs_by_ids lru ids c).get id ≡ (if is_among id ids then log_or none (peek c id) else none)
  unfolding logs_by_ids
  logs_by_ids-get id ids c = collect-get id ids c empty_map
