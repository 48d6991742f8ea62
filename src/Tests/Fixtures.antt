-- ===== src/Tests/Fixtures.antt =====
-- A small chain, a cache that is a list, a ledger that counts, and a pool of two fragments.
use jormungandr.Prelude.{
  ℕ, ◌+◌, refl, true, none, some, List, [], ◌∷◌, inl, if◌then◌else◌, ltb, arith, put, empty_map,
  find, without, take, last_of, drop_last,
}
use jormungandr.Chain.{Chain, Fragment, transaction, transaction_expired}
use jormungandr.Lru.{LruCache, touch}
use jormungandr.Deque.{Deque}
use jormungandr.Deque.Refinement.{Represents}
use jormungandr.Mempool.{Pool}
use jormungandr.Mempool.Timeouts.{contains, same, before}
use jormungandr.Mempool.{get_transaction_expiry_date}
use jormungandr.Mempool.Invariant.{Holds}
use jormungandr.Selection.{Simulation}

-- A transaction is its id and its expiry date.
abbrev pub id_of : Fragment (ℕ × ℕ) ℕ → ℕ
id_of (transaction (id, _)) = id
id_of _ = 0

abbrev pub counting_chain : Chain
counting_chain = record {
  Tx = ℕ × ℕ;
  Raw = ℕ;
  Date = ℕ;
  Settings = Unit {0};
  position = λ d. d;
  position_injective = λ a b e. e;
  valid_until = λ tx. tx.1;
  verify_possibly_balanced = λ _. true;
  hash = id_of;
  serialized_size = λ _. 10;
  valid_transaction_date =
      λ _ valid date. if ltb valid date then some transaction_expired else none;
}

abbrev pub list_cache : (V : Type 0) → LruCache V
list_cache V = record {
  Cache = ℕ × List (ℕ × V);
  new = λ n. (n, []);
  cap = λ c. c.0;
  iter = λ c. c.1;
  peek = λ c k. find k c.1;
  put = λ c k v. (c.0, take c.0 ((k, v) ∷ without k c.1));
  get_mut = λ c k f. (c.0, touch k f c.1);
  pop = λ c k. (c.0, without k c.1);
  peek_lru = λ c. last_of c.1;
  pop_lru = λ c. (c.0, drop_last c.1);
  iter-new = λ n. refl;
  cap-new = λ n. refl;
  peek-iter = λ c k. refl;
  iter-put = λ c k v. refl;
  cap-put = λ c k v. refl;
  iter-get_mut = λ c k f. refl;
  cap-get_mut = λ c k f. refl;
  iter-pop = λ c k. refl;
  cap-pop = λ c k. refl;
  peek_lru-iter = λ c. refl;
  iter-pop_lru = λ c. refl;
  cap-pop_lru = λ c. refl;
}

-- A ledger counts the fragments applied; a block has room for one of them.
abbrev pub counting_ledger : Simulation counting_chain
counting_ledger = record {
  Ledger = ℕ;
  Text = ℕ;
  apply_fragment = λ ledger _. inl (ledger + 1);
  block_content_max_size = λ _. 15;
  block_date = λ _. 3;
  size_exceeds = λ _ _. 0;
  hard_deadline_text = 1;
}

abbrev pub first_tx : Fragment (ℕ × ℕ) ℕ
first_tx = transaction (1, 5)

abbrev pub second_tx : Fragment (ℕ × ℕ) ℕ
second_tx = transaction (2, 9)

abbrev pub third_tx : Fragment (ℕ × ℕ) ℕ
third_tx = transaction (3, 9)

-- The second fragment came after the first one.
abbrev pub two_entries : List (ℕ × Fragment (ℕ × ℕ) ℕ)
two_entries = (2, second_tx) ∷ (1, first_tx) ∷ []

abbrev pub two_deque : Deque (Fragment (ℕ × ℕ) ℕ)
two_deque = record {
  head = some 2;
  tail = some 1;
  index =
      put 2 (record { key = 2; value = second_tx; prev = none; next = some 1 })
        (put 1 (record { key = 1; value = first_tx; prev = some 2; next = none }) empty_map);
}

pub two_deque-Represents : Represents two_deque two_entries
two_deque-Represents = record {
  head = refl;
  tail = refl;
  linked = (refl, (refl, tt));
  distinct = ground arith;
  absent = λ k h. ground arith;
  count = refl;
}

abbrev pub two_pool : Pool counting_chain
two_pool = record {
  entries = two_deque;
  timeout_queue = record { valid_until = 5; id = 1 } ∷ record { valid_until = 9; id = 2 } ∷ [];
  max_entries = 3;
  total_size_bytes = 20;
}

pub two_pool-Holds : Holds counting_chain two_pool two_entries
unfolding contains same before get_transaction_expiry_date
two_pool-Holds = record {
  entries = two_deque-Represents;
  size = refl;
  sorted = ground arith;
  timeouts = λ item. ground arith;
}
