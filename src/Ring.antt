-- ===== src/Ring.antt =====
-- The ring storage of prediction/InputBuffer.h, prediction/StateBuffer.h, prediction/SnapshotBuffer.h and
-- replication/ReplicationQueues.h: a vector of fixed size, the position of the oldest element and how many
-- there are. Each class repeats these few lines; the model shares them.
pub mod Laws
use stalker_mp.Base.{
  ℕ, zero, suc, ◌+◌, ◌-◌, ◌%◌, List, [], ◌∷◌, Option, none, some, length, get_elem?, set, replicate,
  Bool, leb,
}

pub record Ring {ℓ} (A : Type ℓ) : Type ℓ where
  pub buffer : List A
  pub head : ℕ
  pub count : ℕ

module _ {ℓ} {A : Type ℓ} where
  abbrev pub capacity : Ring A → ℕ
  capacity r = length r.buffer

  -- `std::vector(capacity)` of value-initialised elements.
  abbrev pub new_ring : A → ℕ → Ring A
  new_ring blank n = record { buffer = replicate n blank; head = 0; count = 0 }

  abbrev pub is_full : Ring A → Bool
  is_full r = leb (capacity r) r.count

  -- `m_buffer[(m_head + i) % m_buffer.size()]`.
  abbrev pub element : Ring A → ℕ → Option A
  element r i = get_elem? r.buffer ((r.head + i) % capacity r)

  -- Writing at the tail.
  abbrev pub push_back : Ring A → A → Ring A
  push_back r a = record r {
    buffer = set r.buffer ((r.head + r.count) % capacity r) a;
    count = r.count + 1;
  }

  -- Dropping the oldest.
  abbrev pub pop_front : Ring A → Ring A
  pop_front r = record r { head = (r.head + 1) % capacity r; count = r.count - 1 }

  abbrev pub clear_ring : Ring A → Ring A
  clear_ring r = record r { head = 0; count = 0 }

  -- The loop over the elements from the i-th on.
  unfoldable pub window : Ring A → ℕ → ℕ → List A
  window r i zero = []
  window r i (suc n) =
      let rest = window r (i + 1) n in elim (element r i) [ none ↦ rest | some a ↦ a ∷ rest ]

  -- The elements from the oldest to the newest.
  unfoldable pub contents : Ring A → List A
  unfolding window
  contents r = window r 0 r.count
