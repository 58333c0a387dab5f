-- ===== src/Ring/Invariant.antt =====
-- src/mem/ring.rs: the queue that a ring holds, while either thread is anywhere in its operation.
use userspace_router.Base.{
  ℕ, suc, ◌+◌, ◌-◌, ◌≤◌, ◌<◌, ◌≡◌, sym, ap, ◌∙◌, Option, none, some, List, [], ◌∷◌, ◌++◌, ltb, ◌==◌,
  length, get_or, get_elem?, arith, length-append, Bool-cases, inl, inr, length-set,
  get_or-set_self, get_or-set_ne,
}
use userspace_router.Ring.{
  Ring, Producer, Consumer, next, len, is_full, has_none, slot, write_slot, publish, clear_slot,
  release,
}
use userspace_router.Ring.{idle, writing, publishing, reading, releasing}
use userspace_router.Ring.Slots.{around, mod-around, get_elem?-append, get_elem?-append_last}

-- The oldest slot is empty while the consumer holds its item.
abbrev pub first {ℓ} : {A : Type ℓ} → Consumer A → ℕ
first idle = 0
first reading = 0
first (releasing item) = 1

-- A ring of `n` slots holds the items of `q` from its tail on; one slot stays free.
pub record Represents {ℓ} {A : Type ℓ} (n : ℕ) (r : Ring A) (from : ℕ) (q : List A) : Type ℓ where
  pub size : length r.buffer ≡ n
  pub tail_low : r.tail < n
  pub room : length q < n
  pub head_at : r.head ≡ around n r.tail (length q)
  pub holds :
      (i : ℕ) → from ≤ i → i < length q → get_or r.buffer (around n r.tail i) none ≡ get_elem? q i

-- A producer past its test has room for one more item, and has written it in front of `publish`.
pub data ProducerOk {ℓ} {A : Type ℓ} (n : ℕ) (r : Ring A) (q : List A) : Producer A → Type ℓ where
  no_push : ProducerOk n r q idle
  has_room : (item : A) → length q + 1 < n → ProducerOk n r q (writing item)
  has_written :
      (item : A)
      → length q + 1 < n
      → get_or r.buffer r.head none ≡ some item
      → ProducerOk n r q (publishing item)

-- A consumer past its test has an item; it has the oldest one in front of `release`.
pub data ConsumerOk {ℓ} {A : Type ℓ} (q : List A) : Consumer A → Type ℓ where
  no_pop : ConsumerOk q idle
  has_item : 0 < length q → ConsumerOk q reading
  has_read : (item : Option A) → 0 < length q → item ≡ get_elem? q 0 → ConsumerOk q (releasing item)

module _ {ℓ} {A : Type ℓ} (n : ℕ) (r : Ring A) where
  head_low : (from : ℕ) (q : List A) → Represents n r from q → r.head < n
  head_low from q c = ground (arith, c)

  next-around : (i : ℕ) → i < n → next n i ≡ around n i 1
  next-around i h = mod-around n (i + 1) (omega arith)

  -- The two tests compare the number of items with the capacity and with zero.
  pub is_full_lem :
      (from : ℕ) (q : List A) → Represents n r from q → is_full n r ≡ (length q + 1 == n)
  is_full_lem from q c = rw (next-around r.head (head_low from q c), c.head_at) (ground (arith, c))

  pub has_none_lem : (from : ℕ) (q : List A) → Represents n r from q → has_none r ≡ (length q == 0)
  has_none_lem from q c = rw c.head_at (ground (arith, c))

  pub len_lem : (from : ℕ) (q : List A) → Represents n r from q → len n r ≡ length q
  len_lem from q c = mod-around n (r.head + n - r.tail) (ground (arith, c)) ∙ ground (arith, c)

  -- The producer writes a slot outside the queue, and then takes it into the queue.
  pub write_slot-Represents :
      (from : ℕ) (q : List A) (x : A)
      → Represents n r from q
      → length q + 1 < n
      → Represents n (write_slot r x) from q × (get_or (write_slot r x).buffer r.head none ≡ some x)
  write_slot-Represents from q x c room = (
    record {
      size = length-set r.buffer r.head (some x) ∙ c.size;
      tail_low = c.tail_low;
      room = c.room;
      head_at = c.head_at;
      holds = λ i low high.
          get_or-set_ne r.buffer (some x) none (λ e. ground (arith, c)) ∙ c.holds i low high;
    },
    get_or-set_self r.buffer r.head (some x) none (omega (arith, c.size, head_low from q c)),
  )

  pub publish-Represents :
      (from : ℕ) (q : List A) (x : A)
      → Represents n r from q
      → length q + 1 < n
      → get_or r.buffer r.head none ≡ some x
      → Represents n (publish n r) from (q ++ (x ∷ []))
  publish-Represents from q x c room written =
      let more : length (q ++ (x ∷ [])) ≡ length q + 1 = length-append q (x ∷ []) in
      record {
        size = c.size;
        tail_low = c.tail_low;
        room = omega (arith, more);
        head_at = next-around r.head (head_low from q c) ∙ rw more (ground (arith, c));
        holds = λ i low high. elim (Bool-cases (ltb i (length q))) [
          | inl old ↦ c.holds i low (ground arith) ∙ sym (get_elem?-append q x i (ground arith))
          | inr new ↦
              let at : i ≡ length q = ground (arith, more) in
              rw (at, sym c.head_at) (written ∙ sym (get_elem?-append_last q x))
        ];
      }

  -- The consumer clears the oldest slot, and then leaves it to the producer.
  pub clear_slot-Represents :
      (q : List A)
      → Represents n r 0 q
      → 0 < length q
      → Represents n (clear_slot r) 1 q × (slot r ≡ get_elem? q 0)
  clear_slot-Represents q c some_item = (
    record {
      size = length-set r.buffer r.tail none ∙ c.size;
      tail_low = c.tail_low;
      room = c.room;
      head_at = c.head_at;
      holds = λ i low high.
          get_or-set_ne r.buffer none none (λ e. ground (arith, c)) ∙ c.holds i (omega arith) high;
    },
    ap (λ p. get_or r.buffer p none) (ground (arith, c)) ∙ c.holds 0 (omega arith) some_item,
  )

  pub release-Represents :
      (x : A) (q : List A) → Represents n r 1 (x ∷ q) → Represents n (release n r) 0 q
  release-Represents x q c =
      let next_tail : next n r.tail ≡ around n r.tail 1 = next-around r.tail c.tail_low in
      record {
        size = c.size;
        tail_low = rw next_tail (ground (arith, c));
        room = omega (arith, c);
        head_at = rw (next_tail, c.head_at) (ground (arith, c));
        holds = λ i low high. rw next_tail (
            ap (λ p. get_or r.buffer p none) (ground (arith, c))
            ∙ c.holds (suc i) (omega arith) (omega arith));
      }
