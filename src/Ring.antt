-- ===== src/Ring.antt =====
-- src/mem/ring.rs: the single-producer, single-consumer ring. The producer and the consumer are two
-- threads: an operation is a sequence of accesses to the shared ring, and the accesses of the two
-- interleave. An acquire load sees the slots written before the release store that it reads, so the
-- accesses of `push` and `pop` are taken to be sequentially consistent.
pub mod Slots
pub mod Invariant
pub mod Fifo
pub mod Whole
pub mod Drops
pub mod Close
mod Tests
use userspace_router.Base.{
  ℕ, ◌+◌, ◌-◌, ◌%◌, ◌≡◌, ◌≢◌, Bool, true, false, Option, none, some, List, [], ◌++◌, ◌∷◌,
  if◌then◌else◌, ◌==◌, get_or, set, replicate,
}

-- A slot is an `Option`; `n`, the number of slots, is an argument of the operations.
pub record Ring {ℓ} (A : Type ℓ) : Type ℓ where
  pub head : ℕ
  pub tail : ℕ
  pub buffer : List (Option A)

abbrev pub new {ℓ} : {A : Type ℓ} → ℕ → Ring A
new n = record { head = 0; tail = 0; buffer = replicate n none }

abbrev pub next : ℕ → ℕ → ℕ
next n i = (i + 1) % n

-- The test and the two writes of `push`.
abbrev pub is_full {ℓ} : {A : Type ℓ} → ℕ → Ring A → Bool
is_full n r = next n r.head == r.tail

abbrev pub write_slot {ℓ} : {A : Type ℓ} → Ring A → A → Ring A
write_slot r item = record r { buffer = set r.buffer r.head (some item) }

abbrev pub publish {ℓ} : {A : Type ℓ} → ℕ → Ring A → Ring A
publish n r = record r { head = next n r.head }

-- The answer is the item that `Err` gives back, none for `Ok`.
unfoldable pub push {ℓ} : {A : Type ℓ} → ℕ → Ring A → A → Ring A × Option A
push n r item = if is_full n r then (r, some item) else (publish n (write_slot r item), none)

-- The test, the read and the two writes of `pop`.
abbrev pub has_none {ℓ} : {A : Type ℓ} → Ring A → Bool
has_none r = r.tail == r.head

abbrev pub slot {ℓ} : {A : Type ℓ} → Ring A → Option A
slot r = get_or r.buffer r.tail none

abbrev pub clear_slot {ℓ} : {A : Type ℓ} → Ring A → Ring A
clear_slot r = record r { buffer = set r.buffer r.tail none }

abbrev pub release {ℓ} : {A : Type ℓ} → ℕ → Ring A → Ring A
release n r = record r { tail = next n r.tail }

unfoldable pub pop {ℓ} : {A : Type ℓ} → ℕ → Ring A → Ring A × Option A
pop n r = if has_none r then (r, none) else (release n (clear_slot r), slot r)

abbrev pub len {ℓ} : {A : Type ℓ} → ℕ → Ring A → ℕ
len n r = (r.head + n - r.tail) % n

abbrev pub is_empty {ℓ} : {A : Type ℓ} → ℕ → Ring A → Bool
is_empty n r = len n r == 0

abbrev pub capacity : ℕ → ℕ
capacity n = n - 1

-- Where each thread stands in its operation: in front of the write of the slot or of the index.
pub data Producer {ℓ} (A : Type ℓ) : Type ℓ where
  idle : Producer A
  writing publishing : A → Producer A

pub data Consumer {ℓ} (A : Type ℓ) : Type ℓ where
  idle reading : Consumer A
  releasing : Option A → Consumer A

-- The shared ring and both threads, with what `push` has accepted and what `pop` has returned.
pub record System {ℓ} (A : Type ℓ) : Type ℓ where
  pub ring : Ring A
  pub producer : Producer A
  pub consumer : Consumer A
  pub pushed : List A
  pub popped : List (Option A)

-- One access of one thread; a test that ends an operation leaves no trace.
pub data Step {ℓ} {A : Type ℓ} (n : ℕ) (s : System A) : System A → Type ℓ where
  push_full : s.producer ≡ idle → is_full n s.ring ≡ true → Step n s s
  push_start :
      (item : A)
      → s.producer ≡ idle
      → is_full n s.ring ≡ false
      → Step n s (record s { producer = writing item })
  push_write :
      (item : A)
      → s.producer ≡ writing item
      → Step n s (record s { ring = write_slot s.ring item; producer = publishing item })
  push_end :
      (item : A)
      → s.producer ≡ publishing item
      → Step n s
          (record s { ring = publish n s.ring; producer = idle; pushed = s.pushed ++ (item ∷ []) })
  pop_empty : s.consumer ≡ idle → has_none s.ring ≡ true → Step n s s
  pop_start :
      s.consumer ≡ idle → has_none s.ring ≡ false → Step n s (record s { consumer = reading })
  pop_read :
      s.consumer ≡ reading
      → Step n s (record s { ring = clear_slot s.ring; consumer = releasing (slot s.ring) })
  pop_end :
      (item : Option A)
      → s.consumer ≡ releasing item
      → Step n s
          (record s { ring = release n s.ring; consumer = idle; popped = s.popped ++ (item ∷ []) })

pub data Run {ℓ} {A : Type ℓ} (n : ℕ) (s : System A) : System A → Type ℓ where
  here : Run n s s
  after : (t u : System A) → Run n s t → Step n t u → Run n s u

abbrev pub start {ℓ} : {A : Type ℓ} → ℕ → System A
start n = record { ring = new n; producer = idle; consumer = idle; pushed = []; popped = [] }
