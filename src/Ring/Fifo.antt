-- ===== src/Ring/Fifo.antt =====
-- src/mem/ring.rs: under every interleaving, what is popped is what was pushed, in order.
use userspace_router.Base.{
  ℕ, ◌+◌, ◌<◌, ◌≡◌, refl, sym, ap, ◌∙◌, subst, Option, none, some, List, [], ◌∷◌, ◌++◌, length,
  get_or, get_elem?, map, arith, length-append, length-replicate, get_or-set_ne,
}
use userspace_router.Ring.{
  Ring, System, Producer, Consumer, Step, Run, start, new, slot, publish, clear_slot, release,
}
use userspace_router.Ring.{
  idle, writing, publishing, reading, releasing, push_full, push_start, push_write, push_end,
  pop_empty, pop_start, pop_read, pop_end, here, after,
}
use userspace_router.Ring.Invariant.{
  Represents, ProducerOk, ConsumerOk, no_push, has_room, has_written, no_pop, has_item, has_read,
  first, is_full_lem, has_none_lem, write_slot-Represents, publish-Represents,
  clear_slot-Represents, release-Represents,
}

-- The items accepted so far are those returned, in order, and then those in the ring; the ring is
-- one that holds these, and both threads may go on.
pub record IsFifo {ℓ} {A : Type ℓ} (n : ℕ) (s : System A) : Type ℓ where
  pub queue : List A
  pub ring_ok : Represents n s.ring (first s.consumer) queue
  pub producer_ok : ProducerOk n s.ring queue s.producer
  pub consumer_ok : ConsumerOk queue s.consumer
  pub history : map some s.pushed ≡ s.popped ++ map some queue

module _ {ℓ} {A : Type ℓ} (n : ℕ) where
  pub new-Represents : 0 < n → Represents n (new {A = A} n) 0 []
  new-Represents h = record {
    size = length-replicate n none;
    tail_low = h;
    room = h;
    head_at = ground arith;
    holds = λ i low high. absurd (omega arith);
  }

  start-IsFifo : 0 < n → IsFifo n (start {A = A} n)
  start-IsFifo h = record {
    queue = [];
    ring_ok = new-Represents h;
    producer_ok = no_push;
    consumer_ok = no_pop;
    history = refl;
  }

  -- What a producer in the middle of its operation knows.
  room_of : (r : Ring A) (q : List A) (x : A) → ProducerOk n r q (writing x) → length q + 1 < n
  room_of r q x (has_room _ h) = h

  written_of :
      (r : Ring A) (q : List A) (x : A)
      → ProducerOk n r q (publishing x)
      → (length q + 1 < n) × (get_or r.buffer r.head none ≡ some x)
  written_of r q x (has_written _ h w) = (h, w)

  item_of : (q : List A) → ConsumerOk q reading → 0 < length q
  item_of q (has_item h) = h

  read_of :
      (q : List A) (item : Option A)
      → ConsumerOk q (releasing item)
      → (0 < length q) × (item ≡ get_elem? q 0)
  read_of q item (has_read _ h e) = (h, e)

  -- The consumer does not touch what the producer has written, and never takes its room.
  clear_slot-ProducerOk :
      (r : Ring A) (q : List A) (p : Producer A)
      → Represents n r 0 q
      → 0 < length q
      → ProducerOk n r q p
      → ProducerOk n (clear_slot r) q p
  clear_slot-ProducerOk r q _ c some_item no_push = no_push
  clear_slot-ProducerOk r q _ c some_item (has_room x h) = has_room x h
  clear_slot-ProducerOk r q _ c some_item (has_written x h w) =
      has_written x h (get_or-set_ne r.buffer none none (λ e. ground (arith, c)) ∙ w)

  release-ProducerOk :
      (r : Ring A) (x : A) (q : List A) (p : Producer A)
      → ProducerOk n r (x ∷ q) p
      → ProducerOk n (release n r) q p
  release-ProducerOk r y q _ no_push = no_push
  release-ProducerOk r y q _ (has_room x h) = has_room x (omega arith)
  release-ProducerOk r y q _ (has_written x h w) = has_written x (omega arith) w

  append-ConsumerOk :
      (q : List A) (x : A) (k : Consumer A) → ConsumerOk q k → ConsumerOk (q ++ (x ∷ [])) k
  append-ConsumerOk q x _ no_pop = no_pop
  append-ConsumerOk q x _ (has_item h) = has_item (omega (arith, length-append q (x ∷ [])))
  append-ConsumerOk [] x _ (has_read item h e) = absurd (omega arith)
  append-ConsumerOk (y ∷ q) x _ (has_read item h e) = has_read item (omega arith) e

  map-append : (xs ys : List A) → map some (xs ++ ys) ≡ map some xs ++ map some ys
  map-append [] ys = refl
  map-append (x ∷ xs) ys = ap (◌∷◌ (some x)) (map-append xs ys)

  append_assoc : (xs ys zs : List (Option A)) → (xs ++ ys) ++ zs ≡ xs ++ (ys ++ zs)
  append_assoc [] ys zs = refl
  append_assoc (x ∷ xs) ys zs = ap (◌∷◌ x) (append_assoc xs ys zs)

  push_end-IsFifo :
      (s : System A) (x : A)
      → s.producer ≡ publishing x
      → IsFifo n s
      → IsFifo n
          (record s { ring = publish n s.ring; producer = idle; pushed = s.pushed ++ (x ∷ []) })
  push_end-IsFifo s x e c =
      let (room, w) =
        written_of s.ring c.queue x (subst (ProducerOk n s.ring c.queue) e c.producer_ok) in
      record {
        queue = c.queue ++ (x ∷ []);
        ring_ok = publish-Represents n s.ring (first s.consumer) c.queue x c.ring_ok room w;
        producer_ok = no_push;
        consumer_ok = append-ConsumerOk c.queue x s.consumer c.consumer_ok;
        history =
            map-append s.pushed (x ∷ [])
            ∙ ap (λ h. h ++ (some x ∷ [])) c.history
            ∙ append_assoc s.popped (map some c.queue) (some x ∷ [])
            ∙ ap (λ t. s.popped ++ t) (sym (map-append c.queue (x ∷ [])));
      }

  pop_read-IsFifo :
      (s : System A)
      → s.consumer ≡ reading
      → IsFifo n s
      → IsFifo n (record s { ring = clear_slot s.ring; consumer = releasing (slot s.ring) })
  pop_read-IsFifo s e c =
      let some_item = item_of c.queue (subst (ConsumerOk c.queue) e c.consumer_ok) in
      let whole = subst (λ k. Represents n s.ring (first k) c.queue) e c.ring_ok in
      let (cleared, oldest) = clear_slot-Represents n s.ring c.queue whole some_item in
      record {
        queue = c.queue;
        ring_ok = cleared;
        producer_ok = clear_slot-ProducerOk s.ring c.queue s.producer whole some_item c.producer_ok;
        consumer_ok = has_read (slot s.ring) some_item oldest;
        history = c.history;
      }

  pop_end-IsFifo :
      (s : System A) (item : Option A)
      → s.consumer ≡ releasing item
      → IsFifo n s
      → IsFifo n
          (record s { ring = release n s.ring; consumer = idle; popped = s.popped ++ (item ∷ []) })
  pop_end-IsFifo s item e c =
      go c.queue (subst (ConsumerOk c.queue) e c.consumer_ok)
        (subst (λ k. Represents n s.ring (first k) c.queue) e c.ring_ok) c.producer_ok c.history
    where
      go :
          (q : List A)
          → ConsumerOk q (releasing item)
          → Represents n s.ring 1 q
          → ProducerOk n s.ring q s.producer
          → map some s.pushed ≡ s.popped ++ map some q
          → IsFifo n (record s {
            ring = release n s.ring;
            consumer = idle;
            popped = s.popped ++ (item ∷ []);
          })
      go [] k r p h = absurd (omega (arith, read_of [] item k))
      go (x ∷ q) k r p h =
          let got : item ≡ some x = (read_of (x ∷ q) item k).1 in
          record {
            queue = q;
            ring_ok = release-Represents n s.ring x q r;
            producer_ok = release-ProducerOk s.ring x q s.producer p;
            consumer_ok = no_pop;
            history =
                h
                ∙ sym (append_assoc s.popped (some x ∷ []) (map some q))
                ∙ ap (λ i. (s.popped ++ (i ∷ [])) ++ map some q) (sym got);
          }

  -- Every access of either thread keeps this.
  pub Step-IsFifo : (s t : System A) → Step n s t → IsFifo n s → IsFifo n t
  Step-IsFifo s _ (push_full e full) c = c
  Step-IsFifo s _ (push_start x e free) c = record {
    queue = c.queue;
    ring_ok = c.ring_ok;
    producer_ok =
        has_room x
          (ground (arith, is_full_lem n s.ring (first s.consumer) c.queue c.ring_ok, c.ring_ok));
    consumer_ok = c.consumer_ok;
    history = c.history;
  }
  Step-IsFifo s _ (push_write x e) c =
      let room = room_of s.ring c.queue x (subst (ProducerOk n s.ring c.queue) e c.producer_ok) in
      let (r, w) = write_slot-Represents n s.ring (first s.consumer) c.queue x c.ring_ok room in
      record {
        queue = c.queue;
        ring_ok = r;
        producer_ok = has_written x room w;
        consumer_ok = c.consumer_ok;
        history = c.history;
      }
  Step-IsFifo s _ (push_end x e) c = push_end-IsFifo s x e c
  Step-IsFifo s _ (pop_empty e none_left) c = c
  Step-IsFifo s _ (pop_start e some_left) c = record {
    queue = c.queue;
    ring_ok = subst (λ k. Represents n s.ring (first k) c.queue) e c.ring_ok;
    producer_ok = c.producer_ok;
    consumer_ok =
        has_item (ground (arith, has_none_lem n s.ring (first s.consumer) c.queue c.ring_ok));
    history = c.history;
  }
  Step-IsFifo s _ (pop_read e) c = pop_read-IsFifo s e c
  Step-IsFifo s _ (pop_end item e) c = pop_end-IsFifo s item e c

  -- From a new ring with a slot, whatever the two threads have done and wherever they stand, the
  -- items that `pop` has returned, and then those in the ring, are the items that `push` has
  -- accepted, in their order; the ring holds them, at most `n - 1`.
  pub Run-IsFifo : (t : System A) → 0 < n → Run n (start n) t → IsFifo n t
  Run-IsFifo t h here = start-IsFifo h
  Run-IsFifo t h (after u _ run step) = Step-IsFifo u t step (Run-IsFifo u h run)
