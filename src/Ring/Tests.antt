-- ===== src/Ring/Tests.antt =====
-- src/mem/ring.rs: a ring of three slots, both threads in the middle of an operation.
use userspace_router.Base.{ℕ, ◌≡◌, refl, none, some, List, [], ◌∷◌, arith, false, true}
use userspace_router.Ring.{Ring, System, Run, start, new, push, pop, len}
use userspace_router.Ring.{
  idle, publishing, releasing, push_start, push_write, push_end, pop_start, pop_read, here, after,
}
use userspace_router.Ring.Invariant.{Represents}
use userspace_router.Ring.Fifo.{IsFifo, Run-IsFifo, new-Represents}
use userspace_router.Ring.Whole.{Pushes, Pops, push_lem, pop_lem}
use userspace_router.Ring.Close.{IsCounted, Drops-IsCounted, cleared_frees_twice}
use userspace_router.Ring.Drops.{
  Block, Drops, opened, rx_stores, tx_stores, rx_shows, rx_frees, cleared, dropped, alive,
}

-- 7 has been pushed into a ring of three slots, 8 is being pushed, and 7 is being popped.
abbrev one : System ℕ
one = record {
  ring = record { head = 1; tail = 0; buffer = some 7 ∷ none ∷ none ∷ [] };
  producer = idle;
  consumer = idle;
  pushed = 7 ∷ [];
  popped = [];
}

abbrev two : System ℕ
two = record {
  ring = record { head = 1; tail = 0; buffer = none ∷ some 8 ∷ none ∷ [] };
  producer = publishing 8;
  consumer = releasing (some 7);
  pushed = 7 ∷ [];
  popped = [];
}

to_one : Run 3 (start 3) one
to_one =
    after _ one (after _ _ (after _ _ here (push_start 7 refl refl)) (push_write 7 refl))
      (push_end 7 refl)

to_two : Run 3 (start 3) two
to_two =
    after _ two
      (after _ _ (after _ _ (after _ _ to_one (push_start 8 refl refl)) (pop_start refl refl))
        (push_write 8 refl))
      (pop_read refl)

Run-IsFifo_example : IsFifo 3 two
Run-IsFifo_example = Run-IsFifo 3 two (omega arith) to_two

empty-Represents : Represents {A = ℕ} 3 (new 3) 0 []
empty-Represents = new-Represents {A = ℕ} 3 (omega arith)

push_lem_example :
    (q : List ℕ) × Represents 3 (push 3 (new 3) 7).0 0 q
    × Pushes 3 [] 7 q (push 3 (new 3) 7).1
    × (len {A = ℕ} 3 (new 3) ≡ 0)
push_lem_example = push_lem 3 (new 3) [] 7 empty-Represents

-- 7 is in the last slot, and the next item goes to the first.
abbrev at_end : Ring ℕ
at_end = record { head = 0; tail = 2; buffer = none ∷ none ∷ some 7 ∷ [] }

at_end-Represents : Represents 3 at_end 0 (7 ∷ [])
at_end-Represents = record {
  size = refl;
  tail_low = omega arith;
  room = omega arith;
  head_at = refl;
  holds = λ i low h. let first : i ≡ 0 = omega (arith, h) in rw first refl;
}

pop_lem_example :
    (q : List ℕ) × Represents 3 (pop 3 at_end).0 0 q × Pops (7 ∷ []) q (pop 3 at_end).1
pop_lem_example = pop_lem 3 at_end (7 ∷ []) at_end-Represents

abbrev both_cleared : Block
both_cleared = record { has_rx = true; has_tx = true; rx = cleared; tx = cleared; frees = 0 }

to_both_cleared : Drops opened both_cleared
to_both_cleared =
    Drops.after _ both_cleared (Drops.after opened _ Drops.here (rx_stores refl)) (tx_stores refl)

-- One drop behind the other.
abbrev rx_gone : Block
rx_gone = record { has_rx = false; has_tx = true; rx = dropped; tx = alive; frees = 0 }

to_rx_gone : Drops opened rx_gone
to_rx_gone =
    Drops.after (record opened { rx = dropped }) rx_gone
      (Drops.after (record opened { rx = cleared }) (record opened { rx = dropped })
        (Drops.after opened (record opened { rx = cleared }) Drops.here (rx_stores refl))
        (rx_frees refl))
      (rx_shows refl)

freed_once : (c : Block) → Drops rx_gone c → c.tx ≡ dropped → c.frees ≡ 1
freed_once = (Drops-IsCounted rx_gone to_rx_gone).rx_first refl refl refl

Drops-IsCounted_example : IsCounted both_cleared
Drops-IsCounted_example = Drops-IsCounted both_cleared to_both_cleared

cleared_frees_twice_example :
    (c : Block) × Drops both_cleared c × (c.rx ≡ dropped) × (c.tx ≡ dropped) × (c.frees ≡ 2)
cleared_frees_twice_example = cleared_frees_twice both_cleared to_both_cleared refl refl
