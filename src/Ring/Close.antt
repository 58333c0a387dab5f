-- ===== src/Ring/Close.antt =====
-- src/mem/ring.rs: how often the drops of the two handles free the control block.
use userspace_router.Base.{◌+◌, ◌≤◌, ◌≡◌, ◌≢◌, refl, sym, ap, ◌∙◌, true, false, arith}
use userspace_router.Ring.Drops.{
  Block, alive, cleared, dropped, opened, freed_if, is_alive, done, Drop, rx_stores, rx_shows,
  rx_frees, tx_stores, tx_shows, tx_frees, Drops, here, after, IsKept, Drops-IsKept,
}

-- One side is done, visibly so, and the other has not begun: each has its turn.
record RxFirst (b : Block) : Type 0 where
  rx_done : b.rx ≡ dropped
  rx_shown : b.has_rx ≡ false
  tx_counts : b.frees ≡ done b.tx

record TxFirst (b : Block) : Type 0 where
  tx_done : b.tx ≡ dropped
  tx_shown : b.has_tx ≡ false
  rx_counts : b.frees ≡ done b.rx

Drop-RxFirst : (b c : Block) → Drop b c → RxFirst b → RxFirst c
Drop-RxFirst b _ (rx_stores e) k = absurd (apart (sym k.rx_done ∙ e))
  where
    apart : dropped ≢ alive
    apart h = cc
Drop-RxFirst b _ (rx_shows e) k = record {
  rx_done = k.rx_done;
  rx_shown = refl;
  tx_counts = k.tx_counts;
}
Drop-RxFirst b _ (rx_frees e) k = absurd (apart (sym k.rx_done ∙ e))
  where
    apart : dropped ≢ cleared
    apart h = cc
Drop-RxFirst b _ (tx_stores e) k = record {
  rx_done = k.rx_done;
  rx_shown = k.rx_shown;
  tx_counts = k.tx_counts ∙ ap done e;
}
Drop-RxFirst b _ (tx_shows e) k = record {
  rx_done = k.rx_done;
  rx_shown = k.rx_shown;
  tx_counts = k.tx_counts;
}
Drop-RxFirst b _ (tx_frees e) k = record {
  rx_done = k.rx_done;
  rx_shown = k.rx_shown;
  tx_counts = ground (arith, k.rx_shown, k.tx_counts, ap done e);
}

Drop-TxFirst : (b c : Block) → Drop b c → TxFirst b → TxFirst c
Drop-TxFirst b _ (tx_stores e) k = absurd (apart (sym k.tx_done ∙ e))
  where
    apart : dropped ≢ alive
    apart h = cc
Drop-TxFirst b _ (tx_shows e) k = record {
  tx_done = k.tx_done;
  tx_shown = refl;
  rx_counts = k.rx_counts;
}
Drop-TxFirst b _ (tx_frees e) k = absurd (apart (sym k.tx_done ∙ e))
  where
    apart : dropped ≢ cleared
    apart h = cc
Drop-TxFirst b _ (rx_stores e) k = record {
  tx_done = k.tx_done;
  tx_shown = k.tx_shown;
  rx_counts = k.rx_counts ∙ ap done e;
}
Drop-TxFirst b _ (rx_shows e) k = record {
  tx_done = k.tx_done;
  tx_shown = k.tx_shown;
  rx_counts = k.rx_counts;
}
Drop-TxFirst b _ (rx_frees e) k = record {
  tx_done = k.tx_done;
  tx_shown = k.tx_shown;
  rx_counts = ground (arith, k.tx_shown, k.rx_counts, ap done e);
}

Drops-RxFirst : (b c : Block) → RxFirst b → Drops b c → RxFirst c
Drops-RxFirst b c k here = k
Drops-RxFirst b c k (after d _ run step) = Drop-RxFirst d c step (Drops-RxFirst b d k run)

Drops-TxFirst : (b c : Block) → TxFirst b → Drops b c → TxFirst c
Drops-TxFirst b c k here = k
Drops-TxFirst b c k (after d _ run step) = Drop-TxFirst d c step (Drops-TxFirst b d k run)

-- What holds of a block that is reached: `kept_rx`, `kept_tx` and `at_most` bound how often it is
-- freed so far, `rx_first` and `tx_first` say how often it is in the end if the drops do not overlap,
-- and `stale` how often it may be if both stores are still to become visible.
pub record IsCounted (b : Block) : Type 0 where
  pub kept_rx : is_alive b.rx ≡ true → b.frees ≡ 0
  pub kept_tx : is_alive b.tx ≡ true → b.frees ≡ 0
  pub at_most : b.frees ≤ done b.rx + done b.tx
  pub rx_first :
      b.rx ≡ dropped
      → b.has_rx ≡ false
      → b.tx ≡ alive
      → (c : Block) → Drops b c
      → c.tx ≡ dropped
      → c.frees ≡ 1
  pub tx_first :
      b.tx ≡ dropped
      → b.has_tx ≡ false
      → b.rx ≡ alive
      → (c : Block) → Drops b c
      → c.rx ≡ dropped
      → c.frees ≡ 1
  pub stale :
      b.rx ≡ cleared
      → b.tx ≡ cleared
      → b.has_rx ≡ true
      → b.has_tx ≡ true
      → (c : Block) × Drops b c
        × (c.rx ≡ dropped)
        × (c.tx ≡ dropped)
        × (c.has_rx ≡ false)
        × (c.has_tx ≡ false)
        × (c.frees ≡ 0)

none_yet : (b : Block) → IsKept b → b.rx ≡ cleared → b.tx ≡ cleared → b.frees ≡ 0
none_yet b k r t = omega (arith, k.at_most, ap done r, ap done t)

-- Both load before either store is visible.
loads_stale :
    (b : Block)
    → IsKept b
    → b.rx ≡ cleared
    → b.tx ≡ cleared
    → b.has_rx ≡ true
    → b.has_tx ≡ true
    → (c : Block) × Drops b c
      × (c.rx ≡ dropped)
      × (c.tx ≡ dropped)
      × (c.has_rx ≡ false)
      × (c.has_tx ≡ false)
      × (c.frees ≡ 0)
loads_stale b k r t hr ht =
    let b1 : Block = record b { rx = dropped; frees = freed_if b.has_tx b.frees } in
    let b2 : Block = record b1 { tx = dropped; frees = freed_if b1.has_rx b1.frees } in
    let b3 : Block = record b2 { has_rx = false } in
    let b4 : Block = record b3 { has_tx = false } in
    let none_freed : freed_if b.has_rx (freed_if b.has_tx b.frees) ≡ 0 =
      rw (hr, ht, none_yet b k r t) refl in
    (
      b4,
      after b3 b4
          (after b2 b3 (after b1 b2 (after b b1 here (rx_frees r)) (tx_frees t)) (rx_shows refl))
          (tx_shows refl),
      refl,
      refl,
      refl,
      refl,
      none_freed,
    )

-- However the steps of the two drops interleave, the block is not freed while a handle is alive,
-- and is freed at most once by each side. If one drop is done and its store visible before the
-- other begins, then when that one is done too the block has been freed exactly once. If both have
-- stored and neither store is visible yet, then both may finish without freeing the block, which
-- nobody frees any more.
pub Drops-IsCounted : (b : Block) → Drops opened b → IsCounted b
Drops-IsCounted b run = record {
  kept_rx = k.kept_rx;
  kept_tx = k.kept_tx;
  at_most = k.at_most;
  rx_first = λ r shown t c go e.
      let start : RxFirst b = record {
        rx_done = r;
        rx_shown = shown;
        tx_counts = k.kept_tx (ap is_alive t) ∙ sym (ap done t);
      } in
      (Drops-RxFirst b c start go).tx_counts ∙ ap done e;
  tx_first = λ t shown r c go e.
      let start : TxFirst b = record {
        tx_done = t;
        tx_shown = shown;
        rx_counts = k.kept_rx (ap is_alive r) ∙ sym (ap done r);
      } in
      (Drops-TxFirst b c start go).rx_counts ∙ ap done e;
  stale = loads_stale b k;
}
  where
    k : IsKept b
    k = Drops-IsKept b run

-- If, in an interleaving of the drops of the two handles of a new channel, both sides have stored
-- `false` to their flags before either has loaded the other's, then both may free the block.
pub cleared_frees_twice :
    (b : Block)
    → Drops opened b
    → b.rx ≡ cleared
    → b.tx ≡ cleared
    → (c : Block) × Drops b c × (c.rx ≡ dropped) × (c.tx ≡ dropped) × (c.frees ≡ 2)
cleared_frees_twice b run r t =
    let b1 : Block = record b { has_rx = false } in
    let b2 : Block = record b1 { has_tx = false } in
    let b3 : Block = record b2 { rx = dropped; frees = freed_if b2.has_tx b2.frees } in
    let b4 : Block = record b3 { tx = dropped; frees = freed_if b3.has_rx b3.frees } in
    let twice : b.frees + 1 + 1 ≡ 2 = ap (λ n. n + 1 + 1) (none_yet b (Drops-IsKept b run) r t) in
    (
      b4,
      after b3 b4
          (after b2 b3
            (after b1 b2 (after b b1 here (rx_shows (ap is_alive r))) (tx_shows (ap is_alive t)))
            (rx_frees r))
          (tx_frees t),
      refl,
      refl,
      twice,
    )
