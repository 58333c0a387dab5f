-- ===== src/Ring/Drops.antt =====
-- src/mem/ring.rs: the control block that both handles of a channel share, and the drops of the
-- two. A drop stores `false` to the flag of its own side with `Release`, then loads the other flag
-- with `Acquire`, and frees the block if that is `false`. Nothing orders the load behind the store
-- for the other side: a store becomes visible in a step of its own, before the load or later. In a
-- block that is freed already, which must not be touched any more, a step finds the flags as they
-- were.
use userspace_router.Base.{ℕ, ◌+◌, ◌≤◌, ◌≡◌, refl, ap, Bool, true, false, not, if◌then◌else◌, arith}

-- How far the drop of a handle is: `cleared` has stored its flag, `dropped` has loaded the other.
pub data Handle : Type 0 where
  alive cleared dropped : Handle

-- The flags are what the other side loads.
pub record Block : Type 0 where
  pub has_rx : Bool
  pub has_tx : Bool
  pub rx : Handle
  pub tx : Handle
  pub frees : ℕ

-- `channel`
abbrev pub opened : Block
opened = record { has_rx = true; has_tx = true; rx = alive; tx = alive; frees = 0 }

abbrev pub freed_if : Bool → ℕ → ℕ
freed_if other frees = if other then frees else frees + 1

abbrev pub rx_is_closed : Block → Bool
rx_is_closed b = not b.has_tx

abbrev pub tx_is_closed : Block → Bool
tx_is_closed b = not b.has_rx

abbrev pub is_alive : Handle → Bool
is_alive alive = true
is_alive cleared = false
is_alive dropped = false

-- One step of a drop, on either side: the store, its becoming visible, and the load.
pub data Drop (b : Block) : Block → Type 0 where
  rx_stores : b.rx ≡ alive → Drop b (record b { rx = cleared })
  rx_shows : is_alive b.rx ≡ false → Drop b (record b { has_rx = false })
  rx_frees : b.rx ≡ cleared → Drop b (record b { rx = dropped; frees = freed_if b.has_tx b.frees })
  tx_stores : b.tx ≡ alive → Drop b (record b { tx = cleared })
  tx_shows : is_alive b.tx ≡ false → Drop b (record b { has_tx = false })
  tx_frees : b.tx ≡ cleared → Drop b (record b { tx = dropped; frees = freed_if b.has_rx b.frees })

pub data Drops (b : Block) : Block → Type 0 where
  here : Drops b b
  after : (c d : Block) → Drops b c → Drop c d → Drops b d

abbrev pub done : Handle → ℕ
done alive = 0
done cleared = 0
done dropped = 1

-- A cleared flag belongs to a handle that is not alive. The block is not freed while a handle is
-- alive, and is freed at most once by each side.
pub record IsKept (b : Block) : Type 0 where
  pub rx_flag : b.has_rx ≡ false → is_alive b.rx ≡ false
  pub tx_flag : b.has_tx ≡ false → is_alive b.tx ≡ false
  pub kept_rx : is_alive b.rx ≡ true → b.frees ≡ 0
  pub kept_tx : is_alive b.tx ≡ true → b.frees ≡ 0
  pub at_most : b.frees ≤ done b.rx + done b.tx

opened-IsKept : IsKept opened
opened-IsKept = record {
  rx_flag = λ h. cc;
  tx_flag = λ h. cc;
  kept_rx = λ h. refl;
  kept_tx = λ h. refl;
  at_most = omega arith;
}

Drop-IsKept : (b c : Block) → Drop b c → IsKept b → IsKept c
Drop-IsKept b _ (rx_stores e) k = record {
  rx_flag = λ h. refl;
  tx_flag = k.tx_flag;
  kept_rx = λ h. cc;
  kept_tx = k.kept_tx;
  at_most = omega (arith, k.at_most, ap done e);
}
Drop-IsKept b _ (rx_shows e) k = record {
  rx_flag = λ h. e;
  tx_flag = k.tx_flag;
  kept_rx = k.kept_rx;
  kept_tx = k.kept_tx;
  at_most = k.at_most;
}
Drop-IsKept b _ (rx_frees e) k = record {
  rx_flag = λ h. refl;
  tx_flag = k.tx_flag;
  kept_rx = λ h. cc;
  kept_tx = λ h. ground (arith, k);
  at_most = ground (arith, k, ap done e);
}
Drop-IsKept b _ (tx_stores e) k = record {
  rx_flag = k.rx_flag;
  tx_flag = λ h. refl;
  kept_rx = k.kept_rx;
  kept_tx = λ h. cc;
  at_most = omega (arith, k.at_most, ap done e);
}
Drop-IsKept b _ (tx_shows e) k = record {
  rx_flag = k.rx_flag;
  tx_flag = λ h. e;
  kept_rx = k.kept_rx;
  kept_tx = k.kept_tx;
  at_most = k.at_most;
}
Drop-IsKept b _ (tx_frees e) k = record {
  rx_flag = k.rx_flag;
  tx_flag = λ h. refl;
  kept_rx = λ h. ground (arith, k);
  kept_tx = λ h. cc;
  at_most = ground (arith, k, ap done e);
}

pub Drops-IsKept : (b : Block) → Drops opened b → IsKept b
Drops-IsKept b here = opened-IsKept
Drops-IsKept b (after c _ run step) = Drop-IsKept c b step (Drops-IsKept c run)
