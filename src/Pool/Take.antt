-- ===== src/Pool/Take.antt =====
-- src/router/pool.rs: `take` hands out the lowest free addresses.
use userspace_router.Base.{
  ℕ, zero, suc, ◌+◌, ◌-◌, ◌%◌, ◌^◌, ◌≤◌, ◌<◌, ◌≡◌, refl, sym, ap, ap₂, ◌∙◌, Bool, true, false, ◌&&◌,
  ◌||◌, not, List, [], ◌∷◌, ◌++◌, ltb, leb, ◌==◌, arith, Option, none, some, if◌then◌else◌,
  Bool-cases, inl, inr, length, ==_iff, take-append_ge, take-append_le, drop-append_ge,
  drop-append_le, length-append, ◌⊎◌,
}
use userspace_router.Base
use mathlib.Core.List.{append-nil}
use userspace_router.Pool
use userspace_router.Pool.{
  Interval, AddressPool, addresses, available, consume, take_in, wrapped_span,
}
use userspace_router.Pool.Cover.{covers, Ascends, Ascends-mono, IsValid}

-- The free addresses in rising order.
unfoldable pub free_list : List Interval → List ℕ
free_list [] = []
free_list ((s, e) ∷ ivs) = addresses s (e - s + 1) ++ free_list ivs

unfoldable pub is_member : ℕ → List ℕ → Bool
is_member x [] = false
is_member x (y ∷ ys) = (y == x) || is_member x ys

pub is_member-append :
    (x : ℕ) (ys zs : List ℕ) → is_member x (ys ++ zs) ≡ (is_member x ys || is_member x zs)
unfolding is_member
is_member-append x [] zs = refl
is_member-append x (y ∷ ys) zs = ground (arith, is_member-append x ys zs)

pub is_member-addresses : (x s n : ℕ) → is_member x (addresses s n) ≡ (leb s x && ltb x (s + n))
unfolding is_member addresses
is_member-addresses x s zero = ground arith
is_member-addresses x s (suc n) = ground (arith, is_member-addresses x (suc s) n)

-- The list holds the addresses that are free.
pub is_member-free_list :
    (x lo hi : ℕ) (ivs : List Interval)
    → Ascends lo hi ivs
    → is_member x (free_list ivs) ≡ covers x ivs
unfolding free_list is_member
is_member-free_list x lo hi [] asc = refl
is_member-free_list x lo hi ((s, e) ∷ ivs) (p, q, r, t) = ground (
  arith,
  is_member-append x (addresses s (e - s + 1)) (free_list ivs),
  is_member-addresses x s (e - s + 1),
  is_member-free_list x (e + 2) hi ivs t,
)

length-addresses : (s n : ℕ) → length (addresses s n) ≡ n
unfolding addresses
length-addresses s zero = refl
length-addresses s (suc n) = ap suc (length-addresses (suc s) n)

take-addresses : (s n m : ℕ) → n ≤ m → Base.take n (addresses s m) ≡ addresses s n
unfolding addresses
take-addresses s zero m h = refl
take-addresses s (suc n) zero h = absurd (omega arith)
take-addresses s (suc n) (suc m) h = ap (◌∷◌ s) (take-addresses (suc s) n m (omega arith))

drop-addresses : (s n m : ℕ) → n ≤ m → Base.drop n (addresses s m) ≡ addresses (s + n) (m - n)
unfolding addresses
drop-addresses s zero m h = ap₂ addresses (omega arith) (omega arith)
drop-addresses s (suc n) zero h = absurd (omega arith)
drop-addresses s (suc n) (suc m) h =
    drop-addresses (suc s) n m (omega arith) ∙ ap₂ addresses (omega arith) (omega arith)

length-free_list :
    (s e : ℕ) (ivs : List Interval)
    → length (free_list ((s, e) ∷ ivs)) ≡ e - s + 1 + length (free_list ivs)
unfolding free_list
length-free_list s e ivs =
    omega (
      arith,
      length-append (addresses s (e - s + 1)) (free_list ivs),
      length-addresses s (e - s + 1),
    )

-- No more addresses are free than lie between the bounds.
free_list-bound :
    (lo hi : ℕ) (ivs : List Interval) → Ascends lo hi ivs → length (free_list ivs) ≤ hi + 1 - lo
unfolding free_list
free_list-bound lo hi [] asc = omega arith
free_list-bound lo hi ((s, e) ∷ ivs) (p, q, r, t) =
    omega (arith, length-free_list s e ivs, free_list-bound (e + 2) hi ivs t)

-- Either not all addresses are free, or all 2 ^ 32 are.
pub free_list-count :
    (p : AddressPool)
    → IsValid p
    → (length (free_list p.intervals) < 2 ^ 32) ⊎ (length (free_list p.intervals) ≡ 2 ^ 32)
free_list-count p v = omega (arith, free_list-bound p.start p.end p.intervals v.ordered, v.small)

-- The count of an interval is its length, unless it has all addresses.
wrapped_span_lem : (s e : ℕ) → s ≤ e → e - s + 1 < 2 ^ 32 → wrapped_span s e ≡ e - s + 1
unfolding wrapped_span
wrapped_span_lem s e h small = omega arith

available_lem :
    (n c lo hi : ℕ) (ivs : List Interval)
    → Ascends lo hi ivs
    → length (free_list ivs) < 2 ^ 32
    → ltb (available n c ivs) n ≡ ltb (c + length (free_list ivs)) n
unfolding available free_list
available_lem n c lo hi [] asc small = ground arith
available_lem n c lo hi ((s, e) ∷ ivs) (p, q, r, t) small =
    let count = length-free_list s e ivs in
    let same : wrapped_span s e ≡ e - s + 1 = wrapped_span_lem s e q (omega (arith, count)) in
    rw same (
      ground
        (arith, available_lem n (c + (e - s + 1)) (e + 2) hi ivs t (omega (arith, count)), count))

module _ (s m n : ℕ) (ys : List ℕ) where
  take_whole : m ≤ n → Base.take n (addresses s m ++ ys) ≡ addresses s m ++ Base.take (n - m) ys
  take_whole h =
      take-append_ge n (addresses s m) ys (rw (length-addresses s m) h)
      ∙ ap (λ k. addresses s m ++ Base.take (n - k) ys) (length-addresses s m)

  drop_whole : m ≤ n → Base.drop n (addresses s m ++ ys) ≡ Base.drop (n - m) ys
  drop_whole h =
      drop-append_ge n (addresses s m) ys (rw (length-addresses s m) h)
      ∙ ap (λ k. Base.drop (n - k) ys) (length-addresses s m)

  take_part : n ≤ m → Base.take n (addresses s m ++ ys) ≡ addresses s n
  take_part h =
      take-append_le n (addresses s m) ys (rw (length-addresses s m) h) ∙ take-addresses s n m h

  drop_part : n ≤ m → Base.drop n (addresses s m ++ ys) ≡ addresses (s + n) (m - n) ++ ys
  drop_part h =
      drop-append_le n (addresses s m) ys (rw (length-addresses s m) h)
      ∙ ap (λ zs. zs ++ ys) (drop-addresses s n m h)

record Consumed (n lo hi : ℕ) (ivs : List Interval) (out : List ℕ × List Interval) : Type 0 where
  taken : out.0 ≡ Base.take n (free_list ivs)
  left : free_list out.1 ≡ Base.drop n (free_list ivs)
  ordered : Ascends lo hi out.1

consume-Consumed :
    (n lo hi : ℕ) (ivs : List Interval)
    → n ≤ length (free_list ivs)
    → length (free_list ivs) < 2 ^ 32
    → hi < 2 ^ 32
    → Ascends lo hi ivs
    → Consumed n lo hi ivs (consume n ivs)
unfolding consume free_list
consume-Consumed n lo hi [] h free small asc = record {
  taken = rw none_left;
  left = rw none_left;
  ordered = tt;
}
  where
    none_left : n ≡ 0
    none_left = omega arith
consume-Consumed n lo hi ((s, e) ∷ ivs) h free small (p, q, r, t) =
    rw (span, whole_loop)
      (elim (Bool-cases (leb (e - s + 1) n)) [
        | inl whole ↦
            let fits : e - s + 1 ≤ n = ground arith in
            elim (Bool-cases (n - (e - s + 1) == 0)) [
              | inl done ↦
                  let z : n - (e - s + 1) ≡ 0 = ground arith in
                  rw (whole, done)
                    (record {
                      taken = sym (
                          take_whole s (e - s + 1) n (free_list ivs) fits
                          ∙ ap (λ k. addresses s (e - s + 1) ++ Base.take k (free_list ivs)) z
                          ∙ append-nil _);
                      left = sym (
                          drop_whole s (e - s + 1) n (free_list ivs) fits
                          ∙ ap (λ k. Base.drop k (free_list ivs)) z);
                      ordered = Ascends-mono (e + 2) lo hi ivs (omega arith) t;
                    })
              | inr more ↦
                  let rest =
                    consume-Consumed (n - (e - s + 1)) (e + 2) hi ivs (room fits)
                      (omega (arith, count)) small t in
                  rw (whole, more)
                    (record {
                      taken =
                          ap (◌++◌ (addresses s (e - s + 1))) rest.taken
                          ∙ sym (take_whole s (e - s + 1) n (free_list ivs) fits);
                      left = rest.left ∙ sym (drop_whole s (e - s + 1) n (free_list ivs) fits);
                      ordered = Ascends-mono (e + 2) lo hi _ (omega arith) rest.ordered;
                    })
            ]
        | inr part ↦
            let fits : n < e - s + 1 = ground arith in
            let next : (s + n) % 2 ^ 32 ≡ s + n = omega arith in
            let part_loop : s + n - s ≡ n = omega arith in
            let tail_span : e - (s + n) + 1 ≡ e - s + 1 - n = omega arith in
            rw (part, next, part_loop)
              (record {
                taken = sym (take_part s (e - s + 1) n (free_list ivs) (omega arith));
                left =
                    ap (λ k. addresses (s + n) k ++ free_list ivs) tail_span
                    ∙ sym (drop_part s (e - s + 1) n (free_list ivs) (omega arith));
                ordered = (omega arith, omega arith, r, t);
              })
      ])
  where
    count : length (free_list ((s, e) ∷ ivs)) ≡ e - s + 1 + length (free_list ivs)
    count = length-free_list s e ivs

    span : wrapped_span s e ≡ e - s + 1
    span = wrapped_span_lem s e q (omega (arith, count))

    whole_loop : e + 1 - s ≡ e - s + 1
    whole_loop = omega arith

    room : e - s + 1 ≤ n → n - (e - s + 1) ≤ length (free_list ivs)
    room fits = omega (arith, count)

whole_pool :
    (lo hi : ℕ) (ivs : List Interval)
    → Ascends lo hi ivs
    → hi < 2 ^ 32
    → length (free_list ivs) ≡ 2 ^ 32
    → ivs ≡ (0, 2 ^ 32 - 1) ∷ []
unfolding free_list
whole_pool lo hi [] asc small all = absurd (omega arith)
whole_pool lo hi ((s, e) ∷ []) (p, q, r, t) small all =
    let count = length-free_list s e [] in
    let first : s ≡ 0 = omega (arith, count) in
    let last : e ≡ 2 ^ 32 - 1 = omega (arith, count) in rw (first, last) refl
whole_pool lo hi ((s, e) ∷ iv ∷ ivs) (p, q, r, t) small all =
    absurd (omega (arith, length-free_list s e (iv ∷ ivs), free_list-bound (e + 2) hi (iv ∷ ivs) t))

-- The count of all addresses wraps to 0.
take_in-whole : (n : ℕ) → 0 < n → take_in n ((0, 2 ^ 32 - 1) ∷ []) ≡ none
unfolding take_in available wrapped_span
take_in-whole n h = ground arith

-- In a valid pool with fewer than 2 ^ 32 addresses free, `n` of them at least, `take n` returns the
-- `n` lowest of them in rising order, and exactly the others stay free, in a valid pool. With fewer
-- than `n` free it returns `none` and leaves the pool as it was; so it does for every `n` but 0
-- where all 2 ^ 32 addresses are free, as the source counts them in a `u32`.
pub take_lem :
    (p : AddressPool) (n : ℕ)
    → IsValid p
    → (n ≤ length (free_list p.intervals)
        → length (free_list p.intervals) < 2 ^ 32
        → ((Pool.take p n).1 ≡ some (Base.take n (free_list p.intervals)))
          × (free_list (Pool.take p n).0.intervals ≡ Base.drop n (free_list p.intervals))
          × IsValid (Pool.take p n).0)
      × (length (free_list p.intervals) < n → Pool.take p n ≡ (p, none))
      × (length (free_list p.intervals) ≡ 2 ^ 32 → 0 < n → Pool.take p n ≡ (p, none))
unfolding Pool.take
take_lem p n v = (
  (λ h free.
      let c = consume-Consumed n p.start p.end p.intervals h free v.small v.ordered in
      let enough : ltb (available n 0 p.intervals) n ≡ false =
        ground (arith, available_lem n 0 p.start p.end p.intervals v.ordered free) in
      rw (enough, Pool.take)
        (ap some c.taken, c.left, record { ordered = c.ordered; small = v.small })),
  (λ h. elim (free_list-count p v) [
    | inl part ↦
        let short : ltb (available n 0 p.intervals) n ≡ true =
          ground (arith, available_lem n 0 p.start p.end p.intervals v.ordered part) in
        rw (short, Pool.take)
    | inr all ↦ whole all (omega arith)
  ]),
  whole,
)
  where
    whole : length (free_list p.intervals) ≡ 2 ^ 32 → 0 < n → Pool.take p n ≡ (p, none)
    whole all pos =
        let none_found : take_in n p.intervals ≡ none =
          rw (whole_pool p.start p.end p.intervals v.ordered v.small all) (take_in-whole n pos) in
        rw (none_found, Pool.take) refl
