-- ===== src/Pool/First.antt =====
-- src/router/pool.rs: the request of one address, as the DHCP server makes it.

use userspace_router.Base.{
  ◌==◌, ◌||◌, ap, sym, ◌∙◌, ℕ, suc, ◌+◌, ◌-◌, ◌^◌, length, inl, inr, ◌<◌, ◌≤◌, ◌≡◌, refl, true,
  false, Option, none, some, List, [], ◌∷◌, ◌++◌, arith, subst, length,
}
use userspace_router.Pool
use userspace_router.Pool.{AddressPool, Interval, addresses, release}
use userspace_router.Pool.Cover.{covers, Ascends, IsValid, covers_below}
use userspace_router.Pool.Release.{release_lem}
use userspace_router.Pool.Take.{
  take_lem, free_list, free_list-count, is_member, is_member-free_list, is_member-append,
  is_member-addresses,
}

addresses_head :
    (s n : ℕ) (tail : List ℕ) (a : ℕ) (rest : List ℕ)
    → addresses s (suc n) ++ tail ≡ a ∷ rest
    → (a ≡ s) × (rest ≡ addresses (suc s) n ++ tail)
unfolding addresses
addresses_head s n tail a rest e = (cc, cc)

-- The free addresses rise, so the first is not listed again.
head_once :
    (lo hi : ℕ) (ivs : List Interval) (a : ℕ) (rest : List ℕ)
    → Ascends lo hi ivs
    → free_list ivs ≡ a ∷ rest
    → is_member a rest ≡ false
unfolding free_list
head_once lo hi [] a rest asc e = cc
head_once lo hi ((s, t) ∷ ivs) a rest (p, q, r, asc) e =
    let k : ℕ = t - s in
    let same : t - s + 1 ≡ suc k = omega arith in
    let h = addresses_head s k (free_list ivs) a rest (rw same at e) in
    rw (h.1, h.0)
      (ground (
        arith,
        is_member-append s (addresses (suc s) (t - s)) (free_list ivs),
        is_member-addresses s (suc s) (t - s),
        is_member-free_list s (t + 2) hi ivs asc,
        covers_below s (t + 2) hi ivs asc,
      ))

pub take-ends :
    (p : AddressPool) (n : ℕ)
    → ((Pool.take p n).0.start ≡ p.start) × ((Pool.take p n).0.end ≡ p.end)
unfolding Pool.take
take-ends p n = go (Pool.take_in n p.intervals) refl
  where
    go :
        (o : Option (List ℕ × List Interval))
        → Pool.take_in n p.intervals ≡ o
        → ((Pool.take p n).0.start ≡ p.start) × ((Pool.take p n).0.end ≡ p.end)
    go none e = rw (e, Pool.take) (refl, refl)
    go (some q) e = rw (e, Pool.take) (refl, refl)

pub release-ends :
    (p q : AddressPool) (a : ℕ) → release p a ≡ some q → (q.start ≡ p.start) × (q.end ≡ p.end)
unfolding release
release-ends p q a e = (ground arith, ground arith)

is_member-nil : (x : ℕ) → is_member x [] ≡ false
unfolding is_member
is_member-nil x = refl

-- What a request of one address gives.
pub data TakesOne (p : AddressPool) : AddressPool × Option (List ℕ) → Type 0 where
  first :
      (a : ℕ) (q : AddressPool)
      → covers a p.intervals ≡ true
      → ((x : ℕ) → covers x p.intervals ≡ ((a == x) || covers x q.intervals))
      → covers a q.intervals ≡ false
      → IsValid q
      → q.start ≡ p.start
      → q.end ≡ p.end
      → TakesOne p (q, some (a ∷ []))
  empty : ((x : ℕ) → covers x p.intervals ≡ false) → TakesOne p (p, none)
  uncounted : length (free_list p.intervals) ≡ 2 ^ 32 → TakesOne p (p, none)

pub take-TakesOne : (p : AddressPool) → IsValid p → TakesOne p (Pool.take p 1)
unfolding is_member
take-TakesOne p v = go (free_list p.intervals) refl
  where
    some_free :
        (a : ℕ) (rest : List ℕ)
        → free_list p.intervals ≡ a ∷ rest
        → length (free_list p.intervals) < 2 ^ 32
        → TakesOne p (Pool.take p 1)
    some_free a rest e part =
        let t = (take_lem p 1 v).0 (ground (arith, e)) part in
        let out : (Pool.take p 1).1 ≡ some (a ∷ []) = t.0 ∙ ground (arith, e) in
        let left : free_list (Pool.take p 1).0.intervals ≡ rest = t.1 ∙ ground (arith, e) in
        let valid : IsValid (Pool.take p 1).0 = t.2 in
        let after : (x : ℕ) → covers x (Pool.take p 1).0.intervals ≡ is_member x rest =
          λ x. sym (is_member-free_list x _ _ _ valid.ordered) ∙ ap (is_member x) left in
        let before : (x : ℕ) → covers x p.intervals ≡ ((a == x) || is_member x rest) =
          λ x. sym (is_member-free_list x _ _ _ v.ordered) ∙ ap (is_member x) e in
        subst (λ o. TakesOne p ((Pool.take p 1).0, o)) (sym out)
          (first a (Pool.take p 1).0 (ground (arith, before a))
            (λ x. ground (arith, before x, after x))
            (after a ∙ head_once p.start p.end p.intervals a rest v.ordered e) valid
            (take-ends p 1).0 (take-ends p 1).1)

    go : (l : List ℕ) → free_list p.intervals ≡ l → TakesOne p (Pool.take p 1)
    go [] e = subst (TakesOne p) (sym ((take_lem p 1 v).1 (ground (arith, e)))) (
        empty (λ x.
          sym (is_member-free_list x p.start p.end p.intervals v.ordered)
          ∙ ap (is_member x) e
          ∙ is_member-nil x))
    go (a ∷ rest) e = elim (free_list-count p v) [
      | inl part ↦ some_free a rest e part
      | inr all ↦ subst (TakesOne p) (sym ((take_lem p 1 v).2 all (omega arith))) (uncounted all)
    ]

-- `release` of a leased address, for every other address at once.
pub release_all :
    (p : AddressPool) (a : ℕ)
    → IsValid p
    → covers a p.intervals ≡ false
    → p.start ≤ a
    → a ≤ p.end
    → (q : AddressPool) × (release p a ≡ some q)
      × ((x : ℕ) → covers x q.intervals ≡ ((x == a) || covers x p.intervals))
      × IsValid q
      × (q.start ≡ p.start)
      × (q.end ≡ p.end)
release_all p a v held low high =
    let (q, e, c, w) = (release_lem p a a v held).0 low high in
    (
      q,
      e,
      (λ x.
          let (q', e', c', w') = (release_lem p a x v held).0 low high in
          let same : q' ≡ q = option_same (sym e' ∙ e) in rw same at c'),
      w,
      (release-ends p q a e).0,
      (release-ends p q a e).1,
    )
  where
    option_same : {q q' : AddressPool} → some q ≡ some q' → q ≡ q'
    option_same e = cc
