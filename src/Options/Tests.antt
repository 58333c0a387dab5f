-- ===== src/Options/Tests.antt =====
-- src/net/dhcp.rs: a short options region.
use userspace_router.Base.{ℕ, ◌≡◌, ◌++◌, refl, true, List, [], ◌∷◌, arith, length}
use userspace_router.Options.{writer, end, items, get, find, next}
use userspace_router.Options.RoundTrip.{encode, write_all, read_written, AreOptions}

-- Padding in front of an option is skipped, and a cut-off option ends the list.
padded : items 9 (0 ∷ 0 ∷ 53 ∷ 1 ∷ 5 ∷ 54 ∷ 4 ∷ 10 ∷ []) ≡ (53, 5 ∷ []) ∷ []
unfolding items next
padded = refl

abbrev two_options : List (ℕ × List ℕ)
two_options = (53, 2 ∷ []) ∷ (51, 0 ∷ 0 ∷ 14 ∷ 16 ∷ []) ∷ []

two_options-AreOptions : AreOptions two_options
two_options-AreOptions = (
  ((λ e. omega (arith, e)), (λ e. omega (arith, e)), omega arith),
  (((λ e. omega (arith, e)), (λ e. omega (arith, e)), omega arith), tt),
)

read_written_example :
    ((write_all (writer 20) two_options).1 ≡ true)
    × ((end (write_all (writer 20) two_options).0).1 ≡ true)
    × (items
          (length ((end (write_all (writer 20) two_options).0).0.written ++ 7 ∷ []))
          ((end (write_all (writer 20) two_options).0).0.written ++ 7 ∷ [])
        ≡ two_options)
    × (get ((end (write_all (writer 20) two_options).0).0.written ++ 7 ∷ []) 51
        ≡ find 51 two_options)
unfolding encode
read_written_example = read_written 20 two_options (7 ∷ []) 51 two_options-AreOptions (omega arith)
