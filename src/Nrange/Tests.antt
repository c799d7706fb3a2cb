-- ===== src/Nrange/Tests.antt =====
-- Runs of the set of numbers, and its theorems at concrete sets.
use nget.Prelude.{◌%◌, ◌≡◌, refl, [], ◌∷◌, not, ◌&&◌, ◌||◌, leb, arith, ulong_max, ulong_mod}
use nget.Nrange.{
  Rlist, range, insert_one, insert, remove, remove_start, get_total, clip_to_max_total, invert,
}
use nget.Nrange.Members.{mem, within, IsValid}
use nget.Nrange.InsertRange.{insert-mem}
use nget.Nrange.Remove.{remove-mem}
use nget.Nrange.Total.{count_below, size, get_total-eq-count, count_below-size}
use nget.Nrange.Invert.{invert-mem}

-- 3 to 5 and 9 to 12
abbrev two_ranges : Rlist
two_ranges = range 3 5 ∷ range 9 12 ∷ []

two_ranges-IsValid : IsValid two_ranges
two_ranges-IsValid = omega arith

joined : insert_one 8 (insert_one 7 (insert_one 6 two_ranges)) ≡ range 3 12 ∷ []
unfolding insert_one
joined = refl

overlapped : insert 4 20 two_ranges ≡ range 3 20 ∷ []
unfolding insert
overlapped = refl

cut_out : remove 4 10 two_ranges ≡ range 3 3 ∷ range 11 12 ∷ []
unfolding remove
cut_out = refl

-- The second range is missed: the loop starts at the first range that ends at or above 1.
missed : remove 1 100 two_ranges ≡ range 9 12 ∷ []
unfolding remove
missed = refl

clipped : clip_to_max_total 5 two_ranges ≡ range 5 5 ∷ range 9 12 ∷ []
unfolding clip_to_max_total
clipped = refl

inverted : invert two_ranges [] ≡ range 0 2 ∷ range 6 8 ∷ range 13 ulong_max ∷ []
unfolding invert
inverted = refl

total : get_total two_ranges ≡ 7
unfolding get_total
total = refl

-- A set of every ulong has total 0, and is not clipped.
total_full : get_total (range 0 ulong_max ∷ []) ≡ 0
unfolding get_total
total_full = refl

insert-mem_example : mem 8 (insert 4 20 two_ranges) ≡ (within 4 20 8 || mem 8 two_ranges)
insert-mem_example = insert-mem 4 20 8 two_ranges two_ranges-IsValid (omega arith) (omega arith)

remove-mem_example :
    mem 10 (remove 1 100 two_ranges) ≡ (mem 10 two_ranges && not (within 1 100 10 && leb 10 5))
remove-mem_example =
    remove-mem 1 100 10 two_ranges (range 3 5) two_ranges-IsValid (omega arith)
      (unfold remove_start in refl)

two_ranges-count : count_below ulong_mod two_ranges ≡ 7
two_ranges-count =
    rw (count_below-size ulong_mod 0 two_ranges two_ranges-IsValid (omega arith))
      (unfold size in refl)

get_total-eq-count_example : get_total two_ranges ≡ count_below ulong_mod two_ranges % ulong_mod
get_total-eq-count_example = get_total-eq-count two_ranges two_ranges-IsValid

invert-mem_example :
    (mem 4 (invert two_ranges []) ≡ (mem 4 [] || not (mem 4 two_ranges)))
    × IsValid (invert two_ranges [])
invert-mem_example = invert-mem 4 (omega arith) two_ranges [] two_ranges-IsValid tt
