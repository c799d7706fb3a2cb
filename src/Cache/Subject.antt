-- ===== src/Cache/Subject.antt =====
-- c_nntp_header::set and parsepnum of cache.cc: the number of a part in the subject of its article. A
-- place in the subject is the text before it, turned around, with the text from it on.
pub mod Scanning
pub mod Numbered
mod Tests
use Prim.Native.Nat.{min}
use nget.Prelude.{
  ltb, ◌%◌, ◌^◌, ℕ, zero, suc, ◌+◌, ◌-◌, ℤ, pos, negsuc, ltb_ℤ, eqb_ℤ, List, [], ◌∷◌, ◌++◌, Bool,
  true, false, not, ◌||◌, ◌&&◌, ◌==◌, if◌then◌else◌, Option, some, none, Text, length, take,
}
use nget.Decimal.{strtol}
use nget.Strtoker.{cut_at}
use nget.Cache.{FileBase, Header}

-- strpbrk(s, ")]"): how far it is, and the byte
unfoldable pub find_close : Text → ℕ → Option (ℕ × ℕ)
find_close [] n = none
find_close (c ∷ cs) n =
    let rest = find_close cs (suc n) in if c == 41 || c == 93 then some (n, c) else rest

unfoldable pub open_of : ℕ → ℕ
open_of c = if c == 41 then 40 else 91

-- back to the bracket, not at the start of the subject: the place behind it and the text from there
unfoldable pub find_open : ℕ → Text → Text → Option (ℕ × Text)
find_open m [] t = none
find_open m (b ∷ []) t = none
find_open m (b ∷ c ∷ bs) t =
    let rest = find_open m (c ∷ bs) (b ∷ t) in
    if b == m then some (suc (length (c ∷ bs)), t) else rest

-- the long that strtol gives, which stops at LONG_MIN and LONG_MAX, as an int: its lower 32 bits
unfoldable pub to_int : ℤ → ℤ
to_int (pos n) =
    let r = min n (2 ^ 63 - 1) % 2 ^ 32 in if ltb r (2 ^ 31) then pos r else negsuc (2 ^ 32 - r - 1)
to_int (negsuc n) =
    let r = min n (2 ^ 63 - 1) % 2 ^ 32 in if ltb r (2 ^ 31) then negsuc r else pos (2 ^ 32 - r - 1)

-- the int of strtol, where it reads a number and the byte behind it is the given one
unfoldable pub number_before : ℕ → Option (ℤ × Text) → Option ℤ
unfolding to_int
number_before c none = none
number_before c (some (n, [])) = none
number_before c (some (n, d ∷ ds)) = if d == c then some (to_int n) else none

-- what parsepnum sets and returns, where it returns no -1
pub record Numbering : Type 0 where
  pub req : ℤ
  pub partoff : ℤ
  pub tailoff : ℤ
  pub partnum : ℤ

unfoldable pub numbering_of : Option ℤ → Option ℤ → ℕ → ℕ → Option Numbering
numbering_of none req partoff tailoff = none
numbering_of (some n) none partoff tailoff = none
numbering_of (some n) (some req) partoff tailoff =
    if ltb_ℤ req n
    then none
    else some (record {
      req = if eqb_ℤ n (pos 0) then pos 0 else req;
      partoff = pos partoff;
      tailoff = pos tailoff;
      partnum = n;
    })

unfoldable pub number_at : Option (ℕ × Text) → ℕ → Text → ℕ → Option Numbering
unfolding strtol number_before numbering_of
number_at none close cs tailoff = none
number_at (some (partoff, t)) close cs tailoff =
    numbering_of (number_before 47 (strtol t)) (number_before close (strtol cs)) partoff tailoff

unfoldable pub number_to : Option (ℕ × ℕ) → Text → Text → Option Numbering
unfolding number_at find_open open_of
number_to none before cs = none
number_to (some (n, close)) before cs =
    number_at (find_open (open_of close) before (47 ∷ cs)) close cs (suc (length before) + n)

-- of the slash between the text before it and `cs`
unfoldable pub parsepnum : Text → Text → Option Numbering
unfolding number_to find_close
parsepnum before cs = number_to (find_close cs 0) before cs

-- req>=0
unfoldable pub not_negative : Option Numbering → Option Numbering
not_negative none = none
not_negative (some n) = if ltb_ℤ n.req (pos 0) then none else some n

unfoldable pub number_here : Text → Text → Option Numbering
unfolding parsepnum not_negative
number_here before [] = none
number_here before (c ∷ cs) = if c == 47 then not_negative (parsepnum before cs) else none

-- what req is behind a pass of the loop: what parsepnum returned, if it was called
unfoldable pub returned : Option Numbering → ℤ
returned none = negsuc 0
returned (some n) = n.req

unfoldable pub req_behind : Text → Text → ℤ → ℤ
unfolding parsepnum returned
req_behind before [] req = req
req_behind before (c ∷ cs) req = if c == 47 then returned (parsepnum before cs) else req

-- for (;s>str;s--): the numbering, and the text from the slash on; or else what req is
pub data Scanned : Type 0 where
  numbered : Numbering → Text → Scanned
  unnumbered : ℤ → Scanned

unfoldable pub found_or : Option Numbering → Text → Scanned → Scanned
found_or none s rest = rest
found_or (some n) s rest = numbered n s

unfoldable pub scan_back : Text → Text → ℤ → Scanned
unfolding found_or number_here req_behind
scan_back [] s req = unnumbered req
scan_back (b ∷ bs) s req =
    found_or (number_here (b ∷ bs) s) s (scan_back bs (b ∷ s) (req_behind (b ∷ bs) s req))

-- from the third byte before the end on
unfoldable pub scan_from : Text → Scanned
unfolding scan_back
scan_from [] = unnumbered (pos 0)
scan_from (x ∷ []) = unnumbered (pos 0)
scan_from (x ∷ y ∷ []) = unnumbered (pos 0)
scan_from (x ∷ y ∷ z ∷ bs) = scan_back bs (z ∷ y ∷ x ∷ []) (pos 0)

unfoldable pub reversed_onto : Text → Text → Text
reversed_onto [] before = before
reversed_onto (c ∷ cs) before = reversed_onto cs (c ∷ before)

-- req, partoff, tailoff and partnum, and the subject.
unfoldable pub subject_of : Text → Scanned → Numbering × Text
subject_of str (unnumbered req) =
    (record { req = req; partoff = negsuc 0; tailoff = negsuc 0; partnum = negsuc 0 }, str)
subject_of str (numbered n s) =
    if eqb_ℤ n.req (pos 0) then (n, str) else (n, taken n.partoff ++ (42 ∷ s))
  where
    taken : ℤ → Text
    taken (pos k) = take k str
    taken (negsuc k) = []

unfoldable pub number_subject : Text → Numbering × Text
unfolding subject_of scan_from reversed_onto
number_subject str = subject_of str (scan_from (reversed_onto str []))

-- the loop of goodstrtok at spaces, with so many tokens at most
unfoldable pub space_tokens : ℕ → Option Text → List Text
unfolding cut_at
space_tokens zero s = []
space_tokens (suc n) none = []
space_tokens (suc n) (some s) =
    let (token, rest) = cut_at 32 s in let more = space_tokens n rest in token ∷ more

-- refstr may be null
unfoldable pub references_of : Option Text → List Text
unfolding space_tokens
references_of none = []
references_of (some []) = []
references_of (some (c ∷ cs)) = space_tokens (suc (suc (length cs))) (some (c ∷ cs))

unfoldable pub set_header : Text → Text → ℕ → ℕ → ℕ → ℕ → Text → Option Text → Header → Header
unfolding number_subject references_of
set_header str author anum date bytes lines mid refstr h =
    let (n, subject) = number_subject str in
    record h {
      base = record {
        req = n.req;
        partoff = n.partoff;
        author = author;
        subject = subject;
        references = references_of refstr;
      };
      partnum = n.partnum;
      tailoff = n.tailoff;
      articlenum = anum;
      date = date;
      bytes = bytes;
      lines = lines;
      messageid = mid;
    }
