-- ===== src/Grouplist/Descriptions.antt =====
-- The description that a server gives of a group.
use nget.Prelude.{
  ℕ, ◌+◌, ◌-◌, ◌≤◌, ◌≡◌, refl, ap, sym, ◌∙◌, List, [], ◌∷◌, false, ◌==◌, ltb, if◌then◌else◌, arith,
  some, none, Text, eq_text, eq_text→eq, Option-cases, Bool-cases, inl, inr,
}
use nget.Grouplist.{
  Description, has_id, insert_id, erase_id, description_of, leave_description, join_description,
  addserverdescription_as, addserverdescription,
}
use nget.Grouplist.Sets.{occurs, has_id-occurs, occurs-erase_id, occurs-insert_id, no_ids-occurs}

-- how often an id is in the descriptions
unfoldable pub holders : ℕ → List Description → ℕ
unfolding occurs
holders k [] = 0
holders k (d ∷ ds) = occurs k d.serverids + holders k ds

-- no server gives two descriptions
unfoldable pub IsExclusive : List Description → Type 0
IsExclusive ds = (k : ℕ) → holders k ds ≤ 1

has_id-erase_other :
    (k n : ℕ) (ms : List ℕ) → (k == n) ≡ false → has_id k (erase_id n ms) ≡ has_id k ms
has_id-erase_other k n ms e =
    has_id-occurs k (erase_id n ms)
    ∙ ap (λ x. ltb 0 x)
        (occurs-erase_id k n ms ∙ ap (λ b. if b then occurs k ms - 1 else occurs k ms) e)
    ∙ sym (has_id-occurs k ms)

holders-leave :
    (k sid : ℕ) (ds : List Description)
    → holders k (leave_description sid ds) ≡ (if k == sid then holders k ds - 1 else holders k ds)
unfolding holders leave_description
holders-leave k sid [] = ground arith
holders-leave k sid (d ∷ ds) = ground (
  arith,
  holders-leave k sid ds,
  occurs-erase_id k sid d.serverids,
  no_ids-occurs k (erase_id sid d.serverids),
  has_id-occurs sid d.serverids,
)

holders-join :
    (k sid : ℕ) (desc : Text) (ds : List Description)
    → holders sid ds ≡ 0
    → holders k (join_description sid desc ds)
      ≡ (if k == sid then 1 + holders k ds else holders k ds)
unfolding holders join_description occurs
holders-join k sid desc [] h = ground arith
holders-join k sid desc (d ∷ ds) h =
    ground (arith, holders-join k sid desc ds, occurs-insert_id k sid d.serverids)

description_of-leave :
    (k sid : ℕ) (ds : List Description)
    → (k == sid) ≡ false
    → description_of k (leave_description sid ds) ≡ description_of k ds
unfolding description_of leave_description
description_of-leave k sid [] e = refl
description_of-leave k sid (d ∷ ds) e = ground (
  arith,
  description_of-leave k sid ds e,
  has_id-erase_other k sid d.serverids e,
  no_ids-occurs k (erase_id sid d.serverids),
  has_id-occurs k (erase_id sid d.serverids),
)

description_of-join :
    (k sid : ℕ) (desc : Text) (ds : List Description)
    → holders sid ds ≡ 0
    → description_of k (join_description sid desc ds)
      ≡ (if k == sid then some desc else description_of k ds)
unfolding description_of join_description holders has_id occurs
description_of-join k sid desc [] h = ground arith
description_of-join k sid desc (d ∷ ds) h = ground (
  arith,
  description_of-join k sid desc ds,
  has_id-occurs k d.serverids,
  has_id-occurs k (insert_id sid d.serverids),
  occurs-insert_id k sid d.serverids,
  eq_text→eq d.description desc,
)

description_of-none :
    (k : ℕ) (ds : List Description) → description_of k ds ≡ none → holders k ds ≡ 0
unfolding description_of holders
description_of-none k [] e = refl
description_of-none k (d ∷ ds) e =
    ground (arith, description_of-none k ds, has_id-occurs k d.serverids)

description_of-as :
    (k sid : ℕ) (desc : Text) (ds : List Description)
    → IsExclusive ds
    → (description_of k (addserverdescription sid desc ds).1
        ≡ (if k == sid then some desc else description_of k ds))
      × (holders k (addserverdescription sid desc ds).1 ≤ 1)
unfolding addserverdescription addserverdescription_as IsExclusive
description_of-as k sid desc ds v = elim (Option-cases (description_of sid ds)) [
  | inl e ↦
      let h : holders sid ds ≡ 0 = description_of-none sid ds e in
      let b : holders k ds ≤ 1 = v k in
      rw e (description_of-join k sid desc ds h, ground (arith, holders-join k sid desc ds h))
  | inr (old, e) ↦ elim (Bool-cases (eq_text old desc)) [
    | inl same ↦
        let b : holders k ds ≤ 1 = v k in
        rw (e, same) (ground (arith, e, eq_text→eq old desc same), b)
    | inr other ↦
        let b : holders k ds ≤ 1 = v k in
        let c : holders sid ds ≤ 1 = v sid in
        let h : holders sid (leave_description sid ds) ≡ 0 =
          ground (arith, holders-leave sid sid ds) in
        rw (e, other)
          (
            ground (
              arith,
              description_of-join k sid desc (leave_description sid ds) h,
              description_of-leave k sid ds,
            ),
            ground (
              arith,
              holders-join k sid desc (leave_description sid ds) h,
              holders-leave k sid ds,
            ),
          )
  ]
]

-- After addserverdescription(sid, desc) the server sid gives the description desc, each other server
-- the one that it gave before, and no server gives two, where none gave two before.
pub addserverdescription-description_of :
    (sid : ℕ) (desc : Text) (ds : List Description)
    → IsExclusive ds
    → ((k : ℕ)
        → description_of k (addserverdescription sid desc ds).1
          ≡ (if k == sid then some desc else description_of k ds))
      × IsExclusive (addserverdescription sid desc ds).1
unfolding IsExclusive
addserverdescription-description_of sid desc ds v =
    (λ k. (description_of-as k sid desc ds v).0, λ k. (description_of-as k sid desc ds v).1)
