-- ===== src/Common/ListDatabase.antt =====
-- A client that returns the first match, and sorts by insertion.
use playhub_playbooking.Common.{
  All, All-map_of, Bool, Bool-cases, List, [], arith, false, find, if◌then◌else◌, inl, inr, leb,
  none, some, subst, true, ℕ, ◌*◌, ◌+◌, ◌/◌, ◌∷◌, ◌≡◌, ◌≤◌,
}
use playhub_playbooking.Common.Database.{Database, Falls}

unfoldable pub insert_by : {A : Type 0} → (A → ℕ) → A → List A → List A
insert_by key a [] = a ∷ []
insert_by key a (b ∷ bs) = if leb (key b) (key a) then a ∷ b ∷ bs else b ∷ insert_by key a bs

unfoldable pub sort_by : {A : Type 0} → (A → ℕ) → List A → List A
unfolding insert_by
sort_by key [] = []
sort_by key (a ∷ rest) = insert_by key a (sort_by key rest)

pub find-some :
    {A : Type 0} (p : A → Bool) (rows : List A) (a : A) → find p rows ≡ some a → p a ≡ true
find-some p [] a h = cc
find-some p (b ∷ bs) a h = ground (arith, find-some p bs a)

pub find-All :
    {A : Type 0} (P : A → Type 0) (p : A → Bool) (rows : List A) (a : A)
    → find p rows ≡ some a
    → All P rows
    → P a
find-All P p [] a h all = cc
find-All P p (b ∷ bs) a h all = elim (Bool-cases (p b)) [
  | inl e ↦ let k : some b ≡ some a = rw e at h in subst P (cc) all.0
  | inr e ↦ find-All P p bs a (rw e at h) all.1
]

pub find-none :
    {A : Type 0} (p : A → Bool) (rows : List A) → find p rows ≡ none → All (λ a. p a ≡ false) rows
find-none p [] h = tt
find-none p (b ∷ bs) h = elim (Bool-cases (p b)) [
  | inl e ↦ cc
  | inr e ↦ (e, find-none p bs (rw e at h))
]

pub insert_by-All :
    {A : Type 0} (P : A → Type 0) (key : A → ℕ) (a : A) (rows : List A)
    → P a
    → All P rows
    → All P (insert_by key a rows)
unfolding insert_by
insert_by-All P key a [] h all = (h, tt)
insert_by-All P key a (b ∷ bs) h all = elim (Bool-cases (leb (key b) (key a))) [
  | inl e ↦ rw e (h, all)
  | inr e ↦ rw e (all.0, insert_by-All P key a bs h all.1)
]

pub All-insert_by :
    {A : Type 0} (P : A → Type 0) (key : A → ℕ) (a : A) (rows : List A)
    → All P (insert_by key a rows)
    → P a × All P rows
unfolding insert_by
All-insert_by P key a [] h = h
All-insert_by P key a (b ∷ bs) h = elim (Bool-cases (leb (key b) (key a))) [
  | inl e ↦ rw e at h
  | inr e ↦
      let k : P b × All P (insert_by key a bs) = rw e at h in
      let (pa, others) = All-insert_by P key a bs k.1 in (pa, (k.0, others))
]

pub insert_by-Falls :
    {A : Type 0} (key : A → ℕ) (a : A) (rows : List A)
    → Falls key rows
    → Falls key (insert_by key a rows)
unfolding insert_by
insert_by-Falls key a [] h = (tt, tt)
insert_by-Falls key a (b ∷ bs) h = elim (Bool-cases (leb (key b) (key a))) [
  | inl e ↦ rw e ((omega (arith, leb_le e), All-map_of bs (λ x q. omega (arith, leb_le e)) h.0), h)
  | inr e ↦
      rw e (
        insert_by-All (λ x. key x ≤ key b) key a bs (ground arith) h.0,
        insert_by-Falls key a bs h.1,
      )
]
  where
    leb_le : leb (key b) (key a) ≡ true → key b ≤ key a
    leb_le e = ground arith

pub sort_by-All :
    {A : Type 0} (P : A → Type 0) (key : A → ℕ) (rows : List A)
    → All P rows
    → All P (sort_by key rows)
unfolding sort_by
sort_by-All P key [] h = tt
sort_by-All P key (a ∷ rest) h =
    insert_by-All P key a (sort_by key rest) h.0 (sort_by-All P key rest h.1)

pub All-sort_by :
    {A : Type 0} (P : A → Type 0) (key : A → ℕ) (rows : List A)
    → All P (sort_by key rows)
    → All P rows
unfolding sort_by
All-sort_by P key [] h = tt
All-sort_by P key (a ∷ rest) h =
    let (pa, others) = All-insert_by P key a (sort_by key rest) h in
    (pa, All-sort_by P key rest others)

pub sort_by-Falls : {A : Type 0} (key : A → ℕ) (rows : List A) → Falls key (sort_by key rows)
unfolding sort_by
sort_by-Falls key [] = tt
sort_by-Falls key (a ∷ rest) = insert_by-Falls key a (sort_by key rest) (sort_by-Falls key rest)

pub rounds_exactly : (n : ℕ) → (n * 3600000 + 1800000) / 3600000 ≡ n
rounds_exactly n = omega arith

-- It shows that the laws can hold, and serves the tests.
abbrev pub list_database : Database
list_database = record {
  find_first = find;
  find_first-some = find-some;
  find_first-All = find-All;
  find_first-none = find-none;
  order_by = sort_by;
  to_decimal = λ n. (n + 1800000) / 3600000;
  to_decimal-exact = rounds_exactly;
  order_by-Falls = sort_by-Falls;
  order_by-All = sort_by-All;
  All-order_by = All-sort_by;
}
