-- ===== src/Common/Database.antt =====
-- What the services use of the database client, which is not part of the repository. A table is
-- the list of its rows, and a `where` clause a Boolean test on a row. Which of several matching
-- rows a query without an order returns, and how rows of equal rank are ordered, is left to the
-- client: these are parameters, with the documented behaviour as laws.
use playhub_playbooking.Common.{
  All, All-map_of, All-of_both, Bool, Bool-cases, List, Option, Result, [], error, false, filter,
  if◌then◌else◌, inl, inr, none, ok, or_throw, or_throw-eq-ok, refl, some, true, ℕ, ◌*◌, ◌>>=◌, ◌∷◌,
  ◌≡◌, ◌≤◌,
}

-- The keys never rise along the list.
abbrev pub Falls : {A : Type 0} → (A → ℕ) → List A → Type 0
Falls key [] = Unit
Falls key (a ∷ rest) = All (λ b. key b ≤ key a) rest × Falls key rest

pub record Database : Type 1 where
  -- findFirst and findUnique
  pub find_first : {A : Type 0} → (A → Bool) → List A → Option A
  pub find_first-some :
      {A : Type 0} (p : A → Bool) (rows : List A) (a : A) → find_first p rows ≡ some a → p a ≡ true
  pub find_first-All :
      {A : Type 0} (P : A → Type 0) (p : A → Bool) (rows : List A) (a : A)
      → find_first p rows ≡ some a
      → All P rows
      → P a
  pub find_first-none :
      {A : Type 0} (p : A → Bool) (rows : List A)
      → find_first p rows ≡ none
      → All (λ a. p a ≡ false) rows
  -- orderBy, descending
  pub order_by : {A : Type 0} → (A → ℕ) → List A → List A
  pub order_by-Falls : {A : Type 0} (key : A → ℕ) (rows : List A) → Falls key (order_by key rows)
  pub order_by-All :
      {A : Type 0} (P : A → Type 0) (key : A → ℕ) (rows : List A)
      → All P rows
      → All P (order_by key rows)
  -- What a Decimal(12, 2) column holds, in paise, after n / 3,600,000 paise are written to it.
  pub to_decimal : ℕ → ℕ
  pub to_decimal-exact : (n : ℕ) → to_decimal (n * 3600000) ≡ n
  pub All-order_by :
      {A : Type 0} (P : A → Type 0) (key : A → ℕ) (rows : List A)
      → All P (order_by key rows)
      → All P rows

-- Every two rows, in the order of the table.
abbrev pub AllPairs : {A : Type 0} → (A → A → Type 0) → List A → Type 0
AllPairs R [] = Unit
AllPairs R (a ∷ rest) = All (R a) rest × AllPairs R rest

-- update and updateMany: the rows that meet `where` are changed, in place.
unfoldable pub update_many : {A : Type 0} → (A → Bool) → (A → A) → List A → List A
update_many p f [] = []
update_many p f (a ∷ rest) = (if p a then f a else a) ∷ update_many p f rest

pub update_many-All :
    {A : Type 0} (P : A → Type 0) (p : A → Bool) (f : A → A) (rows : List A)
    → ((a : A) → p a ≡ true → P a → P (f a))
    → All P rows
    → All P (update_many p f rows)
unfolding update_many
update_many-All P p f [] step h = tt
update_many-All P p f (a ∷ rest) step h = elim (Bool-cases (p a)) [
  | inl e ↦ rw e (step a e h.0, update_many-All P p f rest step h.1)
  | inr e ↦ rw e (h.0, update_many-All P p f rest step h.1)
]

-- update of one row: it throws if no row meets `where`, and returns the row as updated.
unfoldable pub update_row :
    {A : Type 0} → Database → (A → Bool) → (A → A) → List A → Result (A × List A)
update_row db p f rows = do
  row ← or_throw (db.find_first p rows) (error "Record to update not found")
  ok (f row, update_many p f rows)

pub update_row-ok :
    {A : Type 0} (db : Database) (p : A → Bool) (f : A → A) (rows : List A) (r : A × List A)
    → update_row db p f rows ≡ ok r
    → (row : A) × (db.find_first p rows ≡ some row) × (r.0 ≡ f row) × (r.1 ≡ update_many p f rows)
unfolding update_row
update_row-ok db p f rows r e =
    let (row, found, same) =
      or_throw-eq-ok (db.find_first p rows) (error "Record to update not found") _ e in
    (row, found, cc, cc)

pub All-intro : {A : Type 0} (P : A → Type 0) (rows : List A) → ((a : A) → P a) → All P rows
All-intro P [] h = tt
All-intro P (a ∷ rest) h = (h a, All-intro P rest h)

pub filter-All :
    {A : Type 0} (P : A → Type 0) (p : A → Bool) (rows : List A)
    → All (λ a. p a ≡ true → P a) rows
    → All P (filter p rows)
filter-All P p [] h = tt
filter-All P p (a ∷ rest) h = elim (Bool-cases (p a)) [
  | inl e ↦ rw e (h.0 e, filter-All P p rest h.1)
  | inr e ↦ rw e (filter-All P p rest h.1)
]

pub All-filter :
    {A : Type 0} (P : A → Type 0) (p : A → Bool) (rows : List A)
    → All P (filter p rows)
    → All (λ a. p a ≡ true → P a) rows
All-filter P p [] h = tt
All-filter P p (a ∷ rest) h = elim (Bool-cases (p a)) [
  | inl e ↦ let k : P a × All P (filter p rest) = rw e at h in ((λ _. k.0), All-filter P p rest k.1)
  | inr e ↦ let k : All P (filter p rest) = rw e at h in ((λ y. absurd (cc)), All-filter P p rest k)
]

pub All-AllPairs_map :
    {A : Type 0} (R : A → A → Type 0) (Q : A → Type 0) (p : A → Bool) (f : A → A) (a : A)
    (rest : List A)
    → ((b : A) → Q b → R a b → R (if p a then f a else a) (if p b then f b else b))
    → All Q rest
    → All (R a) rest
    → All (R (if p a then f a else a)) (update_many p f rest)
unfolding update_many
All-AllPairs_map R Q p f a [] h q all = tt
All-AllPairs_map R Q p f a (b ∷ rest) h q all =
    (h b q.0 all.0, All-AllPairs_map R Q p f a rest h q.1 all.1)

-- A relation between every two rows survives an update that keeps it.
pub AllPairs-update_many :
    {A : Type 0} (R : A → A → Type 0) (Q : A → Type 0) (p : A → Bool) (f : A → A) (rows : List A)
    → ((a b : A) → Q a → Q b → R a b → R (if p a then f a else a) (if p b then f b else b))
    → All Q rows
    → AllPairs R rows
    → AllPairs R (update_many p f rows)
unfolding update_many
AllPairs-update_many R Q p f [] h q all = tt
AllPairs-update_many R Q p f (a ∷ rest) h q all = (
  All-AllPairs_map R Q p f a rest (λ b. h a b q.0) q.1 all.0,
  AllPairs-update_many R Q p f rest h q.1 all.1,
)

-- With distinct keys a row that a query by key finds is the only one with its key.
pub only_row :
    {A : Type 0} (R : A → A → Type 0) (Same : A → A → Type 0) (rows : List A)
    → ((a b : A) → R a b → ¬ Same a b)
    → ((a b : A) → Same a b → Same b a)
    → AllPairs R rows
    → All (λ b. All (λ a. Same a b → a ≡ b) rows) rows
only_row R Same [] h s all = tt
only_row R Same (x ∷ rest) h s all = (
  ((λ _. refl), All-map_of rest (λ a r same. absurd (h x a r (s a x same))) all.0),
  All-of_both rest (λ b r k. ((λ same. absurd (h x b r same)), k)) all.0
      (only_row R Same rest h s all.1),
)
