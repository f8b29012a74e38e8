-- ===== src/Common/Queries.antt =====
-- Queries that have one answer.
use playhub_playbooking.Common.{
  All, All-map_of, Any, Bool, Bool-cases, List, Option-cases, [], ap, false, inl, inr, refl, some,
  subst, sym, true, ◌∙◌, ◌∷◌, ◌≡◌,
}
use playhub_playbooking.Common.Database.{Database, update_many}

-- A row that meets `where` is found if no other row does.
pub find_first_only :
    {A : Type 0} (db : Database) (p : A → Bool) (a : A) (rows : List A)
    → p a ≡ true
    → All (λ b. p b ≡ false) rows
    → db.find_first p (a ∷ rows) ≡ some a
find_first_only db p a rows fits others = elim (Option-cases (db.find_first p (a ∷ rows))) [
  | inl e ↦ absurd (let (unfit, _) = db.find_first-none p (a ∷ rows) e in cc)
  | inr (b, e) ↦
      let yes = db.find_first-some p (a ∷ rows) b e in
      let same : p b ≡ true → b ≡ a =
        db.find_first-All (λ b. p b ≡ true → b ≡ a) p (a ∷ rows) b e
          ((λ _. refl), All-map_of rows (λ x unfit y. absurd (cc)) others) in
      e ∙ ap some (same yes)
]

-- A row is found if the newest one meets `where`.
pub find_first_some :
    {A : Type 0} (db : Database) (p : A → Bool) (a : A) (rows : List A)
    → p a ≡ true
    → (b : A) × (db.find_first p (a ∷ rows) ≡ some b) × (p b ≡ true)
find_first_some db p a rows fits = elim (Option-cases (db.find_first p (a ∷ rows))) [
  | inl e ↦ absurd (let (unfit, _) = db.find_first-none p (a ∷ rows) e in cc)
  | inr (b, e) ↦ (b, e, db.find_first-some p (a ∷ rows) b e)
]

-- What the rows have after an update that does not touch it, they had before.
pub All-update_many :
    {A : Type 0} (P : A → Type 0) (p : A → Bool) (f : A → A) (rows : List A)
    → ((a : A) → P (f a) → P a)
    → All P (update_many p f rows)
    → All P rows
unfolding update_many
All-update_many P p f [] back h = tt
All-update_many P p f (a ∷ rest) back h = elim (Bool-cases (p a)) [
  | inl e ↦
      let k : P (f a) × All P (update_many p f rest) = rw e at h in
      (back a k.0, All-update_many P p f rest back k.1)
  | inr e ↦
      let k : P a × All P (update_many p f rest) = rw e at h in
      (k.0, All-update_many P p f rest back k.1)
]

-- An update that makes the property so on the rows that it touches, where the others have it.
pub update_many-makes :
    {A : Type 0} (P Q : A → Type 0) (p : A → Bool) (f : A → A) (rows : List A)
    → ((a : A) → P (f a))
    → ((a : A) → Q a → p a ≡ false → P a)
    → All Q rows
    → All P (update_many p f rows)
unfolding update_many
update_many-makes P Q p f [] touched other h = tt
update_many-makes P Q p f (a ∷ rest) touched other h = elim (Bool-cases (p a)) [
  | inl e ↦ rw e (touched a, update_many-makes P Q p f rest touched other h.1)
  | inr e ↦ rw e (other a h.0 e, update_many-makes P Q p f rest touched other h.1)
]

-- `a` is one of the rows.
abbrev pub IsAmong : {A : Type 0} → A → List A → Type 0
IsAmong a = Any (λ r. r ≡ a)

pub self_IsAmong : {A : Type 0} (rows : List A) → All (λ a. IsAmong a rows) rows
self_IsAmong [] = tt
self_IsAmong (a ∷ rest) = (inl refl, All-map_of rest (λ b h. inr h) (self_IsAmong rest))

pub Any-intro :
    {A : Type 0} (P : A → Type 0) (rows : List A) (a : A) → IsAmong a rows → P a → Any P rows
Any-intro P [] a among h = absurd among
Any-intro P (b ∷ rest) a (inl e) h = inl (subst P (sym e) h)
Any-intro P (b ∷ rest) a (inr among) h = inr (Any-intro P rest a among h)

pub find_first-IsAmong :
    {A : Type 0} (db : Database) (p : A → Bool) (rows : List A) (a : A)
    → db.find_first p rows ≡ some a
    → IsAmong a rows
find_first-IsAmong db p rows a e =
    db.find_first-All (λ b. IsAmong b rows) p rows a e (self_IsAmong rows)

pub update_many-IsAmong :
    {A : Type 0} (p : A → Bool) (f : A → A) (rows : List A) (a : A)
    → p a ≡ true
    → IsAmong a rows
    → IsAmong (f a) (update_many p f rows)
unfolding update_many
update_many-IsAmong p f [] a fits among = absurd among
update_many-IsAmong p f (b ∷ rest) a fits (inl e) = rw (e, fits) (inl refl)
update_many-IsAmong p f (b ∷ rest) a fits (inr among) =
    inr (update_many-IsAmong p f rest a fits among)
