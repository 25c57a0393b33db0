-- ===== src/Persistence/Collection/Updates.antt =====
-- Updates and sorted reads of a list of documents, and the laws that the repositories' proofs use.
use message_management_api.Prelude.{
  ℕ, zero, suc, ◌≡◌, refl, Bool, true, false, Option, none, some, List, [], ◌∷◌, take, filter,
  if◌then◌else◌, map, All, arith, Bool-cases, inl, inr, is_some,
}

module _ {ℓ} {D : Type ℓ} where
  -- The first document that passes the test, updated.
  abbrev pub first : (D → Bool) → (D → D) → List D → Option D
  first p f [] = none
  first p f (d ∷ ds) = if p d then some (f d) else first p f ds

  abbrev pub update_first : (D → Bool) → (D → D) → List D → List D
  update_first p f [] = []
  update_first p f (d ∷ ds) = if p d then f d ∷ ds else d ∷ update_first p f ds

  abbrev pub update_all : (D → Bool) → (D → D) → List D → List D
  update_all p f [] = []
  update_all p f (d ∷ ds) = (if p d then f d else d) ∷ update_all p f ds

  -- The first n documents that pass the test are updated.
  abbrev pub update_upto : (D → Bool) → (D → D) → ℕ → List D → List D
  update_upto p f zero ds = ds
  update_upto p f (suc n) [] = []
  update_upto p f (suc n) (d ∷ ds) =
      let hit = f d ∷ update_upto p f n ds in
      let miss = d ∷ update_upto p f (suc n) ds in if p d then hit else miss

  -- A limit of 0 is none.
  abbrev pub limited : Option ℕ → List D → List D
  limited none ds = ds
  limited (some zero) ds = ds
  limited (some (suc n)) ds = take (suc n) ds

  abbrev pub insert_by : (D → D → Bool) → D → List D → List D
  insert_by before d [] = d ∷ []
  insert_by before d (e ∷ ds) = if before d e then d ∷ e ∷ ds else e ∷ insert_by before d ds

  abbrev pub sort_by : (D → D → Bool) → List D → List D
  sort_by before [] = []
  sort_by before (d ∷ ds) = insert_by before d (sort_by before ds)

module _ {ℓ} {D : Type ℓ} (p : D → Bool) (f : D → D) where
  pub first-none : (ds : List D) → first p f ds ≡ none → update_first p f ds ≡ ds
  first-none [] h = refl
  first-none (d ∷ ds) h = ground (arith, first-none ds)

  pub first-none-update_upto :
      (n : ℕ) (ds : List D) → first p f ds ≡ none → update_upto p f n ds ≡ ds
  first-none-update_upto zero ds h = refl
  first-none-update_upto (suc n) [] h = refl
  first-none-update_upto (suc n) (d ∷ ds) h = ground (arith, first-none-update_upto (suc n) ds)

  pub first-none-filter : (ds : List D) → first p f ds ≡ none → filter p ds ≡ []
  first-none-filter [] h = refl
  first-none-filter (d ∷ ds) h = ground (arith, first-none-filter ds)

  -- An update that makes its document fail the test is done once only.
  module _ (once : (d : D) → p (f d) ≡ false) where
    pub update_upto-first :
        (n : ℕ) (ds : List D)
        → is_some (first p f ds) ≡ true
        → update_upto p f n (update_first p f ds) ≡ update_upto p f (suc n) ds
    update_upto-first n [] h = cc
    update_upto-first zero (d ∷ ds) h = ground (arith, update_upto-first zero ds)
    update_upto-first (suc n) (d ∷ ds) h = ground (arith, update_upto-first (suc n) ds, once d)

    pub filter-first :
        (ds : List D) (e : D)
        → first p f ds ≡ some e
        → map f (filter p ds) ≡ e ∷ map f (filter p (update_first p f ds))
    filter-first [] e h = cc
    filter-first (d ∷ ds) e h = ground (arith, filter-first ds e, once d)

-- What every document has, and every update keeps, all documents still have.
module _ {ℓ κ} {D : Type ℓ} (P : D → Type κ) (p : D → Bool) (f : D → D)
    (keep : (d : D) → p d ≡ true → P d → P (f d)) where
  pub update_first-All : (ds : List D) → All P ds → All P (update_first p f ds)
  update_first-All [] h = tt
  update_first-All (d ∷ ds) (h, hs) = elim (Bool-cases (p d)) [
    | inl e ↦ rw e (keep d e h, hs)
    | inr e ↦ rw e (h, update_first-All ds hs)
  ]

  pub update_all-All : (ds : List D) → All P ds → All P (update_all p f ds)
  update_all-All [] h = tt
  update_all-All (d ∷ ds) (h, hs) = elim (Bool-cases (p d)) [
    | inl e ↦ rw e (keep d e h, update_all-All ds hs)
    | inr e ↦ rw e (h, update_all-All ds hs)
  ]

  pub update_upto-All : (n : ℕ) (ds : List D) → All P ds → All P (update_upto p f n ds)
  update_upto-All zero ds h = h
  update_upto-All (suc n) [] h = tt
  update_upto-All (suc n) (d ∷ ds) (h, hs) = elim (Bool-cases (p d)) [
    | inl e ↦ rw e (keep d e h, update_upto-All n ds hs)
    | inr e ↦ rw e (h, update_upto-All (suc n) ds hs)
  ]

-- What every document has, those that are found have.
pub filter-All {ℓ κ} :
    {D : Type ℓ} (P : D → Type κ) (p : D → Bool) (ds : List D) → All P ds → All P (filter p ds)
filter-All P p [] h = tt
filter-All P p (d ∷ ds) (h, hs) = elim (Bool-cases (p d)) [
  | inl hit ↦ rw hit (h, filter-All P p ds hs)
  | inr miss ↦ rw miss (filter-All P p ds hs)
]

module _ {ℓ κ} {D : Type ℓ} (P : D → Type κ) where
  insert_by-All :
      (before : D → D → Bool) (d : D) (ds : List D) → P d → All P ds → All P (insert_by before d ds)
  insert_by-All before d [] h hs = (h, tt)
  insert_by-All before d (e ∷ ds) h (k, ks) = elim (Bool-cases (before d e)) [
    | inl sooner ↦ rw sooner (h, (k, ks))
    | inr later ↦ rw later (k, insert_by-All before d ds h ks)
  ]

  pub sort_by-All : (before : D → D → Bool) (ds : List D) → All P ds → All P (sort_by before ds)
  sort_by-All before [] h = tt
  sort_by-All before (d ∷ ds) (h, hs) =
      insert_by-All before d (sort_by before ds) h (sort_by-All before ds hs)

  take-All : (n : ℕ) (ds : List D) → All P ds → All P (take n ds)
  take-All zero ds h = tt
  take-All (suc n) [] h = tt
  take-All (suc n) (d ∷ ds) (h, hs) = (h, take-All n ds hs)

  pub limited-All : (limit : Option ℕ) (ds : List D) → All P ds → All P (limited limit ds)
  limited-All none ds h = h
  limited-All (some zero) ds h = h
  limited-All (some (suc n)) ds h = take-All (suc n) ds h
