-- ===== src/Persistence/Collection.antt =====
-- The calls of a mongoose model that the repositories make. MongoDB is not part of the repository:
-- a model is a parameter, and what the proofs rely on of its documented behaviour is `IsModel`.
pub mod Updates
use message_management_api.Prelude.{
  ℕ, suc, ◌≡◌, ◌≢◌, ◌⊎◌, Bool, true, Option, none, some, List, [], ◌∷◌, ◌++◌, take, filter, length,
  any, if◌then◌else◌, map, All,
}
use message_management_api.Effects.{Io, Result, ok, err, Exception}
use Updates.{first, update_first, update_all, sort_by, limited}

-- A filter is the test that it stands for and an update the function that it stands for; `_id` is
-- never updated. A sort is the order by its keys.
pub record Model (W D I : Type 0) : Type 0 where
  -- `create([input], { session })`, destructured to its first element.
  pub create : I → Io W (Option D)
  -- `findOneAndUpdate(filter, update, { returnDocument: 'after', sort: { _id: 1 } })`.
  pub find_one_and_update : (D → Bool) → (D → D) → Io W (Option D)
  -- `updateOne(filter, update)`, the `matchedCount`.
  pub update_one : (D → Bool) → (D → D) → Io W ℕ
  -- `updateMany(filter, update)`, the `modifiedCount`.
  pub update_many : (D → Bool) → (D → D) → Io W ℕ
  pub count_documents : (D → Bool) → Io W ℕ
  -- `find(filter).sort(order).limit(n)`.
  pub find : (D → Bool) → (D → D → Bool) → Option ℕ → Io W (List D)

-- A call that answers `result` and leaves `after`, unless it throws; a call that throws may have
-- been carried out nevertheless.
abbrev pub Does : {W A D : Type 0} → (W → List D) → Io W A → W → A → List D → Type 0
Does docs m w result after =
    (((m w).0 ≡ ok result) × (docs (m w).1 ≡ after))
    ⊎ ((e : Exception) × ((m w).0 ≡ err e) × ((docs (m w).1 ≡ after) ⊎ (docs (m w).1 ≡ docs w)))

-- `docs` are the documents of the collection by ascending `_id`. Every single call is atomic.
pub record IsModel {W D I : Type 0} (model : Model W D I) (docs : W → List D) : Type 0 where
  pub find_one_and_update :
      (p : D → Bool) (f : D → D) (w : W)
      → Does docs (model.find_one_and_update p f) w (first p f (docs w)) (update_first p f (docs w))
  pub update_one :
      (p : D → Bool) (f : D → D) (w : W)
      → Does docs
          (model.update_one p f)
          w
          (if any p (docs w) then 1 else 0)
          (update_first p f (docs w))
  pub update_many :
      (p : D → Bool) (f : D → D) (w : W)
      → ((d : D) → p d ≡ true → f d ≢ d)
      → Does docs (model.update_many p f) w (length (filter p (docs w))) (update_all p f (docs w))
  pub count_documents :
      (p : D → Bool) (w : W)
      → Does docs (model.count_documents p) w (length (filter p (docs w))) (docs w)
  pub find :
      (p : D → Bool) (before : D → D → Bool) (n : Option ℕ) (w : W)
      → Does docs
          (model.find p before n)
          w
          (limited n (filter p (sort_by before (docs w))))
          (docs w)
