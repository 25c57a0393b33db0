-- ===== src/Application/ListMessages/Pagination/Sorted.antt =====
-- The order of a listing: by timestamp and then by `_id`, both up or both down.
use message_management_api.Prelude.{
  ◌≡◌, ◌≢◌, refl, ap, inl, inr, Bool, true, false, List, [], ◌∷◌, ◌++◌, filter, All, arith,
  Bool-cases,
}
use message_management_api.Domain.{MessageSortOrder, asc, desc}
use message_management_api.Persistence.Collection.Updates.{sort_by, insert_by, filter-All}
use message_management_api.Persistence.Schemas.{MessageEntity}
use message_management_api.Persistence.MessageRepository.{listed_before}

-- Every document stands before all that follow it.
abbrev pub IsSorted : MessageSortOrder → List MessageEntity → Type 0
IsSorted o [] = Unit {0}
IsSorted o (d ∷ ds) = All (λ e. listed_before o d e ≡ true) ds × IsSorted o ds

-- No two documents have one `_id`.
abbrev pub Distinct : List MessageEntity → Type 0
Distinct [] = Unit {0}
Distinct (d ∷ ds) = All (λ e. e._id ≢ d._id) ds × Distinct ds

listed_before_irrefl : (o : MessageSortOrder) (d : MessageEntity) → listed_before o d d ≡ false
listed_before_irrefl asc d = ground arith
listed_before_irrefl desc d = ground arith

listed_before_asymm :
    (o : MessageSortOrder) (d e : MessageEntity)
    → listed_before o d e ≡ true
    → listed_before o e d ≡ false
listed_before_asymm asc d e h = ground arith
listed_before_asymm desc d e h = ground arith

listed_before_trans :
    (o : MessageSortOrder) (a b c : MessageEntity)
    → listed_before o a b ≡ true
    → listed_before o b c ≡ true
    → listed_before o a c ≡ true
listed_before_trans asc a b c h k = ground arith
listed_before_trans desc a b c h k = ground arith

listed_before_total :
    (o : MessageSortOrder) (d e : MessageEntity)
    → e._id ≢ d._id
    → listed_before o d e ≡ false
    → listed_before o e d ≡ true
listed_before_total asc d e n h = ground arith
listed_before_total desc d e n h = ground arith

insert-All :
    (P : MessageEntity → Type 0) (o : MessageSortOrder) (d : MessageEntity)
    (ds : List MessageEntity)
    → P d
    → All P ds
    → All P (insert_by (listed_before o) d ds)
insert-All P o d [] h hs = (h, tt)
insert-All P o d (e ∷ ds) h (k, ks) = elim (Bool-cases (listed_before o d e)) [
  | inl first ↦ rw first (h, (k, ks))
  | inr later ↦ rw later (k, insert-All P o d ds h ks)
]

sort-All :
    (P : MessageEntity → Type 0) (o : MessageSortOrder) (ds : List MessageEntity)
    → All P ds
    → All P (sort_by (listed_before o) ds)
sort-All P o [] h = tt
sort-All P o (d ∷ ds) (h, hs) = insert-All P o d _ h (sort-All P o ds hs)

All-before :
    (o : MessageSortOrder) (d e : MessageEntity) (ds : List MessageEntity)
    → listed_before o d e ≡ true
    → All (λ x. listed_before o e x ≡ true) ds
    → All (λ x. listed_before o d x ≡ true) ds
All-before o d e [] h hs = tt
All-before o d e (x ∷ ds) h (k, ks) = (listed_before_trans o d e x h k, All-before o d e ds h ks)

insert-IsSorted :
    (o : MessageSortOrder) (d : MessageEntity) (ds : List MessageEntity)
    → All (λ e. e._id ≢ d._id) ds
    → IsSorted o ds
    → IsSorted o (insert_by (listed_before o) d ds)
insert-IsSorted o d [] n s = (tt, tt)
insert-IsSorted o d (e ∷ ds) (n, ns) (k, s) = elim (Bool-cases (listed_before o d e)) [
  | inl first ↦ rw first ((first, All-before o d e ds first k), (k, s))
  | inr later ↦
      rw later
        (insert-All _ o d ds (listed_before_total o d e n later) k, insert-IsSorted o d ds ns s)
]

pub sort_by-IsSorted :
    (o : MessageSortOrder) (ds : List MessageEntity)
    → Distinct ds
    → IsSorted o (sort_by (listed_before o) ds)
sort_by-IsSorted o [] n = tt
sort_by-IsSorted o (d ∷ ds) (n, ns) =
    insert-IsSorted o d _ (sort-All _ o ds n) (sort_by-IsSorted o ds ns)

pub filter-IsSorted :
    (o : MessageSortOrder) (q : MessageEntity → Bool) (ds : List MessageEntity)
    → IsSorted o ds
    → IsSorted o (filter q ds)
filter-IsSorted o q [] s = tt
filter-IsSorted o q (d ∷ ds) (k, s) = elim (Bool-cases (q d)) [
  | inl hit ↦ rw hit (filter-All _ q ds k, filter-IsSorted o q ds s)
  | inr miss ↦ rw miss (filter-IsSorted o q ds s)
]

-- Of a sorted list, what comes after one of its documents is the rest behind it.
filter-sorted :
    (o : MessageSortOrder) (d : MessageEntity) (ds : List MessageEntity)
    → All (λ e. listed_before o d e ≡ true) ds
    → filter (listed_before o d) ds ≡ ds
filter-sorted o d [] h = refl
filter-sorted o d (e ∷ ds) (h, hs) = rw h (ap (◌∷◌ e) (filter-sorted o d ds hs))

pub All-split :
    (P : MessageEntity → Type 0) (before rest : List MessageEntity) (d : MessageEntity)
    → All P (before ++ d ∷ rest)
    → P d
All-split P [] rest d (h, hs) = h
All-split P (e ∷ before) rest d (h, hs) = All-split P before rest d hs

pub filter_after :
    (o : MessageSortOrder) (before rest : List MessageEntity) (d : MessageEntity)
    → IsSorted o (before ++ d ∷ rest)
    → filter (listed_before o d) (before ++ d ∷ rest) ≡ rest
filter_after o [] rest d (k, s) = rw (listed_before_irrefl o d) (filter-sorted o d rest k)
filter_after o (e ∷ before) rest d (k, s) =
    rw (listed_before_asymm o e d (All-split _ before rest d k)) (filter_after o before rest d s)
