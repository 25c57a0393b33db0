-- ===== src/Application/ListMessages/Pagination/Pages.antt =====
-- What one page holds: all that is left, or the first `limit` messages of more.
use message_management_api.Prelude.{
  ℕ, zero, suc, ◌≤◌, ◌≡◌, refl, sym, ap, String, Bool, true, false, Option, none, some, List, [],
  ◌∷◌, ◌++◌, map, take, length, last?, filter, ltb, arith, ◌&&◌,
}
use message_management_api.Runtime.{Runtime}
use message_management_api.Domain.{Message, MessageSortOrder}
use message_management_api.Application.Cursor.{encode_message_cursor}
use message_management_api.Application.ListMessages.{ListMessagesResult, page_of}

module _ {ℓ} {A : Type ℓ} where
  -- A list has at most k + 1 entries, or one with k before it and another behind it.
  pub data Split (k : ℕ) (xs : List A) : Type ℓ where
    short : length xs ≤ suc k → Split k xs
    long :
        (front : List A) (x y : A) (tail : List A)
        → length front ≡ k
        → xs ≡ front ++ x ∷ y ∷ tail
        → Split k xs

  Split-cons : {k : ℕ} (x : A) {xs : List A} → Split k xs → Split (suc k) (x ∷ xs)
  Split-cons x (short h) = short (omega (arith, h))
  Split-cons x (long front a b tail n e) =
      long (x ∷ front) a b tail (omega (arith, n)) (ap (◌∷◌ x) e)

  pub split : (k : ℕ) (xs : List A) → Split k xs
  split k [] = short (omega arith)
  split zero (x ∷ []) = short (omega arith)
  split zero (x ∷ y ∷ xs) = long [] x y xs refl refl
  split (suc k) (x ∷ xs) = Split-cons x (split k xs)

  pub filter_and :
      (p q : A → Bool) (xs : List A) → filter (λ x. p x && q x) xs ≡ filter q (filter p xs)
  filter_and p q [] = refl
  filter_and p q (x ∷ xs) = ground (arith, filter_and p q xs)

  pub filter_ext :
      (p q : A → Bool) (xs : List A) → ((x : A) → p x ≡ q x) → filter p xs ≡ filter q xs
  filter_ext p q [] h = refl
  filter_ext p q (x ∷ xs) h = rw (h x, filter_ext p q xs h) refl

  pub append_step :
      (before front : List A) (x : A) (tail : List A)
      → before ++ (front ++ x ∷ tail) ≡ (before ++ front) ++ x ∷ tail
  append_step [] front x tail = refl
  append_step (b ∷ before) front x tail = ap (◌∷◌ b) (append_step before front x tail)

  pub append_one :
      (before : List A) (x : A) (tail : List A) → before ++ x ∷ tail ≡ (before ++ x ∷ []) ++ tail
  append_one [] x tail = refl
  append_one (b ∷ before) x tail = ap (◌∷◌ b) (append_one before x tail)

  pub filter_all : (xs : List A) → filter (λ x. true) xs ≡ xs
  filter_all [] = refl
  filter_all (x ∷ xs) = ap (◌∷◌ x) (filter_all xs)

module _ {ℓ κ} {A : Type ℓ} {B : Type κ} (f : A → B) where
  take_all : (k : ℕ) (xs : List A) → length xs ≤ k → take k (map f (take (suc k) xs)) ≡ map f xs
  take_all zero [] h = refl
  take_all (suc k) [] h = refl
  take_all zero (x ∷ xs) h = ground arith
  take_all (suc k) (x ∷ xs) h = ap (◌∷◌ (f x)) (take_all k xs (omega (arith, h)))

  length_all : (k : ℕ) (xs : List A) → length xs ≤ k → length (map f (take (suc k) xs)) ≤ k
  length_all k [] h = omega arith
  length_all zero (x ∷ xs) h = omega (arith, h)
  length_all (suc k) (x ∷ xs) h = omega (arith, length_all k xs (omega (arith, h)))

  take_more :
      (front : List A) (x y : A) (tail : List A)
      → take (suc (length front)) (map f (take (suc (suc (length front))) (front ++ x ∷ y ∷ tail)))
        ≡ map f (front ++ x ∷ [])
  take_more [] x y tail = refl
  take_more (a ∷ front) x y tail = ap (◌∷◌ (f a)) (take_more front x y tail)

  length_more :
      (front : List A) (x y : A) (tail : List A)
      → length (map f (take (suc (suc (length front))) (front ++ x ∷ y ∷ tail)))
        ≡ suc (suc (length front))
  length_more [] x y tail = refl
  length_more (a ∷ front) x y tail = ap suc (length_more front x y tail)

  last_more : (front : List A) (x : A) → last? (map f (front ++ x ∷ [])) ≡ some (f x)
  last_more [] x = refl
  last_more (a ∷ []) x = refl
  last_more (a ∷ b ∷ front) x = last_more (b ∷ front) x

  pub map_append_step :
      (front : List A) (x : A) (tail : List A)
      → map f (front ++ x ∷ []) ++ map f tail ≡ map f (front ++ x ∷ tail)
  map_append_step [] x tail = refl
  map_append_step (a ∷ front) x tail = ap (◌∷◌ (f a)) (map_append_step front x tail)

module _ {ℓ} {A : Type ℓ} (r : Runtime) (o : MessageSortOrder) (f : A → Message) where
  abbrev pub page : List Message → ℕ → Option String → Bool → ListMessagesResult
  page messages limit next more = record {
    messages = messages;
    pagination = record { limit = limit; next_cursor = next; has_more = more; sort_order = o };
  }

  pub page_of-last :
      (k : ℕ) (xs : List A)
      → length xs ≤ k
      → page_of r k o (map f (take (suc k) xs)) ≡ page (map f xs) k none false
  unfolding page_of
  page_of-last k xs h = rw (take_all f k xs h, ltb_no) refl
    where
      ltb_no : ltb k (length (map f (take (suc k) xs))) ≡ false
      ltb_no = ground (arith, length_all f k xs h)

  pub page_of-more :
      (front : List A) (x y : A) (tail : List A)
      → page_of r
          (suc (length front))
          o
          (map f (take (suc (suc (length front))) (front ++ x ∷ y ∷ tail)))
        ≡ page
            (map f (front ++ x ∷ []))
            (suc (length front))
            (some (encode_message_cursor r (f x) o))
            true
  unfolding page_of
  page_of-more front x y tail = rw (take_more f front x y tail, ltb_yes, last_more f front x) refl
    where
      ltb_yes :
          ltb
            (suc (length front))
            (length (map f (take (suc (suc (length front))) (front ++ x ∷ y ∷ tail))))
          ≡ true
      ltb_yes = ground (arith, length_more f front x y tail)

  pub page_of-split :
      (k : ℕ) (xs front : List A) (x y : A) (tail : List A)
      → length front ≡ k
      → xs ≡ front ++ x ∷ y ∷ tail
      → page_of r (suc k) o (map f (take (suc (suc k)) xs))
        ≡ page (map f (front ++ x ∷ [])) (suc k) (some (encode_message_cursor r (f x) o)) true
  page_of-split k xs front x y tail n e = rw (sym n, e) (page_of-more front x y tail)
