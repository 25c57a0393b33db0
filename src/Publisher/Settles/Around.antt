-- ===== src/Publisher/Settles/Around.antt =====
-- One document among settled ones: what the calls of the outbox repository find and write there.
use message_management_api.Prelude.{
  String, ◌≡◌, refl, ap, ◌⊎◌, inl, inr, Bool, true, false, none, some, List, [], ◌∷◌, ◌++◌, any,
  All, arith,
}
use message_management_api.Runtime.{Runtime}
use message_management_api.Domain.{published, failed, ClaimPublishableOutboxEventsInput}
use message_management_api.Persistence.Collection.Updates.{first, update_first}
use message_management_api.Persistence.Schemas.{OutboxEventEntity}
use message_management_api.Persistence.OutboxRepository.{is_claimable, lock_owner_filter}

module _ {D : Type 0} (p : D → Bool) (f : D → D) (d : D) (rest : List D) where
  pub update_first-around :
      (front : List D)
      → All (λ e. p e ≡ false) front
      → p d ≡ true
      → update_first p f (front ++ d ∷ rest) ≡ front ++ f d ∷ rest
  update_first-around [] h hit = rw hit refl
  update_first-around (e ∷ front) (h, hs) hit = rw h (ap (◌∷◌ e) (update_first-around front hs hit))

  pub first-around :
      (front : List D)
      → All (λ e. p e ≡ false) front
      → p d ≡ true
      → first p f (front ++ d ∷ rest) ≡ some (f d)
  first-around [] h hit = rw hit refl
  first-around (e ∷ front) (h, hs) hit = rw h (first-around front hs hit)

  pub any-around : (front : List D) → p d ≡ true → any p (front ++ d ∷ rest) ≡ true
  any-around [] hit = rw hit refl
  any-around (e ∷ front) hit = ground (arith, any-around front hit)

  pub first-around_none :
      (front : List D)
      → All (λ e. p e ≡ false) front
      → p d ≡ false
      → first p f rest ≡ none
      → first p f (front ++ d ∷ rest) ≡ none
  first-around_none [] h miss later = rw miss later
  first-around_none (e ∷ front) (h, hs) miss later = rw h (first-around_none front hs miss later)

pub first-none_of :
    {D : Type 0} (p : D → Bool) (f : D → D) (ds : List D)
    → All (λ e. p e ≡ false) ds
    → first p f ds ≡ none
first-none_of p f [] h = refl
first-none_of p f (d ∷ ds) (h, hs) = rw h (first-none_of p f ds hs)

-- A document with which the outbox is done.
abbrev pub IsSettled : OutboxEventEntity → Type 0
IsSettled d = (d.status ≡ published) ⊎ (d.status ≡ failed)

not_claimable :
    (input : ClaimPublishableOutboxEventsInput) (d : OutboxEventEntity)
    → IsSettled d
    → is_claimable input d ≡ false
unfolding is_claimable
not_claimable input d (inl e) = ground arith
not_claimable input d (inr e) = ground arith

not_owned :
    (r : Runtime) (id owner : String) (d : OutboxEventEntity)
    → IsSettled d
    → lock_owner_filter r id owner d ≡ false
unfolding lock_owner_filter
not_owned r id owner d (inl e) = ground arith
not_owned r id owner d (inr e) = ground arith

pub settled-not_claimable :
    (input : ClaimPublishableOutboxEventsInput) (ds : List OutboxEventEntity)
    → All IsSettled ds
    → All (λ d. is_claimable input d ≡ false) ds
settled-not_claimable input [] h = tt
settled-not_claimable input (d ∷ ds) (h, hs) =
    (not_claimable input d h, settled-not_claimable input ds hs)

pub settled-not_owned :
    (r : Runtime) (id owner : String) (ds : List OutboxEventEntity)
    → All IsSettled ds
    → All (λ d. lock_owner_filter r id owner d ≡ false) ds
settled-not_owned r id owner [] h = tt
settled-not_owned r id owner (d ∷ ds) (h, hs) =
    (not_owned r id owner d h, settled-not_owned r id owner ds hs)
