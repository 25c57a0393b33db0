-- ===== src/Outbox/Runs.antt =====
-- Computations that change the shared documents only by actions of a certain kind.
use message_management_api.Prelude.{
  ◌≡◌, refl, sym, ◌∙◌, ap, inl, inr, Bool, true, false, List, [], ◌∷◌, ◌++◌, All, if◌then◌else◌,
}
use message_management_api.Effects.{Io, ok, err, Exception, Result-cases, ◌>>=◌, try_catch, act}
use message_management_api.Runtime.{Runtime}
use message_management_api.Persistence.Collection.{Does}
use message_management_api.Persistence.Schemas.{OutboxEventEntity}
use message_management_api.Outbox.{Action, apply, run}

run-append :
    (r : Runtime) (xs ys : List Action) (ds : List OutboxEventEntity)
    → run r (xs ++ ys) ds ≡ run r ys (run r xs ds)
unfolding run
run-append r [] ys ds = refl
run-append r (x ∷ xs) ys ds = run-append r xs ys (apply r x ds)

All-append : (P : Action → Type 0) (xs ys : List Action) → All P xs → All P ys → All P (xs ++ ys)
All-append P [] ys h k = k
All-append P (x ∷ xs) ys (h, hs) k = (h, All-append P xs ys hs k)

module _ {W : Type 0} (r : Runtime) (docs : W → List OutboxEventEntity)
    (Allowed : Action → Type 0) where
  -- The documents after `m` are those after a list of allowed actions.
  abbrev pub Runs : {A : Type 0} → Io W A → W → Type 0
  Runs m w = (as' : List Action) × All Allowed as' × (docs (m w).1 ≡ run r as' (docs w))

  pub Runs-none : {A : Type 0} (m : Io W A) (w : W) → docs (m w).1 ≡ docs w → Runs m w
  unfolding run
  Runs-none m w h = ([], tt, h)

  pub Runs-act : (f : W → W) (w : W) → docs (f w) ≡ docs w → Runs (act f) w
  Runs-act f w h = Runs-none (act f) w h

  pub Runs-one :
      {A : Type 0} (m : Io W A) (w : W) (a : Action) {result : A}
      → Allowed a
      → Does docs m w result (apply r a (docs w))
      → Runs m w
  unfolding run
  Runs-one m w a h (inl (answered, done)) = (a ∷ [], (h, tt), done)
  Runs-one m w a h (inr (e, thrown, inl done)) = (a ∷ [], (h, tt), done)
  Runs-one m w a h (inr (e, thrown, inr left)) = ([], tt, left)

  join :
      {A B : Type 0} (m : Io W A) (n : Io W B) (w v : W)
      → Runs m w
      → docs v ≡ docs (m w).1
      → Runs n v
      → (as' : List Action) × All Allowed as' × (docs (n v).1 ≡ run r as' (docs w))
  join m n w v (xs, hx, ex) same (ys, hy, ey) = (
    xs ++ ys,
    All-append Allowed xs ys hx hy,
    ey ∙ ap (run r ys) (same ∙ ex) ∙ sym (run-append r xs ys (docs w)),
  )

  pub Runs-bind :
      {A B : Type 0} (m : Io W A) (f : A → Io W B) (w : W)
      → Runs m w
      → ((a : A) → (m w).0 ≡ ok a → Runs (f a) (m w).1)
      → Runs (m >>= f) w
  Runs-bind m f w h k = elim (Result-cases (m w).0) [
    | inl (a, answered) ↦ rw answered (join m (f a) w (m w).1 h refl (k a answered))
    | inr (e, thrown) ↦ rw thrown h
  ]

  pub Runs-try :
      {A : Type 0} (m : Io W A) (h : Exception → Io W A) (w : W)
      → Runs m w
      → ((e : Exception) → (m w).0 ≡ err e → Runs (h e) (m w).1)
      → Runs (try_catch m h) w
  Runs-try m h w run_m run_h = elim (Result-cases (m w).0) [
    | inl (a, answered) ↦ rw answered run_m
    | inr (e, thrown) ↦ rw thrown (join m (h e) w (m w).1 run_m refl (run_h e thrown))
  ]

  pub Runs-if :
      {A : Type 0} (b : Bool) (m n : Io W A) (w : W)
      → (b ≡ true → Runs m w)
      → (b ≡ false → Runs n w)
      → Runs (if b then m else n) w
  Runs-if true m n w h k = h refl
  Runs-if false m n w h k = k refl

All-weaken :
    (P Q : Action → Type 0) (as' : List Action) → ((a : Action) → P a → Q a) → All P as' → All Q as'
All-weaken P Q [] f h = tt
All-weaken P Q (a ∷ as') f (h, hs) = (f a h, All-weaken P Q as' f hs)

pub Runs-weaken :
    {W A : Type 0} (r : Runtime) (docs : W → List OutboxEventEntity) (P Q : Action → Type 0)
    (m : Io W A) (w : W)
    → ((a : Action) → P a → Q a)
    → Runs r docs P m w
    → Runs r docs Q m w
Runs-weaken r docs P Q m w f (as', h, e) = (as', All-weaken P Q as' f h, e)
