-- ===== src/Cli/OutboxMaintenance/Redrive.antt =====
-- What a redrive of failed outbox events does to the collection.
use message_management_api.Prelude.{
  ℕ, ◌≡◌, ◌≢◌, refl, sym, ap, ◌∙◌, inl, inr, ◌&&◌, ◌||◌, Bool, true, false, List, length, map,
  filter, ◌==◌, if◌then◌else◌, Bool-cases, arith, Option,
}
use message_management_api.Effects.{Io, pure, ◌>>=◌, ok}
use message_management_api.Runtime.{Runtime}
use message_management_api.Persistence.Collection.{IsModel, Does}
use message_management_api.Persistence.Collection.Updates.{sort_by, limited, update_all}
use message_management_api.Persistence.Schemas.{OutboxEventEntity}
use message_management_api.Persistence.OutboxRepository.{OutboxModel, has_status}
use message_management_api.Domain.{failed}
use message_management_api.Cli.OutboxMaintenance.{
  RedriveFailedOutboxInput, RedriveFailedOutboxResult, OutboxFailedEventSummary, summary_of,
  failed_before, still_failed, redrive_update, redrive_failed, apply_redrive, find_failed_events,
  build_failed_selection_filter,
}

-- The failed documents that a selection finds: the earliest by their next attempt, and no more than
-- the limit.
abbrev pub selected :
    Runtime
    → (OutboxEventEntity → Bool)
    → Option ℕ
    → List OutboxEventEntity
    → List OutboxFailedEventSummary
selected r p limit ds =
    map (summary_of r)
      (limited limit (filter (λ d. p d && has_status failed d) (sort_by failed_before ds)))

-- A read, and what is done with its answer.
Does-read :
    {W A B D : Type 0} (docs : W → List D) (m : Io W A) (f : A → Io W B) (w : W) (a : A) {b : B}
    {after : List D}
    → Does docs m w a (docs w)
    → ((w' : W) → docs w' ≡ docs w → Does docs (f a) w' b after)
    → Does docs (m >>= f) w b after
Does-read docs m f w a (inl (answered, kept)) next = rw answered (elim (next (m w).1 kept) [
  | inl (done, changed) ↦ inl (done, changed)
  | inr (e, thrown, inl changed) ↦ inr (e, thrown, inl changed)
  | inr (e, thrown, inr same) ↦ inr (e, thrown, inr (same ∙ kept))
])
Does-read docs m f w a (inr (e, thrown, inl kept)) next = rw thrown (inr (e, refl, inr kept))
Does-read docs m f w a (inr (e, thrown, inr kept)) next = rw thrown (inr (e, refl, inr kept))

module _ {W : Type 0} (r : Runtime) (model : OutboxModel W) (docs : W → List OutboxEventEntity)
    (laws : IsModel model docs) where
  find_failed_events-Does :
      (p : OutboxEventEntity → Bool) (limit : Option ℕ) (w : W)
      → Does docs (find_failed_events r model p limit) w (selected r p limit (docs w)) (docs w)
  unfolding find_failed_events
  find_failed_events-Does p limit w =
      elim (laws.find (λ d. p d && has_status failed d) failed_before limit w) [
        | inl (answered, kept) ↦ rw answered (inl (refl, kept))
        | inr (e, thrown, left) ↦ rw thrown (inr (e, refl, left))
      ]

  changes :
      (events : List OutboxFailedEventSummary) (now : ℕ) (d : OutboxEventEntity)
      → still_failed r events d ≡ true
      → redrive_update now d ≢ d
  unfolding redrive_update
  changes events now d h e =
      let left : false ≡ has_status failed d = ap (has_status failed) e in ground (arith, left, h)

  apply_redrive-Does :
      (input : RedriveFailedOutboxInput) (events : List OutboxFailedEventSummary) (w : W)
      → Does docs
          (apply_redrive r model input events)
          w
          (record {
            matched_count = length events;
            modified_count = length (filter (still_failed r events) (docs w));
            events = events;
          })
          (update_all (still_failed r events) (redrive_update input.now) (docs w))
  unfolding apply_redrive
  apply_redrive-Does input events w =
      elim (laws.update_many (still_failed r events) (redrive_update input.now) w
        (changes events input.now)) [
          | inl (answered, updated) ↦ rw answered (inl (refl, updated))
          | inr (e, thrown, left) ↦ rw thrown (inr (e, refl, left))
        ]

  abbrev write_selected :
      RedriveFailedOutboxInput → List OutboxFailedEventSummary → Io W RedriveFailedOutboxResult
  write_selected input events =
      if length events == 0 || input.dry_run
      then pure (record { matched_count = length events; modified_count = 0; events = events })
      else apply_redrive r model input events

  written :
      (input : RedriveFailedOutboxInput) (w : W) (events : List OutboxFailedEventSummary) (w' : W)
      → docs w' ≡ docs w
      → Does docs
          (write_selected input events)
          w'
          (record {
            matched_count = length events;
            modified_count =
                if length events == 0 || input.dry_run
                then 0
                else length (filter (still_failed r events) (docs w));
            events = events;
          })
          (if length events == 0 || input.dry_run
            then docs w
            else update_all (still_failed r events) (redrive_update input.now) (docs w))
  written input w events w' e = elim (Bool-cases (length events == 0 || input.dry_run)) [
    | inl idle ↦ rw idle (inl (refl, e))
    | inr busy ↦ rw (busy, sym e) (apply_redrive-Does input events w')
  ]

  pub redrive_by-Does :
      (input : RedriveFailedOutboxInput) (p : OutboxEventEntity → Bool) (w : W)
      → build_failed_selection_filter r input ≡ ok p
      → let events = selected r p input.limit (docs w) in
        let idle = length events == 0 || input.dry_run in
        Does docs
          (redrive_failed r model input)
          w
          (record {
            matched_count = length events;
            modified_count = if idle then 0 else length (filter (still_failed r events) (docs w));
            events = events;
          })
          (if idle
            then docs w
            else update_all (still_failed r events) (redrive_update input.now) (docs w))
  unfolding redrive_failed
  redrive_by-Does input p w h = rw h (
      Does-read docs (find_failed_events r model p input.limit) (write_selected input) w
        (selected r p input.limit (docs w)) (find_failed_events-Does p input.limit w)
        (written input w (selected r p input.limit (docs w))))
