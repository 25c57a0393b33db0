-- ===== src/Cli/OutboxMaintenance/Selection.antt =====
-- Which documents a redrive of failed outbox events names and resets, and what it does to them:
-- `buildFailedSelectionFilter` and `redriveFailed` of apps/cli/src/services/outbox-maintenance.service.ts.
use message_management_api.Prelude.{
  ℕ, ◌≡◌, refl, subst, ap, ◌∙◌, length-map, ◌&&◌, ◌||◌, Bool, true, String, none, List, [], ◌∷◌,
  length, map, filter, any, ◌==◌, str_eq, contains_text, if◌then◌else◌, arith, All,
}
use message_management_api.Effects.{ok}
use message_management_api.Runtime.{Runtime}
use message_management_api.Persistence.Collection.{IsModel, Does}
use message_management_api.Persistence.Collection.Updates.{
  sort_by, limited, update_all, filter-All, sort_by-All, limited-All,
}
use message_management_api.Persistence.Schemas.{OutboxEventEntity}
use message_management_api.Persistence.OutboxRepository.{OutboxModel, has_status}
use message_management_api.Domain.{failed, pending}
use message_management_api.Cli.OutboxMaintenance.{
  RedriveFailedOutboxInput, summary_of, contains_id, object_ids, selected_by, selection,
  build_failed_selection_filter, failed_before, still_failed, redrive_update, redrive_failed,
}
use message_management_api.Cli.OutboxMaintenance.Redrive.{redrive_by-Does}

-- A command names a document by its id or by its event's, and all documents if it gives neither.
abbrev pub is_named : Runtime → List String → List String → OutboxEventEntity → Bool
is_named r ids event_ids d =
    (length ids == 0 && length event_ids == 0)
    || any (λ id. r.object_id id == d._id) ids
    || any (λ event_id. str_eq d.event_id event_id) event_ids

-- The named documents that failed, the earliest by their next attempt and no more than the limit.
abbrev pub chosen :
    Runtime → RedriveFailedOutboxInput → List OutboxEventEntity → List OutboxEventEntity
chosen r input ds = limited input.limit (
    filter (λ d. is_named r input.ids input.event_ids d && has_status failed d)
      (sort_by failed_before ds))

abbrev pub is_chosen : List OutboxEventEntity → OutboxEventEntity → Bool
is_chosen cs d = any (λ c. c._id == d._id) cs && has_status failed d

abbrev pub reset : ℕ → OutboxEventEntity → OutboxEventEntity
reset now d = record d {
  attempts = 0;
  next_attempt_at = now;
  status = pending;
  last_error = none;
  locked_at = none;
  locked_by = none;
  published_at = none;
}

-- `new Types.ObjectId(text)` reads back what `toString` wrote.
abbrev pub KeepsId : Runtime → OutboxEventEntity → Type 0
KeepsId r d = r.object_id (r.object_id_text d._id) ≡ d._id

module _ (r : Runtime) where
  object_ids-valid :
      (ids : List String)
      → All (λ id. r.object_id_is_valid id ≡ true) ids
      → object_ids r ids ≡ ok (map r.object_id ids)
  unfolding object_ids
  object_ids-valid [] h = refl
  object_ids-valid (id ∷ ids) (h, hs) = rw (h, object_ids-valid ids hs) refl

  contains_id-any :
      (ids : List String) (i : ℕ)
      → contains_id i (map r.object_id ids) ≡ any (λ id. r.object_id id == i) ids
  contains_id-any [] i = refl
  contains_id-any (id ∷ ids) i = ground (arith, contains_id-any ids i)

  contains_text-any :
      (ts : List String) (s : String) → contains_text s ts ≡ any (λ t. str_eq s t) ts
  contains_text-any [] s = refl
  contains_text-any (t ∷ ts) s = ground (arith, contains_text-any ts s)

  selected_by-is_named :
      (ids event_ids : List String) (d : OutboxEventEntity)
      → selected_by (map r.object_id ids) event_ids d ≡ is_named r ids event_ids d
  selected_by-is_named [] [] d = ground arith
  selected_by-is_named (i ∷ is) [] d = ground (arith, contains_id-any (i ∷ is) d._id)
  selected_by-is_named [] (e ∷ es) d = ground (arith, contains_text-any (e ∷ es) d.event_id)
  selected_by-is_named (i ∷ is) (e ∷ es) d =
      ground (arith, contains_id-any (i ∷ is) d._id, contains_text-any (e ∷ es) d.event_id)

  contains_id-chosen :
      (cs : List OutboxEventEntity) (i : ℕ)
      → All (KeepsId r) cs
      → contains_id i (map (λ e. r.object_id e.id) (map (summary_of r) cs))
        ≡ any (λ c. c._id == i) cs
  unfolding summary_of
  contains_id-chosen [] i h = refl
  contains_id-chosen (c ∷ cs) i (h, hs) = rw h (ground (arith, contains_id-chosen cs i hs))

module _ {W : Type 0} (r : Runtime) (model : OutboxModel W) (docs : W → List OutboxEventEntity)
    (laws : IsModel model docs) where
  -- A redrive that reports n documents, of the chosen ones, and resets those that pass a test.
  abbrev Redriven : RedriveFailedOutboxInput → W → ℕ → (OutboxEventEntity → Bool) → Type 0
  Redriven input w n p =
      let idle = n == 0 || input.dry_run in
      Does docs (redrive_failed r model input) w
        (record {
          matched_count = n;
          modified_count = if idle then 0 else length (filter p (docs w));
          events = map (summary_of r) (chosen r input (docs w));
        })
        (if idle then docs w else update_all p (reset input.now) (docs w))

  -- A redrive, of valid ids, chooses the failed documents that its ids and event ids name, all failed
  -- ones when it gives none: the earliest by their next attempt, and no more than the limit, of which 0
  -- is none. It reports them. In a dry run, or when it chose none, it writes nothing; else it resets
  -- exactly the chosen ones that are still failed to pending, without attempts, error, lock or
  -- publication, and reports their number. A call that throws has done so or nothing. The model
  -- behaves as documented, and the text of an ObjectId is read back as its id.
  pub redrive_failed-Does :
      (input : RedriveFailedOutboxInput) (w : W)
      → All (λ id. r.object_id_is_valid id ≡ true) input.ids
      → All (KeepsId r) (docs w)
      → let cs = chosen r input (docs w) in
        let idle = length cs == 0 || input.dry_run in
        Does docs
          (redrive_failed r model input)
          w
          (record {
            matched_count = length cs;
            modified_count = if idle then 0 else length (filter (is_chosen cs) (docs w));
            events = map (summary_of r) cs;
          })
          (if idle then docs w else update_all (is_chosen cs) (reset input.now) (docs w))
  unfolding redrive_update build_failed_selection_filter
  redrive_failed-Does input w valid kept =
      let named = is_named r input.ids input.event_ids in
      let cs = chosen r input (docs w) in
      let filtered : build_failed_selection_filter r input ≡ ok named =
        ap (selection input.event_ids) (object_ids-valid r input.ids valid)
        ∙ ap ok (λ i d. selected_by-is_named r input.ids input.event_ids d i) in
      let cs-kept = limited-All (KeepsId r) input.limit _ (
        filter-All (KeepsId r) (λ d. named d && has_status failed d) _
          (sort_by-All (KeepsId r) failed_before (docs w) kept)) in
      let same : still_failed r (map (summary_of r) cs) ≡ is_chosen cs =
        λ i d. contains_id-chosen r cs d._id cs-kept i && has_status failed d in
      subst (λ n. Redriven input w n (is_chosen cs)) (length-map (summary_of r) cs)
        (subst (Redriven input w (length (map (summary_of r) cs))) same
          (redrive_by-Does r model docs laws input named w filtered))
