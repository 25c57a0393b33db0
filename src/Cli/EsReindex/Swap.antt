-- ===== src/Cli/EsReindex/Swap.antt =====
-- When a reindexing swaps the aliases. The cluster is a parameter, with what Elasticsearch documents
-- of the calls as `IsClient`.
use message_management_api.Prelude.{
  ℕ, ◌≡◌, refl, ◌∙◌, ap, subst, ◌⊎◌, inl, inr, String, Bool, true, false, not, List, [], ◌∷◌,
  contains_text, length, ◌==◌, Bool-cases, some, arith, if◌then◌else◌,
}
use message_management_api.Effects.{
  Io, Result, ok, err, Exception, Result-cases, ◌>>=◌, pure, ok_injective,
}
use message_management_api.Runtime.{Runtime}
use message_management_api.Application.ListMessages.{lift}
use message_management_api.Persistence.Collection.{Does}
use message_management_api.Search.EsMessageSearch.{messages_read_alias, messages_write_alias}
use message_management_api.Search.IndexManager.{AliasAction}
use message_management_api.Cli.EsReindex.{
  EsClient, EsReindexInput, EsReindexResult, is_elasticsearch_not_found, build_alias_swap_actions,
  get_alias_indices, require, apply_reindex, reindex,
}
use message_management_api.Cli.EsReindex.Versions.{normalize_target_index}
use message_management_api.Cli.EsReindex.Aliases.{
  AliasTable, apply_actions, indices_of, without, without_nil, without_covering, swapped-PointsTo,
}

-- Only the call for it changes the aliases, all at once; an alias is looked up, or the call throws,
-- with status 404 only if nothing has that alias.
pub record IsClient {W : Type 0} (client : EsClient W) (table : W → AliasTable) : Type 0 where
  pub get_alias :
      (alias : String) (w : W)
      → ((client.get_alias alias w).0 ≡ ok (indices_of alias (table w)))
        ⊎ ((e : Exception) × ((client.get_alias alias w).0 ≡ err e)
            × ((is_elasticsearch_not_found e ≡ false) ⊎ (indices_of alias (table w) ≡ [])))
  pub get_alias_same : (alias : String) (w : W) → table (client.get_alias alias w).1 ≡ table w
  pub count_same : (index : String) (w : W) → table (client.count index w).1 ≡ table w
  pub exists_same : (index : String) (w : W) → table (client.exists index w).1 ≡ table w
  pub create_same : (index : String) (w : W) → table (client.create index w).1 ≡ table w
  pub reindex_same : (a b : String) (w : W) → table (client.reindex a b w).1 ≡ table w
  pub update_aliases :
      (actions : List AliasAction) (w : W)
      → Does table (client.update_aliases actions) w tt (apply_actions actions (table w))

-- What is known when the aliases are swapped, where `u` is the state in which the documents of the
-- read alias were counted: there are `n` of them, the target did not exist, the copy reported no
-- failure, and the target then holds `n` documents as well.
pub record IsVerified {W : Type 0} (client : EsClient W) (u : W) (target : String) (n : ℕ)
    : Type 0 where
  pub counted : (client.count messages_read_alias u).0 ≡ ok n
  pub absent : (client.exists target (client.count messages_read_alias u).1).0 ≡ ok false
  pub copied :
      let created =
        (client.create target (client.exists target (client.count messages_read_alias u).1).1).1 in
      (client.reindex messages_read_alias target created).0 ≡ ok 0
  pub complete :
      let created =
        (client.create target (client.exists target (client.count messages_read_alias u).1).1).1 in
      (client.count target (client.reindex messages_read_alias target created).1).0 ≡ ok n

-- A result that tells of no swap; a result that tells of the swap. An error tells nothing.
abbrev pub TellsNone : Result EsReindexResult → Type 0
TellsNone (ok result) = result.aliases_swapped ≡ false
TellsNone (err e) = Unit

abbrev pub Tells : String → ℕ → Result EsReindexResult → Type 0
Tells target n (ok result) =
    (result.aliases_swapped ≡ true)
    × (result.target_index ≡ target)
    × (result.source_count ≡ n)
    × (result.target_count ≡ some n)
Tells target n (err e) = Unit

-- The state in which the two aliases have been looked up.
abbrev pub looked_up : {W : Type 0} → Runtime → EsClient W → W → W
looked_up r client w =
    (get_alias_indices r client messages_write_alias
      (get_alias_indices r client messages_read_alias w).1).1

module _ {W : Type 0} (r : Runtime) (client : EsClient W) (table : W → AliasTable)
    (input : EsReindexInput) (w : W) where
  -- Either the aliases are as they were and none is told to be swapped, or it was no dry run, the
  -- copy was verified, and both aliases point at the target and at nothing else.
  abbrev pub IsOutcome : Result EsReindexResult × W → Type 0
  IsOutcome out =
      ((table out.1 ≡ table w) × TellsNone out.0)
      ⊎ ((target : String) × (n : ℕ) × (input.dry_run ≡ false)
          × IsVerified client (looked_up r client w) target n
          × (indices_of messages_read_alias (table out.1) ≡ target ∷ [])
          × (indices_of messages_write_alias (table out.1) ≡ target ∷ [])
          × Tells target n out.0)

  step :
      {A : Type 0} (m : Io W A) (f : A → Io W EsReindexResult) (v : W)
      → table (m v).1 ≡ table w
      → ((a : A) → (m v).0 ≡ ok a → IsOutcome (f a (m v).1))
      → IsOutcome ((m >>= f) v)
  step m f v same k = elim (Result-cases (m v).0) [
    | inl (a, answered) ↦ rw answered (k a answered)
    | inr (e, thrown) ↦ rw thrown (inl (same, tt))
  ]

  step-require :
      (test : Bool) (text : String) (f : Unit {0} → Io W EsReindexResult) (v : W)
      → table v ≡ table w
      → (test ≡ true → IsOutcome (f tt v))
      → IsOutcome ((require r client test text >>= f) v)
  step-require true text f v same k = k refl
  step-require false text f v same k = inl (same, tt)

  branch :
      (test : Bool) (m n : Io W EsReindexResult) (v : W)
      → (test ≡ true → IsOutcome (m v))
      → (test ≡ false → IsOutcome (n v))
      → IsOutcome ((if test then m else n) v)
  branch true m n v h k = h refl
  branch false m n v h k = k refl

module _ {W : Type 0} (r : Runtime) (client : EsClient W) (table : W → AliasTable)
    (laws : IsClient client table)
    (sorts : (texts : List String) (x : String)
      → contains_text x texts ≡ true
      → contains_text x (r.sort_texts texts) ≡ true) where
  get_alias_indices_same :
      (alias : String) (v : W) → table (get_alias_indices r client alias v).1 ≡ table v
  unfolding get_alias_indices
  get_alias_indices_same alias v = elim (Result-cases (client.get_alias alias v).0) [
    | inl (indices, answered) ↦ rw answered (laws.get_alias_same alias v)
    | inr (e, thrown) ↦ rw thrown (elim (Bool-cases (is_elasticsearch_not_found e)) [
      | inl absent ↦ rw absent (laws.get_alias_same alias v)
      | inr other ↦ rw other (laws.get_alias_same alias v)
    ])
  ]

  -- What the look-up answers is all that the alias points at.
  get_alias_indices-covers :
      (alias : String) (v : W) (indices : List String)
      → (get_alias_indices r client alias v).0 ≡ ok indices
      → without indices (indices_of alias (table v)) ≡ []
  unfolding get_alias_indices
  get_alias_indices-covers alias v indices h = elim (laws.get_alias alias v) [
    | inl answered ↦
        let found = indices_of alias (table v) in
        subst (λ is. without is found ≡ []) (ok_injective (rw (answered) at h))
          (without_covering (r.sort_texts found) found (sorts found))
    | inr (e, thrown, inl other) ↦ cc (rw (thrown, other) at h)
    | inr (e, thrown, inr none_found) ↦ rw none_found (without_nil indices)
  ]

  module _ (input : EsReindexInput) (w : W) (applies : input.dry_run ≡ false) where
    abbrev Holds : {A : Type 0} → (A → Io W EsReindexResult) → A → W → Type 0
    Holds f a v = IsOutcome r client table input w (f a v)

    -- The call that swaps the aliases, and the answer after it.
    swap-IsOutcome :
        (sources writes : List String) (target : String) (n : ℕ) (v : W)
        → table v ≡ table w
        → without sources (indices_of messages_read_alias (table w)) ≡ []
        → without writes (indices_of messages_write_alias (table w)) ≡ []
        → IsVerified client (looked_up r client w) target n
        → (result : EsReindexResult) → Tells target n (ok result)
        → IsOutcome r client table input w (
            (client.update_aliases (build_alias_swap_actions sources writes target) >>= λ _.
            pure result)
              v)
    swap-IsOutcome sources writes target n v same read_all write_all verified result tells =
        let actions = build_alias_swap_actions sources writes target in
        let points = swapped-PointsTo sources writes (table w) target read_all write_all in
        let carried_out : apply_actions actions (table v) ≡ apply_actions actions (table w) =
          ap (apply_actions actions) same in
        elim (laws.update_aliases actions v) [
          | inl (answered, done) ↦ rw answered (
              inr (
                target,
                n,
                applies,
                verified,
                rw (done, carried_out) points.0,
                rw (done, carried_out) points.1,
                tells,
              ))
          | inr (e, thrown, inl done) ↦ rw thrown (
              inr (
                target,
                n,
                applies,
                verified,
                rw (done, carried_out) points.0,
                rw (done, carried_out) points.1,
                tt,
              ))
          | inr (e, thrown, inr left) ↦ rw thrown (inl (left ∙ same, tt))
        ]

    apply_reindex-IsOutcome :
        (sources writes : List String) (target : String) (n : ℕ) (found : Bool)
        → let u = looked_up r client w in
          let v = (client.exists target (client.count messages_read_alias u).1).1 in
          table v ≡ table w
          → without sources (indices_of messages_read_alias (table w)) ≡ []
          → without writes (indices_of messages_write_alias (table w)) ≡ []
          → (client.count messages_read_alias u).0 ≡ ok n
          → (client.exists target (client.count messages_read_alias u).1).0 ≡ ok found
          → IsOutcome r client table input w
              (apply_reindex r client sources writes target n found v)
    unfolding apply_reindex
    apply_reindex-IsOutcome sources writes target n found same read_all write_all counted looked =
        let u = looked_up r client w in
        let v = (client.exists target (client.count messages_read_alias u).1).1 in
        let v₁ = (client.create target v).1 in
        let v₂ = (client.reindex messages_read_alias target v₁).1 in
        let v₃ = (client.count target v₂).1 in
        let same₁ = laws.create_same target v ∙ same in
        let same₂ = laws.reindex_same messages_read_alias target v₁ ∙ same₁ in
        let same₃ = laws.count_same target v₂ ∙ same₂ in
        step-require r client table input w (not found) _ _ v same (λ new.
          step r client table input w (client.create target) _ v same₁ (λ created _.
            step r client table input w (client.reindex messages_read_alias target) _ v₁ same₂
              (λ failures copied.
                step-require r client table input w (failures == 0) _ _ v₂ same₂ (λ none_failed.
                  step r client table input w (client.count target) _ v₂ same₃ (λ m complete.
                    step-require r client table input w (m == n) _ _ v₃ same₃ (λ equal.
                      let all_copied : m ≡ n = ground arith in
                      swap-IsOutcome sources writes target n v₃ same₃ read_all write_all
                        (record {
                          counted = counted;
                          absent = looked ∙ ap ok (ground arith);
                          copied = copied ∙ ap ok (ground arith);
                          complete = complete ∙ ap ok all_copied;
                        })
                        _ (refl, refl, refl, ap some all_copied)))))))

  -- A reindexing, of which no call but the one for it changes the aliases, either leaves the aliases
  -- as they were and tells of no swap, or it was no dry run, the target did not exist, the copy
  -- reported no failure, source and target held equally many documents, and then both aliases point
  -- at the target and at nothing else, which a result tells truly. An error can come with either:
  -- the call that swaps may throw after it was carried out. The sorting of texts drops none.
  pub reindex-IsOutcome :
      (input : EsReindexInput) (w : W) → IsOutcome r client table input w (reindex r client input w)
  unfolding reindex
  reindex-IsOutcome input w =
      let find = get_alias_indices r client in
      let v₁ = (find messages_read_alias w).1 in
      let u = looked_up r client w in
      let counted_at = (client.count messages_read_alias u).1 in
      let same₁ = get_alias_indices_same messages_read_alias w in
      let same₂ = get_alias_indices_same messages_write_alias v₁ ∙ same₁ in
      let same₃ = laws.count_same messages_read_alias u ∙ same₂ in
      step r client table input w (find messages_read_alias) _ w same₁ (λ sources read.
        step r client table input w (find messages_write_alias) _ v₁ same₂ (λ writes written.
          step-require r client table input w (not (length sources == 0)) _ _ u same₂ (λ some_read.
            step r client table input w (lift (normalize_target_index r input.target_index sources))
              _ u same₂
              (λ target named.
                step r client table input w (client.count messages_read_alias) _ u same₃
                  (λ n counted.
                    let same₄ = laws.exists_same target counted_at ∙ same₃ in
                    step r client table input w (client.exists target) _ counted_at same₄
                      (λ found looked.
                        branch r client table input w input.dry_run _ _ _ (λ dry. inl (same₄, refl))
                          (λ applies.
                            apply_reindex-IsOutcome input w applies sources writes target n found
                              same₄ (get_alias_indices-covers messages_read_alias w sources read)
                              (subst (λ t. without writes (indices_of messages_write_alias t) ≡ [])
                                same₁
                                (get_alias_indices-covers messages_write_alias v₁ writes written))
                              counted looked)))))))
