-- ===== src/Indexer/Retries.antt =====
-- How often the consumer tries to index a document.
use message_management_api.Prelude.{
  refl, ◌⊎◌, false, ℕ, zero, suc, ◌+◌, ◌≤◌, ◌≡◌, inl, inr, arith, Bool-cases, ◌∙◌,
}
use message_management_api.Effects.{Result, ok, err, Exception, Result-cases, handle}
use message_management_api.Runtime.{Runtime}
use message_management_api.Domain.{SearchMessageDocument}
use message_management_api.Publisher.RetryDelay.{calculate_index_retry_delay_ms}
use message_management_api.Indexer.{
  Consumer, is_retryable_elasticsearch_error, index_attempts, index_with_retry,
}

module _ {W : Type 0} (r : Runtime) (c : Consumer W) (calls : W → ℕ)
    (counts : (d : SearchMessageDocument) (w : W)
      → calls (c.message_search.index_message d w).1 ≡ calls w + 1)
    (random_keeps : (w : W) → calls (c.random w).1 ≡ calls w)
    (random_returns : (w : W) → (n : ℕ) × ((c.random w).0 ≡ ok n))
    (delay_keeps : (n : ℕ) (w : W) → calls (c.delay n w).1 ≡ calls w)
    (delay_returns : (n : ℕ) (w : W) → (c.delay n w).0 ≡ ok tt) where
  -- At most `most` calls are made, at least one; the last one succeeds, or throws an error that is
  -- not retryable, or all of them are made.
  abbrev pub Bounded : ℕ → W → Result (Unit {0}) × W → Type 0
  Bounded most w out =
      (calls w + 1 ≤ calls out.1)
      × (calls out.1 ≤ calls w + most)
      × ((out.0 ≡ ok tt)
          ⊎ ((e : Exception) × (out.0 ≡ err e)
              × ((is_retryable_elasticsearch_error e ≡ false) ⊎ (calls out.1 ≡ calls w + most))))

  -- The last call of the further attempts is the last call of all.
  carried :
      (w v : W) (most : ℕ) (out : Result (Unit {0}) × W)
      → calls v ≡ calls w + 1
      → (out.0 ≡ ok tt)
        ⊎ ((e : Exception) × (out.0 ≡ err e)
            × ((is_retryable_elasticsearch_error e ≡ false) ⊎ (calls out.1 ≡ calls v + most)))
      → (out.0 ≡ ok tt)
        ⊎ ((e : Exception) × (out.0 ≡ err e)
            × ((is_retryable_elasticsearch_error e ≡ false) ⊎ (calls out.1 ≡ calls w + suc most)))
  carried w v most out h (inl done) = inl done
  carried w v most out h (inr (e, thrown, inl final)) = inr (e, thrown, inl final)
  carried w v most out h (inr (e, thrown, inr all)) = inr (e, thrown, inr (omega (arith, h, all)))

  index_attempts-Bounded :
      (left attempt : ℕ) (d : SearchMessageDocument) (w : W)
      → Bounded (suc left) w (index_attempts r c left attempt d w)
  unfolding index_attempts
  index_attempts-Bounded zero attempt d w =
      elim (Result-cases (c.message_search.index_message d w).0) [
        | inl (done, e) ↦ rw e (omega (arith, counts d w), omega (arith, counts d w), inl refl)
        | inr (x, e) ↦
            rw (e, handle)
              (
                omega (arith, counts d w),
                omega (arith, counts d w),
                inr (x, refl, inr (counts d w)),
              )
      ]
  index_attempts-Bounded (suc left) attempt d w =
      elim (Result-cases (c.message_search.index_message d w).0) [
        | inl (done, e) ↦ rw e (omega (arith, counts d w), omega (arith, counts d w), inl refl)
        | inr (x, e) ↦ elim (Bool-cases (is_retryable_elasticsearch_error x)) [
          | inr final ↦
              rw (e, handle, final)
                (omega (arith, counts d w), omega (arith, counts d w), inr (x, refl, inl final))
          | inl again ↦
              let w' = (c.message_search.index_message d w).1 in
              let (n, drawn) = random_returns w' in
              let ms = calculate_index_retry_delay_ms attempt n in
              let v = (c.delay ms (c.random w').1).1 in
              let (least, most, last) = index_attempts-Bounded left (attempt + 1) d v in
              let before : calls v ≡ calls w + 1 =
                delay_keeps ms (c.random w').1 ∙ random_keeps w' ∙ counts d w in
              rw (e, handle, again, drawn, delay_returns ms (c.random w').1)
                (omega arith, omega arith, carried w v (suc left) _ before last)
        ]
      ]

  -- However the calls end, a document is sent to the index at least once and at most five times;
  -- and if the indexing is given up with an error that may pass, it was five times. Neither the
  -- random numbers nor the waiting throw or send documents.
  pub index_with_retry-Bounded :
      (d : SearchMessageDocument) (w : W) → Bounded 5 w (index_with_retry r c d w)
  unfolding index_with_retry
  index_with_retry-Bounded d w = index_attempts-Bounded 4 1 d w
