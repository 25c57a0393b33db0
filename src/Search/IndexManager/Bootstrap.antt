-- ===== src/Search/IndexManager/Bootstrap.antt =====
-- What the start of a process leaves in Elasticsearch, also when several start at once.
use message_management_api.Prelude.{
  ◌≡◌, refl, sym, ap, subst, ◌∙◌, String, Bool, true, false, List, [], ◌∷◌, All, inl, inr,
  Bool-cases, str_eq,
}
use message_management_api.Effects.{
  Io, ok, err, Exception, Result-cases, bind-ok, pure, ◌>>=◌, handle,
}
use message_management_api.Search.EsMessageSearch.{
  messages_physical_index, messages_read_alias, messages_write_alias,
}
use message_management_api.Search.IndexManager.{
  AliasAction, remove, add, Indices, is_resource_already_exists_error, missing_alias_actions,
  create_messages_index, ensure_aliases, created_unless, ensure_messages_index, on_module_init,
}

module _ {W : Type 0} (has_index : W → Bool) (has_alias : String → W → Bool) where
  -- From one world to a later one, while other processes may act: nothing is removed.
  abbrev pub Grows : W → W → Type 0
  Grows w w' =
      (has_index w ≡ true → has_index w' ≡ true)
      × ((alias : String) → has_alias alias w ≡ true → has_alias alias w' ≡ true)

  abbrev pub Added : W → AliasAction → Type 0
  Added w (remove alias index) = Unit {0}
  Added w (add alias index write) = has_alias alias w ≡ true

  -- What Elasticsearch documents of the calls, for processes that only ever create.
  pub record IsCluster (indices : Indices W) : Type 0 where
    pub exists :
        (w : W)
        → Grows w (indices.exists messages_physical_index w).1
          × ((indices.exists messages_physical_index w).0 ≡ ok true
              → has_index (indices.exists messages_physical_index w).1 ≡ true)
    pub create :
        (w : W)
        → Grows w (indices.create messages_physical_index w).1
          × ((indices.create messages_physical_index w).0 ≡ ok tt
              → has_index (indices.create messages_physical_index w).1 ≡ true)
    pub conflict :
        (w : W) (e : Exception)
        → (indices.create messages_physical_index w).0 ≡ err e
        → is_resource_already_exists_error e ≡ true
        → has_index (indices.create messages_physical_index w).1 ≡ true
    pub exists_alias :
        (alias : String) (w : W)
        → Grows w (indices.exists_alias alias w).1
          × ((indices.exists_alias alias w).0 ≡ ok true
              → has_alias alias (indices.exists_alias alias w).1 ≡ true)
    pub update_aliases :
        (actions : List AliasAction) (w : W)
        → Grows w (indices.update_aliases actions w).1
          × ((indices.update_aliases actions w).0 ≡ ok tt
              → All (Added (indices.update_aliases actions w).1) actions)

  -- The index and both aliases are there.
  abbrev pub IsReady : W → Type 0
  IsReady w =
      (has_index w ≡ true)
      × (has_alias messages_read_alias w ≡ true)
      × (has_alias messages_write_alias w ≡ true)

  module _ (indices : Indices W) (laws : IsCluster indices) where
    create_messages_index-ok :
        (w : W)
        → (create_messages_index indices w).0 ≡ ok tt
        → has_index (create_messages_index indices w).1 ≡ true
    unfolding create_messages_index
    create_messages_index-ok w h =
        elim (Result-cases (indices.create messages_physical_index w).0) [
          | inl (done, created) ↦ rw (created, handle) ((laws.create w).1 created)
          | inr (e, thrown) ↦ elim (Bool-cases (is_resource_already_exists_error e)) [
            | inl conflict ↦ rw (thrown, handle, conflict) (laws.conflict w e thrown conflict)
            | inr other ↦ cc (rw (thrown, handle, other) at h)
          ]
        ]

    -- The rest of `ensureAliases`, once it is known which alias exists.
    abbrev complete : Bool → Bool → Io W (Unit {0})
    complete read write = elim (missing_alias_actions read write) [
      | [] ↦ pure tt
      | action ∷ actions ↦ indices.update_aliases (action ∷ actions)
    ]

    complete-ok :
        (read write : Bool) (w : W)
        → has_index w ≡ true
        → (read ≡ true → has_alias messages_read_alias w ≡ true)
        → (write ≡ true → has_alias messages_write_alias w ≡ true)
        → (complete read write w).0 ≡ ok tt
        → IsReady (complete read write w).1
    unfolding missing_alias_actions
    complete-ok true true w i h k d = (i, h refl, k refl)
    complete-ok true false w i h k d =
        let (grows, added) =
          laws.update_aliases (add messages_write_alias messages_physical_index true ∷ []) w in
        (grows.0 i, grows.1 messages_read_alias (h refl), (added d).0)
    complete-ok false true w i h k d =
        let (grows, added) =
          laws.update_aliases (add messages_read_alias messages_physical_index false ∷ []) w in
        (grows.0 i, (added d).0, grows.1 messages_write_alias (k refl))
    complete-ok false false w i h k d =
        let (grows, added) =
          laws.update_aliases
            (add messages_read_alias messages_physical_index false
              ∷ add messages_write_alias messages_physical_index true
              ∷ [])
            w in
        (grows.0 i, (added d).0, (added d).1.0)

    ensure_aliases-ok :
        (w : W)
        → has_index w ≡ true
        → (ensure_aliases indices w).0 ≡ ok tt
        → IsReady (ensure_aliases indices w).1
    unfolding ensure_aliases
    ensure_aliases-ok w i h =
        let find_read = indices.exists_alias messages_read_alias in
        let find_write = indices.exists_alias messages_write_alias in
        let w₁ = (find_read w).1 in
        let w₂ = (find_write w₁).1 in
        let (read, found, h₁, at₁) =
          bind-ok find_read (λ read. find_write >>= complete read) w tt h in
        let (write, found', h₂, at₂) = bind-ok find_write (complete read) w₁ tt h₁ in
        let (grows, seen) = laws.exists_alias messages_read_alias w in
        let (grows', seen') = laws.exists_alias messages_write_alias w₁ in
        subst IsReady (sym (at₁ ∙ at₂)) (
          complete-ok read write w₂ (grows'.0 (grows.0 i))
            (λ e. grows'.1 messages_read_alias (seen (found ∙ ap ok e)))
            (λ e. seen' (found' ∙ ap ok e)) h₂)

    created_unless-ok :
        (exists : Bool) (w : W)
        → (exists ≡ true → has_index w ≡ true)
        → (created_unless indices exists w).0 ≡ ok tt
        → has_index (created_unless indices exists w).1 ≡ true
    created_unless-ok true w i h = i refl
    created_unless-ok false w i h = create_messages_index-ok w h

    ensure_messages_index-IsReady :
        (w : W)
        → (ensure_messages_index indices w).0 ≡ ok tt
        → IsReady (ensure_messages_index indices w).1
    unfolding ensure_messages_index
    ensure_messages_index-IsReady w h =
        let look = indices.exists messages_physical_index in
        let w₁ = (look w).1 in
        let (exists, found, h₁, at₁) =
          bind-ok look (λ exists. created_unless indices exists >>= λ _. ensure_aliases indices) w
            tt h in
        let (done, made, h₂, at₂) =
          bind-ok (created_unless indices exists) (λ _. ensure_aliases indices) w₁ tt h₁ in
        subst IsReady (sym (at₁ ∙ at₂)) (
          ensure_aliases-ok (created_unless indices exists w₁).1
            (created_unless-ok exists w₁ (λ e. (laws.exists w).1 (found ∙ ap ok e)) made) h₂)

    -- Outside the API, a process that starts without an error leaves the physical index and both
    -- aliases in place, whatever was there before and although another process may have created any
    -- of them meanwhile. Elasticsearch behaves as documented, and no process removes an index or an
    -- alias meanwhile.
    pub on_module_init-IsReady :
        (runtime : String) (warn : Exception → W → W) (w : W)
        → str_eq runtime "api" ≡ false
        → (on_module_init indices runtime warn w).0 ≡ ok tt
        → IsReady (on_module_init indices runtime warn w).1
    unfolding on_module_init
    on_module_init-IsReady runtime warn w other h =
        elim (Result-cases (ensure_messages_index indices w).0) [
          | inl (done, ready) ↦ rw (ready, handle) (ensure_messages_index-IsReady w ready)
          | inr (e, thrown) ↦ cc (rw (thrown, handle, other) at h)
        ]
