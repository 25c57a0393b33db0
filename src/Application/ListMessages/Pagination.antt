-- ===== src/Application/ListMessages/Pagination.antt =====
-- Following the cursors of a listing from its first page to its last.
mod Pages
mod Sorted
use message_management_api.Prelude.{
  ℕ, zero, suc, ◌+◌, ◌≤◌, ◌<◌, ◌≡◌, ◌≢◌, refl, sym, ap, subst, ◌∙◌, ◌⊎◌, inl, inr, String, Bool,
  true, false, Option, none, some, List, [], ◌∷◌, ◌++◌, map, take, drop, length, last?, filter, All,
  ltb, is_empty, arith, if◌then◌else◌, Bool-cases, ◌&&◌, ◌||◌, ◌==◌, str_eq,
}
use message_management_api.Effects.{Io, Result, ok, err, Exception, pure, ◌>>=◌}
use message_management_api.Runtime.{Runtime}
use message_management_api.Domain.{Message, MessageSortOrder, asc, desc, MessagePageCursor}
use message_management_api.Domain.Ports.{MessageRepositoryPort}
use message_management_api.Persistence.Collection.{IsModel}
use message_management_api.Persistence.Collection.Updates.{sort_by, limited}
use message_management_api.Persistence.Schemas.{MessageEntity}
use message_management_api.Persistence.MessageRepository.{
  MessageModel, precedes, listed_before, after_cursor, list_filter, map_message_document,
  list_by_conversation, message_repository,
}
use message_management_api.Application.Cursor.{
  ReadsBack, decode_message_cursor, encode_message_cursor, decode_message_cursor-encode, same_order,
}
use message_management_api.Application.ListMessages.{
  ListMessagesQuery, ListMessagesResult, ListMessagesResult, execute, page_of, decode_after,
}
use Sorted.{IsSorted, Distinct, sort_by-IsSorted, filter-IsSorted, filter_after, All-split}
use Pages.{
  Split, short, long, split, filter_and, filter_ext, append_step, append_one, filter_all,
  map_append_step, page_of-last, page_of-split,
}

-- A client that asks for pages of `limit` messages until there is no next cursor.
unfoldable pub collect :
    {W : Type 0}
    → Runtime
    → MessageRepositoryPort W
    → ℕ
    → String
    → ℕ
    → MessageSortOrder
    → Option String
    → Io W (List Message)
collect r repository zero conversation limit o cursor = pure []
collect r repository (suc fuel) conversation limit o cursor = do
  result ← execute r repository (record {
    conversation_id = conversation;
    limit = some limit;
    cursor = cursor;
    sort_order = some o;
  })
  elim result.pagination.next_cursor [
    | none ↦ pure result.messages
    | some next ↦ do
      rest ← collect r repository fuel conversation limit o (some next)
      pure (result.messages ++ rest)
  ]

-- What the proofs use of the runtime at one document: the cursor made for it is not empty and is
-- read back, and so is the text of its `_id`.
pub record HasCursor (r : Runtime) (o : MessageSortOrder) (d : MessageEntity) : Type 0 where
  pub cursor : ReadsBack r o (map_message_document r d)
  pub object_id : r.object_id (r.object_id_text d._id) ≡ d._id
  pub filled : is_empty (encode_message_cursor r (map_message_document r d) o) ≡ false

-- A collection that is read and not written: every `find` answers from the documents `ds`.
abbrev pub Reads : {W : Type 0} → MessageModel W → List MessageEntity → W → Type 0
Reads model ds w =
    (p : MessageEntity → Bool) (before : MessageEntity → MessageEntity → Bool) (n : Option ℕ)
    → model.find p before n w ≡ (ok (limited n (filter p (sort_by before ds))), w)

-- The whole listing of a conversation, in its order.
abbrev pub listing : String → MessageSortOrder → List MessageEntity → List MessageEntity
listing conversation o ds =
    filter (λ d. str_eq d.conversation_id conversation) (sort_by (listed_before o) ds)

module _ {W : Type 0} (r : Runtime) (model : MessageModel W) (ds : List MessageEntity) (w : W)
    (reads : Reads model ds w) (conversation : String) (o : MessageSortOrder) where
  abbrev whole : List MessageEntity
  whole = listing conversation o ds

  found :
      (after : Option MessagePageCursor) (k : ℕ)
      → list_by_conversation r model
          (record { conversation_id = conversation; limit = suc k; sort_order = o; after = after })
          w
        ≡ (
          ok (map (map_message_document r) (take (suc k) (filter (after_cursor r o after) whole))),
          w,
        )
  unfolding list_by_conversation list_filter
  found after k =
      rw
        (
          reads _ (listed_before o) (some (suc k)),
          filter_and (λ d. str_eq d.conversation_id conversation) (after_cursor r o after)
              (sort_by (listed_before o) ds),
        )
        refl

  -- One request, when its cursor is read as `after` and `rest` is what comes after it.
  one_page :
      (cursor : Option String) (after : Option MessagePageCursor) (k : ℕ)
      (rest : List MessageEntity)
      → decode_after r cursor o ≡ ok after
      → filter (after_cursor r o after) whole ≡ rest
      → execute r
          (message_repository r model)
          (record {
            conversation_id = conversation;
            limit = some k;
            cursor = cursor;
            sort_order = some o;
          })
          w
        ≡ (ok (page_of r k o (map (map_message_document r) (take (suc k) rest))), w)
  unfolding execute
  one_page cursor after k rest d e = rw (d, add_one, found after k, e) refl
    where
      add_one : k + 1 ≡ suc k
      add_one = omega arith

  -- The cursor of a document is read as that document, and what comes after it is the rest.
  next_after : MessageEntity → Option MessagePageCursor
  next_after x = some (record { id = r.object_id_text x._id; timestamp = x.timestamp })

  next_cursor : MessageEntity → String
  next_cursor x = encode_message_cursor r (map_message_document r x) o

  decode_next :
      (x : MessageEntity)
      → HasCursor r o x
      → decode_after r (some (next_cursor x)) o ≡ ok (next_after x)
  unfolding next_cursor next_after map_message_document
  decode_next x h =
      rw (h.filled, decode_message_cursor-encode r (map_message_document r x) o o h.cursor, same o)
        refl
    where
      same : (o : MessageSortOrder) → same_order o o ≡ true
      same asc = refl
      same desc = refl

  after_next :
      (x d : MessageEntity)
      → HasCursor r o x
      → after_cursor r o (next_after x) d ≡ listed_before o x d
  unfolding next_after
  after_next x d h =
      rw (h.object_id)
        (swap (precedes o x.timestamp d.timestamp) d.timestamp x.timestamp (precedes o x._id d._id))
    where
      swap : (a : Bool) (m n : ℕ) (b : Bool) → (a || (m == n && b)) ≡ (a || (n == m && b))
      swap a m n b = ground arith

  module _ (distinct : Distinct ds) (all : All (HasCursor r o) whole) where
    whole-IsSorted : IsSorted o whole
    whole-IsSorted = filter-IsSorted o _ _ (sort_by-IsSorted o ds distinct)

    rest_after :
        (before rest : List MessageEntity) (x : MessageEntity)
        → whole ≡ before ++ x ∷ rest
        → filter (after_cursor r o (next_after x)) whole ≡ rest
    rest_after before rest x e =
        filter_ext (after_cursor r o (next_after x)) (listed_before o x) whole (λ d.
          after_next x d
            (All-split (HasCursor r o) before rest x (subst (All (HasCursor r o)) e all)))
        ∙ ap (filter (listed_before o x)) e
        ∙ filter_after o before rest x (subst (IsSorted o) e whole-IsSorted)

    last_page :
        (k fuel : ℕ) (rest : List MessageEntity) (cursor : Option String)
        (after : Option MessagePageCursor)
        → length rest ≤ k
        → decode_after r cursor o ≡ ok after
        → filter (after_cursor r o after) whole ≡ rest
        → collect r (message_repository r model) (suc fuel) conversation k o cursor w
          ≡ (ok (map (map_message_document r) rest), w)
    unfolding collect
    last_page k fuel rest cursor after h d q =
        rw (one_page cursor after k rest d q, page_of-last r o (map_message_document r) k rest h)
          refl

    more_pages :
        (k fuel : ℕ) (rest front : List MessageEntity) (x y : MessageEntity)
        (tail : List MessageEntity) (cursor : Option String) (after : Option MessagePageCursor)
        → length front ≡ k
        → rest ≡ front ++ x ∷ y ∷ tail
        → decode_after r cursor o ≡ ok after
        → filter (after_cursor r o after) whole ≡ rest
        → collect r
            (message_repository r model)
            fuel
            conversation
            (suc k)
            o
            (some (next_cursor x))
            w
          ≡ (ok (map (map_message_document r) (y ∷ tail)), w)
        → collect r (message_repository r model) (suc fuel) conversation (suc k) o cursor w
          ≡ (ok (map (map_message_document r) rest), w)
    unfolding collect next_cursor
    more_pages k fuel rest front x y tail cursor after n s d q h =
        rw
          (
            one_page cursor after (suc k) rest d q,
            page_of-split r o (map_message_document r) k rest front x y tail n s,
            h,
          )
          (ap (λ ms. (ok ms, w))
            (map_append_step (map_message_document r) front x (y ∷ tail)
              ∙ ap (map (map_message_document r)) (sym s)))

    shorter :
        (front : List MessageEntity) (x : MessageEntity) (tail : List MessageEntity) (n : ℕ)
        → length (front ++ x ∷ tail) < suc n
        → length tail < n
    shorter [] x tail n h = omega (arith, h)
    shorter (a ∷ front) x tail n h = shorter front x tail n (omega (arith, h))

    collect-rest :
        (k fuel : ℕ) (before rest : List MessageEntity) (cursor : Option String)
        (after : Option MessagePageCursor)
        → length rest < fuel
        → decode_after r cursor o ≡ ok after
        → whole ≡ before ++ rest
        → filter (after_cursor r o after) whole ≡ rest
        → collect r (message_repository r model) fuel conversation (suc k) o cursor w
          ≡ (ok (map (map_message_document r) rest), w)
    collect-rest k zero before rest cursor after f d e q = ground (arith, f)
    collect-rest k (suc fuel) before rest cursor after f d e q = elim (split k rest) [
      | short h ↦ last_page (suc k) fuel rest cursor after h d q
      | long front x y tail n s ↦
          (let whole-at : whole ≡ (before ++ front) ++ x ∷ y ∷ tail =
              e ∙ ap (◌++◌ before) s ∙ append_step before front x (y ∷ tail) in
            let within : HasCursor r o x =
              All-split (HasCursor r o) (before ++ front) (y ∷ tail) x
                (subst (All (HasCursor r o)) whole-at all) in
            more_pages k fuel rest front x y tail cursor after n s d q (
              collect-rest k fuel ((before ++ front) ++ x ∷ []) (y ∷ tail) (some (next_cursor x))
                (next_after x)
                (shorter front x (y ∷ tail) fuel (subst (λ l. length l < suc fuel) s f))
                (decode_next x within) (whole-at ∙ append_one (before ++ front) x (y ∷ tail))
                (rest_after (before ++ front) (y ∷ tail) x whole-at)))
    ]

    -- A client that starts without a cursor, and follows every next cursor with the same limit (of
    -- at least one message) and order, receives exactly the messages of the conversation, each once
    -- and in the order of the listing, and more requests than there are messages are enough. The
    -- documents have distinct ids and are not changed meanwhile, every read is answered, and the
    -- runtime reads back the cursors that it made for them.
    pub collect-listing :
        (k fuel : ℕ)
        → length whole < fuel
        → collect r (message_repository r model) fuel conversation (suc k) o none w
          ≡ (ok (map (map_message_document r) whole), w)
    collect-listing k fuel f = collect-rest k fuel [] whole none none f refl refl (filter_all whole)
