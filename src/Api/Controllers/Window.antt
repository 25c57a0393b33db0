-- ===== src/Api/Controllers/Window.antt =====
-- How deep into the hits a search request that passed the validation of
-- apps/api/src/messages/dto/search-messages-query.dto.ts can reach.
use message_management_api.Prelude.{
  ℕ, ◌+◌, ◌-◌, ◌*◌, ◌≤◌, ◌<◌, ◌↔◌, ◌≡◌, subst, inl, inr, String, Option, none, some, leb, or_else,
  arith, Option-cases, ◌≢◌, not, ◌&&◌, is_empty, eq_iff,
}
use native.Mathlib.Nat.{mul-le-mul}
use message_management_api.Json.{Json, Number}
use message_management_api.Application.SearchMessages.{SearchMessagesCommand, query_of}
use message_management_api.Search.EsMessageSearch.{EsSearchResponse, search_request, search_result}
use message_management_api.Search.EsMessageSearch.Pages.{search_result-pages}
use message_management_api.Runtime.{Runtime}
use message_management_api.Api.Validation.{
  SearchMessagesQueryDto, when, trimmed_string, valid_text, valid_count, validate_search_messages,
}

-- The command that the controller makes of the validated parts of a request.
abbrev pub command_of : String → SearchMessagesQueryDto → SearchMessagesCommand
command_of conversation_id query = record {
  conversation_id = conversation_id;
  q = query.q;
  page = query.page;
  limit = query.limit;
}

valid_count-bounded :
    (number_of : String → Option Number) (maximum default : ℕ) (text : Option String) (n : Option ℕ)
    → 1 ≤ default
    → default ≤ maximum
    → valid_count number_of maximum text ≡ some n
    → (1 ≤ or_else n default) × (or_else n default ≤ maximum)
unfolding valid_count
valid_count-bounded number_of maximum default none n h k e = ground arith
valid_count-bounded number_of maximum default (some s) n h k e = ground arith

text_bounded :
    (units : String → ℕ) (maximum : ℕ) (t s : String)
    → when (not (is_empty t) && leb (units t) maximum) t ≡ some s
    → (s ≢ "") × (units s ≤ maximum)
text_bounded units maximum t s e = ground (arith, eq_iff t "", eq_iff s "")

valid_text-bounded :
    (units : String → ℕ) (maximum : ℕ) (v : Option Json) (s : String)
    → valid_text units maximum v ≡ some s
    → (s ≢ "") × (units s ≤ maximum)
unfolding valid_text trimmed_string
valid_text-bounded units maximum v s e = elim (Option-cases (trimmed_string v)) [
  | inl absent ↦ cc (rw (absent, valid_text) at e)
  | inr (t, found) ↦ text_bounded units maximum t s (rw (found, valid_text) at e)
]

some_injective : {A : Type 0} {a b : A} → some a ≡ some b → a ≡ b
some_injective e = cc

window : (page limit : ℕ) → 1 ≤ page → page ≤ 100 → limit ≤ 50 → (page - 1) * limit + limit ≤ 5000
window page limit h k l =
    let bound = mul-le-mul {n₁ = page - 1} {m₁ = limit} {n₂ = 99} {m₂ = 50} (omega arith) l in
    omega (arith, bound)

-- What is known of a request of which every part is valid.
abbrev pub IsWithinWindow :
    Runtime → EsSearchResponse → (String → ℕ) → String → SearchMessagesQueryDto → Type 0
IsWithinWindow r response units conversation_id query =
    let asked = query_of (command_of conversation_id query) in
    let request = search_request asked in
    let pagination = (search_result r asked response).pagination in
    (request.match_content ≢ "")
    × (units request.match_content ≤ 256)
    × (1 ≤ request.size)
    × (request.from + request.size ≤ 5000)
    × ((asked.page ≤ pagination.total_pages) ↔ (request.from < pagination.total))

-- A search request that the validation accepts asks for a text that is not empty and has at most 256
-- units, and, with the defaults of the service, for at least one hit and for none beyond the first
-- 5000, which Elasticsearch answers: its default limit is 10000. Whatever the answer, the request
-- starts at one of the hits exactly if its page is among those that the answer counts.
pub validate_search_messages-window :
    (r : Runtime) (response : EsSearchResponse) (units : String → ℕ)
    (number_of : String → Option Number) (q : Option Json) (page limit : Option String)
    (conversation_id : String) (query : SearchMessagesQueryDto)
    → validate_search_messages units number_of q page limit ≡ some query
    → IsWithinWindow r response units conversation_id query
unfolding search_request validate_search_messages
validate_search_messages-window r response units number_of q page limit conversation_id query e =
    elim (Option-cases (valid_text units 256 q)) [
      | inl absent ↦ cc (rw (absent) at e)
      | inr (t, text) ↦ elim (Option-cases (valid_count number_of 100 page)) [
        | inl absent ↦ cc (rw (text, absent) at e)
        | inr (p, numbered) ↦ elim (Option-cases (valid_count number_of 50 limit)) [
          | inl absent ↦ cc (rw (text, numbered, absent) at e)
          | inr (n, limited) ↦
              let pages =
                valid_count-bounded number_of 100 1 page p (omega arith) (omega arith) numbered in
              let limits =
                valid_count-bounded number_of 50 20 limit n (omega arith) (omega arith) limited in
              let texts = valid_text-bounded units 256 q t text in
              let valid : SearchMessagesQueryDto = record { q = t; page = p; limit = n } in
              subst (IsWithinWindow r response units conversation_id)
                (some_injective (rw (text, numbered, limited) at e))
                (
                  texts.0,
                  texts.1,
                  limits.0,
                  window (or_else p 1) (or_else n 20) pages.0 pages.1 limits.1,
                  search_result-pages r (query_of (command_of conversation_id valid)) response
                      limits.0 pages.0,
                )
        ]
      ]
    ]
