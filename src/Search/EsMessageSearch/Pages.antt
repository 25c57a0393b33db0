-- ===== src/Search/EsMessageSearch/Pages.antt =====
-- The pages of a search, and how deep into the hits a request reaches.
use message_management_api.Prelude.{ℕ, zero, suc, ◌+◌, ◌-◌, ◌*◌, ◌≤◌, ◌<◌, ◌≡◌, ap, ◌↔◌, arith}
use native.Mathlib.Nat.{le-div_iff_mul-le}
use message_management_api.Runtime.{Runtime}
use message_management_api.Domain.{SearchMessagesQuery}
use message_management_api.Search.EsMessageSearch.{
  EsSearchResponse, get_total_hits, total_pages, search_request, search_result,
}

first_of_page :
    (page limit total : ℕ)
    → 0 < limit
    → 0 < page
    → (page ≤ total_pages total limit) ↔ ((page - 1) * limit < total)
unfolding total_pages
first_of_page zero limit total h p = (λ a. omega arith, λ b. omega arith)
first_of_page (suc k) limit total h p =
    let pages = le-div_iff_mul-le {k = limit} {x = suc k} {y = total + (limit - 1)} h in
    let split : suc k * limit ≡ k * limit + limit = grind arith in
    let before : (suc k - 1) * limit ≡ k * limit = ap (λ n. n * limit) (omega arith) in
    (
      λ a. let reached = pages.0 a in omega (arith, split, before),
      λ b. pages.1 (omega (arith, split, before)),
    )

-- The request for a page starts at one of the hits exactly if the page is among those that the answer
-- counts: the page is numbered from one, and the limit is positive.
pub search_result-pages :
    (r : Runtime) (query : SearchMessagesQuery) (response : EsSearchResponse)
    → 0 < query.limit
    → 0 < query.page
    → let result = search_result r query response in
      (query.page ≤ result.pagination.total_pages)
      ↔ ((search_request query).from < result.pagination.total)
unfolding search_result search_request
search_result-pages r query response h p =
    first_of_page query.page query.limit (get_total_hits response.total) h p
