-- ===== src/Api/ErrorFilter/Hiding.antt =====
-- What a client learns of an error.
use message_management_api.Prelude.{ℕ, ◌≡◌, refl, String, true, Option}
use message_management_api.Effects.{Exception, search_unavailable, http}
use message_management_api.Runtime.{Runtime}
use message_management_api.Application.SearchMessages
use message_management_api.Api.ErrorFilter.{catch}

-- Whether the client may see the exception's own text: it is an `HttpException`, or says that the
-- search is unavailable.
abbrev pub IsExpected : Exception → Type 0
IsExpected (search_unavailable message) = Unit {0}
IsExpected (http e) = Unit {0}
IsExpected _ = ⊥

module _ (r : Runtime) (context header : Option String) (url : String) (now : ℕ) where
  -- Of two exceptions that are no `HttpException` and no `SearchUnavailableError` the client gets
  -- the same reply, with status 500, and each is logged. So such a reply tells nothing of the
  -- exception.
  pub catch_hides :
      (e e' : Exception)
      → ¬ IsExpected e
      → ¬ IsExpected e'
      → (catch r context header url now e ≡ catch r context header url now e')
        × ((catch r context header url now e).body.status_code ≡ 500)
        × ((catch r context header url now e).logged ≡ true)
  unfolding catch
  catch_hides (search_unavailable m) e' h h' = absurd (h tt)
  catch_hides (http x) e' h h' = absurd (h tt)
  catch_hides e (search_unavailable m) h h' = absurd (h' tt)
  catch_hides e (http x) h h' = absurd (h' tt)
  catch_hides _ _ h h' = (refl, refl, refl)
