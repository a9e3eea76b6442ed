-- ===== src/Chunk/Store/Paging.antt =====
-- What the lookups make of an answer of several pages.
use frankenstein.Prelude.{
  Bool, true, false, List, [], ◌∷◌, Option, none, some, ◌≡◌, ap, ◌∙◌, arith, if◌then◌else◌,
}
use frankenstein.Prelude.Order.{text_ord}
use frankenstein.Prelude.Result.{ok, Error}
use frankenstein.Model.{LabelMatcher}
use frankenstein.Chunk.Types.{Chunk}
use frankenstein.Chunk.Store.{Deps, QueryInput, Item, Pages}
use frankenstein.Chunk.Store.Index.{process_response}
use frankenstein.Chunk.Store.Query.{on_page, no_pages, query, query_result}

-- QueryPages as the AWS SDK documents it: the callback gets page after page, with a mark at the last
-- one, until it returns false.
unfoldable pub run_pages :
    {S : Type 0} → List (List Item) → (List Item → Bool → S → S × Bool) → S → S
run_pages [] fn s = s
run_pages (page ∷ []) fn s = (fn page true s).0
run_pages (page ∷ next ∷ pages) fn s =
    let (s', more) = fn page false s in if more then run_pages (next ∷ pages) fn s' else s'

module _ {Time W : Type 0} (deps : Deps Time W) (input : QueryInput) (w : W)
    (matcher : Option LabelMatcher) (page : List Item) (pages : List (List Item))
    (answers : (fn : List Item → Bool → Pages Time → Pages Time × Bool) (s : Pages Time)
      → deps.query_pages input fn s w ≡ (run_pages (page ∷ pages) fn s, none)) where
  -- When the service answers with any number of pages and the first one is read without an error, the
  -- result of the lookup's query is that page's chunks in order of ID: no other page is read.
  pub query-first_page :
      (chunk_set : List (Chunk Time))
      → process_response deps matcher page [] ≡ (chunk_set, none)
      → query deps input matcher w ≡ ok (deps.sorter.sort chunk_set)
  unfolding query on_page run_pages
  query-first_page chunk_set e =
      ap (query_result deps) (answers (on_page deps matcher) (no_pages deps)) ∙ first pages
    where
      first :
          (ps : List (List Item))
          → query_result deps (run_pages (page ∷ ps) (on_page deps matcher) (no_pages deps), none)
            ≡ ok (deps.sorter.sort chunk_set)
      first [] = ground (arith, e)
      first (p ∷ ps) = ground (arith, e)

  -- When the first page stops at an error, a second and last page that is read without one makes the
  -- query succeed, with the chunks that the first page gave before its error: the error is lost.
  pub query_forgets_error :
      (next : List Item) (chunk_set later : List (Chunk Time)) (e : Error)
      → pages ≡ next ∷ []
      → process_response deps matcher page [] ≡ (chunk_set, some e)
      → process_response deps matcher next chunk_set ≡ (later, none)
      → query deps input matcher w ≡ ok (deps.sorter.sort later)
  unfolding query on_page run_pages
  query_forgets_error next chunk_set later e two failed read =
      ap (query_result deps) (answers (on_page deps matcher) (no_pages deps))
      ∙ rw two (ground (arith, failed, read))
