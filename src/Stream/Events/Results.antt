-- ===== src/Stream/Events/Results.antt =====
-- Which pages the decoder of deepseek-stream.ts keeps as search results.

use mathlib.Core.Logic.{inl, inr}
use chat2api_web_gateway.Stream.Json.{Json, record_of, safe_string, member, number_of}
use chat2api_web_gateway.Stream.Errors.{Url, Host}
use chat2api_web_gateway.Stream.Decoder.{
  SearchResult, SearchResults, is_public_url, search_result, put_result, merge_search_results,
  batch_index, apply_search_operation, apply_search_batch,
}
use chat2api_web_gateway.Strings.{chars}
use chat2api_web_gateway.Prelude.{
  Bool-cases, Option-cases, get_elem?, AllValues, put-AllValues, ℕ, zero, suc, String, ◌≡◌, subst,
  true, Option, some, List, [], ◌∷◌, arith,
}

-- The address is that of a page that `new URL` read, by http or https and without credentials.
pub record IsPublicResult (host : Host) (r : SearchResult) : Type 0 where
  pub raw : String
  pub page : Url
  pub is_read : host.parse_url raw ≡ some page
  pub is_public : is_public_url page ≡ true
  pub is_its_url : r.url ≡ page.href

abbrev pub ArePublic : Host → SearchResults → Type 0
ArePublic host results = AllValues (IsPublicResult host) results

search_result-IsPublicResult :
    (host : Host) (value : Json) (r : SearchResult)
    → search_result host value ≡ some r
    → IsPublicResult host r
unfolding search_result
search_result-IsPublicResult host value r h =
    let raw = safe_string (member (record_of (some value)) "url") in
    elim (Option-cases (host.parse_url raw)) [
      | inl unread ↦ absurd (ground arith)
      | inr (page, read) ↦ elim (Bool-cases (is_public_url page)) [
        | inl ok ↦ record {
          raw = raw;
          page = page;
          is_read = read;
          is_public = ok;
          is_its_url = ground arith;
        }
        | inr refused ↦ absurd (ground arith)
      ]
    ]

pub merge-ArePublic :
    (host : Host) (values : List Json) (results : SearchResults)
    → ArePublic host results
    → ArePublic host (merge_search_results host values results)
unfolding merge_search_results
merge-ArePublic host [] results h = h
merge-ArePublic host (value ∷ values) results h = elim (Option-cases (search_result host value)) [
  | inl skipped ↦ rw (skipped, merge_search_results) (merge-ArePublic host values results h)
  | inr (r, kept) ↦
      rw (kept, merge_search_results)
        (merge-ArePublic host values (put_result r results) (
          put-AllValues (IsPublicResult host) r.url r results
            (search_result-IsPublicResult host value r kept) h))
]

get_elem?-AllValues :
    (P : SearchResult → Type 0) (results : SearchResults) (i : ℕ) (entry : String × SearchResult)
    → AllValues P results
    → get_elem? results i ≡ some entry
    → P entry.1
get_elem?-AllValues P [] i entry h e = cc
get_elem?-AllValues P ((k, v) ∷ results) zero entry h e =
    let same : v ≡ entry.1 = ground arith in subst P same h.0
get_elem?-AllValues P ((k, v) ∷ results) (suc i) entry h e =
    get_elem?-AllValues P results i entry h.1 e

cited_at-IsPublicResult :
    (host : Host) (r : SearchResult) (n : Option ℕ)
    → IsPublicResult host r
    → IsPublicResult host (record r { cite_index = n })
cited_at-IsPublicResult host r n h = record {
  raw = h.raw;
  page = h.page;
  is_read = h.is_read;
  is_public = h.is_public;
  is_its_url = h.is_its_url;
}

operation-ArePublic :
    (host : Host) (value : Json) (results : SearchResults)
    → ArePublic host results
    → ArePublic host (apply_search_operation value results)
unfolding apply_search_operation
operation-ArePublic host value results h =
    let operation = record_of (some value) in
    elim (Option-cases (batch_index [] (chars (safe_string (member operation "p"))))) [
      | inl other ↦ rw (other, apply_search_operation) h
      | inr (index, at) ↦ elim (Option-cases (get_elem? results index)) [
        | inl beyond ↦ rw (at, beyond, apply_search_operation) h
        | inr (entry, found) ↦ elim (Option-cases (number_of (member operation "v"))) [
          | inl odd ↦ rw (at, found, odd, apply_search_operation) h
          | inr (n, cites) ↦
              rw (at, found, cites, apply_search_operation)
                (put-AllValues (IsPublicResult host) entry.1.url
                  (record entry.1 { cite_index = some n }) results
                  (cited_at-IsPublicResult host entry.1 (some n)
                    (get_elem?-AllValues (IsPublicResult host) results index entry h found))
                  h)
        ]
      ]
    ]

pub batch-ArePublic :
    (host : Host) (values : List Json) (results : SearchResults)
    → ArePublic host results
    → ArePublic host (apply_search_batch values results)
unfolding apply_search_batch
batch-ArePublic host [] results h = h
batch-ArePublic host (value ∷ values) results h =
    batch-ArePublic host values (apply_search_operation value results)
      (operation-ArePublic host value results h)
