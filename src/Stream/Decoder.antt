-- ===== src/Stream/Decoder.antt =====
-- `DeepSeekEventDecoder`: an event of the provider becomes pieces of reasoning and answer; search results
-- are kept for the citations (deepseek-stream.ts, `process` to `applySearchBatch`).
use Prim.Native.Char.{Char, code as code_point}
use chat2api_web_gateway.Strings.{
  Chars, chars, text_of, is_space, is_digit, drop_while, reversed, strip, starts, without_word,
  without_citation_word, single_spaces, digits_value,
}
use chat2api_web_gateway.Stream.Json.{
  Json, Fields, get_field, record_of, safe_string, member, number_of, first_of,
}
use chat2api_web_gateway.Stream.Errors.{Url, Host}
use chat2api_web_gateway.Prelude.{
  leb, ◌==◌, ◌===◌, if◌then◌else◌, get_elem?, put, ℕ, ◌-◌, String, Bool, false, not, ◌&&◌, ◌||◌,
  Option, none, some, List, [], ◌∷◌, map,
}

pub data OutputPath : Type 0 where
  thinking content : OutputPath

pub record SearchResult : Type 0 where
  pub url : String
  pub title : String
  pub cite_index : Option ℕ

pub record ContentDelta : Type 0 where
  pub path : OutputPath
  pub value : String

abbrev pub SearchResults : Type 0
SearchResults = List (String × SearchResult)

pub record Decoder : Type 0 where
  pub web_search_enabled : Bool
  pub current_path : OutputPath
  pub search_results : SearchResults

-- A method's new state, and what it pushes.
abbrev pub Decoded : Type 0
Decoded = Decoder × List ContentDelta

abbrev pub path_of : Bool → OutputPath
path_of enabled = if enabled then thinking else content

unfoldable pub new_decoder : Bool → Bool → Decoder
new_decoder thinking_enabled web_search_enabled = record {
  web_search_enabled = web_search_enabled;
  current_path = path_of thinking_enabled;
  search_results = [];
}

-- An ASCII letter in upper case, as the flag `i` compares.
abbrev pub upper : Char → ℕ
upper c = let n = code_point c in if leb b'a' n && leb n b'z' then n - 32 else n

-- What follows a word at the start of a text, in any case.
unfoldable pub after_word : Chars → Chars → Option Chars
after_word [] cs = some cs
after_word (w ∷ ws) [] = none
after_word (w ∷ ws) (c ∷ cs) = if upper c == code_point w then after_word ws cs else none

-- A control word ends the text or has white space behind it, which goes with it.
unfoldable pub after_control_word : Chars → Chars → Option Chars
unfolding after_word drop_while is_space
after_control_word word cs = elim (after_word word cs) [
  | none ↦ none
  | some [] ↦ some []
  | some (d ∷ rest) ↦ if is_space d then some (drop_while is_space rest) else none
]

-- `.replace(/^(SEARCH|WEB_SEARCH|SEARCHING)(?:\s+|$)/i, '')`.
unfoldable pub without_search_marker : Chars → Chars
unfolding after_control_word chars
without_search_marker cs = elim (after_control_word (chars "SEARCH") cs) [
  | some rest ↦ rest
  | none ↦ elim (after_control_word (chars "WEB_SEARCH") cs) [
    | some rest ↦ rest
    | none ↦ elim (after_control_word (chars "SEARCHING") cs) [ some rest ↦ rest | none ↦ cs ]
  ]
]

unfoldable pub cleaned : Bool → String → String
unfolding chars text_of without_word without_search_marker without_citation_word
cleaned web_search_enabled value =
    let without_finish = without_word (chars "FINISHED") 0 (chars value) in
    text_of (
      without_citation_word 0
        (if web_search_enabled then without_search_marker without_finish else without_finish))

abbrev pub pushed : OutputPath → String → List ContentDelta
pushed path String.[] = []
pushed path (String.◌∷◌ c s) = record { path = path; value = String.◌∷◌ c s } ∷ []

unfoldable pub push_content : Decoder → String → List ContentDelta
unfolding cleaned
push_content d value = pushed d.current_path (cleaned d.web_search_enabled value)

-- `url.protocol` is one of the two, and the address has neither a user nor a password.
unfoldable pub is_public_url : Url → Bool
is_public_url url =
    (url.protocol === "http:" || url.protocol === "https:")
    && url.username === ""
    && url.password === ""

abbrev pub line_or_bracket : Char → Bool
line_or_bracket c = let n = code_point c in n == 13 || n == 10 || n == b'[' || n == b']'

unfoldable pub clean_title : Host → String → String
unfolding chars text_of single_spaces strip is_space
clean_title host raw =
    let plain = map (λ c. if line_or_bracket c then " " else c) (chars raw) in
    host.slice (text_of (strip is_space (single_spaces false plain))) 300

unfoldable pub cite_index_of : Option Fields → Option ℕ
unfolding get_field number_of
cite_index_of fields =
    first_of (number_of (member fields "cite_index")) (number_of (member fields "citeIndex"))

-- The result that one item of the provider's list stands for, if it is kept.
unfoldable pub search_result : Host → Json → Option SearchResult
unfolding record_of safe_string get_field is_public_url clean_title cite_index_of
search_result host value =
    let fields = record_of (some value) in
    let raw_url = safe_string (member fields "url") in
    let raw_title = safe_string (member fields "title") in
    if raw_url === "" || raw_title === "" then none else elim (host.parse_url raw_url) [
      | none ↦ none
      | some url ↦
          if not (is_public_url url)
          then none
          else some (record {
            url = url.href;
            title = clean_title host raw_title;
            cite_index = cite_index_of fields;
          })
    ]

abbrev pub put_result : SearchResult → SearchResults → SearchResults
put_result result results = put result.url result results

unfoldable pub merge_search_results : Host → List Json → SearchResults → SearchResults
unfolding search_result put
merge_search_results host [] results = results
merge_search_results host (value ∷ values) results =
    merge_search_results host values
      (elim (search_result host value) [ none ↦ results | some r ↦ put_result r results ])

-- `/^(\d+)\/cite_index$/`, and the number before the slash; the digits read so far come first.
unfoldable pub batch_index : Chars → Chars → Option ℕ
unfolding is_digit starts chars digits_value
batch_index seen [] = none
batch_index seen (c ∷ cs) =
    let more = batch_index (c ∷ seen) cs in
    let ends = text_of (c ∷ cs) === "/cite_index" in
    if is_digit c then more else elim seen [
      | [] ↦ none
      | d ∷ ds ↦ if ends then digits_value 0 (reversed (d ∷ ds) []) else none
    ]

unfoldable pub apply_search_operation : Json → SearchResults → SearchResults
unfolding record_of safe_string number_of batch_index chars put
apply_search_operation value results =
    let operation = record_of (some value) in
    elim (batch_index [] (chars (safe_string (member operation "p")))) [
      | none ↦ results
      | some index ↦ elim (get_elem? results index) [
        | none ↦ results
        | some (key, entry) ↦ elim (number_of (member operation "v")) [
          | none ↦ results
          | some n ↦ put entry.url (record entry { cite_index = some n }) results
        ]
      ]
    ]

unfoldable pub apply_search_batch : List Json → SearchResults → SearchResults
unfolding apply_search_operation
apply_search_batch [] results = results
apply_search_batch (value ∷ values) results =
    apply_search_batch values (apply_search_operation value results)
