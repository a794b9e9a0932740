-- ===== src/Json/Tests.antt =====
-- An answer with a value between two remarks.
use context_swarm_memory.Prelude.{
  ℕ, ◌≡◌, refl, Option, none, some, [], ◌∷◌, ◌++◌, if◌then◌else◌, Text, text, trim, list_beq,
  nat_eq_inst,
}
use context_swarm_memory.Json.{brace, fenced, parsed_fence, find_first_json_span, extract_json}
use context_swarm_memory.Json.Span.{
  Content, nothing, unit, string, itself, escaped, nested, enclosed, extract_json-enclosed,
}

-- {"}\"":{}}
abbrev value : Content
value = string (itself b'}' ∷ escaped b'"' ∷ []) (unit b':' (nested nothing nothing))

-- The parser of the test reads that value only, as 7.
abbrev parse : Text → Option ℕ
parse s = if list_beq s (enclosed brace value) then some 7 else none

abbrev answer : Text
answer = text " So: " ++ (enclosed brace value ++ text " ok}")

trimmed : trim answer ≡ text "So: " ++ (enclosed brace value ++ text " ok}")
unfolding trim
trimmed = refl

not_whole : parse (trim answer) ≡ none
unfolding trim list_beq
not_whole = refl

not_fenced : parsed_fence parse (fenced (trim answer)) ≡ none
unfolding trim fenced list_beq
not_fenced = refl

extract_json-enclosed_example : extract_json parse answer ≡ some 7
unfolding list_beq
extract_json-enclosed_example =
    extract_json-enclosed parse answer (text "So: ") brace value (text " ok}") 7 trimmed
      (refl, (refl, (refl, (refl, tt)))) ((refl, (refl, tt)), (refl, (tt, tt))) not_whole not_fenced
      refl

-- A bracket that nothing closes leaves the search to the next one.
search_goes_on : find_first_json_span (text "{ [1]") ≡ some (text "[1]")
unfolding find_first_json_span
search_goes_on = refl

in_fence : fenced (text "x ```JSON 1``` y") ≡ some (text " 1")
unfolding fenced
in_fence = refl

never_closed : find_first_json_span (text "a {\"}\" ") ≡ none
unfolding find_first_json_span
never_closed = refl
