-- ===== src/Scenarios/Replies.antt =====
-- The theorem on replies at a concrete reply.
use wanax.Prelude.{◌≡◌, refl, some, none, String}
use wanax.Core.Money.{is_whitespace}
use wanax.Llm.Json.{extract_json_object}
use wanax.Llm.Json.Found.{
  Inside, end, plain, quoted, raw, escaped, done, none_left, extract_json_object_found,
}

-- {"a":"}\""}
abbrev object : Inside
object = quoted (raw "a" refl done) (plain ":" refl (quoted (raw "}" refl (escaped "\"" done)) end))

abbrev reply : String
reply = " ```json\n{\"a\":\"}\\\"\"}\n``` bye }"

reply_without_object : extract_json_object "{ \"}\" " ≡ none
unfolding extract_json_object is_whitespace
reply_without_object = refl

extract_json_object_found_example : extract_json_object reply ≡ some "{\"a\":\"}\\\"\"}"
unfolding extract_json_object is_whitespace
extract_json_object_found_example = extract_json_object_found reply none_left object "" refl
