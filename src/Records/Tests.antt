-- ===== src/Records/Tests.antt =====
-- Records at concrete inputs: a post, and the texts of an array.
use lazypock.Base.{false, List, [], ◌∷◌, Option, none, some, ◌≡◌, refl, inl, inr, ok}
use lazypock.Base.Text.{Text, codes}
use lazypock.Schema.Json.{Json, Members, Number, find_member}
use lazypock.Schema.Tests.{author, posts, whole_numbers}
use lazypock.Records.{validate}
use lazypock.Records.Accepted.{validate-Encodes}
use lazypock.Records.Encoding.{encode_value, pg_text_array}
use lazypock.Records.Encoding.Arrays.{read_array, read_array-pg_text_array}
use lazypock.Records.Encoding.Encodable.{Encodes}

abbrev no_numeral : Text → Option Number
no_numeral s = none

abbrev post : Members
post =
    Members.member (codes "title") (Json.string (codes "a \"title\""))
      (Members.member (codes "author") (Json.string (codes "abcde12345fghij")) Members.close)

post-valid : validate whole_numbers no_numeral posts post false ≡ ok tt
unfolding validate
post-valid = refl

post-author : find_member author.name post ≡ some (Json.string (codes "abcde12345fghij"))
unfolding find_member
post-author = refl

validate-Encodes_example :
    Encodes (encode_value whole_numbers no_numeral author (Json.string (codes "abcde12345fghij")))
validate-Encodes_example =
    validate-Encodes whole_numbers no_numeral posts post false author
      (Json.string (codes "abcde12345fghij")) post-valid (inr (inl refl)) post-author

abbrev two_texts : List Text
two_texts = codes "a,\"b\\" ∷ codes "" ∷ []

read_array-pg_text_array_example : read_array (pg_text_array two_texts) ≡ some two_texts
read_array-pg_text_array_example = read_array-pg_text_array two_texts
