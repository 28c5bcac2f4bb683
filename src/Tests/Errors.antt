-- ===== src/Tests/Errors.antt =====
-- The theorems on errors at work.
use laundry_api.Base.{ℕ, ◌≡◌, refl, String}
use laundry_api.Errors.{Exception, known_request, of_wash, tag_barcode_conflict}
use laundry_api.Errors.Classify.{classify_exception}
use laundry_api.Errors.Codes.{code_of, wash_code}
use laundry_api.Errors.Contract.{class_of, code_of-inj}
use laundry_api.Errors.Masking.{IsMasked, classify_exception-IsMasked}

abbrev some_text : ℕ → String
some_text n = "7"

-- A violated foreign key, whose message names columns.
abbrev foreign_key : Exception
foreign_key = record {
  thrown = known_request "P2003";
  own_message = "Foreign key constraint violated on the fields: (`order_id`)";
}

classify_exception-IsMasked_example :
    IsMasked (classify_exception some_text some_text foreign_key)
    × ((other : String)
        → classify_exception some_text some_text (record foreign_key { own_message = other })
          ≡ classify_exception some_text some_text foreign_key)
classify_exception-IsMasked_example = classify_exception-IsMasked some_text some_text foreign_key tt

same : code_of (of_wash (tag_barcode_conflict "A1")) ≡ code_of (of_wash (tag_barcode_conflict "B2"))
unfolding code_of wash_code
same = refl

code_of-inj_example :
    class_of (of_wash (tag_barcode_conflict "A1")) ≡ class_of (of_wash (tag_barcode_conflict "B2"))
code_of-inj_example =
    code_of-inj (of_wash (tag_barcode_conflict "A1")) (of_wash (tag_barcode_conflict "B2")) same
