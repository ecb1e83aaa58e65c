-- ===== src/Ebics/Responses/Parse.antt =====
-- `parse_response` of painfree/ebics3/responses.py.
use painfree_ebics_middlewar.Prelude.{
  Text, text, text_eq, strip, without_space, is_empty, ℤ, int, Bool, true, false, ◌&&◌, ◌==◌,
  Option, none, some, List, [], ◌∷◌, if◌then◌else◌,
}
use painfree_ebics_middlewar.Ebics.Errors.{
  Error, DocumentFault, Result, ok, err, ensure, ◌>>=◌, ◌>>◌,
}
use painfree_ebics_middlewar.Ebics.Xml.{
  Element, local_name, content, attributes, get_attribute, first,
}
use painfree_ebics_middlewar.Ebics.Responses.Status.{BankResponse}

-- `s or None`.
abbrev pub nonempty : Text → Option Text
nonempty s = if is_empty s then none else some s

-- `_clean`.
unfoldable pub clean : Option Text → Option Text
unfolding strip
clean none = none
clean (some s) = nonempty (strip s)

abbrev clean_node : Option Element → Option Text
clean_node none = none
clean_node (some e) = clean (content e)

-- `_text`.
unfoldable pub text_at : Element → List Text → Option Text
unfolding clean first
text_at root path = clean_node (first root path)

-- `_joined`.
unfoldable pub joined : Option Text → Option Text
unfolding without_space
joined none = none
joined (some s) = nonempty (without_space s)

abbrev int_result : Option ℤ → Result (Option ℤ)
int_result none = err (Error.document DocumentFault.bad_count)
int_result (some n) = ok (some n)

-- `_int`.
unfoldable pub int_at : Option Text → Result (Option ℤ)
unfolding int
int_at none = ok none
int_at (some s) = int_result (int s)

unfoldable pub starts_with : Text → Text → Bool
starts_with [] s = true
starts_with (p ∷ ps) [] = false
starts_with (p ∷ ps) (c ∷ s) = p == c && starts_with ps s

abbrev pub mutable : List Text → List Text
mutable path = text "header" ∷ text "mutable" ∷ path

abbrev pub static : List Text → List Text
static path = text "header" ∷ text "static" ∷ path

abbrev pub body : List Text → List Text
body path = text "body" ∷ path

abbrev pub data_transfer : List Text → List Text
data_transfer path = text "body" ∷ text "DataTransfer" ∷ path

abbrev is_true : Option Text → Bool
is_true none = false
is_true (some s) = text_eq s (text "true")

abbrev last_flag : Option Element → Option Bool
last_flag none = none
last_flag (some e) = some (is_true (get_attribute (attributes e) (text "lastSegment")))

abbrev or_empty : Option Text → Text
or_empty none = []
or_empty (some s) = s

-- `base64.b64decode`; `none` is its exception.
module _ (b64decode : Text → Option Text) where
  abbrev decoded : Option Text → Result (Option Text)
  decoded none = err (Error.document DocumentFault.bad_base64)
  decoded (some key) = ok (some key)

  unfoldable pub key_at : Option Text → Result (Option Text)
  unfolding joined
  key_at none = ok none
  key_at (some key) = decoded (b64decode (or_empty (joined (some key))))

  unfoldable pub parse_response : Element → Result BankResponse
  unfolding text_at int_at key_at joined first get_attribute starts_with text_eq
  parse_response root = do
    ensure (starts_with (text "ebics") (local_name root))
        (Error.document DocumentFault.not_a_response)
    let segment = first root (mutable (text "SegmentNumber" ∷ []))
    let key = text_at root (data_transfer (text "DataEncryptionInfo" ∷ text "TransactionKey" ∷ []))
    num_segments ← int_at (text_at root (static (text "NumSegments" ∷ [])))
    segment_number ← int_at (clean_node segment)
    transaction_key_encrypted ← key_at key
    ok (record {
      header_return_code = text_at root (mutable (text "ReturnCode" ∷ []));
      body_return_code = text_at root (body (text "ReturnCode" ∷ []));
      report_text = text_at root (mutable (text "ReportText" ∷ []));
      transaction_id = text_at root (static (text "TransactionID" ∷ []));
      transaction_phase = text_at root (mutable (text "TransactionPhase" ∷ []));
      num_segments = num_segments;
      segment_number = segment_number;
      last_segment = last_flag segment;
      order_id = text_at root (mutable (text "OrderID" ∷ []));
      order_data = joined (text_at root (data_transfer (text "OrderData" ∷ [])));
      transaction_key_encrypted = transaction_key_encrypted;
    })
