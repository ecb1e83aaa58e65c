-- ===== src/Ebics/Transaction/Download/Unpack.antt =====
-- `unpack` of painfree/statements.py, and what can go wrong between the payload and the receipt.
use painfree_ebics_middlewar.Prelude.{
  ℕ, ◌*◌, Text, text_eq, Bool, length, take, ltb, Option, none, some, List, [], ◌∷◌, if◌then◌else◌,
}

-- What `archive.read` returns or raises: `BadZipFile`, or another exception by its name.
pub data Content : Type 0 where
  content : Text → Content
  bad_zip_file : Content
  read_raised : (exception : Text) → Content

-- A member of an archive that is not a directory: the size that it declares, and what is read.
pub record Member : Type 0 where
  pub file_size : ℕ
  pub read : Content

-- The documents, `DocumentUnreadable`, or another exception that is not caught.
pub data Unpacked : Type 0 where
  documents : List Text → Unpacked
  unreadable : Unpacked
  unpack_raised : (exception : Text) → Unpacked

-- `ZIP_MAGIC`, `MAX_MEMBERS`, `MAX_MEMBER_BYTES`.
abbrev zip_magic : Text
zip_magic = 80 ∷ 75 ∷ 3 ∷ 4 ∷ []

abbrev max_members : ℕ
max_members = 1000

abbrev max_member_bytes : ℕ
max_member_bytes = 64 * 1024 * 1024

-- `order_data.startswith(ZIP_MAGIC)`.
abbrev is_zip : Text → Bool
is_zip order_data = text_eq (take 4 order_data) zip_magic

abbrev also_read : Text → Unpacked → Unpacked
also_read document unreadable = unreadable
also_read document (unpack_raised exception) = unpack_raised exception
also_read document (documents rest) = documents (document ∷ rest)

abbrev read_member : Content → Unpacked → Unpacked
read_member bad_zip_file rest = unreadable
read_member (read_raised exception) rest = unpack_raised exception
read_member (content document) rest = also_read document rest

abbrev read_members : List Member → Unpacked
read_members [] = documents []
read_members (m ∷ ms) =
    let rest = read_members ms in
    if ltb max_member_bytes m.file_size then unreadable else read_member m.read rest

abbrev read_archive : Option (List Member) → Unpacked
read_archive none = unreadable
read_archive (some members) =
    if ltb max_members (length members) then unreadable else read_members members

-- `unpack`, over the members of an archive as `zipfile` lists them; `none` is `BadZipFile`.
unfoldable pub unpack : (Text → Option (List Member)) → Text → Unpacked
unpack infolist order_data =
    if is_zip order_data then read_archive (infolist order_data) else documents (order_data ∷ [])

-- What is raised before the receipt: `DocumentUnreadable`, or another exception by its name.
pub data StoreFault : Type 0 where
  document_unreadable : StoreFault
  exception_raised : (exception : Text) → StoreFault

-- `zipfile`, and `StatementStore.ingest`: the exception that it raises, if it does.
pub record Storage : Type 0 where
  pub infolist : Text → Option (List Member)
  pub ingest : List Text → Option Text

abbrev ingested : Option Text → Option StoreFault
ingested none = none
ingested (some exception) = some (exception_raised exception)

abbrev after_unpack : Storage → Unpacked → Option StoreFault
after_unpack storage unreadable = some document_unreadable
after_unpack storage (unpack_raised exception) = some (exception_raised exception)
after_unpack storage (documents ds) = ingested (storage.ingest ds)

-- The payload is unpacked and its documents are stored.
unfoldable pub store : Storage → Text → Option StoreFault
store storage payload = after_unpack storage (unpack storage.infolist payload)
