-- ===== src/Identity.antt =====
-- packages/core/src/session/session-identity.ts: SessionIdentityStore. Its two tables are lists of
-- rows in the order of insertion; one method reads the clock once. What SQLite does is written out:
-- an INSERT that repeats a primary key throws, and a transaction that throws changes nothing.
pub mod Methods
pub mod Sound
pub mod Kept
pub mod Linked
pub mod Bound
mod Tests
use phus.Prelude.{
  ℕ, ◌+◌, String, ◌⊎◌, Bool, ◌&&◌, Option, none, some, List, [], ◌∷◌, ◌++◌, map, ltb, if◌then◌else◌,
  any, filter, find?,
}
use text.Mathlib.Text.{◌==◌ as str_eq}
use phus.Prelude.Sort.{sort}

pub record IdentitySubject : Type 0 where
  pub channel : String
  pub subject_id : String
  pub linked_at : ℕ

pub record SessionIdentity : Type 0 where
  pub id : String
  pub primary_channel : String
  pub primary_subject_id : String
  pub display_name : Option String
  pub subjects : List IdentitySubject
  pub created_at : ℕ
  pub updated_at : ℕ
  pub last_seen_at : Option ℕ

pub record IdentityRow : Type 0 where
  pub id : String
  pub primary_channel : String
  pub primary_subject : String
  pub display_name : Option String
  pub created_at : ℕ
  pub updated_at : ℕ
  pub last_seen_at : Option ℕ

pub record SubjectRow : Type 0 where
  pub identity_id : String
  pub channel : String
  pub subject_id : String
  pub linked_at : ℕ

pub record SessionIdentityStore : Type 0 where
  pub identities : List IdentityRow
  pub subjects : List SubjectRow
  pub closed : Bool

pub data IdentityError : Type 0 where
  store_closed self_merge : IdentityError
  identity_not_found source_not_found target_not_found : String → IdentityError
  identity_merge_conflict : String → String → String → IdentityError
  -- SqliteError
  unique_constraint values_for_columns : IdentityError

-- What a method returns: an identity, `undefined`, or an error that it throws.
abbrev pub Result : Type 0
Result = IdentityError ⊎ Option SessionIdentity

abbrev pub has_row_id : String → IdentityRow → Bool
has_row_id id row = str_eq row.id id

abbrev pub is_subject_of : String → SubjectRow → Bool
is_subject_of id row = str_eq row.identity_id id

abbrev pub has_key : String → String → SubjectRow → Bool
has_key channel subject_id row = str_eq row.channel channel && str_eq row.subject_id subject_id

-- ORDER BY linked_at ASC
abbrev pub linked_before : SubjectRow → SubjectRow → Bool
linked_before a b = ltb a.linked_at b.linked_at

abbrev pub created_before : IdentityRow → IdentityRow → Bool
created_before a b = ltb a.created_at b.created_at

abbrev pub to_subject : SubjectRow → IdentitySubject
to_subject row = record {
  channel = row.channel;
  subject_id = row.subject_id;
  linked_at = row.linked_at;
}

unfoldable pub subjects_for : String → SessionIdentityStore → List IdentitySubject
subjects_for id s = map to_subject (sort linked_before (filter (is_subject_of id) s.subjects))

abbrev pub row_to_identity : IdentityRow → List IdentitySubject → SessionIdentity
row_to_identity row subjects = record {
  id = row.id;
  primary_channel = row.primary_channel;
  primary_subject_id = row.primary_subject;
  display_name = row.display_name;
  subjects = subjects;
  created_at = row.created_at;
  updated_at = row.updated_at;
  last_seen_at = row.last_seen_at;
}

abbrev pub identity_of : SessionIdentityStore → IdentityRow → SessionIdentity
identity_of s row = row_to_identity row (subjects_for row.id s)

-- `get`, of a store that is open.
unfoldable pub get_open : String → SessionIdentityStore → Option SessionIdentity
get_open id s = elim (find? (has_row_id id) s.identities) [
  | none ↦ none
  | some row ↦ some (row_to_identity row (subjects_for id s))
]

unfoldable pub find_open : String → String → SessionIdentityStore → Option SessionIdentity
find_open channel subject_id s = elim (find? (has_key channel subject_id) s.subjects) [
  | none ↦ none
  | some row ↦ get_open row.identity_id s
]

-- `UPDATE session_identities SET … WHERE id = ?`
unfoldable pub update :
    String → (IdentityRow → IdentityRow) → SessionIdentityStore → SessionIdentityStore
update id f s = record s {
  identities = map (λ row. if has_row_id id row then f row else row) s.identities;
}

abbrev pub touch_display_name : String → String → ℕ → SessionIdentityStore → SessionIdentityStore
touch_display_name id name now =
    update id
      (λ row. record row { display_name = some name; updated_at = now; last_seen_at = some now })

abbrev pub touch_last_seen : String → ℕ → SessionIdentityStore → SessionIdentityStore
touch_last_seen id now = update id (λ row. record row { updated_at = now; last_seen_at = some now })

-- `INSERT INTO session_identities`, `none` where it throws.
unfoldable pub insert_identity : IdentityRow → SessionIdentityStore → Option SessionIdentityStore
insert_identity row s =
    if any (has_row_id row.id) s.identities
    then none
    else some (record s { identities = s.identities ++ row ∷ [] })

unfoldable pub insert_subject : SubjectRow → SessionIdentityStore → Option SessionIdentityStore
insert_subject row s =
    if any (has_key row.channel row.subject_id) s.subjects
    then none
    else some (record s { subjects = s.subjects ++ row ∷ [] })
