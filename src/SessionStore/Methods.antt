-- ===== src/SessionStore/Methods.antt =====
-- session-store.ts: the methods of SessionStore. Beside its result, a method gives the table that it
-- leaves.
use phus.Prelude.{
  ℕ, String, ◌⊎◌, inl, inr, Bool, true, false, not, ◌&&◌, ◌||◌, Option, none, some, List, [], map,
  ltb, ◌==◌, if◌then◌else◌, any, filter,
}
use Prim.Native.String.{◌++◌ as concat}
use text.Mathlib.Text.{◌==◌ as str_eq}
use phus.Prelude.Sort.{sort}
use phus.SessionStore.{
  SessionKind, conversation, scheduled, subagent, system, SessionStatus, opened, closed, archived,
  SessionAddress, legacy, Session, CreateSessionOptions, SessionRow, SessionError,
  session_not_found, Sessions, legacy_session, has_session_id, row_to_session, get, find_by_address,
  create,
}

pub record SessionFilter : Type 0 where
  pub statuses : Option (List SessionStatus)
  pub kind : Option SessionKind
  pub parent_session_id : Option String
  pub include_archived : Bool

abbrev pub same_status : SessionStatus → SessionStatus → Bool
same_status opened opened = true
same_status closed closed = true
same_status archived archived = true
same_status a b = false

abbrev pub same_kind : SessionKind → SessionKind → Bool
same_kind conversation conversation = true
same_kind scheduled scheduled = true
same_kind subagent subagent = true
same_kind system system = true
same_kind a b = false

abbrev pub matches_status : SessionFilter → SessionStatus → Bool
matches_status filter status = elim filter.statuses [
  | none ↦ filter.include_archived || not (same_status status archived)
  | some statuses ↦ any (same_status status) statuses
]

abbrev pub matches_kind : Option SessionKind → SessionKind → Bool
matches_kind none kind = true
matches_kind (some wanted) kind = same_kind kind wanted

-- `parent_session_id = ?` holds of no row without a parent.
abbrev pub matches_parent : Option String → Option String → Bool
matches_parent none parent = true
matches_parent (some wanted) none = str_eq wanted ""
matches_parent (some wanted) (some parent) = str_eq wanted "" || str_eq parent wanted

-- The latest time, where a time is there.
abbrev pub later_of : Option ℕ → ℕ → Option ℕ
later_of none at = some at
later_of (some last) at = if ltb last at then some at else some last

abbrev pub compat_address : String → SessionAddress
compat_address id = record {
  channel = "legacy";
  scope = concat "runtime-compat:" id;
  conversation_key = id;
  thread_key = none;
}

abbrev pub compat_options : String → SessionKind → SessionAddress → CreateSessionOptions
compat_options id kind address = record {
  address = address;
  id = some id;
  kind = some kind;
  status = none;
  parent_session_id = none;
  title = none;
  tags = [];
  metadata = legacy id (some "runtime-compat");
  created_at = none;
  updated_at = none;
  last_turn_at = none;
}

-- The `catch` of `ensure`: what there is, or a session under the id's own address.
abbrev pub or_raced :
    Option Session
    → Sessions × (SessionError ⊎ Option Session)
    → Sessions × (SessionError ⊎ Option Session)
or_raced (some raced) (rows, inl err) = (rows, inr (some raced))
or_raced none (rows, inl err) = (rows, inl err)
or_raced raced (rows, inr session) = (rows, inr session)

abbrev pub or_fallback :
    String
    → ℕ
    → SessionKind
    → Sessions × (SessionError ⊎ Option Session)
    → Sessions × (SessionError ⊎ Option Session)
or_fallback id now kind (rows, inr session) = (rows, inr session)
or_fallback id now kind (rows, inl err) = elim (get id rows) [
  | some concurrent ↦ (rows, inr (some concurrent))
  | none ↦ or_raced (get id rows) (create id now (compat_options id kind (compat_address id)) rows)
]

unfoldable pub ensure : String → ℕ → Sessions → Sessions × (SessionError ⊎ Option Session)
ensure id now rows = elim (get id rows) [
  | some existing ↦ (rows, inr (some existing))
  | none ↦
      let (kind, address) = legacy_session id in
      or_fallback id now kind (create id now (compat_options id kind address) rows)
]

abbrev pub or_concurrent :
    SessionAddress
    → Sessions × (SessionError ⊎ Option Session)
    → Sessions × (SessionError ⊎ Option Session)
or_concurrent address (rows, inr session) = (rows, inr session)
or_concurrent address (rows, inl err) = elim (find_by_address address rows) [
  | some concurrent ↦ (rows, inr (some concurrent))
  | none ↦ (rows, inl err)
]

-- The options with the address in the place of theirs.
unfoldable pub resolve_or_create :
    String
    → ℕ
    → SessionAddress
    → CreateSessionOptions
    → Sessions
    → Sessions × (SessionError ⊎ Option Session)
resolve_or_create uuid now address options rows = elim (find_by_address address rows) [
  | some existing ↦ (rows, inr (some existing))
  | none ↦ or_concurrent address (create uuid now (record options { address = address }) rows)
]

-- ORDER BY updated_at DESC, id ASC, by an order of texts that SQLite has.
abbrev pub listed_before : (String → String → Bool) → SessionRow → SessionRow → Bool
listed_before text_before a b =
    ltb b.updated_at a.updated_at || ((a.updated_at == b.updated_at) && text_before a.id b.id)

abbrev pub matches : SessionFilter → SessionRow → Bool
matches f row =
    matches_status f row.status
    && matches_kind f.kind row.kind
    && matches_parent f.parent_session_id row.parent_session_id

unfoldable pub list : (String → String → Bool) → SessionFilter → Sessions → List Session
list text_before f rows =
    map row_to_session (sort (listed_before text_before) (filter (matches f) rows))

abbrev pub is_of_identity : String → Session → Bool
is_of_identity identity_id session = elim session.identity_id [
  | none ↦ false
  | some id ↦ str_eq id identity_id
]

abbrev pub find_by_identity : (String → String → Bool) → String → Sessions → List Session
find_by_identity text_before identity_id rows = filter (is_of_identity identity_id) (
    list text_before
      (record { statuses = none; kind = none; parent_session_id = none; include_archived = false })
      rows)

-- `UPDATE sessions SET … WHERE id = ?`
abbrev pub update : String → (SessionRow → SessionRow) → Sessions → Sessions
update id f rows = map (λ row. if has_session_id id row then f row else row) rows

abbrev pub turned : ℕ → ℕ → SessionRow → SessionRow
turned occurred_at recorded_at row = record row {
  last_turn_at = later_of row.last_turn_at occurred_at;
  updated_at = if ltb row.updated_at recorded_at then recorded_at else row.updated_at;
}

unfoldable pub record_turn : String → ℕ → ℕ → Sessions → Sessions × Option SessionError
record_turn id occurred_at recorded_at rows =
    if any (has_session_id id) rows
    then (update id (turned occurred_at recorded_at) rows, none)
    else (rows, some (session_not_found id))

abbrev pub update_status :
    String → SessionStatus → ℕ → Sessions → Sessions × (SessionError ⊎ Option Session)
update_status id status now rows =
    let next = update id (λ row. record row { status = status; updated_at = now }) rows in
    if any (has_session_id id) rows
    then (next, inr (get id next))
    else (rows, inl (session_not_found id))

abbrev pub close : String → ℕ → Sessions → Sessions × (SessionError ⊎ Option Session)
close id = update_status id closed

abbrev pub reopen : String → ℕ → Sessions → Sessions × (SessionError ⊎ Option Session)
reopen id = update_status id opened

abbrev pub archive : String → ℕ → Sessions → Sessions × (SessionError ⊎ Option Session)
archive id = update_status id archived

abbrev pub stamp_identity :
    String → Option String → ℕ → Sessions → Sessions × (SessionError ⊎ Option Session)
stamp_identity id identity_id now rows =
    let next = update id (λ row. record row { identity_id = identity_id; updated_at = now }) rows in
    (next, inr (get id next))
