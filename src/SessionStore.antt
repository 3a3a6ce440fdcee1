-- ===== src/SessionStore.antt =====
-- packages/core/src/session/session-store.ts: SessionStore. The table is a list of rows in the order
-- of insertion; an INSERT that repeats an id or an address throws. Types in
-- packages/core/src/types/session/index.ts.
pub mod Methods
pub mod Ensure
pub mod Bootstrap
mod Tests
use phus.Prelude.Json.{Properties, reread, reread_properties}
use phus.Prelude.{
  ℕ, zero, suc, ◌+◌, ◌-◌, ◌*◌, ◌≤◌, ◌<◌, min, max, String, ◌≡◌, refl, sym, ap, ◌∙◌, subst, ◌≢◌, ◌↔◌,
  ◌⊎◌, inl, inr, Bool, true, false, not, ◌&&◌, ◌||◌, Option, none, some, eq_of_some, List, [], ◌∷◌,
  ◌++◌, map, append-nil, append_assoc, arith, eq_iff, eq_refl, ltb, leb, ◌==◌, if◌then◌else◌,
  ltb→lt, lt→ltb, le→ltb, not_ltb→le, not_leb→lt, leb→le, Bool-cases, Option-cases, length,
  get_elem?, take, drop, any, all, filter, find?, length-append, filter-append, length-filter-le,
  any-append, drop-eq-nil, take-eq_of_le, take-append-drop, length-drop, length-take,
  drop-append_le, drop-drop, All, All-append, All-filter,
}
use Prim.Native.Char.{code}
use Prim.Native.String.{◌++◌ as concat}
use text.Mathlib.Text.{◌==◌ as str_eq}
use phus.Prelude.Maps.{lookup, put}
use phus.Prelude.Sort.{sort}
use phus.Tape.{TapeRow, Tape, TapeEntry, turn}

pub data SessionKind : Type 0 where
  conversation scheduled subagent system : SessionKind

pub data SessionStatus : Type 0 where
  opened closed archived : SessionStatus

pub record SessionAddress : Type 0 where
  pub channel : String
  pub scope : String
  pub conversation_key : String
  pub thread_key : Option String

-- `legacy id source` is the metadata that the store writes itself.
pub data Metadata : Type 0 where
  empty : Metadata
  legacy : String → Option String → Metadata
  custom : Properties → Metadata

-- parseMetadata of JSON.stringify.
unfoldable pub reread_metadata : Metadata → Metadata
unfolding reread
reread_metadata (custom fields) = custom (reread_properties fields)
reread_metadata metadata = metadata

pub record Session : Type 0 where
  pub id : String
  pub kind : SessionKind
  pub status : SessionStatus
  pub origin : SessionAddress
  pub parent_session_id : Option String
  pub title : Option String
  pub tags : List String
  pub metadata : Metadata
  pub identity_id : Option String
  pub created_at : ℕ
  pub updated_at : ℕ
  pub last_turn_at : Option ℕ

pub record CreateSessionOptions : Type 0 where
  pub address : SessionAddress
  pub id : Option String
  pub kind : Option SessionKind
  pub status : Option SessionStatus
  pub parent_session_id : Option String
  pub title : Option String
  pub tags : List String
  pub metadata : Metadata
  pub created_at : Option ℕ
  pub updated_at : Option ℕ
  pub last_turn_at : Option ℕ

pub record SessionRow : Type 0 where
  pub id : String
  pub kind : SessionKind
  pub status : SessionStatus
  pub origin_channel : String
  pub origin_scope : String
  pub conversation_key : String
  pub thread_key : String
  pub parent_session_id : Option String
  pub title : Option String
  pub tags : List String
  pub metadata : Metadata
  pub identity_id : Option String
  pub created_at : ℕ
  pub updated_at : ℕ
  pub last_turn_at : Option ℕ

pub data SessionError : Type 0 where
  empty_id unique_constraint : SessionError
  session_not_found : String → SessionError

abbrev pub Sessions : Type 0
Sessions = List SessionRow

abbrev pub or_default {ℓ} : {A : Type ℓ} → Option A → A → A
or_default none default = default
or_default (some a) default = a

-- `threadKey ?? ""`
abbrev pub normalize_thread_key : Option String → String
normalize_thread_key key = or_default key ""

-- `text || undefined`
abbrev pub or_undefined : String → Option String
or_undefined text = if str_eq text "" then none else some text

abbrev pub or_none : Option String → Option String
or_none none = none
or_none (some text) = or_undefined text

-- The parts of a text before and behind its first colon.
abbrev pub split_colon : String → Option (String × String)
split_colon String.[] = none
split_colon (String.◌∷◌ c text) =
    let rest = split_colon text in
    if code c == 58
    then some ("", text)
    else elim rest [ none ↦ none | some parts ↦ some (String.◌∷◌ c parts.0, parts.1) ]

abbrev pub has_colon : String → Bool
has_colon String.[] = false
has_colon (String.◌∷◌ c text) = code c == 58 || has_colon text

abbrev pub is_legacy_channel : String → Bool
is_legacy_channel channel =
    any (str_eq channel)
      ("cli" ∷ "tui" ∷ "telegram" ∷ "slack" ∷ "websocket" ∷ "sse" ∷ "email" ∷ "whatsapp" ∷ [])

abbrev pub legacy_address : String → String → SessionAddress
legacy_address channel key = record {
  channel = channel;
  scope = "legacy";
  conversation_key = key;
  thread_key = none;
}

-- One colon, neither first nor last, behind a channel that is known.
abbrev pub legacy_of_parts : String → Option (String × String) → SessionKind × SessionAddress
legacy_of_parts id none = (conversation, legacy_address "legacy" id)
legacy_of_parts id (some parts) =
    if not (str_eq parts.0 "")
      && not (str_eq parts.1 "")
      && not (has_colon parts.1)
      && is_legacy_channel parts.0
    then (conversation, legacy_address parts.0 parts.1)
    else (conversation, legacy_address "legacy" id)

unfoldable pub legacy_session : String → SessionKind × SessionAddress
legacy_session id =
    if str_eq id "_system"
    then (system, legacy_address "system" "_system")
    else legacy_of_parts id (split_colon id)

abbrev pub is_empty_id : Option String → Bool
is_empty_id none = false
is_empty_id (some id) = str_eq id ""

abbrev pub has_session_id : String → SessionRow → Bool
has_session_id id row = str_eq row.id id

abbrev pub is_at : String → String → String → String → SessionRow → Bool
is_at channel scope key thread row =
    str_eq row.origin_channel channel
    && str_eq row.origin_scope scope
    && str_eq row.conversation_key key
    && str_eq row.thread_key thread

abbrev pub at_address : SessionAddress → SessionRow → Bool
at_address a = is_at a.channel a.scope a.conversation_key (normalize_thread_key a.thread_key)

abbrev pub row_to_session : SessionRow → Session
row_to_session row = record {
  id = row.id;
  kind = row.kind;
  status = row.status;
  origin = record {
    channel = row.origin_channel;
    scope = row.origin_scope;
    conversation_key = row.conversation_key;
    thread_key = or_undefined row.thread_key;
  };
  parent_session_id = or_none row.parent_session_id;
  title = row.title;
  tags = row.tags;
  metadata = row.metadata;
  identity_id = or_none row.identity_id;
  created_at = row.created_at;
  updated_at = row.updated_at;
  last_turn_at = row.last_turn_at;
}

abbrev pub map_session : Option SessionRow → Option Session
map_session none = none
map_session (some row) = some (row_to_session row)

unfoldable pub get : String → Sessions → Option Session
get id rows = map_session (find? (has_session_id id) rows)

unfoldable pub find_by_address : SessionAddress → Sessions → Option Session
find_by_address address rows = map_session (find? (at_address address) rows)

abbrev pub row_of_options : String → ℕ → CreateSessionOptions → SessionRow
row_of_options id now options = record {
  id = id;
  kind = or_default options.kind conversation;
  status = or_default options.status opened;
  origin_channel = options.address.channel;
  origin_scope = options.address.scope;
  conversation_key = options.address.conversation_key;
  thread_key = normalize_thread_key options.address.thread_key;
  parent_session_id = options.parent_session_id;
  title = options.title;
  tags = options.tags;
  metadata = reread_metadata options.metadata;
  identity_id = none;
  created_at = or_default options.created_at now;
  updated_at = or_default options.updated_at (or_default options.created_at now);
  last_turn_at = options.last_turn_at;
}

-- PRIMARY KEY and idx_sessions_address.
abbrev pub conflicts : SessionRow → Sessions → Bool
conflicts row rows =
    any (has_session_id row.id) rows
    || any (is_at row.origin_channel row.origin_scope row.conversation_key row.thread_key) rows

abbrev pub insert_row : SessionRow → Sessions → SessionError ⊎ Sessions
insert_row row rows = if conflicts row rows then inl unique_constraint else inr (rows ++ row ∷ [])

-- The session is read again after the insertion.
abbrev pub created :
    String → Sessions → SessionError ⊎ Sessions → Sessions × (SessionError ⊎ Option Session)
created id rows (inl err) = (rows, inl err)
created id rows (inr next) = (next, inr (get id next))

unfoldable pub create :
    String → ℕ → CreateSessionOptions → Sessions → Sessions × (SessionError ⊎ Option Session)
create uuid now options rows =
    let id = or_default options.id uuid in
    if is_empty_id options.id
    then (rows, inl empty_id)
    else created id rows (insert_row (row_of_options id now options) rows)
